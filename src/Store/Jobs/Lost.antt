-- ===== src/Store/Jobs/Lost.antt =====
-- A claim on a job that is lost: no operation accepts it, and no step gives it back.
use forgeci.Base.{
  All, Bool-cases, List, Option, Result, String, [], arith, conflict, count_where, err, false,
  false≢true, inl, inr, none, opt_is, refl, rows_affected, select_first, some, sym, true, ℕ, ◌∙◌,
  ◌∷◌, ◌≡◌, ◌≤◌, ◌⊎◌,
}
use forgeci.Config.{Pipeline}
use forgeci.Store.Jobs.{beat, complete_job, owned_pipeline}
use forgeci.Store.Jobs.Evolution.{AllEvolve, Evolves}
use forgeci.Store.Ownership.{Ownership, has_lease, owns}
use forgeci.Store.Tables.{Db, JobRow, JobStatus, is_job, is_running}

-- No row holds the claim, and the job's generation is not below the claim's.
abbrev pub IsLostOn : Ownership → JobRow → Type 0
IsLostOn o j =
    is_job o.run_id o.job_name j ≡ true
    → (o.generation ≤ j.lease_generation) × (has_lease o j ≡ false)

abbrev pub IsLost : Ownership → Db → Type 0
IsLost o db = All (IsLostOn o) db.jobs

opt_is-eq : (a : Option ℕ) (n : ℕ) → opt_is a n ≡ true → a ≡ some n
opt_is-eq none n h = cc
opt_is-eq (some m) n h = ground arith

is_job-back :
    (o : Ownership) (j k : JobRow)
    → Evolves j k
    → is_job o.run_id o.job_name k ≡ true
    → is_job o.run_id o.job_name j ≡ true
is_job-back o j k e h = rw (← e.same_run, ← e.same_name) h

pub has_lease-parts :
    (o : Ownership) (k : JobRow)
    → has_lease o k ≡ true
    → (is_job o.run_id o.job_name k ≡ true)
      × (opt_is k.runner_id o.runner_id ≡ true)
      × (opt_is k.lease_id o.lease_id ≡ true)
      × (k.lease_generation ≡ o.generation)
      × (is_running k.status ≡ true)
has_lease-parts o k h = ground arith

has_lease-back :
    (o : Ownership) (j k : JobRow)
    → Evolves j k
    → o.generation ≤ j.lease_generation
    → has_lease o k ≡ true
    → has_lease o j ≡ true
has_lease-back o j k e g h =
    let (key, runner, lease, gen, running) = has_lease-parts o k h in
    elim (e.fresh running) [
      | inl up ↦ absurd (omega arith)
      | inr (r, l, n, same) ↦
          rw (is_job-back o j k e key, ← n, runner, ← l, lease, ← same, gen, r) (ground arith)
    ]

Evolves-IsLostOn : (o : Ownership) (j k : JobRow) → Evolves j k → IsLostOn o j → IsLostOn o k
Evolves-IsLostOn o j k e lost key =
    let (g, free) = lost (is_job-back o j k e key) in
    (omega arith, still (Bool-cases (has_lease o k)) g free)
  where
    still :
        (has_lease o k ≡ true) ⊎ (has_lease o k ≡ false)
        → o.generation ≤ j.lease_generation
        → has_lease o j ≡ false
        → has_lease o k ≡ false
    still (inl h) g free = absurd (false≢true (sym free ∙ has_lease-back o j k e g h))
    still (inr h) g free = h

pub AllEvolve-IsLost :
    (o : Ownership) (js ks : List JobRow)
    → AllEvolve js ks
    → All (IsLostOn o) js
    → All (IsLostOn o) ks
AllEvolve-IsLost o [] [] e h = tt
AllEvolve-IsLost o [] (k ∷ ks) e h = elim e [ ]
AllEvolve-IsLost o (j ∷ js) [] e h = elim e [ ]
AllEvolve-IsLost o (j ∷ js) (k ∷ ks) e h =
    (Evolves-IsLostOn o j k e.0 h.0, AllEvolve-IsLost o js ks e.1 h.1)

-- A claim that no row holds is refused.
owns-none :
    (now : ℕ) (o : Ownership) (js : List JobRow)
    → All (IsLostOn o) js
    → select_first (owns now o) js ≡ none
unfolding select_first owns
owns-none now o [] h = refl
owns-none now o (j ∷ js) h = elim (Bool-cases (is_job o.run_id o.job_name j)) [
  | inl e ↦ rw ((h.0 e).1) (owns-none now o js h.1)
  | inr e ↦ rw e (owns-none now o js h.1)
]

pub owns-count :
    (now : ℕ) (o : Ownership) (js : List JobRow)
    → All (IsLostOn o) js
    → rows_affected (owns now o) js ≡ 0
unfolding count_where owns
owns-count now o [] h = refl
owns-count now o (j ∷ js) h = elim (Bool-cases (is_job o.run_id o.job_name j)) [
  | inl e ↦ rw ((h.0 e).1) (rw (owns-count now o js h.1))
  | inr e ↦ rw e (rw (owns-count now o js h.1))
]

pub IsLost-complete_job :
    (parse : String → Result Pipeline) (now retention : ℕ) (o : Ownership) (status : JobStatus)
    (message : Option String) (db : Db)
    → IsLost o db
    → complete_job parse now retention o status message db ≡ err conflict
unfolding complete_job owned_pipeline
IsLost-complete_job parse now retention o status message db h =
    ground (arith, owns-none now o db.jobs h)

pub IsLost-beat :
    (clock : ℕ) (o : Ownership) (db : Db)
    → IsLost o db
    → ((beat clock o db).0.valid ≡ false) × ((beat clock o db).1 ≡ db)
unfolding beat
IsLost-beat clock o db h = ground (arith, owns-count clock o db.jobs h)
