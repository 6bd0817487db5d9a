-- ===== src/Store/Jobs/Keys.antt =====
-- The primary key of job_runs: no two rows have the same run and job name. It makes the UPDATE of
-- CompleteJob, whose WHERE clause is the key alone, meet the leased row only.
use forgeci.Base.{
  All, Bool, Bool-cases, List, String, [], arith, false, if◌then◌else◌, inl, inr, select_first,
  some, str_eq_iff, subst, true, update_where, ℕ, ◌∷◌, ◌≡◌, ◌⊎◌,
}
use forgeci.Store.Jobs.Evolution.{AllEvolve, Evolves, Evolves-refl}
use forgeci.Store.Ownership.{Ownership, owns}
use forgeci.Store.Tables.{JobRow, is_job, is_running}

abbrev pub Apart : JobRow → JobRow → Type 0
Apart j k = is_job j.run_id j.job_name k ≡ false

abbrev pub UniqueJobs : List JobRow → Type 0
UniqueJobs [] = Unit
UniqueJobs (j ∷ js) = All (Apart j) js × UniqueJobs js

-- A row with the key of `j` is not apart from it.
pub is_job-eq :
    (run : ℕ) (name : String) (j : JobRow)
    → is_job run name j ≡ true
    → (j.run_id ≡ run) × (j.job_name ≡ name)
is_job-eq run name j h = ground (arith, str_eq_iff j.job_name name)

Apart-is_job :
    (run : ℕ) (name : String) (j k : JobRow)
    → is_job run name j ≡ true
    → Apart j k
    → is_job run name k ≡ false
Apart-is_job run name j k h a =
    let (e, f) = is_job-eq run name j h in
    subst (λ n. is_job run n k ≡ false) f (subst (λ r. is_job r j.job_name k ≡ false) e a)

Apart-All :
    (run : ℕ) (name : String) (j : JobRow) (ks : List JobRow)
    → is_job run name j ≡ true
    → All (Apart j) ks
    → All (λ k. is_job run name k ≡ false) ks
Apart-All run name j [] h a = tt
Apart-All run name j (k ∷ ks) h a = (Apart-is_job run name j k h a.0, Apart-All run name j ks h a.1)

-- What holds of the rows with one key.
abbrev pub IfKey {ℓ} : ℕ → String → (JobRow → Type ℓ) → JobRow → Type ℓ
IfKey run name P k = is_job run name k ≡ true → P k

no_key-IfKey {ℓ} :
    (run : ℕ) (name : String) (P : JobRow → Type ℓ) (ks : List JobRow)
    → All (λ k. is_job run name k ≡ false) ks
    → All (IfKey run name P) ks
no_key-IfKey run name P [] h = tt
no_key-IfKey run name P (k ∷ ks) h = ((λ e. cc), no_key-IfKey run name P ks h.1)

pub owns-is_job :
    (now : ℕ) (o : Ownership) (j : JobRow)
    → owns now o j ≡ true
    → (is_job o.run_id o.job_name j ≡ true) × (is_running j.status ≡ true)
unfolding owns
owns-is_job now o j h = ground arith

select-none_of_no_key :
    (now : ℕ) (o : Ownership) (ks : List JobRow) {j : JobRow}
    → All (λ k. is_job o.run_id o.job_name k ≡ false) ks
    → select_first (owns now o) ks ≡ some j
    → ⊥
unfolding select_first
select-none_of_no_key now o [] a h = cc
select-none_of_no_key now o (k ∷ ks) a h = elim (Bool-cases (owns now o k)) [
  | inl e ↦ ground (arith, owns-is_job now o k e)
  | inr e ↦ select-none_of_no_key now o ks a.1 (rw e at h)
]

-- Where the query finds a row that holds the claim, every row with its key holds it.
pub owned-IfKey {ℓ} :
    (now : ℕ) (o : Ownership) (P : JobRow → Type ℓ)
    → ((k : JobRow) → owns now o k ≡ true → P k)
    → (js : List JobRow) {j : JobRow} → UniqueJobs js
    → select_first (owns now o) js ≡ some j
    → All (IfKey o.run_id o.job_name P) js
unfolding select_first
owned-IfKey now o P f [] u h = tt
owned-IfKey now o P f (k ∷ ks) u h = elim (Bool-cases (owns now o k)) [
  | inl e ↦ ((λ _. f k e), no_key-IfKey _ _ P ks (Apart-All _ _ k ks (owns-is_job now o k e).0 u.0))
  | inr e ↦ (
    (λ key. absurd (select-none_of_no_key now o ks (Apart-All _ _ k ks key u.0) (rw e at h))),
    owned-IfKey now o P f ks u.1 (rw e at h),
  )
]

-- Evolution keeps the keys, so it keeps them distinct.
Evolves-Apart : {i j k l : JobRow} → Evolves i j → Evolves k l → Apart i k → Apart j l
Evolves-Apart a b h = rw (a.same_run, a.same_name, b.same_run, b.same_name) h

AllEvolve-Apart :
    {i j : JobRow} (ks ls : List JobRow)
    → Evolves i j
    → AllEvolve ks ls
    → All (Apart i) ks
    → All (Apart j) ls
AllEvolve-Apart [] [] e b h = tt
AllEvolve-Apart [] (l ∷ ls) e b h = elim b [ ]
AllEvolve-Apart (k ∷ ks) [] e b h = elim b [ ]
AllEvolve-Apart (k ∷ ks) (l ∷ ls) e b h = (Evolves-Apart e b.0 h.0, AllEvolve-Apart ks ls e b.1 h.1)

pub AllEvolve-UniqueJobs : (js ks : List JobRow) → AllEvolve js ks → UniqueJobs js → UniqueJobs ks
AllEvolve-UniqueJobs [] [] b u = tt
AllEvolve-UniqueJobs [] (k ∷ ks) b u = elim b [ ]
AllEvolve-UniqueJobs (j ∷ js) [] b u = elim b [ ]
AllEvolve-UniqueJobs (j ∷ js) (k ∷ ks) b u =
    (AllEvolve-Apart js ks b.0 b.1 u.0, AllEvolve-UniqueJobs js ks b.1 u.1)

-- The evolution of an UPDATE whose new row evolves from each row of the table that it meets.
pub AllEvolve-update_in :
    (p : JobRow → Bool) (f : JobRow → JobRow) (js : List JobRow)
    → All (λ j. p j ≡ true → Evolves j (f j)) js
    → AllEvolve js (update_where p f js)
unfolding update_where
AllEvolve-update_in p f [] h = tt
AllEvolve-update_in p f (j ∷ js) h = (one (Bool-cases (p j)), AllEvolve-update_in p f js h.1)
  where
    one : (p j ≡ true) ⊎ (p j ≡ false) → Evolves j (if p j then f j else j)
    one (inl e) = rw e (h.0 e)
    one (inr e) = rw e (Evolves-refl j)

-- What an UPDATE makes true of every row.
pub All-update {ℓ} :
    (p : JobRow → Bool) (f : JobRow → JobRow) (Q : JobRow → Type ℓ) (js : List JobRow)
    → All (λ j. (p j ≡ true → Q (f j)) × (p j ≡ false → Q j)) js
    → All Q (update_where p f js)
unfolding update_where
All-update p f Q [] h = tt
All-update p f Q (j ∷ js) h = (one (Bool-cases (p j)), All-update p f Q js h.1)
  where
    one : (p j ≡ true) ⊎ (p j ≡ false) → Q (if p j then f j else j)
    one (inl e) = rw e (h.0.0 e)
    one (inr e) = rw e (h.0.1 e)
