-- ===== src/Store/Creation/Lookup.antt =====
-- CreateRun and then GetRun: the run is there, with its jobs.
use forgeci.Base.{
  All-append, Bool, Bool-cases, List, Option, String, [], any, append-nil, append_assoc, arith,
  false, in_option, inl, inr, map, ok, refl, select_first, select_where, some, str_eq_comm, subst,
  sym, true, ℕ, ◌++◌, ◌==◌, ◌∙◌, ◌∷◌, ◌≡◌,
}
use forgeci.Store.Commits.{get_run}
use forgeci.Store.Creation.{NewRun, create_run, insert_jobs, pending_job, queued_run}
use forgeci.Store.Jobs.Keys.{Apart, UniqueJobs}
use forgeci.Store.Tables.{Db, JobRow, SnapshotRow, is_job}

UniqueJobs-append :
    (rows : List JobRow) (j : JobRow)
    → UniqueJobs rows
    → any (is_job j.run_id j.job_name) rows ≡ false
    → UniqueJobs (rows ++ j ∷ [])
UniqueJobs-append [] j u e = (tt, tt)
UniqueJobs-append (k ∷ ks) j u e = (
  All-append (Apart k) ks (j ∷ []) u.0 (ground (arith, str_eq_comm j.job_name k.job_name), tt),
  UniqueJobs-append ks j u.1 (ground arith),
)

insert_jobs-appends :
    (run : ℕ) (given : List (String × Option String)) (rows : List JobRow) {out : List JobRow}
    → insert_jobs run given rows ≡ ok out
    → out ≡ rows ++ map (pending_job run) given
unfolding insert_jobs
insert_jobs-appends run [] rows {out} h =
    let same : out ≡ rows = ground arith in same ∙ sym (append-nil rows)
insert_jobs-appends run (g ∷ gs) rows {out} h = elim (Bool-cases (any (is_job run g.0) rows)) [
  | inl e ↦ absurd (ground arith)
  | inr e ↦
      let on : insert_jobs run gs (rows ++ pending_job run g ∷ []) ≡ ok out = ground arith in
      insert_jobs-appends run gs _ on
      ∙ append_assoc rows (pending_job run g ∷ []) (map (pending_job run) gs)
]

insert_jobs-UniqueJobs :
    (run : ℕ) (given : List (String × Option String)) (rows : List JobRow) {out : List JobRow}
    → UniqueJobs rows
    → insert_jobs run given rows ≡ ok out
    → UniqueJobs out
unfolding insert_jobs
insert_jobs-UniqueJobs run [] rows u h = subst UniqueJobs (ground arith) u
insert_jobs-UniqueJobs run (g ∷ gs) rows {out} u h = elim (Bool-cases (any (is_job run g.0) rows)) [
  | inl e ↦ absurd (ground arith)
  | inr e ↦
      let on : insert_jobs run gs (rows ++ pending_job run g ∷ []) ≡ ok out = ground arith in
      insert_jobs-UniqueJobs run gs (rows ++ pending_job run g ∷ [])
        (UniqueJobs-append rows (pending_job run g) u e) on
]

module _ {A : Type 0} (p : A → Bool) where
  pub select_where-append :
      (xs ys : List A) → select_where p (xs ++ ys) ≡ select_where p xs ++ select_where p ys
  unfolding select_where
  select_where-append [] ys = refl
  select_where-append (x ∷ xs) ys = ground (arith, select_where-append xs ys)

  select_first-append :
      (xs : List A) (x : A) → any p xs ≡ false → p x ≡ true → select_first p (xs ++ x ∷ []) ≡ some x
  unfolding select_first
  select_first-append [] x none_before h = ground arith
  select_first-append (y ∷ ys) x none_before h = ground (arith, select_first-append ys x)

pending_jobs-selected :
    (run : ℕ) (given : List (String × Option String))
    → select_where (λ j. j.run_id == run) (map (pending_job run) given)
      ≡ map (pending_job run) given
unfolding select_where
pending_jobs-selected run [] = refl
pending_jobs-selected run (g ∷ gs) = ground (arith, pending_jobs-selected run gs)

create_run-parts :
    (now : ℕ) (given : NewRun) (s : SnapshotRow) (db : Db) {db' : Db}
    → given.snapshot ≡ some s
    → create_run now given db ≡ ok db'
    → (insert_jobs given.id given.jobs db.jobs ≡ ok db'.jobs)
      × (db'.runs ≡ db.runs ++ queued_run now given s ∷ [])
      × (any (λ p. p.id == given.id) db.runs ≡ false)
unfolding create_run
create_run-parts now given s db e h = ground arith

-- If no job row belongs to the new run before, and CreateRun succeeds, then a source snapshot was
-- given, GetRun finds the run, queued, with the given fields and the digest of the snapshot, and its
-- jobs are the given ones in their order, each pending and without a lease; and if no two job rows had
-- one key, no two have one after.
pub create_run-get_run :
    (now : ℕ) (given : NewRun) (db : Db) {db' : Db}
    → select_where (λ j. j.run_id == given.id) db.jobs ≡ []
    → UniqueJobs db.jobs
    → create_run now given db ≡ ok db'
    → (s : SnapshotRow) × (given.snapshot ≡ some s)
      × (get_run given.id db' ≡ ok (queued_run now given s, map (pending_job given.id) given.jobs))
      × UniqueJobs db'.jobs
unfolding get_run
create_run-get_run now given db {db'} free u h = elim (in_option given.snapshot) [
  | inl e ↦ absurd (unfold create_run in ground arith)
  | inr (s, e) ↦
      let (jobs, runs, new) = create_run-parts now given s db e h in
      let found : select_first (λ p. p.id == given.id) db'.runs ≡ some (queued_run now given s) =
        rw runs (
          select_first-append (λ p. p.id == given.id) db.runs (queued_run now given s) new
            (ground arith)) in
      let listed : select_where (λ j. j.run_id == given.id) db'.jobs
          ≡ map (pending_job given.id) given.jobs =
        rw
          (
            insert_jobs-appends given.id given.jobs db.jobs jobs,
            select_where-append (λ (j : JobRow). j.run_id == given.id) db.jobs
                (map (pending_job given.id) given.jobs),
            free,
          )
          (pending_jobs-selected given.id given.jobs) in
      (s, e, rw (found, listed) refl, insert_jobs-UniqueJobs given.id given.jobs db.jobs u jobs)
]
