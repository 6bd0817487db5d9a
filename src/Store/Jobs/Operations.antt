-- ===== src/Store/Jobs/Operations.antt =====
-- The steps that the operations on jobs share let each job row evolve.
use forgeci.Base.{
  &&-true_right, >>=-eq-ok, Bool-cases, List, String, [], arith, inl, inr, ok, ok-injective,
  rows_affected, subst, suc, true, zero, ℕ, ◌==◌, ◌∷◌, ◌≡◌,
}
use forgeci.Store.Jobs.{
  abort_job, lose_job, lose_jobs, lose_jobs_of, settle_dependents, settle_runs,
}
use forgeci.Store.Jobs.Evolution.{
  AllEvolve, AllEvolve-refl, AllEvolve-trans, AllEvolve-update, Evolves,
}
use forgeci.Store.Settle.{
  block_dependents, block_loop, block_round, expire_artifacts_of, finalize_idle, finalize_run,
  is_blockable, mark_blocked, settle,
}
use forgeci.Store.Tables.{Db, JobRow, JobStatus, is_passed, is_running, is_unfinished}

block_round-AllEvolve : (now run : ℕ) (db : Db) → AllEvolve db.jobs (block_round now run db).jobs
unfolding block_round
block_round-AllEvolve now run db = AllEvolve-update _ _ (blocks now run db) db.jobs
  where
    blocks :
        (now run : ℕ) (db : Db) (j : JobRow)
        → is_blockable db run j ≡ true
        → Evolves j (mark_blocked now j)
    blocks now run db j h = unfold is_blockable mark_blocked in ground arith

block_loop-AllEvolve :
    (fuel now run : ℕ) (db : Db) → AllEvolve db.jobs (block_loop fuel now run db).jobs
unfolding block_loop
block_loop-AllEvolve zero now run db = AllEvolve-refl db.jobs
block_loop-AllEvolve (suc fuel) now run db =
    elim (Bool-cases (rows_affected (is_blockable db run) db.jobs == 0)) [
      | inl e ↦ rw e (block_round-AllEvolve now run db)
      | inr e ↦ rw e (
          AllEvolve-trans _ _ _ (block_round-AllEvolve now run db)
            (block_loop-AllEvolve fuel now run (block_round now run db)))
    ]

pub block_dependents-AllEvolve :
    (now run : ℕ) (db : Db) → AllEvolve db.jobs (block_dependents now run db).jobs
unfolding block_dependents
block_dependents-AllEvolve now run db = block_loop-AllEvolve _ now run db

-- finalizeRun leaves the jobs alone.
pub finalize_run-jobs :
    (now retention run : ℕ) (db : Db) {db' : Db}
    → finalize_run now retention run db ≡ ok db'
    → db'.jobs ≡ db.jobs
unfolding finalize_run finalize_idle settle expire_artifacts_of
finalize_run-jobs now retention run db h = ground arith

pub settle_dependents-AllEvolve :
    (status : JobStatus) (now run : ℕ) (db : Db)
    → AllEvolve db.jobs (settle_dependents status now run db).jobs
unfolding settle_dependents
settle_dependents-AllEvolve status now run db = elim (Bool-cases (is_passed status)) [
  | inl e ↦ rw e (AllEvolve-refl db.jobs)
  | inr e ↦ rw e (block_dependents-AllEvolve now run db)
]

pub settle_runs-AllEvolve :
    (now retention : ℕ) (runs : List ℕ) (db : Db) {db' : Db}
    → settle_runs now retention runs db ≡ ok db'
    → AllEvolve db.jobs db'.jobs
unfolding settle_runs
settle_runs-AllEvolve now retention [] db h =
    subst (λ d. AllEvolve db.jobs d.jobs) (ok-injective h) (AllEvolve-refl db.jobs)
settle_runs-AllEvolve now retention (run ∷ runs) db {db'} h =
    let (d, done, rest) =
      >>=-eq-ok (finalize_run now retention run (block_dependents now run db)) _ h in
    AllEvolve-trans db.jobs (block_dependents now run db).jobs db'.jobs
      (block_dependents-AllEvolve now run db)
      (subst (λ js. AllEvolve js db'.jobs) (finalize_run-jobs now retention run _ done)
        (settle_runs-AllEvolve now retention runs d rest))

-- A job that is running may end, and one that is pending may be aborted.
pub abort_job-Evolves :
    (time : ℕ) (message : String) (j : JobRow)
    → is_running j.status ≡ true
    → Evolves j (abort_job time message j)
unfolding abort_job
abort_job-Evolves time message j h = ground arith

lose_job-Evolves :
    (now : ℕ) (message : String) (j : JobRow)
    → is_unfinished j.status ≡ true
    → Evolves j (lose_job now message j)
unfolding lose_job
lose_job-Evolves now message j h = ground arith

pub lose_jobs-AllEvolve :
    (now retention : ℕ) (message : String) (runs : List ℕ) (db : Db)
    → AllEvolve db.jobs (lose_jobs now retention message runs db).jobs
unfolding lose_jobs lose_jobs_of expire_artifacts_of
lose_jobs-AllEvolve now retention message [] db = AllEvolve-refl db.jobs
lose_jobs-AllEvolve now retention message (run ∷ runs) db =
    AllEvolve-trans _ _ _
      (AllEvolve-update _ _ (λ j h. lose_job-Evolves now message j (&&-true_right _ _ h)) db.jobs)
      (lose_jobs-AllEvolve now retention message runs (lose_jobs_of now retention message run db))
