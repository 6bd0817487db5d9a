-- ===== src/Store/Steps.antt =====
-- A Step is one successful call of an operation of the store on runs, jobs, runners and artifacts,
-- with any arguments; Reach is any sequence of them. ReportJobEvent and UpdateJob, by which the local
-- executor and the older protocol write a status, are not among them.
use forgeci.Base.{
  Bool, List, Option, Result, String, [], ap, arith, ok, subst, sym, ℕ, ◌∙◌, ◌∷◌, ◌≡◌,
}
use forgeci.Config.{Pipeline}
use forgeci.Store.Artifacts.{expire_artifacts, set_artifact_expiry}
use forgeci.Store.Calls.{
  cancel_queued-AllEvolve, complete_job-AllEvolve, expire_job_leases-AllEvolve,
  heartbeat_job_leases-AllEvolve, lease_job-AllEvolve, recover_interrupted-AllEvolve,
  recover_remote_jobs-AllEvolve, request_cancel-AllEvolve,
}
use forgeci.Store.Commits.{
  Claimant, artifacts_of, commit_artifacts, insert_artifacts, job_of, put_artifacts, run_of,
}
use forgeci.Store.Jobs.{
  HeartbeatResult, complete_job, expire_job_leases, heartbeat_job_leases, recover_remote_jobs,
}
use forgeci.Store.Jobs.Evolution.{AllEvolve, AllEvolve-refl, AllEvolve-trans}
use forgeci.Store.Jobs.Keys.{AllEvolve-UniqueJobs, UniqueJobs}
use forgeci.Store.Leasing.{JobLease, lease_job}
use forgeci.Store.Ownership.{Ownership}
use forgeci.Store.RunLeases.{
  RunClaim, complete_run, expire_leases, lease_run, register_runner, renew_lease,
  update_runner_liveness,
}
use forgeci.Store.RunLeases.Effects.{
  claim_next_queued_run-jobs, complete_run-jobs, expire_leases-AllEvolve, finish_run-jobs,
  lease_run-jobs, register_runner-jobs, renew_lease-jobs, update_runner_liveness-jobs,
}
use forgeci.Store.Runs.{
  cancel_queued, claim_next_queued_run, finish_run, recover_interrupted, request_cancel,
}
use forgeci.Store.Tables.{ArtifactRow, Db, JobRow, JobStatus, RunStatus, RunnerRow}

put_artifacts-jobs :
    (existing items : List ArtifactRow) (db : Db) {db' : Db}
    → put_artifacts existing items db ≡ ok db'
    → db'.jobs ≡ db.jobs
unfolding put_artifacts insert_artifacts
put_artifacts-jobs [] items db h = ground arith
put_artifacts-jobs (a ∷ existing) items db h = ground arith

commit_artifacts-jobs :
    (parse : String → Result Pipeline) (now : ℕ) (c : Claimant) (items : List ArtifactRow) (db : Db)
    {db' : Db}
    → commit_artifacts parse now c items db ≡ ok db'
    → db'.jobs ≡ db.jobs
unfolding commit_artifacts
commit_artifacts-jobs parse now c items db {db'} h =
    ground (arith, put_artifacts-jobs (artifacts_of (run_of c) (job_of c) db) items db {db' = db'})

same-AllEvolve : (js ks : List JobRow) → ks ≡ js → AllEvolve js ks
same-AllEvolve js ks e = subst (AllEvolve js) (sym e) (AllEvolve-refl js)

module _ (parse : String → Result Pipeline) where
  pub data Step (db db' : Db) : Type 0 where
    leases :
        (clock now : ℕ) (skip : ℕ → String → Bool) (lease runner : ℕ) {r : Option JobLease}
        → lease_job parse clock now skip lease runner db ≡ ok (r, db')
        → Step db db'
    beats :
        (clock runner : ℕ) (held : List Ownership) {r : List HeartbeatResult}
        → heartbeat_job_leases clock runner held db ≡ ok (r, db')
        → Step db db'
    completes :
        (now retention : ℕ) (o : Ownership) (status : JobStatus) (message : Option String)
        → complete_job parse now retention o status message db ≡ ok db'
        → Step db db'
    expires :
        (visit : List ℕ → List ℕ) (clock now retention : ℕ)
        → expire_job_leases visit clock now retention db ≡ ok db'
        → Step db db'
    recovers :
        (visit : List ℕ → List ℕ) (now retention : ℕ)
        → recover_remote_jobs visit now retention db ≡ ok db'
        → Step db db'
    interrupts : (now retention : ℕ) → recover_interrupted now retention db ≡ db' → Step db db'
    cancels : (now run : ℕ) → cancel_queued now run db ≡ ok db' → Step db db'
    requests :
        (now retention run : ℕ) → (request_cancel now retention run db).1 ≡ ok db' → Step db db'
    claims_run :
        (now : ℕ) (skip : ℕ → Bool) {r : Option ℕ}
        → claim_next_queued_run now skip db ≡ ok (r, db')
        → Step db db'
    finishes :
        (now retention run : ℕ) (status : RunStatus) (message : Option String)
        → finish_run now retention run status message db ≡ ok db'
        → Step db db'
    leases_run :
        (now clock : ℕ) (skip : ℕ → Bool) (lease runner : ℕ) {r : Option ℕ}
        → lease_run now clock skip lease runner db ≡ ok (r, db')
        → Step db db'
    renews : (now until : ℕ) (c : RunClaim) → renew_lease now until c db ≡ ok db' → Step db db'
    ends_run :
        (now retention : ℕ) (c : RunClaim) (status : RunStatus) (message : Option String)
        → complete_run now retention c status message db ≡ ok db'
        → Step db db'
    expires_runs :
        (clock now retention : ℕ) → expire_leases clock now retention db ≡ db' → Step db db'
    registers : (now : ℕ) (given : RunnerRow) → register_runner now given db ≡ db' → Step db db'
    shows : (seen runner : ℕ) → update_runner_liveness seen runner db ≡ ok db' → Step db db'
    sets_expiry : (run when : ℕ) → set_artifact_expiry run when db ≡ db' → Step db db'
    commits :
        (now : ℕ) (c : Claimant) (items : List ArtifactRow)
        → commit_artifacts parse now c items db ≡ ok db'
        → Step db db'
    removes : (now : ℕ) → (expire_artifacts now db).1 ≡ db' → Step db db'

  pub data Reach (db : Db) : Db → Type 0 where
    here : Reach db db
    next : {e f : Db} → Reach db e → Step e f → Reach db f

  Step-AllEvolve : {db db' : Db} → UniqueJobs db.jobs → Step db db' → AllEvolve db.jobs db'.jobs
  Step-AllEvolve {db} u (leases clock now skip lease runner h) =
      lease_job-AllEvolve parse clock now skip lease runner db h
  Step-AllEvolve {db} u (beats clock runner held h) =
      heartbeat_job_leases-AllEvolve clock runner held db h
  Step-AllEvolve {db} u (completes now retention o status message h) =
      complete_job-AllEvolve parse now retention o status message db u h
  Step-AllEvolve {db} u (expires visit clock now retention h) =
      expire_job_leases-AllEvolve visit clock now retention db h
  Step-AllEvolve {db} u (recovers visit now retention h) =
      recover_remote_jobs-AllEvolve visit now retention db h
  Step-AllEvolve {db} u (interrupts now retention h) =
      subst (λ d. AllEvolve db.jobs d.jobs) h (recover_interrupted-AllEvolve now retention db)
  Step-AllEvolve {db} u (cancels now run h) = cancel_queued-AllEvolve now run db h
  Step-AllEvolve {db} u (requests now retention run h) =
      request_cancel-AllEvolve now retention run db h
  Step-AllEvolve {db} u (claims_run now skip h) =
      same-AllEvolve db.jobs _ (claim_next_queued_run-jobs now skip db h)
  Step-AllEvolve {db} u (finishes now retention run status message h) =
      same-AllEvolve db.jobs _ (finish_run-jobs now retention run status message db h)
  Step-AllEvolve {db} u (leases_run now clock skip lease runner h) =
      same-AllEvolve db.jobs _ (lease_run-jobs now clock skip lease runner db h)
  Step-AllEvolve {db} u (renews now until c h) =
      same-AllEvolve db.jobs _ (renew_lease-jobs now until c db h)
  Step-AllEvolve {db} u (ends_run now retention c status message h) =
      same-AllEvolve db.jobs _ (complete_run-jobs now retention c status message db h)
  Step-AllEvolve {db} u (expires_runs clock now retention h) =
      subst (λ d. AllEvolve db.jobs d.jobs) h (expire_leases-AllEvolve clock now retention db)
  Step-AllEvolve {db} u (registers now given h) =
      same-AllEvolve db.jobs _ (ap (λ d. d.jobs) (sym h) ∙ register_runner-jobs now given db)
  Step-AllEvolve {db} u (shows seen runner h) =
      same-AllEvolve db.jobs _ (update_runner_liveness-jobs seen runner db h)
  Step-AllEvolve {db} u (sets_expiry run when h) =
      same-AllEvolve db.jobs _ (unfold set_artifact_expiry in ap (λ d. d.jobs) (sym h))
  Step-AllEvolve {db} u (commits now c items h) =
      same-AllEvolve db.jobs _ (commit_artifacts-jobs parse now c items db h)
  Step-AllEvolve {db} u (removes now h) =
      same-AllEvolve db.jobs _ (unfold expire_artifacts in ap (λ d. d.jobs) (sym h))

  -- If no two job rows have one key, then after any calls the table has the same rows in the same
  -- places, each with its key: the lease generation of a row has not fallen, a row that had ended
  -- has the same status and generation, and a row that is running either got a higher generation or
  -- was running before, with the same lease, runner and generation. The keys are still distinct.
  pub Reach-AllEvolve :
      {db db' : Db}
      → UniqueJobs db.jobs
      → Reach db db'
      → AllEvolve db.jobs db'.jobs × UniqueJobs db'.jobs
  Reach-AllEvolve {db} u here = (AllEvolve-refl db.jobs, u)
  Reach-AllEvolve u (next r s) =
      let (before, unique) = Reach-AllEvolve u r in
      let after = Step-AllEvolve unique s in
      (AllEvolve-trans _ _ _ before after, AllEvolve-UniqueJobs _ _ after unique)
