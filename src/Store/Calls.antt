-- ===== src/Store/Calls.antt =====
-- Each operation of the store, when it succeeds, lets every job row evolve.
use forgeci.Base.{
  &&-true_left, &&-true_right, >>=-eq-ok, All-map, Bool, Bool-cases, List, Option, Option-cases,
  Result, String, [], arith, conflict, false, guard, guard-true, if◌then◌else◌, inl, inr, none,
  not_found, ok, ok-injective, or_fail, or_fail-some, rows_affected, select_first, select_where,
  some, subst, sym, true, update_where, ℕ, ◌&&◌, ◌+◌, ◌==◌, ◌∷◌, ◌≡◌,
}
use forgeci.Config.{Pipeline}
use forgeci.Store.Jobs.{
  HeartbeatResult, abort_job, beat, beat_all, complete_job, end_job, expire_job_leases,
  extend_lease, has_expired, heartbeat_job_leases, is_completion, may_complete, owned_pipeline,
  recover_remote_jobs, runs_of, settle_runs,
}
use forgeci.Store.Jobs.Evolution.{
  AllEvolve, AllEvolve-refl, AllEvolve-trans, AllEvolve-update, Evolves,
}
use forgeci.Store.Jobs.Keys.{AllEvolve-update_in, UniqueJobs, owned-IfKey, owns-is_job}
use forgeci.Store.Jobs.Operations.{
  abort_job-Evolves, finalize_run-jobs, lose_jobs-AllEvolve, settle_dependents-AllEvolve,
  settle_runs-AllEvolve,
}
use forgeci.Store.Leasing.{
  JobLease, is_online, is_pending_job, lease_found, lease_job, lease_to, start_lease, take_lease,
}
use forgeci.Store.Ownership.{Ownership, job_lease_ttl, owns}
use forgeci.Store.Runs.{
  cancel_job, cancel_queued, cancel_queued_job, is_queued_run, is_running_run, recover_interrupted,
  request_cancel,
}
use forgeci.Store.Tables.{Db, JobRow, JobStatus, RunRow, is_job, is_pending, is_running}

take_lease-AllEvolve :
    (now expires runner lease run : ℕ) (name : String) (db : Db)
    → AllEvolve db.jobs (take_lease now expires runner lease run name db).jobs
unfolding take_lease
take_lease-AllEvolve now expires runner lease run name db =
    AllEvolve-update (is_pending_job run name) (start_lease now expires runner lease) starts db.jobs
  where
    starts :
        (j : JobRow)
        → is_pending_job run name j ≡ true
        → Evolves j (start_lease now expires runner lease j)
    starts j h = unfold start_lease in ground arith

end_job-Evolves :
    (now : ℕ) (status : JobStatus) (message : Option String) (j : JobRow)
    → is_completion status ≡ true
    → is_running j.status ≡ true
    → Evolves j (end_job now status message j)
unfolding end_job
end_job-Evolves now status message j h r = ground arith

extend_lease-Evolves : (expires : ℕ) (j : JobRow) → Evolves j (extend_lease expires j)
unfolding extend_lease
extend_lease-Evolves expires j = ground arith

-- The row whose lease complete_job verified.
owned_pipeline-select :
    (now : ℕ) (o : Ownership) (db : Db) {yaml : String}
    → owned_pipeline now o db ≡ some yaml
    → (j : JobRow) × (select_first (owns now o) db.jobs ≡ some j)
unfolding owned_pipeline
owned_pipeline-select now o db h = elim (Option-cases (select_first (owns now o) db.jobs)) [
  | inl e ↦ ground arith
  | inr (j, e) ↦ (j, e)
]

module _ (parse : String → Result Pipeline) where
  lease_to-AllEvolve :
      (clock now runner lease : ℕ) (c : RunRow × JobRow) (db : Db) {r : Option JobLease} {db' : Db}
      → lease_to parse clock now runner lease c db ≡ ok (r, db')
      → AllEvolve db.jobs db'.jobs
  unfolding lease_to
  lease_to-AllEvolve clock now runner lease (p, j) db h =
      ground
        (arith, take_lease-AllEvolve now (clock + job_lease_ttl) runner lease p.id j.job_name db)

  lease_found-AllEvolve :
      (clock now runner lease : ℕ) (c : Option (RunRow × JobRow)) (db : Db) {r : Option JobLease}
      {db' : Db}
      → lease_found parse clock now runner lease c db ≡ ok (r, db')
      → AllEvolve db.jobs db'.jobs
  unfolding lease_found
  lease_found-AllEvolve clock now runner lease none db h = ground (arith, AllEvolve-refl db.jobs)
  lease_found-AllEvolve clock now runner lease (some c) db h =
      lease_to-AllEvolve clock now runner lease c db h

  lease_within-AllEvolve :
      (full : Bool) (clock now runner lease : ℕ) (c : Option (RunRow × JobRow)) (db : Db)
      {r : Option JobLease} {db' : Db}
      → (if full then ok (none, db) else lease_found parse clock now runner lease c db)
        ≡ ok (r, db')
      → AllEvolve db.jobs db'.jobs
  lease_within-AllEvolve true clock now runner lease c db h = ground (arith, AllEvolve-refl db.jobs)
  lease_within-AllEvolve false clock now runner lease c db h =
      lease_found-AllEvolve clock now runner lease c db h

  pub lease_job-AllEvolve :
      (clock now : ℕ) (skip : ℕ → String → Bool) (lease runner : ℕ) (db : Db) {r : Option JobLease}
      {db' : Db}
      → lease_job parse clock now skip lease runner db ≡ ok (r, db')
      → AllEvolve db.jobs db'.jobs
  unfolding lease_job
  lease_job-AllEvolve clock now skip lease runner db h =
      let (r, _, h1) =
        >>=-eq-ok (or_fail (select_first (λ r. r.id == runner) db.runners) not_found) _ h in
      let (_, _, h2) =
        >>=-eq-ok (guard ((r.protocol_version == 2) && is_online r.status) conflict) _ h1 in
      lease_within-AllEvolve _ clock now runner lease _ db h2

  -- A completion that succeeds ends the row and then settles the run.
  pub complete_job-split :
      (now retention : ℕ) (o : Ownership) (status : JobStatus) (message : Option String) (db : Db)
      {db' : Db}
      → UniqueJobs db.jobs
      → complete_job parse now retention o status message db ≡ ok db'
      → let ended =
          update_where (is_job o.run_id o.job_name) (end_job now status message) db.jobs in
        (is_completion status ≡ true)
        × ((j : JobRow) × (select_first (owns now o) db.jobs ≡ some j))
        × AllEvolve ended db'.jobs
  unfolding complete_job
  complete_job-split now retention o status message db {db'} u h =
      let (_, final, h1) = >>=-eq-ok (guard (is_completion status) conflict) _ h in
      let (yaml, found, h2) = >>=-eq-ok (or_fail (owned_pipeline now o db) conflict) _ h1 in
      let (allowed, _, h3) = >>=-eq-ok (may_complete parse status yaml o db) _ h2 in
      let (_, _, h4) = >>=-eq-ok (guard allowed conflict) _ h3 in
      let ended = update_where (is_job o.run_id o.job_name) (end_job now status message) db.jobs in
      (
        guard-true _ _ final,
        owned_pipeline-select now o db (or_fail-some _ _ found),
        subst (AllEvolve ended) (sym (finalize_run-jobs now retention o.run_id _ h4))
            (settle_dependents-AllEvolve status now o.run_id (record db { jobs = ended })),
      )

  pub complete_job-AllEvolve :
      (now retention : ℕ) (o : Ownership) (status : JobStatus) (message : Option String) (db : Db)
      {db' : Db}
      → UniqueJobs db.jobs
      → complete_job parse now retention o status message db ≡ ok db'
      → AllEvolve db.jobs db'.jobs
  complete_job-AllEvolve now retention o status message db {db'} u h =
      let (final, (j, sel), settled) = complete_job-split now retention o status message db u h in
      AllEvolve-trans db.jobs _ db'.jobs
        (AllEvolve-update_in _ _ db.jobs (
          All-map (λ k r key. end_job-Evolves now status message k final (r key)) db.jobs
            (owned-IfKey now o (λ k. is_running k.status ≡ true) (λ k e. (owns-is_job now o k e).1)
              db.jobs u sel)))
        settled

beat-AllEvolve : (clock : ℕ) (o : Ownership) (db : Db) → AllEvolve db.jobs (beat clock o db).1.jobs
unfolding beat
beat-AllEvolve clock o db = ground (
  arith,
  AllEvolve-refl db.jobs,
  AllEvolve-update (owns clock o) (extend_lease (clock + job_lease_ttl))
      (λ j _. extend_lease-Evolves (clock + job_lease_ttl) j) db.jobs,
)

beat_all-AllEvolve :
    (clock : ℕ) (os : List Ownership) (db : Db) → AllEvolve db.jobs (beat_all clock os db).1.jobs
unfolding beat_all
beat_all-AllEvolve clock [] db = AllEvolve-refl db.jobs
beat_all-AllEvolve clock (o ∷ os) db =
    AllEvolve-trans _ _ _ (beat-AllEvolve clock o db)
      (beat_all-AllEvolve clock os (beat clock o db).1)

pub heartbeat_job_leases-AllEvolve :
    (clock runner : ℕ) (leases : List Ownership) (db : Db) {r : List HeartbeatResult} {db' : Db}
    → heartbeat_job_leases clock runner leases db ≡ ok (r, db')
    → AllEvolve db.jobs db'.jobs
unfolding heartbeat_job_leases
heartbeat_job_leases-AllEvolve clock runner leases db {db'} h =
    let (_, _, h1) =
      >>=-eq-ok (guard (rows_affected (λ r. r.id == runner) db.runners == 1) not_found) _ h in
    subst (λ d. AllEvolve db.jobs d.1.jobs) (ok-injective h1) (beat_all-AllEvolve clock _ _)

-- An expiry that succeeds aborts the rows whose lease is over and then settles their runs.
pub expire_job_leases-split :
    (visit : List ℕ → List ℕ) (clock now retention : ℕ) (db : Db) {db' : Db}
    → expire_job_leases visit clock now retention db ≡ ok db'
    → AllEvolve
        (update_where (has_expired clock) (abort_job clock "job lease expired") db.jobs)
        db'.jobs
unfolding expire_job_leases
expire_job_leases-split visit clock now retention db {db'} h =
    let aborted = update_where (has_expired clock) (abort_job clock "job lease expired") db.jobs in
    let (d, settled, h1) =
      >>=-eq-ok
        (settle_runs now retention (visit (runs_of (select_where (has_expired clock) db.jobs)))
          (record db { jobs = aborted }))
        _ h in
    subst (λ e. AllEvolve aborted e.jobs) (ok-injective h1)
      (settle_runs-AllEvolve now retention _ _ settled)

pub expire_job_leases-AllEvolve :
    (visit : List ℕ → List ℕ) (clock now retention : ℕ) (db : Db) {db' : Db}
    → expire_job_leases visit clock now retention db ≡ ok db'
    → AllEvolve db.jobs db'.jobs
expire_job_leases-AllEvolve visit clock now retention db h =
    AllEvolve-trans _ _ _
      (AllEvolve-update _ _ (λ j e. abort_job-Evolves clock _ j (&&-true_left _ _ e)) db.jobs)
      (expire_job_leases-split visit clock now retention db h)

pub recover_remote_jobs-AllEvolve :
    (visit : List ℕ → List ℕ) (now retention : ℕ) (db : Db) {db' : Db}
    → recover_remote_jobs visit now retention db ≡ ok db'
    → AllEvolve db.jobs db'.jobs
unfolding recover_remote_jobs
recover_remote_jobs-AllEvolve visit now retention db {db'} h =
    AllEvolve-trans _ _ _ (lose_jobs-AllEvolve now retention _ _ _) (
      AllEvolve-trans _ _ _ (AllEvolve-update _ _ (λ j e. abort_job-Evolves now _ j e) _)
        (settle_runs-AllEvolve now retention _ _ h))

cancel_job-Evolves :
    (now : ℕ) (message : Option String) (j : JobRow)
    → is_pending j.status ≡ true
    → Evolves j (cancel_job now message j)
unfolding cancel_job
cancel_job-Evolves now message j h = ground arith

cancel_queued_job-Evolves :
    (now : ℕ) (j : JobRow) → is_pending j.status ≡ true → Evolves j (cancel_queued_job now j)
unfolding cancel_queued_job
cancel_queued_job-Evolves now j h = cancel_job-Evolves now j.error_message j h

pub cancel_queued-AllEvolve :
    (now run : ℕ) (db : Db) {db' : Db}
    → cancel_queued now run db ≡ ok db'
    → AllEvolve db.jobs db'.jobs
unfolding cancel_queued
cancel_queued-AllEvolve now run db h =
    let (_, _, h1) =
      >>=-eq-ok (guard (rows_affected (is_queued_run run) db.runs == 1) conflict) _ h in
    subst (λ d. AllEvolve db.jobs d.jobs) (ok-injective h1)
      (AllEvolve-update _ _ (λ j e. cancel_queued_job-Evolves now j (&&-true_right _ _ e)) db.jobs)

pub request_cancel-AllEvolve :
    (now retention run : ℕ) (db : Db) {db' : Db}
    → (request_cancel now retention run db).1 ≡ ok db'
    → AllEvolve db.jobs db'.jobs
unfolding request_cancel
request_cancel-AllEvolve now retention run db {db'} h =
    elim (Bool-cases (rows_affected (is_running_run run) db.runs == 0)) [
      | inl e ↦ ground arith
      | inr e ↦
          subst (AllEvolve db.jobs) (sym (finalize_run-jobs now retention run _ (rw e at h)))
            (AllEvolve-update _ _ (λ j e. cancel_job-Evolves now _ j (&&-true_right _ _ e)) db.jobs)
    ]

pub recover_interrupted-AllEvolve :
    (now retention : ℕ) (db : Db) → AllEvolve db.jobs (recover_interrupted now retention db).jobs
unfolding recover_interrupted
recover_interrupted-AllEvolve now retention db = lose_jobs-AllEvolve now retention _ _ _
