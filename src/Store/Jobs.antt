-- ===== src/Store/Jobs.antt =====
-- internal/store/postgres/jobs.go: the operations by which runners complete jobs and keep their
-- leases alive, and by which the server takes lost leases back. `now` is now() in the transaction,
-- `clock` the time that the Go code reads, `retention` the artifact retention, `parse` is
-- config.ParseBytes, and `visit` is the order in which Go walks the map of the runs that a statement
-- has touched.
pub mod Evolution
pub mod Operations
pub mod Keys
pub mod Lost
pub mod Fencing
use forgeci.Base.{
  ℕ, String, ◌+◌, ◌==◌, ltb, leb, if◌then◌else◌, Bool, true, false, not, ◌&&◌, ◌||◌, Option, none,
  some, List, [], ◌∷◌, ◌++◌, map, is_some, opt_is, opt_until, or_else, str_eq, str_lt, update_where,
  count_where, rows_affected, select_first, select_where, select_least, Result, ok, err, ◌>>=◌,
  ◌>>◌, guard, or_fail, not_found, conflict, no_rows, refused,
}
use forgeci.Config.{Pipeline, find_job}
use forgeci.Config
use forgeci.Store.Tables.{
  Db, RunRow, JobRow, RunnerRow, SnapshotRow, RunStatus, JobStatus, RunnerStatus, is_queued,
  is_executing, is_open, is_pending, is_running, is_passed, is_unfinished, is_job,
}
use forgeci.Store.Settle.{has_upstream, block_dependents, finalize_run, expire_artifacts_of, in_run}
use forgeci.Store.Ownership.{job_lease_ttl, Ownership, owns, artifact_set_committed}

abbrev pub is_completion : JobStatus → Bool
is_completion JobStatus.passed = true
is_completion JobStatus.failed = true
is_completion JobStatus.error = true
is_completion JobStatus.canceled = true
is_completion _ = false

unfoldable pub end_job : ℕ → JobStatus → Option String → JobRow → JobRow
end_job now status message j = record j {
  status = status;
  finished_at = some now;
  error_message = message;
  lease_id = none;
  lease_expires_at = none;
}

-- The query that verifies the lease and reads the pipeline: the job's run must have a row.
unfoldable pub owned_pipeline : ℕ → Ownership → Db → Option String
owned_pipeline now o db = elim (select_first (owns now o) db.jobs) [
  | none ↦ none
  | some j ↦ elim (select_first (λ p. p.id == j.run_id) db.runs) [
    | none ↦ none
    | some p ↦ some p.pipeline_yaml
  ]
]

unfoldable pub settle_dependents : JobStatus → ℕ → ℕ → Db → Db
settle_dependents status now run db = if is_passed status then db else block_dependents now run db

module _ (parse : String → Result Pipeline) where
  -- The artifacts are looked at for a job that passed.
  unfoldable pub may_complete : JobStatus → String → Ownership → Db → Result Bool
  may_complete status yaml o db =
      if is_passed status then artifact_set_committed parse yaml o.run_id o.job_name db else ok true

  unfoldable pub complete_job :
      (now retention : ℕ) → Ownership → JobStatus → Option String → Db → Result Db
  complete_job now retention o status message db = do
    guard (is_completion status) conflict
    yaml ← or_fail (owned_pipeline now o db) conflict
    allowed ← may_complete status yaml o db
    guard allowed conflict
    let ended = update_where (is_job o.run_id o.job_name) (end_job now status message) db.jobs
    finalize_run now retention o.run_id
        (settle_dependents status now o.run_id (record db { jobs = ended }))

pub record HeartbeatResult : Type 0 where
  pub lease : Ownership
  pub valid : Bool
  pub cancel_requested : Bool
  pub expires_at : Option ℕ

unfoldable pub extend_lease : ℕ → JobRow → JobRow
extend_lease expires j = record j { lease_expires_at = some expires }

-- The joined run decides whether the row is updated, and whether the runner is told to cancel.
unfoldable pub beat : ℕ → Ownership → Db → HeartbeatResult × Db
beat clock o db = elim (select_first (λ p. p.id == o.run_id) db.runs) [
  | none ↦ (record { lease = o; valid = false; cancel_requested = false; expires_at = none }, db)
  | some p ↦
      if rows_affected (owns clock o) db.jobs == 0
      then (record { lease = o; valid = false; cancel_requested = false; expires_at = none }, db)
      else (
        record {
          lease = o;
          valid = true;
          cancel_requested = is_some p.cancel_requested_at;
          expires_at = some (clock + job_lease_ttl);
        },
        record db {
          jobs = update_where (owns clock o) (extend_lease (clock + job_lease_ttl)) db.jobs;
        },
      )
]

unfoldable pub beat_all : ℕ → List Ownership → Db → List HeartbeatResult × Db
beat_all clock [] db = ([], db)
beat_all clock (o ∷ os) db =
    let (r, db') = beat clock o db in let (rs, db'') = beat_all clock os db' in (r ∷ rs, db'')

unfoldable pub see_runner : ℕ → RunnerRow → RunnerRow
see_runner clock r = record r { last_seen_at = clock; status = RunnerStatus.online }

-- The runner that sends the heartbeat is the one whose leases are looked for.
unfoldable pub shown_by : ℕ → Ownership → Ownership
shown_by runner o = record o { runner_id = runner }

unfoldable pub heartbeat_job_leases :
    ℕ → ℕ → List Ownership → Db → Result (List HeartbeatResult × Db)
heartbeat_job_leases clock runner leases db = do
  guard (rows_affected (λ r. r.id == runner) db.runners == 1) not_found
  let seen = update_where (λ r. r.id == runner) (see_runner clock) db.runners
  ok (beat_all clock (map (shown_by runner) leases) (record db { runners = seen }))

-- `UPDATE job_runs SET status='ABORTED',... lease_id=NULL,lease_expires_at=NULL`.
unfoldable pub abort_job : ℕ → String → JobRow → JobRow
abort_job time message j = record j {
  status = JobStatus.aborted;
  finished_at = some time;
  error_message = some message;
  lease_id = none;
  lease_expires_at = none;
}

unfoldable pub contains : ℕ → List ℕ → Bool
contains n [] = false
contains n (m ∷ ms) = (m == n) || contains n ms

-- The keys of the map that collects the runs of the rows that an UPDATE returns.
unfoldable pub runs_of : List JobRow → List ℕ
runs_of [] = []
runs_of (j ∷ js) = let rest = runs_of js in if contains j.run_id rest then rest else j.run_id ∷ rest

unfoldable pub settle_runs : ℕ → ℕ → List ℕ → Db → Result Db
settle_runs now retention [] db = ok db
settle_runs now retention (run ∷ runs) db = do
  db' ← finalize_run now retention run (block_dependents now run db)
  settle_runs now retention runs db'

abbrev pub has_expired : ℕ → JobRow → Bool
has_expired clock j = is_running j.status && opt_until j.lease_expires_at clock

unfoldable pub lose_runner : RunnerRow → RunnerRow
lose_runner r = record r { status = RunnerStatus.offline }

unfoldable pub expire_job_leases : (List ℕ → List ℕ) → (clock now retention : ℕ) → Db → Result Db
expire_job_leases visit clock now retention db = do
  let lost = select_where (has_expired clock) db.jobs
  let aborted = update_where (has_expired clock) (abort_job clock "job lease expired") db.jobs
  db' ← settle_runs now retention (visit (runs_of lost)) (record db { jobs = aborted })
  ok (record db' {
    runners =
        update_where (λ r. ltb (r.last_seen_at + job_lease_ttl) clock) lose_runner db'.runners;
  })

-- The rows of a run that an UPDATE aborts.
abbrev pub is_legacy : RunRow → Bool
is_legacy p = is_executing p.status && is_some p.runner_id

unfoldable pub abort_run : ℕ → String → RunRow → RunRow
abort_run now message p = record p {
  status = RunStatus.aborted;
  finished_at = some now;
  error_message = some message;
  runner_id = none;
  lease_id = none;
  lease_expires_at = none;
  effective_parallel = none;
}

-- `UPDATE job_runs SET status='ABORTED',finished_at=now(),error_message=...`, with the lease kept. The
-- constraint job_lease_consistent of migrations/006_job_leases.sql, which is not modelled, refuses
-- this for a row that has a lease.
unfoldable pub lose_job : ℕ → String → JobRow → JobRow
lose_job now message j = record j {
  status = JobStatus.aborted;
  finished_at = some now;
  error_message = some message;
}

unfoldable pub lose_jobs_of : (now retention : ℕ) → String → ℕ → Db → Db
lose_jobs_of now retention message run db =
    expire_artifacts_of retention run
      (record db { jobs = update_where (in_run run is_unfinished) (lose_job now message) db.jobs })

unfoldable pub lose_jobs : (now retention : ℕ) → String → List ℕ → Db → Db
lose_jobs now retention message [] db = db
lose_jobs now retention message (run ∷ runs) db =
    lose_jobs now retention message runs (lose_jobs_of now retention message run db)

unfoldable pub recover_remote_jobs : (List ℕ → List ℕ) → (now retention : ℕ) → Db → Result Db
recover_remote_jobs visit now retention db =
    let legacy = map (λ p. p.id) (select_where is_legacy db.runs) in
    let ended =
      update_where is_legacy (abort_run now "control plane restarted during legacy run lease")
        db.runs in
    let released =
      lose_jobs now retention "legacy run lease ownership lost" legacy
        (record db { runs = ended }) in
    settle_runs now retention
      (visit (runs_of (select_where (λ j. is_running j.status) released.jobs)))
      (record released {
        jobs =
            update_where (λ j. is_running j.status)
              (abort_job now "control plane restarted during job execution") released.jobs;
      })
