-- ===== src/Store/RunLeases.antt =====
-- internal/store/postgres/postgres.go: RegisterRunner, UpdateRunnerLiveness, and the lease of a whole
-- run to one runner: LeaseRun, RenewLease, ReportJobEvent, CompleteRun and ExpireLeases. `now` is
-- now() in the transaction, `clock` the time of the caller.
pub mod Fencing
pub mod Events
pub mod Overdue
pub mod Effects
mod Samples
use forgeci.Base.{
  Bool, List, Option, Result, String, [], any, conflict, false, guard, if◌then◌else◌, is_some, ltb,
  map, none, not, not_found, ok, opt_after, opt_before, opt_is, or_else, or_fail, rows_affected,
  select_first, select_least, select_where, some, true, update_where, ℕ, ◌&&◌, ◌++◌, ◌+◌, ◌==◌,
  ◌>>=◌, ◌>>◌, ◌||◌, ◌∷◌,
}
use forgeci.Config.{Pipeline}
use forgeci.LogQueue.{new}
use forgeci.Store.Jobs.{abort_run, lose_jobs_of, see_runner}
use forgeci.Store.Ownership.{job_lease_ttl}
use forgeci.Store.Runs.{artifacts_allow, is_queued_run, is_running_run, runs_before}
use forgeci.Store.Settle.{expire_artifacts_of}
use forgeci.Store.Tables.{
  Db, JobRow, JobStatus, RunRow, RunStatus, RunnerRow, RunnerStatus, is_executing, is_job,
  is_queued, is_running,
}

-- The insert, and the update on a conflict of the id: the columns that decide nothing are left out.
unfoldable pub refresh_runner : ℕ → RunnerRow → RunnerRow → RunnerRow
refresh_runner now given r = record r {
  protocol_version = given.protocol_version;
  docker_available = given.docker_available;
  max_parallel = given.max_parallel;
  status = RunnerStatus.online;
  last_seen_at = now;
}

abbrev pub is_runner : ℕ → RunnerRow → Bool
is_runner id r = r.id == id

unfoldable pub register_runner : ℕ → RunnerRow → Db → Db
register_runner now given db =
    if any (is_runner given.id) db.runners
    then record db {
      runners = update_where (is_runner given.id) (refresh_runner now given) db.runners;
    }
    else record db {
      runners =
          db.runners
          ++ record given {
            status = RunnerStatus.online;
            last_seen_at = now;
            current_run_id = none;
          }
            ∷ [];
    }

unfoldable pub update_runner_liveness : (seen runner : ℕ) → Db → Result Db
update_runner_liveness seen runner db = do
  guard (rows_affected (is_runner runner) db.runners == 1) not_found
  ok (record db { runners = update_where (is_runner runner) (see_runner seen) db.runners })

-- A run without Docker jobs goes to any runner.
unfoldable pub is_compatible : Bool → Db → RunRow → Bool
is_compatible docker db p = docker || not (any (λ j. (j.run_id == p.id) && is_some j.image) db.jobs)

unfoldable pub assign_run : (now expires runner lease capacity : ℕ) → RunRow → RunRow
assign_run now expires runner lease capacity p = record p {
  status = RunStatus.running;
  started_at = some now;
  runner_id = some runner;
  lease_id = some lease;
  lease_generation = p.lease_generation + 1;
  lease_expires_at = some expires;
  effective_parallel = some (if ltb capacity p.max_parallel then capacity else p.max_parallel);
}

unfoldable pub occupy_runner : ℕ → RunnerRow → RunnerRow
occupy_runner run r = record r { current_run_id = some run }

unfoldable pub run_to :
    (now clock lease runner capacity : ℕ) → Option RunRow → Db → Result (Option ℕ × Db)
run_to now clock lease runner capacity none db = ok (none, db)
run_to now clock lease runner capacity (some p) db = do
  guard (rows_affected (is_queued_run p.id) db.runs == 1) conflict
  ok (
    some p.id,
    record db {
      runs =
          update_where (is_queued_run p.id)
            (assign_run now (clock + job_lease_ttl) runner lease capacity) db.runs;
      runners = update_where (is_runner runner) (occupy_runner p.id) db.runners;
    },
  )

-- LeaseRun: `skip` says which runs other transactions hold locked, `lease` is the new lease id.
unfoldable pub lease_run :
    (now clock : ℕ) → (ℕ → Bool) → (lease runner : ℕ) → Db → Result (Option ℕ × Db)
lease_run now clock skip lease runner db = do
  r ← or_fail (select_first (is_runner runner) db.runners) not_found
  if is_some r.current_run_id
      then ok (none, db)
      else run_to now clock lease runner r.max_parallel
          (select_least runs_before (
            select_where
              (λ p.
                is_queued p.status && (is_compatible r.docker_available db p && not (skip p.id)))
              db.runs))
          db

-- What a runner shows of its lease of a run.
pub record RunClaim : Type 0 where
  pub run_id : ℕ
  pub runner_id : ℕ
  pub lease_id : ℕ
  pub generation : ℕ

unfoldable pub holds : ℕ → RunClaim → RunRow → Bool
holds now c p =
    (is_running_run c.run_id p && (p.lease_generation == c.generation))
    && (opt_is p.runner_id c.runner_id
        && (opt_is p.lease_id c.lease_id && opt_after p.lease_expires_at now))

unfoldable pub prolong : ℕ → RunRow → RunRow
prolong expires p = record p { lease_expires_at = some expires }

unfoldable pub renew_lease : (now expires : ℕ) → RunClaim → Db → Result Db
renew_lease now expires c db = do
  guard (rows_affected (holds now c) db.runs == 1) conflict
  ok (record db { runs = update_where (holds now c) (prolong expires) db.runs })

abbrev pub same_status : JobStatus → JobStatus → Bool
same_status JobStatus.pending JobStatus.pending = true
same_status JobStatus.running JobStatus.running = true
same_status JobStatus.passed JobStatus.passed = true
same_status JobStatus.failed JobStatus.failed = true
same_status JobStatus.error JobStatus.error = true
same_status JobStatus.blocked JobStatus.blocked = true
same_status JobStatus.canceled JobStatus.canceled = true
same_status JobStatus.aborted JobStatus.aborted = true
same_status _ _ = false

-- From which status an event may take a job to another.
unfoldable pub may_move : JobStatus → JobStatus → Bool
may_move JobStatus.pending JobStatus.running = true
may_move JobStatus.pending JobStatus.blocked = true
may_move JobStatus.pending JobStatus.canceled = true
may_move JobStatus.running JobStatus.passed = true
may_move JobStatus.running JobStatus.failed = true
may_move JobStatus.running JobStatus.canceled = true
may_move old new = same_status old new

-- `$6 IN ('PASSED','FAILED','BLOCKED','CANCELED')`.
abbrev pub is_outcome : JobStatus → Bool
is_outcome JobStatus.passed = true
is_outcome JobStatus.failed = true
is_outcome JobStatus.blocked = true
is_outcome JobStatus.canceled = true
is_outcome _ = false

unfoldable pub move_job : ℕ → JobStatus → JobRow → JobRow
move_job now status j = record j {
  status = status;
  started_at = if is_running status then or_else j.started_at now else j.started_at;
  finished_at = if is_outcome status then or_else j.finished_at now else j.finished_at;
}

unfoldable pub is_event_of : ℕ → RunClaim → String → JobStatus → Db → JobRow → Bool
is_event_of now c name status db j =
    is_job c.run_id name j && (any (holds now c) db.runs && may_move j.status status)

module _ (parse : String → Result Pipeline) where
  unfoldable pub report_job_event : ℕ → RunClaim → String → JobStatus → Db → Result Db
  report_job_event now c name status db = do
    allowed ← artifacts_allow parse status c.run_id name db
    guard allowed conflict
    guard (rows_affected (is_event_of now c name status db) db.jobs == 1) conflict
    ok (record db {
      jobs = update_where (is_event_of now c name status db) (move_job now status) db.jobs;
    })

unfoldable pub release_run : ℕ → RunStatus → Option String → RunRow → RunRow
release_run now status message p = record p {
  status = status;
  finished_at = some now;
  error_message = message;
  lease_id = none;
  runner_id = none;
  lease_expires_at = none;
  effective_parallel = none;
}

unfoldable pub free_runner : RunnerRow → RunnerRow
free_runner r = record r { current_run_id = none }

unfoldable pub complete_run :
    (now retention : ℕ) → RunClaim → RunStatus → Option String → Db → Result Db
complete_run now retention c status message db = do
  guard (any (holds now c) db.runs) conflict
  guard (rows_affected (is_running_run c.run_id) db.runs == 1) conflict
  let released = expire_artifacts_of retention c.run_id (record db {
    runs = update_where (is_running_run c.run_id) (release_run now status message) db.runs;
  })
  ok (record released {
    runners = update_where (is_runner c.runner_id) free_runner released.runners;
  })

-- `status='RUNNING' AND lease_expires_at < $1 AND runner_id IS NOT NULL`.
unfoldable pub is_overdue : ℕ → RunRow → Bool
is_overdue clock p =
    is_executing p.status && (is_some p.runner_id && opt_before p.lease_expires_at clock)

unfoldable pub expire_runs : (now retention : ℕ) → List ℕ → Db → Db
expire_runs now retention [] db = db
expire_runs now retention (run ∷ runs) db = expire_runs now retention runs (
    lose_jobs_of now retention "runner lease expired" run (record db {
      runs = update_where (λ p. p.id == run) (abort_run now "runner lease expired") db.runs;
    }))

abbrev pub is_aborted_run : RunStatus → Bool
is_aborted_run RunStatus.aborted = true
is_aborted_run _ = false

abbrev pub has_aborted_run : Db → RunnerRow → Bool
has_aborted_run db r = elim r.current_run_id [
  | none ↦ false
  | some run ↦ any (λ p. (p.id == run) && is_aborted_run p.status) db.runs
]

unfoldable pub drop_runner : RunnerRow → RunnerRow
drop_runner r = record r { status = RunnerStatus.offline; current_run_id = none }

unfoldable pub expire_leases : (clock now retention : ℕ) → Db → Db
expire_leases clock now retention db =
    let expired =
      expire_runs now retention (map (λ p. p.id) (select_where (is_overdue clock) db.runs)) db in
    record expired { runners = update_where (has_aborted_run expired) drop_runner expired.runners }
