-- ===== src/Store/Runs.antt =====
-- internal/store/postgres/postgres.go: the operations on runs as a whole, by which the server claims
-- runs to execute itself, finishes and cancels them, and recovers after a restart. `now` is now() in
-- the transaction; the other parameters are those of Leasing and Jobs.
use forgeci.Base.{
  ℕ, String, ◌==◌, ltb, if◌then◌else◌, Bool, true, false, not, ◌&&◌, ◌||◌, Option, none, some, map,
  or_else, update_where, rows_affected, select_first, select_where, select_least, Result, ok, err,
  ◌>>=◌, ◌>>◌, guard, or_fail, not_found, conflict,
}
use forgeci.Config.{Pipeline}
use forgeci.Store.Tables.{
  Db, RunRow, JobRow, RunStatus, JobStatus, is_queued, is_executing, is_pending, is_running,
  is_passed, is_job,
}
use forgeci.Store.Settle.{finalize_run, expire_artifacts_of, in_run}
use forgeci.Store.Ownership.{artifact_set_committed}
use forgeci.Store.Jobs.{lose_jobs}

-- ORDER BY created_at,id.
unfoldable pub runs_before : RunRow → RunRow → Bool
runs_before p q = ltb p.created_at q.created_at || ((p.created_at == q.created_at) && ltb p.id q.id)

abbrev pub is_queued_run : ℕ → RunRow → Bool
is_queued_run run p = (p.id == run) && is_queued p.status

abbrev pub is_running_run : ℕ → RunRow → Bool
is_running_run run p = (p.id == run) && is_executing p.status

unfoldable pub begin_run : ℕ → RunRow → RunRow
begin_run now p = record p { status = RunStatus.running; started_at = some now }

unfoldable pub claim_run : ℕ → Option RunRow → Db → Result (Option ℕ × Db)
claim_run now none db = ok (none, db)
claim_run now (some p) db = do
  guard (rows_affected (is_queued_run p.id) db.runs == 1) conflict
  ok (some p.id, record db { runs = update_where (is_queued_run p.id) (begin_run now) db.runs })

-- `skip` says which runs other transactions hold locked.
unfoldable pub claim_next_queued_run : ℕ → (ℕ → Bool) → Db → Result (Option ℕ × Db)
claim_next_queued_run now skip db =
    claim_run now
      (select_least runs_before (select_where (λ p. is_queued p.status && not (skip p.id)) db.runs))
      db

unfoldable pub finish_row : ℕ → RunStatus → Option String → RunRow → RunRow
finish_row now status message p = record p {
  status = status;
  finished_at = some now;
  error_message = message;
}

unfoldable pub finish_run : (now retention run : ℕ) → RunStatus → Option String → Db → Result Db
finish_run now retention run status message db = do
  guard (rows_affected (is_running_run run) db.runs == 1) conflict
  ok (
      expire_artifacts_of retention run (record db {
        runs = update_where (is_running_run run) (finish_row now status message) db.runs;
      }))

-- `$3 IN ('PASSED','FAILED','ERROR','BLOCKED','CANCELED','ABORTED')`.
abbrev pub is_final : JobStatus → Bool
is_final JobStatus.pending = false
is_final JobStatus.running = false
is_final _ = true

unfoldable pub set_status : ℕ → JobStatus → Option String → JobRow → JobRow
set_status now status message j = record j {
  status = status;
  started_at = if is_running status then or_else j.started_at now else j.started_at;
  finished_at = if is_final status then some now else j.finished_at;
  error_message = message;
}

unfoldable pub cancel_row : ℕ → RunRow → RunRow
cancel_row now p = record p {
  status = RunStatus.canceled;
  cancel_requested_at = some now;
  finished_at = some now;
}

unfoldable pub cancel_job : ℕ → Option String → JobRow → JobRow
cancel_job now message j = record j {
  status = JobStatus.canceled;
  finished_at = some now;
  error_message = message;
}

-- CancelQueued leaves the message of a job as it is.
unfoldable pub cancel_queued_job : ℕ → JobRow → JobRow
cancel_queued_job now j = cancel_job now j.error_message j

unfoldable pub cancel_queued : (now run : ℕ) → Db → Result Db
cancel_queued now run db = do
  guard (rows_affected (is_queued_run run) db.runs == 1) conflict
  ok (record db {
    runs = update_where (is_queued_run run) (cancel_row now) db.runs;
    jobs = update_where (in_run run is_pending) (cancel_queued_job now) db.jobs;
  })

unfoldable pub request_row : ℕ → RunRow → RunRow
request_row now p = record p { cancel_requested_at = or_else p.cancel_requested_at now }

-- The status that is returned beside the error, if one is.
unfoldable pub request_cancel : (now retention run : ℕ) → Db → Option RunStatus × Result Db
request_cancel now retention run db =
    if rows_affected (is_running_run run) db.runs == 0
    then elim (select_first (λ p. p.id == run) db.runs) [
      | none ↦ (none, err not_found)
      | some p ↦ (some p.status, err conflict)
    ]
    else (
      some RunStatus.running,
      finalize_run now retention run (record db {
        runs = update_where (is_running_run run) (request_row now) db.runs;
        jobs =
            update_where (in_run run is_pending)
              (cancel_job now (some "run cancellation requested")) db.jobs;
      }),
    )

unfoldable pub interrupt_row : ℕ → RunRow → RunRow
interrupt_row now p = record p {
  status = RunStatus.aborted;
  finished_at = some now;
  error_message = some "control plane restarted before run completed";
}

-- The runs are settled one by one in the order of their ids, which does not show in the result.
unfoldable pub recover_interrupted : (now retention : ℕ) → Db → Db
recover_interrupted now retention db =
    lose_jobs now retention "control plane restarted before run completed"
      (map (λ p. p.id) (select_where (λ p. is_executing p.status) db.runs))
      (record db { runs = update_where (λ p. is_executing p.status) (interrupt_row now) db.runs })

module _ (parse : String → Result Pipeline) where
  -- `SELECT pipeline_yaml FROM pipeline_runs WHERE id=$1`, then as in artifactSetCommittedTx.
  unfoldable pub run_artifacts_committed : ℕ → String → Db → Result Bool
  run_artifacts_committed run name db = do
    p ← or_fail (select_first (λ p. p.id == run) db.runs) not_found
    artifact_set_committed parse p.pipeline_yaml run name db

  unfoldable pub artifacts_allow : JobStatus → ℕ → String → Db → Result Bool
  artifacts_allow status run name db =
      if is_passed status then run_artifacts_committed run name db else ok true

  unfoldable pub update_job : (now run : ℕ) → String → JobStatus → Option String → Db → Result Db
  update_job now run name status message db = do
    allowed ← artifacts_allow status run name db
    guard allowed conflict
    guard (rows_affected (is_job run name) db.jobs == 1) not_found
    ok (record db { jobs = update_where (is_job run name) (set_status now status message) db.jobs })
