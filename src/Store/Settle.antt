-- ===== src/Store/Settle.antt =====
-- internal/store/postgres/jobs.go: blockDependents and finalizeRun, the steps by which a job that
-- ends settles its run. Each takes the time that now() has in the transaction.
pub mod Blocking
pub mod Verdict
use forgeci.Base.{
  ℕ, String, zero, suc, ◌+◌, ◌==◌, ltb, if◌then◌else◌, Bool, true, false, ◌&&◌, ◌||◌, Option, none,
  some, List, [], ◌∷◌, any, is_some, str_eq, update_where, count_where, rows_affected, select_first,
  Result, ok, err, no_rows,
}
use forgeci.Store.Tables.{
  Db, RunRow, JobRow, DependencyRow, ArtifactRow, RunStatus, JobStatus, is_pending, is_unfinished,
  is_open, did_not_pass, is_job,
}

-- The dependency row `d` is one of the job `j`.
abbrev pub depends : JobRow → DependencyRow → Bool
depends j d = (d.run_id == j.run_id) && str_eq d.job_name j.job_name

-- The job that `d` names has a row, with a status that passes the test.
abbrev pub upstream : (JobStatus → Bool) → Db → DependencyRow → Bool
upstream test db d = any (λ u. is_job d.run_id d.depends_on u && test u.status) db.jobs

-- `EXISTS(SELECT 1 FROM job_dependencies d JOIN job_runs u ...)`: some dependency of the job names
-- a job whose status passes the test.
unfoldable pub has_upstream : (JobStatus → Bool) → Db → JobRow → Bool
has_upstream test db j = any (λ d. depends j d && upstream test db d) db.dependencies

-- The rows that one round of blockDependents updates, and the update.
unfoldable pub is_blockable : Db → ℕ → JobRow → Bool
is_blockable db run j = (j.run_id == run) && (is_pending j.status && has_upstream did_not_pass db j)

unfoldable pub mark_blocked : ℕ → JobRow → JobRow
mark_blocked now j = record j {
  status = JobStatus.blocked;
  finished_at = some now;
  error_message = some "upstream dependency did not pass";
}

unfoldable pub block_round : ℕ → ℕ → Db → Db
block_round now run db = record db {
  jobs = update_where (is_blockable db run) (mark_blocked now) db.jobs;
}

-- The loop ends after the first round that updates no row.
unfoldable pub block_loop : ℕ → ℕ → ℕ → Db → Db
block_loop zero now run db = db
block_loop (suc fuel) now run db =
    let more = block_loop fuel now run (block_round now run db) in
    if rows_affected (is_blockable db run) db.jobs == 0 then block_round now run db else more

abbrev pub pending_jobs : Db → ℕ
pending_jobs db = count_where (λ j. is_pending j.status) db.jobs

unfoldable pub block_dependents : ℕ → ℕ → Db → Db
block_dependents now run db = block_loop (suc (pending_jobs db)) now run db

-- `UPDATE artifacts SET expires_at=(SELECT finished_at+retention FROM pipeline_runs WHERE id=$1)`:
-- null where the run has no row or has not finished.
unfoldable pub expiry_of : ℕ → ℕ → Db → Option ℕ
expiry_of retention run db = elim (select_first (λ p. p.id == run) db.runs) [
  | none ↦ none
  | some p ↦ elim p.finished_at [ none ↦ none | some t ↦ some (t + retention) ]
]

abbrev pub is_none : Option ℕ → Bool
is_none none = true
is_none (some _) = false

unfoldable pub expire_artifacts_of : ℕ → ℕ → Db → Db
expire_artifacts_of retention run db = record db {
  artifacts =
      update_where (λ a. (a.run_id == run) && is_none a.expires_at)
        (λ a. record a { expires_at = expiry_of retention run db }) db.artifacts;
}

abbrev pub in_run : ℕ → (JobStatus → Bool) → JobRow → Bool
in_run run test j = (j.run_id == run) && test j.status

abbrev pub is_error : JobStatus → Bool
is_error JobStatus.error = true
is_error _ = false

abbrev pub is_aborted : JobStatus → Bool
is_aborted JobStatus.aborted = true
is_aborted _ = false

abbrev pub is_failure : JobStatus → Bool
is_failure JobStatus.failed = true
is_failure JobStatus.blocked = true
is_failure _ = false

-- The switch of finalizeRun.
unfoldable pub verdict : (cancel has_error has_abort has_failure : Bool) → RunStatus
verdict cancel has_error has_abort has_failure =
    if has_error
    then RunStatus.error
    else if has_abort
    then RunStatus.aborted
    else if cancel
    then RunStatus.canceled
    else if has_failure
    then RunStatus.failed
    else RunStatus.passed

unfoldable pub verdict_of : ℕ → RunRow → Db → RunStatus
verdict_of run p db =
    verdict (is_some p.cancel_requested_at) (any (in_run run is_error) db.jobs)
      (any (in_run run is_aborted) db.jobs) (any (in_run run is_failure) db.jobs)

-- The CASE of the final UPDATE.
unfoldable pub final_message : RunStatus → Option String → Option String
final_message RunStatus.error _ = some "job infrastructure failure"
final_message RunStatus.aborted _ = some "job execution ownership lost"
final_message _ message = message

unfoldable pub close_run : ℕ → RunStatus → RunRow → RunRow
close_run now status p = record p {
  status = status;
  finished_at = some now;
  error_message = final_message status p.error_message;
}

abbrev pub is_open_run : ℕ → RunRow → Bool
is_open_run run p = (p.id == run) && is_open p.status

unfoldable pub settle : ℕ → ℕ → ℕ → RunStatus → Db → Db
settle now retention run status db =
    if rows_affected (is_open_run run) db.runs == 0
    then db
    else expire_artifacts_of retention run
        (record db { runs = update_where (is_open_run run) (close_run now status) db.runs })

-- The query for the verdict has a row where the run and one of its jobs have one.
unfoldable pub finalize_idle : ℕ → ℕ → ℕ → Option RunRow → Bool → Db → Result Db
finalize_idle now retention run none _ db = err no_rows
finalize_idle now retention run (some p) false db = err no_rows
finalize_idle now retention run (some p) true db =
    ok (settle now retention run (verdict_of run p db) db)

unfoldable pub finalize_run : ℕ → ℕ → ℕ → Db → Result Db
finalize_run now retention run db =
    if ltb 0 (count_where (in_run run is_unfinished) db.jobs)
    then ok db
    else finalize_idle now retention run (select_first (λ p. p.id == run) db.runs)
        (any (λ j. j.run_id == run) db.jobs) db
