-- ===== src/Protocol/Jobs.antt =====
-- internal/runnerproto/handlers.go: the handlers that take events, completions and logs.
use forgeci.Base.{
  Bool, Error, List, Option, Result, String, [], conflict, err, false, if◌then◌else◌, leb, length,
  ltb, map, none, not, ok, opt_after, some, str_eq, true, ℕ, ◌&&◌, ◌==◌, ◌∷◌,
}
use forgeci.Config.{Pipeline}
use forgeci.JobLog.Table.{LogChunk, LogTable, append_job_logs}
use forgeci.LogQueue.{Stream, is_stream}
use forgeci.Protocol.{
  ◌>>=◌, ◌>>◌, Answer, Claim, Server, Uuids, asks, bad_body, failure, is_uuid, on_error, or_answer,
  owner_of, read_run, reply, require, respond, shows, status_only, store_rows, valid_lease, writes,
  ◌>>=◌, ◌>>◌,
}
use forgeci.Protocol.Requests.{Request, is_method, parts_of}
use forgeci.Store.Jobs.{complete_job, is_completion}
use forgeci.Store.RunLeases.{RunClaim, report_job_event}
use forgeci.Store.Tables.{JobRow, JobStatus, RunRow}

pub record JobEventRequest : Type 0 where
  pub claim : Claim
  pub status : String

pub record CompleteRequest : Type 0 where
  pub claim : Claim
  pub status : String
  pub error : Option String

pub record AppendChunk : Type 0 where
  pub sequence : ℕ
  pub stream : Stream
  pub payload : List ℕ

pub record AppendRequest : Type 0 where
  pub claim : Claim
  pub chunks : List AppendChunk

-- The words of store.JobStatus.
unfoldable pub read_status : String → Option JobStatus
read_status s =
    if str_eq s "PENDING"
    then some JobStatus.pending
    else if str_eq s "RUNNING"
    then some JobStatus.running
    else if str_eq s "PASSED"
    then some JobStatus.passed
    else if str_eq s "FAILED"
    then some JobStatus.failed
    else if str_eq s "ERROR"
    then some JobStatus.error
    else if str_eq s "BLOCKED"
    then some JobStatus.blocked
    else if str_eq s "CANCELED"
    then some JobStatus.canceled
    else if str_eq s "ABORTED"
    then some JobStatus.aborted
    else none

abbrev pub kept_status : (JobStatus → Bool) → Option JobStatus → Option JobStatus
kept_status test none = none
kept_status test (some s) = if test s then some s else none

-- validJobEventStatus.
abbrev pub is_event_status : JobStatus → Bool
is_event_status JobStatus.running = true
is_event_status JobStatus.passed = true
is_event_status JobStatus.failed = true
is_event_status JobStatus.blocked = true
is_event_status JobStatus.canceled = true
is_event_status _ = false

unfoldable pub is_chunk : ℕ → AppendChunk → Bool
is_chunk previous c =
    leb 1 c.sequence
    && (ltb previous c.sequence
        && (not (length c.payload == 0) && (leb (length c.payload) 65536 && is_stream c.stream)))

unfoldable pub are_chunks : (previous : ℕ) → List AppendChunk → Bool
are_chunks previous [] = true
are_chunks previous (c ∷ cs) = is_chunk previous c && are_chunks c.sequence cs

unfoldable pub log_chunk : Claim → AppendChunk → LogChunk
log_chunk c a = record {
  run_id = c.run_id;
  job_name = c.job_name;
  sequence = a.sequence;
  stream = a.stream;
  payload = a.payload;
  created_at = none;
}

unfoldable pub log_answer : Error → Answer
log_answer conflict = failure 409 "log conflict"
log_answer _ = failure 400 "invalid job log batch"

-- The lease and the job that the path of a log request names.
unfoldable pub log_path : Uuids → List String → Option (String × String)
log_path u (a ∷ b ∷ c ∷ lease ∷ jobs ∷ job ∷ logs ∷ []) =
    if str_eq jobs "jobs" && (str_eq logs "logs" && (is_uuid u lease && not (str_eq job "")))
    then some (lease, job)
    else none
log_path u _ = none

abbrev pub store_logs : Server → Result LogTable → Result (Unit {0} × Server)
store_logs s (err reason) = err reason
store_logs s (ok logs) = ok (tt, record s { logs = logs })

module _ (u : Uuids) (parse : String → Result Pipeline) where
  unfoldable pub is_claim : Claim → Bool
  is_claim c =
      is_uuid u c.runner_id
      && (is_uuid u c.run_id
          && (is_uuid u c.lease_id && (leb 1 c.generation && not (str_eq c.job_name ""))))

  unfoldable pub job_event : ℕ → Request → Option JobEventRequest → Server → Answer × Server
  job_event now r body s = respond s (do
    require (is_method "POST" r) (status_only 405)
    q ← or_answer body bad_body
    require (is_claim q.claim) (failure 400 "missing required fields")
    status ←
        or_answer (kept_status is_event_status (read_status q.status))
          (failure 400 "invalid job status")
    answer ← asks (λ t. read_run u q.claim.run_id t.db)
    found ← on_error answer (λ e. failure 404 "run not found")
    require
        (shows u found.0.lease_id q.claim.lease_id
          && (found.0.lease_generation == q.claim.generation))
        (failure 409 "invalid lease")
    o ← or_answer (owner_of u q.claim) (failure 409 "event processing failed")
    let claim : RunClaim = record {
      run_id = o.run_id;
      runner_id = o.runner_id;
      lease_id = o.lease_id;
      generation = o.generation;
    }
    writes (λ t. store_rows t (report_job_event parse now claim o.job_name status t.db))
        (λ e. failure 409 "event processing failed")
    reply Answer.accepted)

  unfoldable pub complete :
      (now retention : ℕ) → Request → Option CompleteRequest → Server → Answer × Server
  complete now retention r body s = respond s (do
    require (is_method "POST" r) (status_only 405)
    q ← or_answer body bad_body
    require (is_claim q.claim) (failure 400 "missing required fields")
    status ←
        or_answer (kept_status is_completion (read_status q.status))
          (failure 400 "invalid run status")
    o ← or_answer (owner_of u q.claim) (failure 409 "completion failed")
    writes (λ t. store_rows t (complete_job parse now retention o status q.error t.db))
        (λ e. failure 409 "completion failed")
    reply Answer.accepted)

  unfoldable pub is_log_owner : Request → (lease job : String) → Claim → Bool
  is_log_owner r lease job c =
      is_uuid u c.run_id
      && (is_uuid u c.runner_id
          && (is_uuid u c.lease_id
              && (str_eq c.run_id (r.query "run_id")
                  && (str_eq c.runner_id (r.query "runner_id")
                      && (str_eq c.lease_id lease
                          && (str_eq c.job_name job && leb 1 c.generation))))))

  unfoldable pub is_batch_length : ℕ → Bool
  is_batch_length n = not (n == 0) && leb n 8

  -- `run.ID != req.RunID || !validArtifactLease(..)`.
  unfoldable pub is_run_leased : ℕ → Claim → RunRow → List JobRow → Bool
  is_run_leased clock c p jobs = str_eq (u.show p.id) c.run_id && valid_lease u clock c p jobs

  unfoldable pub append_logs :
      (clock : ℕ) → Request → Option AppendRequest → Server → Answer × Server
  append_logs clock r body s = respond s (do
    require (is_method "POST" r) (failure 405 "method not allowed")
    named ← or_answer (log_path u (parts_of r)) (failure 400 "invalid log path")
    require (not (opt_after r.content_length 1048576)) (failure 413 "log request too large")
    q ← or_answer body bad_body
    let c = q.claim
    require (is_log_owner r named.0 named.1 c) (failure 400 "invalid log ownership")
    require (is_batch_length (length q.chunks)) (failure 400 "invalid log batch")
    require (are_chunks 0 q.chunks) (failure 400 "invalid log chunk")
    answer ← asks (λ t. read_run u c.run_id t.db)
    found ← on_error answer (λ e. failure 409 "invalid or expired log lease")
    require (is_run_leased clock c found.0 found.1) (failure 409 "invalid or expired log lease")
    writes (λ t. store_logs t (append_job_logs clock (map (log_chunk c) q.chunks) t.logs))
        log_answer
    reply (status_only 204))
