-- ===== src/Store/Tables.antt =====
-- The tables, and the status words of internal/store/store.go.
use forgeci.Base.{ℕ, String, Option, List, Bool, true, false, ◌==◌, ◌&&◌, str_eq}

pub data RunStatus : Type 0 where
  queued running passed failed canceled error aborted : RunStatus

pub data JobStatus : Type 0 where
  pending running passed failed error blocked canceled aborted : JobStatus

pub data RunnerStatus : Type 0 where
  online offline : RunnerStatus

pub record RunRow : Type 0 where
  pub id : ℕ
  pub status : RunStatus
  pub pipeline_file : String
  pub pipeline_yaml : String
  pub workspace : String
  pub source_digest : Option String
  pub max_parallel : ℕ
  pub created_at : ℕ
  pub started_at : Option ℕ
  pub finished_at : Option ℕ
  pub cancel_requested_at : Option ℕ
  pub error_message : Option String
  pub runner_id : Option ℕ
  pub lease_id : Option ℕ
  pub lease_generation : ℕ
  pub lease_expires_at : Option ℕ
  pub effective_parallel : Option ℕ

pub record JobRow : Type 0 where
  pub run_id : ℕ
  pub job_name : String
  pub status : JobStatus
  pub image : Option String
  pub started_at : Option ℕ
  pub finished_at : Option ℕ
  pub error_message : Option String
  pub runner_id : Option ℕ
  pub lease_id : Option ℕ
  pub lease_generation : ℕ
  pub lease_expires_at : Option ℕ

pub record DependencyRow : Type 0 where
  pub run_id : ℕ
  pub job_name : String
  pub depends_on : String

pub record RunnerRow : Type 0 where
  pub id : ℕ
  pub protocol_version : ℕ
  pub docker_available : Bool
  pub max_parallel : ℕ
  pub status : RunnerStatus
  pub last_seen_at : ℕ
  pub current_run_id : Option ℕ

pub record ArtifactRow : Type 0 where
  pub run_id : ℕ
  pub producer_job : String
  pub name : String
  pub root_name : String
  pub root_kind : String
  pub content_sha256 : String
  pub blob_sha256 : String
  pub format : String
  pub archive_size_bytes : ℕ
  pub logical_size_bytes : ℕ
  pub entry_count : ℕ
  pub created_at : ℕ
  pub expires_at : Option ℕ
  pub deleted_at : Option ℕ

pub record SnapshotRow : Type 0 where
  pub source_digest : String
  pub blob_digest : String
  pub format : String
  pub archive_size_bytes : ℕ
  pub logical_size_bytes : ℕ
  pub entry_count : ℕ

pub record Db : Type 0 where
  pub runs : List RunRow
  pub jobs : List JobRow
  pub dependencies : List DependencyRow
  pub runners : List RunnerRow
  pub artifacts : List ArtifactRow
  pub snapshots : List SnapshotRow

-- `status='QUEUED'` and `status='RUNNING'` of a run.
abbrev pub is_queued : RunStatus → Bool
is_queued RunStatus.queued = true
is_queued _ = false

abbrev pub is_executing : RunStatus → Bool
is_executing RunStatus.running = true
is_executing _ = false

-- `status IN ('QUEUED','RUNNING')` of a run.
abbrev pub is_open : RunStatus → Bool
is_open RunStatus.queued = true
is_open RunStatus.running = true
is_open _ = false

-- The tests of a job's status.
abbrev pub is_pending : JobStatus → Bool
is_pending JobStatus.pending = true
is_pending _ = false

abbrev pub is_running : JobStatus → Bool
is_running JobStatus.running = true
is_running _ = false

abbrev pub is_passed : JobStatus → Bool
is_passed JobStatus.passed = true
is_passed _ = false

-- `status IN ('PENDING','RUNNING')` of a job.
abbrev pub is_unfinished : JobStatus → Bool
is_unfinished JobStatus.pending = true
is_unfinished JobStatus.running = true
is_unfinished _ = false

-- `status IN ('FAILED','ERROR','BLOCKED','CANCELED','ABORTED')`.
abbrev pub did_not_pass : JobStatus → Bool
did_not_pass JobStatus.pending = false
did_not_pass JobStatus.running = false
did_not_pass JobStatus.passed = false
did_not_pass _ = true

-- The key of a job row.
abbrev pub is_job : ℕ → String → JobRow → Bool
is_job run name j = (j.run_id == run) && str_eq j.job_name name
