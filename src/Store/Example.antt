-- ===== src/Store/Example.antt =====
-- A run of two jobs, `build` leased to a runner and `test` waiting for it: rows for tests.
use forgeci.Base.{Result, String, [], false, none, ok, refl, some, str_eq, ◌∷◌}
use forgeci.Config.{Job, Pipeline}
use forgeci.Store.Jobs.Keys.{UniqueJobs}
use forgeci.Store.Ownership.{Ownership}
use forgeci.Store.Tables.{Db, JobRow, JobStatus, RunRow, RunStatus, RunnerStatus}

abbrev pub build_job : Job
build_job = record {
  needs = [];
  image = none;
  steps = record { run = "make" } ∷ [];
  artifacts = record { upload = []; download = [] };
  cache = record { restore = []; save = [] };
}

abbrev pub test_job : Job
test_job = record build_job { needs = "build" ∷ [] }

abbrev pub parse_any : String → Result Pipeline
parse_any yaml = ok (record { version = 1; jobs = ("build", build_job) ∷ ("test", test_job) ∷ [] })

abbrev pub run_row : RunRow
run_row = record {
  id = 1;
  status = RunStatus.running;
  pipeline_file = "forge.yaml";
  pipeline_yaml = "";
  workspace = "/src";
  source_digest = some "s";
  max_parallel = 2;
  created_at = 0;
  started_at = some 1;
  finished_at = none;
  cancel_requested_at = none;
  error_message = none;
  runner_id = none;
  lease_id = none;
  lease_generation = 0;
  lease_expires_at = none;
  effective_parallel = none;
}

abbrev pub build_row : JobRow
build_row = record {
  run_id = 1;
  job_name = "build";
  status = JobStatus.running;
  image = none;
  started_at = some 1;
  finished_at = none;
  error_message = none;
  runner_id = some 3;
  lease_id = some 7;
  lease_generation = 1;
  lease_expires_at = some 50;
}

abbrev pub test_row : JobRow
test_row = record {
  run_id = 1;
  job_name = "test";
  status = JobStatus.pending;
  image = none;
  started_at = none;
  finished_at = none;
  error_message = none;
  runner_id = none;
  lease_id = none;
  lease_generation = 0;
  lease_expires_at = none;
}

abbrev pub busy_db : Db
busy_db = record {
  runs = run_row ∷ [];
  jobs = build_row ∷ test_row ∷ [];
  dependencies = record { run_id = 1; job_name = "test"; depends_on = "build" } ∷ [];
  runners =
      record {
        id = 3;
        protocol_version = 2;
        docker_available = false;
        max_parallel = 2;
        status = RunnerStatus.online;
        last_seen_at = 20;
        current_run_id = none;
      }
      ∷ [];
  artifacts = [];
  snapshots =
      record {
        source_digest = "s";
        blob_digest = "b";
        format = "tar-gzip-v1";
        archive_size_bytes = 1;
        logical_size_bytes = 1;
        entry_count = 1;
      }
      ∷ [];
}

abbrev pub build_claim : Ownership
build_claim = record { run_id = 1; job_name = "build"; runner_id = 3; lease_id = 7; generation = 1 }

pub busy_db-UniqueJobs : UniqueJobs busy_db.jobs
unfolding str_eq
busy_db-UniqueJobs = ((refl, tt), (tt, tt))
