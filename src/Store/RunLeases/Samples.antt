-- ===== src/Store/RunLeases/Samples.antt =====
-- A run that one runner holds as a whole: the theorems at it.
use forgeci.Base.{
  Result, String, [], conflict, count_where, err, none, ok, refl, some, str_eq, update_where, ◌∷◌,
  ◌≡◌, ◌≢◌,
}
use forgeci.Config.{Pipeline}
use forgeci.Store.RunLeases.{
  RunClaim, complete_run, holds, is_event_of, may_move, move_job, release_run, renew_lease,
  report_job_event,
}
use forgeci.Store.RunLeases.Events.{AllMove, report_job_event-AllMove}
use forgeci.Store.RunLeases.Fencing.{complete_run-fences}
use forgeci.Store.Runs.{artifacts_allow}
use forgeci.Store.Settle.{expire_artifacts_of}
use forgeci.Store.Tables.{Db, JobRow, JobStatus, RunRow, RunStatus}

abbrev held_run : RunRow
held_run = record {
  id = 1;
  status = RunStatus.running;
  pipeline_file = "forge.yaml";
  pipeline_yaml = "";
  workspace = "/src";
  source_digest = none;
  max_parallel = 2;
  created_at = 0;
  started_at = some 1;
  finished_at = none;
  cancel_requested_at = none;
  error_message = none;
  runner_id = some 3;
  lease_id = some 7;
  lease_generation = 1;
  lease_expires_at = some 50;
  effective_parallel = some 1;
}

abbrev waiting_job : JobRow
waiting_job = record {
  run_id = 1;
  job_name = "build";
  status = JobStatus.pending;
  image = none;
  started_at = none;
  finished_at = none;
  error_message = none;
  runner_id = none;
  lease_id = none;
  lease_generation = 0;
  lease_expires_at = none;
}

abbrev held_db : Db
held_db = record {
  runs = held_run ∷ [];
  jobs = waiting_job ∷ [];
  dependencies = [];
  runners = [];
  artifacts = [];
  snapshots = [];
}

abbrev claim : RunClaim
claim = record { run_id = 1; runner_id = 3; lease_id = 7; generation = 1 }

abbrev no_jobs : String → Result Pipeline
no_jobs yaml = ok (record { version = 1; jobs = [] })

abbrev released_db : Db
released_db = record held_db { runs = release_run 20 RunStatus.passed none held_run ∷ [] }

held_completes : complete_run 20 60 claim RunStatus.passed none held_db ≡ ok released_db
unfolding complete_run holds count_where expire_artifacts_of update_where
held_completes = refl

complete_run-fences_example :
    (complete_run 21 60 claim RunStatus.failed none released_db ≡ err conflict)
    × (renew_lease 21 80 claim released_db ≡ err conflict)
    × (report_job_event no_jobs 21 claim "build" JobStatus.running released_db ≢ ok held_db)
complete_run-fences_example =
    complete_run-fences no_jobs 20 60 claim RunStatus.passed none held_db released_db 21 80
      RunStatus.failed none "build" JobStatus.running held_db held_completes

abbrev started_db : Db
started_db = record held_db { jobs = move_job 20 JobStatus.running waiting_job ∷ [] }

build_starts : report_job_event no_jobs 20 claim "build" JobStatus.running held_db ≡ ok started_db
unfolding report_job_event artifacts_allow count_where is_event_of str_eq holds may_move
    update_where
build_starts = refl

report_job_event-AllMove_example : AllMove held_db.jobs started_db.jobs
report_job_event-AllMove_example =
    report_job_event-AllMove no_jobs 20 claim "build" JobStatus.running held_db started_db
      build_starts
