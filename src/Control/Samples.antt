-- ===== src/Control/Samples.antt =====
-- Submit at a pipeline of one job, with a file system that holds its text.
use forgeci.Base.{
  All, List, Option, Result, String, [], codes, count_where, false, has_prefix, insert_name,
  is_control, none, ok, refl, same_codes, select_first, select_where, some, sort_names, str_eq,
  str_lt, update_where, ℕ, ◌==◌, ◌∷◌, ◌≡◌,
}
use forgeci.Compiler.{
  Graph, begin_sorting, compile, compile_nodes, compiled, cyclic_names, degree_of, degrees_of,
  dependents_among, dependents_of, find_node, link_nodes, lower, needs_in, nodes_of, release,
  release_all, repeat_for, roots_of, sort_jobs, total_degree,
}
use forgeci.Config.{Job, Pipeline, find_job}
use forgeci.Config.Paths.{
  add_code, clean, elements, go_up, is_abs, join, join_elements, keep_element, keep_elements,
  or_dot,
}
use forgeci.Control.{
  Files, is_below, jobs_in_order, needs_in_order, prepare_run, safe_pipeline_path, submit,
}
use forgeci.Control.Execution.{AllWritten, execute-passed}
use forgeci.Control.Running.{
  end_status, execute, finish_execution, mark_failed, mark_internal, observe,
}
use forgeci.Control.Submission.{AllFresh, submit-IsQueued}
use forgeci.Runner.{
  Progress, State, Turn, all_pending, begin_progress, block_among, block_one, drop_one,
  drop_pending, ended, has_failed_dependency, needs_passed, next_ready_job, notice, prepare,
  ready_among, receive, run_pipeline, run_turns, set_state, settle_wait, start_job, start_ready,
  state_of, succeeded, take_turn, wind_up,
}
use forgeci.Store.Commits.{get_run}
use forgeci.Store.Creation.{
  NewRun, add_snapshot, create_run, insert_dependencies, insert_jobs, may_depend, pending_job,
  queued_run, same_snapshot,
}
use forgeci.Store.Jobs.Keys.{UniqueJobs}
use forgeci.Store.Ownership.{artifact_set_committed, committed_names, same_names}
use forgeci.Store.Runs.{
  artifacts_allow, finish_row, finish_run, run_artifacts_committed, set_status, update_job,
}
use forgeci.Store.Settle.{expire_artifacts_of, expiry_of}
use forgeci.Store.Tables.{Db, JobRow, JobStatus, RunRow, RunStatus, SnapshotRow}

abbrev build : Job
build = record {
  needs = [];
  image = none;
  steps = record { run = "make" } ∷ [];
  artifacts = record { upload = []; download = [] };
  cache = record { restore = []; save = [] };
}

abbrev parse_one : String → Result Pipeline
parse_one yaml = ok (record { version = 1; jobs = ("build", build) ∷ [] })

abbrev disk : Files
disk = record { resolve = λ path. some path; read = λ path. some "jobs" }

abbrev source : SnapshotRow
source = record {
  source_digest = "s";
  blob_digest = "b";
  format = "tar-gzip-v1";
  archive_size_bytes = 1;
  logical_size_bytes = 1;
  entry_count = 1;
}

abbrev empty_db : Db
empty_db = record {
  runs = [];
  jobs = [];
  dependencies = [];
  runners = [];
  artifacts = [];
  snapshots = [];
}

abbrev given : NewRun
given = record {
  id = 1;
  pipeline_file = "forge.yaml";
  pipeline_yaml = "jobs";
  workspace = "/w";
  max_parallel = 1;
  snapshot = some source;
  jobs = ("build", none) ∷ [];
  dependencies = [];
}

abbrev queued_db : Db
queued_db = record empty_db {
  runs = queued_run 5 given source ∷ [];
  jobs = pending_job 1 ("build", none) ∷ [];
  snapshots = source ∷ [];
}

nothing : select_where (λ (j : JobRow). j.run_id == 1) [] ≡ []
unfolding select_where
nothing = refl

build_submitted :
    submit parse_one disk "/w" 1 5 (some source) "" 0 empty_db
    ≡ ok ((queued_run 5 given source, pending_job 1 ("build", none) ∷ []), queued_db)
unfolding submit prepare_run safe_pipeline_path str_eq is_abs codes is_control same_codes clean
    or_dot join_elements keep_elements elements add_code keep_element has_prefix is_below join
    select_first select_where insert_name sort_names str_lt begin_sorting compile compile_nodes
    cyclic_names degree_of degrees_of dependents_among dependents_of find_node link_nodes lower
    nodes_of release release_all repeat_for roots_of sort_jobs total_degree go_up jobs_in_order
    needs_in_order get_run add_snapshot create_run insert_dependencies insert_jobs may_depend
    same_snapshot
build_submitted = refl

submit-IsQueued_example :
    (cfg : Pipeline) × (g : Graph) × (parse_one "jobs" ≡ ok cfg)
    × (compile cfg ≡ compiled g)
    × (RunStatus.queued ≡ RunStatus.queued)
    × AllFresh 1 g g.order (pending_job 1 ("build", none) ∷ [])
    × UniqueJobs queued_db.jobs
submit-IsQueued_example =
    submit-IsQueued parse_one disk "/w" 1 5 (some source) "" 0 empty_db nothing tt build_submitted

abbrev running_row : RunRow
running_row = record (queued_run 5 given source) { status = RunStatus.running; started_at = some 6 }

abbrev running_db : Db
running_db = record queued_db { runs = running_row ∷ [] }

abbrev build_turns : List Turn
build_turns =
    record {
      context_done = false;
      answer = some (record { name = "build"; state = State.passed; internal_error = false });
    }
    ∷ record { context_done = false; answer = none }
    ∷ record { context_done = false; answer = none }
    ∷ []

abbrev build_events : List (ℕ × String × JobStatus)
build_events = (7, "build", JobStatus.running) ∷ (8, "build", JobStatus.passed) ∷ []

abbrev passed_job : JobRow
passed_job =
    set_status 8 JobStatus.passed none
      (set_status 7 JobStatus.running none (pending_job 1 ("build", none)))

abbrev passed_db : Db
passed_db = record queued_db {
  runs = finish_row 9 RunStatus.passed none running_row ∷ [];
  jobs = passed_job ∷ [];
}

build_executed :
    execute parse_one 9 60 none none build_events build_turns running_row running_db
    ≡ some passed_db
unfolding execute compile compile_nodes sort_jobs begin_sorting sort_names roots_of link_nodes
    nodes_of insert_name total_degree degrees_of release_all dependents_of find_node str_eq
    dependents_among repeat_for count_where select_first select_where update_where str_lt
    cyclic_names degree_of lower needs_in release find_job end_status finish_execution mark_failed
    mark_internal observe all_pending begin_progress block_among block_one drop_one drop_pending
    has_failed_dependency needs_passed next_ready_job notice prepare ready_among receive
    run_pipeline run_turns set_state settle_wait start_job start_ready state_of succeeded take_turn
    wind_up artifact_set_committed committed_names same_names artifacts_allow finish_row finish_run
    run_artifacts_committed set_status update_job expire_artifacts_of expiry_of
build_executed = refl

execute-passed_example :
    (cfg : Pipeline) × (g : Graph) × (q : Progress) × (parse_one "jobs" ≡ ok cfg)
    × (compile cfg ≡ compiled g)
    × (◌≡◌ {A = Option String} none none)
    × (◌≡◌ {A = Option String} none none)
    × (run_pipeline g 1 build_turns ≡ ended q)
    × (q.internal_error ≡ false)
    × (q.interrupted ≡ false)
    × All (λ e. e.1 ≡ State.passed) q.states
    × (last : Db) × AllWritten parse_one 1 build_events running_db last
    × (finish_run 9 60 1 RunStatus.passed none last ≡ ok passed_db)
unfolding finish_row
execute-passed_example =
    execute-passed parse_one 9 60 none none build_events build_turns running_row running_db refl
      build_executed refl
