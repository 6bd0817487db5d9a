-- ===== src/Compiler/Accepted.antt =====
-- A pipeline that Validate accepts, whose second job downloads what the first has made: the theorems
-- on Validate at it, and Run on its graph.
use forgeci.Base.{
  All, List, String, [], ap, arith, codes, false, has_code, has_prefix, insert_name,
  is_alphanumeric, is_control, is_space, none, refl, same_codes, some, sort_names, str_eq, str_lt,
  ◌∷◌, ◌≡◌,
}
use forgeci.Compiler.{
  Graph, begin_sorting, compile, compile_nodes, compiled, cyclic_names, degree_of, degrees_of,
  dependents_among, dependents_of, find_node, link_nodes, lower, needs_in, nodes_of, release,
  release_all, repeat_for, roots_of, sort_jobs, total_degree,
}
use forgeci.Compiler.Downloads.{IsProduced, validate-downloads}
use forgeci.Compiler.Links.{DistinctNames}
use forgeci.Compiler.Order.{IsOrdered}
use forgeci.Config.{Job, Pipeline, find_job}
use forgeci.Config.Checks.{
  all_codes, has_pattern, has_short_pattern, is_artifact_name, is_cache_key, is_image, is_job_name,
  is_name_code, is_safe_path, paths_conflict, trim_left, trim_space,
}
use forgeci.Config.Parser.{end_of_file, parsed, Yaml, parse, parse_first, parse_second, validated}
use forgeci.Config.Paths.{
  add_code, base, clean, elements, go_up, is_abs, join, join_elements, keep_element, keep_elements,
  last_element, or_dot,
}
use forgeci.Config.Validation.{
  declared_root, for_entries, is_ref, is_target, note_download, restore_downloads, restore_uploads,
  validate, validate_artifacts, validate_cache, validate_downloads, validate_image, validate_job,
  validate_jobs, validate_needs, validate_restore, validate_save, validate_source, validate_steps,
  validate_target, validate_uploads,
}
use forgeci.Runner.{
  Progress, State, Turn, all_pending, begin_progress, block_among, block_one, drop_one,
  drop_pending, ended, has_failed_dependency, needs_passed, next_ready_job, notice, prepare,
  ready_among, receive, run_pipeline, set_state, settle_wait, start_job, start_ready, state_of,
  take_turn, wind_up,
}
use forgeci.Runner.Compiled.{parse-run_pipeline}
use forgeci.Runner.Correctness.{CanRun}
use forgeci.Runner.Ending.{IsFinal}

abbrev build_job : Job
build_job = record {
  needs = [];
  image = some "golang:1.22";
  steps = record { run = "go build" } ∷ [];
  artifacts = record { upload = record { name = "bin"; path = "out/bin" } ∷ []; download = [] };
  cache = record { restore = record { key = "go"; path = ".cache" } ∷ []; save = [] };
}

abbrev test_job : Job
test_job = record {
  needs = "build" ∷ [];
  image = none;
  steps = record { run = "go test" } ∷ [];
  artifacts = record {
    upload = [];
    download = record { from = "build"; name = "bin"; into = "in" } ∷ [];
  };
  cache = record { restore = []; save = [] };
}

abbrev built : Pipeline
built = record { version = 1; jobs = ("test", test_job) ∷ ("build", build_job) ∷ [] }

built-accepted : validate built ≡ none
unfolding validate validate_jobs sort_names insert_name str_lt validate_job find_job str_eq
    is_job_name has_pattern codes is_alphanumeric all_codes is_name_code validate_image is_image
    same_codes trim_space has_code has_prefix is_control is_space has_short_pattern is_artifact_name
    is_cache_key is_safe_path paths_conflict trim_left add_code base clean elements go_up is_abs
    join join_elements keep_element keep_elements last_element or_dot declared_root for_entries
    is_ref is_target note_download restore_downloads restore_uploads validate_artifacts
    validate_cache validate_downloads validate_needs validate_restore validate_save validate_source
    validate_steps validate_target validate_uploads
built-accepted = refl

abbrev built_graph : Graph
built_graph = record {
  nodes =
      ("test", record { name = "test"; job = test_job; needs = "build" ∷ []; dependents = [] })
      ∷ ("build", record { name = "build"; job = build_job; needs = []; dependents = "test" ∷ [] })
      ∷ [];
  order = "build" ∷ "test" ∷ [];
}

built-DistinctNames : DistinctNames (nodes_of built.jobs)
unfolding nodes_of str_eq
built-DistinctNames = ((refl, tt), (tt, tt))

built-compile : compile built ≡ compiled built_graph
unfolding compile compile_nodes sort_jobs begin_sorting sort_names roots_of link_nodes nodes_of
    insert_name total_degree degrees_of release_all dependents_of find_node str_eq dependents_among
    repeat_for release str_lt cyclic_names degree_of lower
built-compile = refl

validate-downloads_example : All (IsProduced built.jobs test_job.needs) test_job.artifacts.download
unfolding find_job str_eq
validate-downloads_example = validate-downloads built "test" test_job built-accepted refl

abbrev passes : String → Turn
passes name = record {
  context_done = false;
  answer = some (record { name = name; state = State.passed; internal_error = false });
}

abbrev four_turns : List Turn
four_turns = passes "build" ∷ passes "test" ∷ passes "build" ∷ passes "build" ∷ []

four_turns-CanRun : CanRun built_graph 2 four_turns
unfolding begin_progress state_of prepare notice start_ready block_among block_one all_pending
    str_eq has_failed_dependency needs_in find_node next_ready_job ready_among needs_passed
    start_job set_state take_turn drop_one drop_pending receive settle_wait wind_up
four_turns-CanRun =
    (λ e. e, λ _. (refl, refl), (λ e. e, λ _. (refl, refl), (λ e. e, λ z. absurd (z refl), tt)))

abbrev built_yaml : Yaml
built_yaml = record { decode = λ text. some built; decode_again = λ text. end_of_file }

built-parsed : parse built_yaml "forge.yaml" ≡ parsed built
unfolding parse parse_first parse_second
built-parsed = ap (validated built) built-accepted

parse-run_pipeline_example :
    IsOrdered built_graph.nodes [] built_graph.order
    × ((p : Progress) × (run_pipeline built_graph 2 four_turns ≡ ended p) × IsFinal p)
parse-run_pipeline_example =
    parse-run_pipeline built_yaml "forge.yaml" built built_graph 2 four_turns built-DistinctNames
      built-parsed built-compile four_turns-CanRun (omega arith)
