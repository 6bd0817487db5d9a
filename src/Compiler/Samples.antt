-- ===== src/Compiler/Samples.antt =====
-- A pipeline of two jobs: the theorems on Compile, and on Run after it, at it.
use forgeci.Base.{
  All, List, String, [], any, arith, false, insert_name, none, refl, some, sort_names, str_eq,
  str_lt, true, ◌∷◌, ◌≡◌,
}
use forgeci.Compiler.{
  Graph, begin_sorting, compile, compile_nodes, compiled, cycle, cyclic_names, degree_of,
  degrees_of, dependents_among, dependents_of, find_node, link_nodes, lower, needs_in, nodes_of,
  release, release_all, repeat_for, roots_of, sort_jobs, total_degree,
}
use forgeci.Compiler.Complete.{compile-IsCovered}
use forgeci.Compiler.Correctness.{NeedsKnown, compile-IsOrdered}
use forgeci.Compiler.Links.{DistinctNames}
use forgeci.Compiler.Order.{IsOrdered}
use forgeci.Config.{Job, Pipeline}
use forgeci.Runner.{
  Progress, State, Turn, all_pending, begin_progress, block_among, block_one, drop_one,
  drop_pending, ended, has_failed_dependency, needs_passed, next_ready_job, notice, prepare,
  ready_among, receive, run_pipeline, set_state, settle_wait, start_job, start_ready, state_of,
  take_turn, wind_up,
}
use forgeci.Runner.Compiled.{compile-run_pipeline}
use forgeci.Runner.Correctness.{CanRun}
use forgeci.Runner.Ending.{IsFinal}
use forgeci.Runner.Schedule.{IsValid}

abbrev plain_job : Job
plain_job = record {
  needs = [];
  image = none;
  steps = [];
  artifacts = record { upload = []; download = [] };
  cache = record { restore = []; save = [] };
}

abbrev two_jobs : Pipeline
two_jobs = record {
  version = 1;
  jobs = ("test", record plain_job { needs = "build" ∷ [] }) ∷ ("build", plain_job) ∷ [];
}

abbrev sorted_graph : Graph
sorted_graph = record {
  nodes =
      (
        "test",
        record {
          name = "test";
          job = record plain_job { needs = "build" ∷ [] };
          needs = "build" ∷ [];
          dependents = [];
        },
      )
      ∷ ("build", record { name = "build"; job = plain_job; needs = []; dependents = "test" ∷ [] })
      ∷ [];
  order = "build" ∷ "test" ∷ [];
}

two_jobs-DistinctNames : DistinctNames (nodes_of two_jobs.jobs)
unfolding nodes_of str_eq
two_jobs-DistinctNames = ((refl, tt), (tt, tt))

two_jobs-NeedsKnown : NeedsKnown (nodes_of two_jobs.jobs)
unfolding nodes_of sort_names insert_name find_node str_eq
two_jobs-NeedsKnown = ((refl, tt), (tt, tt))

two_jobs-compile : compile two_jobs ≡ compiled sorted_graph
unfolding compile compile_nodes sort_jobs begin_sorting sort_names roots_of link_nodes nodes_of
    insert_name total_degree degrees_of release_all dependents_of find_node str_eq dependents_among
    repeat_for release str_lt cyclic_names degree_of lower
two_jobs-compile = refl

compile-IsOrdered_example : IsOrdered sorted_graph.nodes [] sorted_graph.order
compile-IsOrdered_example =
    compile-IsOrdered two_jobs sorted_graph two_jobs-DistinctNames two_jobs-NeedsKnown
      two_jobs-compile

-- Two jobs that need each other are named.
abbrev two_cyclic : Pipeline
two_cyclic = record {
  version = 1;
  jobs =
      ("a", record plain_job { needs = "b" ∷ [] })
      ∷ ("b", record plain_job { needs = "a" ∷ [] })
      ∷ ("c", plain_job)
      ∷ [];
}

two_cyclic-compile : compile two_cyclic ≡ cycle ("a" ∷ "b" ∷ [])
unfolding compile compile_nodes sort_jobs begin_sorting sort_names roots_of link_nodes nodes_of
    insert_name total_degree degrees_of release_all dependents_of find_node str_eq dependents_among
    repeat_for release str_lt cyclic_names degree_of lower
two_cyclic-compile = refl

compile-IsCovered_example :
    All (λ e. any (λ n. str_eq n e.0) sorted_graph.order ≡ true) sorted_graph.nodes
compile-IsCovered_example =
    compile-IsCovered two_jobs sorted_graph two_jobs-DistinctNames two_jobs-NeedsKnown
      two_jobs-compile

-- Run on the graph of the two jobs.
abbrev passes : String → Turn
passes name = record {
  context_done = false;
  answer = some (record { name = name; state = State.passed; internal_error = false });
}

abbrev four_turns : List Turn
four_turns = passes "build" ∷ passes "test" ∷ passes "build" ∷ passes "build" ∷ []

four_turns-CanRun : CanRun sorted_graph 4 four_turns
unfolding begin_progress state_of prepare notice start_ready block_among block_one all_pending
    str_eq has_failed_dependency needs_in find_node next_ready_job ready_among needs_passed
    start_job set_state take_turn drop_one drop_pending receive settle_wait wind_up
four_turns-CanRun =
    (λ e. e, λ _. (refl, refl), (λ e. e, λ _. (refl, refl), (λ e. e, λ z. absurd (z refl), tt)))

compile-run_pipeline_example :
    (p : Progress) × (run_pipeline sorted_graph 4 four_turns ≡ ended p)
    × IsFinal p
    × IsValid sorted_graph 4 p
compile-run_pipeline_example =
    compile-run_pipeline two_jobs sorted_graph 4 four_turns two_jobs-DistinctNames
      two_jobs-NeedsKnown two_jobs-compile four_turns-CanRun (omega arith)
