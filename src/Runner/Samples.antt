-- ===== src/Runner/Samples.antt =====
-- Two jobs, of which the second needs the first: the theorems at their run.
use mathlib.Core.List.{Memᴰ}
use forgeci.Base.{
  All, List, String, [], arith, count_where, false, none, refl, some, str_eq, true, ◌||◌, ◌∷◌, ◌≡◌,
  ◌≢◌, ◌≤◌, ◌⊎◌,
}
use forgeci.Compiler.{Graph, find_node, needs_in, needs_of}
use forgeci.Compiler.Names.{occ}
use forgeci.Compiler.Order.{IsOrdered}
use forgeci.Config.{Job}
use forgeci.Runner.{
  Progress, State, Turn, all_pending, begin_progress, block_among, block_one, drop_one,
  drop_pending, ended, has_failed_dependency, has_passed, needs_passed, next_ready_job, notice,
  prepare, ready_among, receive, run_pipeline, set_state, settle_wait, start_job, start_ready,
  state_of, take_turn, wind_up,
}
use forgeci.Runner.Attempt.{Attempt, absent, execute_job, execute_job-passed, steps, succeeds}
use forgeci.Runner.Correctness.{
  CanRun, IsCovered, prepare-IsFull, run_pipeline-IsValid, run_pipeline-ends,
}
use forgeci.Runner.Ending.{IsFinal}
use forgeci.Runner.Progressing.{IsSettled, prepare-IsSettled}
use forgeci.Runner.Rounds.{begin_progress-IsValid}
use forgeci.Runner.Schedule.{IsValid}
use forgeci.Runner.Sweep.{IsCalm}
use forgeci.Runner.Turns.{IsValidOutcome}

abbrev empty_job : Job
empty_job = record {
  needs = [];
  image = none;
  steps = [];
  artifacts = record { upload = []; download = [] };
  cache = record { restore = []; save = [] };
}

abbrev two_jobs : Graph
two_jobs = record {
  nodes =
      ("build", record { name = "build"; job = empty_job; needs = []; dependents = "test" ∷ [] })
      ∷ ("test", record { name = "test"; job = empty_job; needs = "build" ∷ []; dependents = [] })
      ∷ [];
  order = "build" ∷ "test" ∷ [];
}

abbrev passes : String → Turn
passes name = record {
  context_done = false;
  answer = some (record { name = name; state = State.passed; internal_error = false });
}

abbrev quiet : Turn
quiet = record { context_done = false; answer = none }

abbrev four_turns : List Turn
four_turns = passes "build" ∷ passes "test" ∷ quiet ∷ quiet ∷ []

two_jobs-IsCovered : IsCovered two_jobs
unfolding str_eq
two_jobs-IsCovered = (refl, (refl, tt))

four_turns-CanRun : CanRun two_jobs 4 four_turns
unfolding begin_progress state_of prepare notice start_ready block_among block_one all_pending
    str_eq has_failed_dependency needs_in find_node next_ready_job ready_among needs_passed
    start_job set_state take_turn drop_one drop_pending receive settle_wait wind_up
four_turns-CanRun =
    (λ e. e, λ _. (refl, refl), (λ e. e, λ _. (refl, refl), (λ e. e, λ z. absurd (z refl), tt)))

run_pipeline-IsValid_example : IsValidOutcome two_jobs 4 (run_pipeline two_jobs 4 four_turns)
run_pipeline-IsValid_example =
    run_pipeline-IsValid two_jobs 4 four_turns two_jobs-IsCovered four_turns-CanRun

run_pipeline-ends_example :
    (p : Progress) × (run_pipeline two_jobs 4 four_turns ≡ ended p) × IsFinal p
run_pipeline-ends_example =
    run_pipeline-ends two_jobs 4 four_turns two_jobs-IsCovered four_turns-CanRun (omega arith)

-- `build` runs, `test` waits for it.
test_waits :
    state_of "test" (prepare two_jobs 4 false (begin_progress two_jobs)).states ≡ some State.pending
unfolding begin_progress state_of prepare notice start_ready block_among block_one all_pending
    str_eq has_failed_dependency needs_in find_node next_ready_job ready_among needs_passed
    start_job set_state
test_waits = refl

prepare-IsFull_example :
    ((prepare two_jobs 4 false (begin_progress two_jobs)).active ≡ 4)
    ⊎ ((d : String) × Memᴰ d (needs_of "test" two_jobs)
        × (state_of d (prepare two_jobs 4 false (begin_progress two_jobs)).states
            ≢ some State.passed))
unfolding notice begin_progress str_eq
prepare-IsFull_example =
    prepare-IsFull two_jobs 4 false (begin_progress two_jobs) "test"
      (begin_progress-IsValid two_jobs 4 two_jobs-IsCovered) refl (refl, (refl, tt))
      (Memᴰ.tail (Memᴰ.head refl)) test_waits

abbrev clean_attempt : Attempt
clean_attempt = record {
  restore = absent;
  restore_done = false;
  work = steps (
      record {
        execution = record { failed_run = false; exit_code = some 0 };
        log_error = false;
        context_done = false;
      }
      ∷ []);
  publish = succeeds;
  publish_done = false;
}

execute_job-passed_example : has_passed (execute_job clean_attempt).0 ≡ true
execute_job-passed_example = execute_job-passed clean_attempt

-- The first job has failed: the second is blocked, and no job runs.
abbrev first_failed : Progress
first_failed = record {
  states = ("build", State.failed) ∷ ("test", State.pending) ∷ [];
  active = 0;
  terminal = 1;
  canceling = false;
  interrupted = false;
  internal_error = false;
}

known_names :
    (x : String) → 1 ≤ occ x ("build" ∷ "test" ∷ []) → (str_eq "build" x || str_eq "test" x) ≡ true
unfolding count_where
known_names x h = ground (arith, h)

first_failed-IsValid : IsValid two_jobs 4 first_failed
unfolding count_where state_of needs_passed
first_failed-IsValid = record {
  counted_active = refl;
  counted_terminal = refl;
  complete = refl;
  bounded = omega arith;
  needs_met = λ name s found starts. ground (arith, found, starts);
  ordered = λ name s found. ground (arith, found);
}

first_failed-IsCalm : IsCalm two_jobs first_failed
unfolding state_of
first_failed-IsCalm = λ x h. ground (arith, known_names x h)

two_jobs-IsOrdered : IsOrdered two_jobs.nodes [] two_jobs.order
unfolding needs_in find_node str_eq count_where
two_jobs-IsOrdered = (tt, ((omega arith, tt), tt))

two_jobs-names : All (λ n. str_eq n "" ≡ false) two_jobs.order
unfolding str_eq
two_jobs-names = (refl, (refl, tt))

prepare-IsSettled_example : IsSettled two_jobs (prepare two_jobs 4 false first_failed)
unfolding prepare notice start_ready block_among block_one str_eq has_failed_dependency needs_in
    find_node next_ready_job ready_among needs_passed set_state state_of
prepare-IsSettled_example =
    prepare-IsSettled two_jobs 4 false first_failed two_jobs-IsOrdered two_jobs-names (omega arith)
      first_failed-IsValid first_failed-IsCalm refl refl
