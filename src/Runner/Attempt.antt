-- ===== src/Runner/Attempt.antt =====
-- internal/runner/runner.go: executeJob, publish, finishJobExecution and finishJob. What a call meets
-- (the artifact store, the executor, the log, the context) is a parameter, read when the code asks.
use forgeci.Base.{
  Bool, List, Option, [], all, ap, arith, false, if◌then◌else◌, is_some, not, refl, true, ℕ, ◌&&◌,
  ◌∙◌, ◌∷◌, ◌≡◌,
}
use forgeci.Runner.{State, has_passed}

-- Restore or Publish of the artifacts: there may be no artifact store.
pub data Lifecycle : Type 0 where
  absent succeeds : Lifecycle
  fails : (pipeline_error : Bool) → Lifecycle

-- executor.Result: no exit code stands for a negative one.
pub record Execution : Type 0 where
  pub failed_run : Bool
  pub exit_code : Option ℕ

-- A command or a job that was run, whether the log had an error after it, and the context.
pub record Executed : Type 0 where
  pub execution : Execution
  pub log_error : Bool
  pub context_done : Bool

-- An executor runs a whole job, or the steps one by one.
pub data Work : Type 0 where
  whole : Executed → Work
  steps : List Executed → Work

pub record Attempt : Type 0 where
  pub restore : Lifecycle
  pub restore_done : Bool
  pub work : Work
  pub publish : Lifecycle
  pub publish_done : Bool

-- Restore or Publish has failed: the state, and whether it is an internal error.
unfoldable pub lifecycle_failure : (pipeline_error context_done : Bool) → State × Bool
lifecycle_failure pipeline_error context_done =
    if context_done then (State.canceled, false) else (State.failed, not pipeline_error)

unfoldable pub publish_job : Lifecycle → Bool → State × Bool
publish_job absent context_done = (State.passed, false)
publish_job succeeds context_done = (State.passed, false)
publish_job (fails pipeline_error) context_done = lifecycle_failure pipeline_error context_done

unfoldable pub finish_job : Execution → Bool → State × Bool
finish_job e context_done =
    if not e.failed_run
    then (State.passed, false)
    else if context_done
    then (State.canceled, false)
    else if is_some e.exit_code
    then (State.failed, false)
    else (State.failed, true)

-- The loop over the steps; `publishes` is what follows it.
unfoldable pub run_steps : State × Bool → List Executed → State × Bool
run_steps publishes [] = publishes
run_steps publishes (x ∷ xs) =
    let rest = run_steps publishes xs in
    if x.log_error
    then (State.failed, true)
    else if not x.execution.failed_run
    then rest
    else finish_job x.execution x.context_done

unfoldable pub do_work : State × Bool → Work → State × Bool
do_work publishes (whole x) =
    let finished = finish_job x.execution x.context_done in
    if x.log_error
    then (State.failed, true)
    else if has_passed finished.0
    then publishes
    else finished
do_work publishes (steps xs) = run_steps publishes xs

unfoldable pub restore_first : Lifecycle → Bool → State × Bool → State × Bool
restore_first absent context_done next = next
restore_first succeeds context_done next = next
restore_first (fails pipeline_error) context_done next =
    lifecycle_failure pipeline_error context_done

unfoldable pub execute_job : Attempt → State × Bool
execute_job a =
    restore_first a.restore a.restore_done (do_work (publish_job a.publish a.publish_done) a.work)

-- A lifecycle that does not fail.
abbrev pub goes_on : Lifecycle → Bool
goes_on (fails pipeline_error) = false
goes_on _ = true

abbrev pub went_well : Executed → Bool
went_well x = not x.log_error && not x.execution.failed_run

abbrev pub work_went_well : Work → Bool
work_went_well (whole x) = went_well x
work_went_well (steps xs) = all went_well xs

finish_job-passed :
    (e : Execution) (context_done : Bool)
    → has_passed (finish_job e context_done).0 ≡ not e.failed_run
unfolding finish_job
finish_job-passed e context_done = ground arith

run_steps-passed :
    (publishes : State × Bool) (xs : List Executed)
    → has_passed (run_steps publishes xs).0 ≡ (all went_well xs && has_passed publishes.0)
unfolding run_steps
run_steps-passed publishes [] = refl
run_steps-passed publishes (x ∷ xs) =
    ground (arith, run_steps-passed publishes xs, finish_job-passed x.execution x.context_done)

do_work-passed :
    (publishes : State × Bool) (w : Work)
    → has_passed (do_work publishes w).0 ≡ (work_went_well w && has_passed publishes.0)
unfolding do_work
do_work-passed publishes (whole x) = ground (arith, finish_job-passed x.execution x.context_done)
do_work-passed publishes (steps xs) = run_steps-passed publishes xs

publish_job-passed :
    (l : Lifecycle) (context_done : Bool) → has_passed (publish_job l context_done).0 ≡ goes_on l
unfolding publish_job lifecycle_failure
publish_job-passed absent context_done = refl
publish_job-passed succeeds context_done = refl
publish_job-passed (fails pipeline_error) context_done = ground arith

-- executeJob says that a job has passed exactly when its artifacts were restored, the executor ran
-- the job or every step of it without an error and without a log error, and its artifacts were
-- published, where an absent artifact store counts as success.
pub execute_job-passed :
    (a : Attempt)
    → has_passed (execute_job a).0
      ≡ (goes_on a.restore && (work_went_well a.work && goes_on a.publish))
unfolding execute_job restore_first lifecycle_failure
execute_job-passed a =
    let published = publish_job-passed a.publish a.publish_done in
    let worked = do_work-passed (publish_job a.publish a.publish_done) a.work in
    elim a.restore
      as (λ r.
        has_passed
          (restore_first r a.restore_done (do_work (publish_job a.publish a.publish_done) a.work)).0
        ≡ (goes_on r && (work_went_well a.work && goes_on a.publish))) [
          | absent ↦ worked ∙ ap (◌&&◌ (work_went_well a.work)) published
          | succeeds ↦ worked ∙ ap (◌&&◌ (work_went_well a.work)) published
          | fails pipeline_error ↦ ground arith
        ]
