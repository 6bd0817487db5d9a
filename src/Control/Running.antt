-- ===== src/Control/Running.antt =====
-- internal/controlplane/manager.go: execute, which runs a run in the server itself, and its observer.
-- What execute writes of a result, unless the observer has met an error.
use forgeci.Base.{
  Bool, List, Option, Result, String, [], err, false, if◌then◌else◌, none, ok, some, true, ℕ, ◌∷◌,
}
use forgeci.Compiler.{compiled, cycle, compile}
use forgeci.Config.{Pipeline}
use forgeci.Runner.{ended, going, Outcome, Progress, State, Turn, run_pipeline, succeeded}
use forgeci.Store.Runs.{finish_run, update_job}
use forgeci.Store.Tables.{Db, JobStatus, RunRow, RunStatus}

unfoldable pub end_status : Option String → Progress → RunStatus × Option String
end_status (some text) p = (RunStatus.error, some text)
end_status none p =
    if p.internal_error
    then (RunStatus.error, some "job infrastructure failure")
    else if p.interrupted
    then (RunStatus.canceled, none)
    else if succeeded p
    then (RunStatus.passed, none)
    else (RunStatus.failed, none)

-- An error of the store is only printed.
abbrev pub or_same : Db → Result Db → Db
or_same db (err e) = db
or_same db (ok db') = db'

abbrev pub finish : (now retention run : ℕ) → RunStatus × Option String → Db → Db
finish now retention run outcome db =
    or_same db (finish_run now retention run outcome.0 outcome.1 db)

abbrev pub is_failed_state : State → Bool
is_failed_state State.failed = true
is_failed_state _ = false

abbrev pub or_text : Option String → String → String
or_text none text = text
or_text (some first) text = first

module _ (parse : String → Result Pipeline) where
  -- The observer: each change of a job's state is written, and the first error is kept.
  unfoldable pub observe :
      (run : ℕ) → List (ℕ × String × JobStatus) → Option String × Db → Option String × Db
  observe run [] o = o
  observe run ((now, name, status) ∷ events) (e, db) =
      elim (update_job parse now run name status none db) [
        | ok db' ↦ observe run events (e, db')
        | err reason ↦ observe run events (some (or_text e "update job"), db)
      ]

  -- The jobs that failed get the text of an infrastructure failure.
  unfoldable pub mark_failed : (now run : ℕ) → String → List (String × State) → Db → Db
  mark_failed now run text [] db = db
  mark_failed now run text ((name, state) ∷ states) db =
      if is_failed_state state
      then mark_failed now run text states
          (or_same db (update_job parse now run name JobStatus.failed (some text) db))
      else mark_failed now run text states db

  unfoldable pub mark_internal : (now run : ℕ) → Option String → Progress → Db → Db
  mark_internal now run (some text) p db = db
  mark_internal now run none p db =
      if p.internal_error then mark_failed now run "job infrastructure failure" p.states db else db

  unfoldable pub finish_execution :
      (now retention run : ℕ) → Option String × Db → Outcome → Option Db
  finish_execution now retention run observed (going p) = none
  finish_execution now retention run observed (ended p) = some (
      finish now retention run (end_status observed.0 p)
        (mark_internal now run observed.0 p observed.1))

  -- execute: the faults are what the preparation of the workspace and of the executors meets, the
  -- events the changes that Run reports. A run whose turns are used up is still going.
  unfoldable pub execute :
      (now retention : ℕ) (workspace_fault executor_fault : Option String)
      (events : List (ℕ × String × JobStatus)) (turns : List Turn)
      → RunRow
      → Db
      → Option Db
  execute now retention workspace_fault executor_fault events turns p db = elim workspace_fault [
    | some text ↦ some (finish now retention p.id (RunStatus.error, some text) db)
    | none ↦ elim (parse p.pipeline_yaml) [
      | err e ↦ some (finish now retention p.id (RunStatus.error, some "parse") db)
      | ok cfg ↦ elim (compile cfg) [
        | cycle names ↦ some (finish now retention p.id (RunStatus.error, some "compile") db)
        | compiled g ↦ elim executor_fault [
          | some text ↦ some (finish now retention p.id (RunStatus.error, some text) db)
          | none ↦
              finish_execution now retention p.id (observe p.id events (none, db))
                (run_pipeline g p.max_parallel turns)
        ]
      ]
    ]
  ]
