-- ===== src/Control.antt =====
-- internal/controlplane/manager.go: the manager of the control plane, which submits and cancels runs.
-- The file system, the capture of a snapshot and the new id are parameters. An InputError is a
-- `refused`.
pub mod Submission
pub mod Running
pub mod Execution
mod Samples
use forgeci.Base.{
  Bool, Codes, Error, List, Option, Result, String, [], any, codes, conflict, err, false, guard,
  has_prefix, if◌then◌else◌, is_control, map, none, not, ok, opt_is, or_fail, refused, same_codes,
  some, str_eq, ℕ, ◌++◌, ◌==◌, ◌>>=◌, ◌>>◌, ◌||◌, ◌∷◌,
}
use forgeci.Compiler.{Compiled, Graph, compile, compiled, cycle, find_node}
use forgeci.Config.{Pipeline}
use forgeci.Config.Paths.{clean, dot_dot, is_abs, join, slash}
use forgeci.Protocol.Files.{source}
use forgeci.Store.Commits.{get_run}
use forgeci.Store.Creation.{NewRun, create_run}
use forgeci.Store.Runs.{cancel_queued, request_cancel}
use forgeci.Store.Tables.{Db, JobRow, RunRow, RunStatus, SnapshotRow}

-- filepath.Rel from one clean absolute path to another is ".." or starts with "../" just if the
-- second is not below the first.
unfoldable pub is_below : Codes → Codes → Bool
is_below root path =
    same_codes root path || (same_codes root (slash ∷ []) || has_prefix (root ++ slash ∷ []) path)

-- What the file system holds: EvalSymlinks, ReadFile.
pub record Files : Type 0 where
  pub resolve : Codes → Option Codes
  pub read : Codes → Option String

unfoldable pub safe_pipeline_path : Files → (workspace : Codes) → String → Result Codes
safe_pipeline_path files workspace name = do
  guard (not (str_eq name "" || (is_abs (codes name) || any is_control (codes name))))
      (refused "pipeline_file must be a safe relative path")
  let target = clean (codes name)
  guard (not (same_codes target dot_dot || has_prefix (dot_dot ++ slash ∷ []) target))
      (refused "pipeline_file escapes workspace")
  resolved ← or_fail (files.resolve (join workspace target)) (refused "resolve pipeline_file")
  guard (is_below workspace resolved) (refused "pipeline_file escapes workspace")
  ok resolved

-- The job that a name of the order stands for, with its image and its needs.
unfoldable pub jobs_in_order : Graph → List String → List (String × Option String)
jobs_in_order g [] = []
jobs_in_order g (n ∷ names) = elim (find_node n g.nodes) [
  | none ↦ (n, none) ∷ jobs_in_order g names
  | some node ↦ (n, node.job.image) ∷ jobs_in_order g names
]

unfoldable pub needs_in_order : Graph → List String → List (String × String)
needs_in_order g [] = []
needs_in_order g (n ∷ names) = elim (find_node n g.nodes) [
  | none ↦ needs_in_order g names
  | some node ↦ map (λ d. (n, d)) node.job.needs ++ needs_in_order g names
]

abbrev pub wanted_file : String → String
wanted_file file = if str_eq file "" then "forge.yaml" else file

-- 0 is the default of the request; a number below 0 is refused there.
abbrev pub wanted_parallel : ℕ → ℕ
wanted_parallel n = if n == 0 then 1 else n

abbrev pub compiled_graph : Compiled → Result Graph
compiled_graph (compiled g) = ok g
compiled_graph (cycle names) = err (refused "compile pipeline")

-- What Submit hands to CreateRun. Without a snapshot, which a manager with no snapshot store does not
-- take, CreateRun refuses the run.
unfoldable pub prepare_run :
    (parse : String → Result Pipeline) (files : Files) (workspace : String) (id : ℕ)
    (capture : Option SnapshotRow)
    → String
    → ℕ
    → Result NewRun
prepare_run parse files workspace id capture file max_parallel = do
  path ← safe_pipeline_path files (codes workspace) (wanted_file file)
  text ← or_fail (files.read path) (refused "read pipeline")
  cfg ← parse text
  g ← compiled_graph (compile cfg)
  s ← or_fail capture (refused "capture source snapshot")
  ok (record {
    id = id;
    pipeline_file = wanted_file file;
    pipeline_yaml = text;
    workspace = workspace;
    max_parallel = wanted_parallel max_parallel;
    snapshot = some s;
    jobs = jobs_in_order g g.order;
    dependencies = needs_in_order g g.order;
  })

unfoldable pub submit :
    (parse : String → Result Pipeline) (files : Files) (workspace : String) (id now : ℕ)
    (capture : Option SnapshotRow)
    → String
    → ℕ
    → Db
    → Result ((RunRow × List JobRow) × Db)
submit parse files workspace id now capture file max_parallel db = do
  given ← prepare_run parse files workspace id capture file max_parallel
  db' ← create_run now given db
  run ← get_run id db'
  ok (run, db')

-- What Cancel returns, and whether it canceled the context of the run that the server executes.
pub record Canceled : Type 0 where
  pub status : Option RunStatus
  pub error : Option Error
  pub db : Db
  pub stopped : Bool

abbrev pub requested : (run : ℕ) (active : Option ℕ) → Db → Option RunStatus × Result Db → Canceled
requested run active db (status, err e) = record {
  status = status;
  error = some e;
  db = db;
  stopped = false;
}
requested run active db (status, ok db') = record {
  status = status;
  error = none;
  db = db';
  stopped = opt_is active run;
}

abbrev pub canceled_queued : Db → Result Db → Canceled
canceled_queued db (err e) = record { status = none; error = some e; db = db; stopped = false }
canceled_queued db (ok db') = record {
  status = some RunStatus.canceled;
  error = none;
  db = db';
  stopped = false;
}

-- Cancel; `active` is the run that the server executes itself.
unfoldable pub cancel : (now retention run : ℕ) (active : Option ℕ) → Db → Canceled
cancel now retention run active db = elim (get_run run db) [
  | err e ↦ record { status = none; error = some e; db = db; stopped = false }
  | ok (p, jobs) ↦ elim p.status [
    | RunStatus.queued ↦ canceled_queued db (cancel_queued now run db)
    | RunStatus.running ↦ requested run active db (request_cancel now retention run db)
    | _ ↦ record { status = some p.status; error = some conflict; db = db; stopped = false }
  ]
]
