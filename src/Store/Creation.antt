-- ===== src/Store/Creation.antt =====
-- internal/store/postgres/postgres.go: CreateRun and ListRuns. The constraints of the tables in
-- migrations/ that an INSERT may break are guards; the form of the digests is not checked here.
-- `now` is now().
pub mod Lookup
use forgeci.Base.{
  Bool, List, Option, Result, String, [], any, err, guard, if◌then◌else◌, ltb, no_rows, none, not,
  ok, or_fail, refused, select_first, some, str_eq, take, ℕ, ◌&&◌, ◌++◌, ◌==◌, ◌>>=◌, ◌>>◌, ◌||◌,
  ◌∷◌,
}
use forgeci.Protocol.Files.{source}
use forgeci.Store.Tables.{
  Db, DependencyRow, JobRow, JobStatus, RunRow, RunStatus, SnapshotRow, is_job,
}

pub record NewRun : Type 0 where
  pub id : ℕ
  pub pipeline_file : String
  pub pipeline_yaml : String
  pub workspace : String
  pub max_parallel : ℕ
  pub snapshot : Option SnapshotRow
  pub jobs : List (String × Option String)
  pub dependencies : List (String × String)

-- ON CONFLICT(source_digest) DO NOTHING.
unfoldable pub add_snapshot : SnapshotRow → List SnapshotRow → List SnapshotRow
add_snapshot s rows =
    if any (λ x. str_eq x.source_digest s.source_digest) rows then rows else rows ++ s ∷ []

unfoldable pub same_snapshot : SnapshotRow → SnapshotRow → Bool
same_snapshot x y =
    str_eq x.blob_digest y.blob_digest
    && (str_eq x.format y.format
        && ((x.archive_size_bytes == y.archive_size_bytes)
            && ((x.logical_size_bytes == y.logical_size_bytes)
                && (x.entry_count == y.entry_count))))

abbrev pub queued_run : ℕ → NewRun → SnapshotRow → RunRow
queued_run now given s = record {
  id = given.id;
  status = RunStatus.queued;
  pipeline_file = given.pipeline_file;
  pipeline_yaml = given.pipeline_yaml;
  workspace = given.workspace;
  source_digest = some s.source_digest;
  max_parallel = given.max_parallel;
  created_at = now;
  started_at = none;
  finished_at = none;
  cancel_requested_at = none;
  error_message = none;
  runner_id = none;
  lease_id = none;
  lease_generation = 0;
  lease_expires_at = none;
  effective_parallel = none;
}

abbrev pub pending_job : ℕ → String × Option String → JobRow
pending_job run given = record {
  run_id = run;
  job_name = given.0;
  status = JobStatus.pending;
  image = given.1;
  started_at = none;
  finished_at = none;
  error_message = none;
  runner_id = none;
  lease_id = none;
  lease_generation = 0;
  lease_expires_at = none;
}

unfoldable pub insert_jobs : ℕ → List (String × Option String) → List JobRow → Result (List JobRow)
insert_jobs run [] rows = ok rows
insert_jobs run (given ∷ more) rows =
    if any (is_job run given.0) rows
    then err (refused "insert job")
    else insert_jobs run more (rows ++ pending_job run given ∷ [])

-- The primary key, the foreign keys and the CHECK of job_dependencies.
unfoldable pub may_depend : ℕ → List JobRow → List DependencyRow → String × String → Bool
may_depend run jobs rows given =
    not (str_eq given.0 given.1)
    && (any (is_job run given.0) jobs
        && (any (is_job run given.1) jobs
            && not (
                any
                  (λ d.
                    (d.run_id == run) && (str_eq d.job_name given.0 && str_eq d.depends_on given.1))
                  rows)))

unfoldable pub insert_dependencies :
    ℕ → List JobRow → List (String × String) → List DependencyRow → Result (List DependencyRow)
insert_dependencies run jobs [] rows = ok rows
insert_dependencies run jobs (given ∷ more) rows =
    if may_depend run jobs rows given
    then insert_dependencies run jobs more
        (rows ++ record { run_id = run; job_name = given.0; depends_on = given.1 } ∷ [])
    else err (refused "insert dependency")

unfoldable pub create_run : ℕ → NewRun → Db → Result Db
create_run now given db = do
  s ← or_fail given.snapshot (refused "source snapshot is required for new runs")
  let snapshots = add_snapshot s db.snapshots
  stored ← or_fail (select_first (λ x. str_eq x.source_digest s.source_digest) snapshots) no_rows
  guard (same_snapshot stored s) (refused "conflicting source snapshot metadata")
  guard (not (any (λ p. p.id == given.id) db.runs) && ltb 0 given.max_parallel)
      (refused "insert run")
  jobs ← insert_jobs given.id given.jobs db.jobs
  dependencies ← insert_dependencies given.id jobs given.dependencies db.dependencies
  ok (record db {
    runs = db.runs ++ queued_run now given s ∷ [];
    jobs = jobs;
    dependencies = dependencies;
    snapshots = snapshots;
  })

-- ORDER BY p.created_at DESC,p.id DESC LIMIT: the latest of the rows, then the rest.
unfoldable pub runs_after : RunRow → RunRow → Bool
runs_after p q = ltb q.created_at p.created_at || ((p.created_at == q.created_at) && ltb q.id p.id)

unfoldable pub insert_latest : RunRow → List RunRow → List RunRow
insert_latest p [] = p ∷ []
insert_latest p (q ∷ qs) = if runs_after p q then p ∷ q ∷ qs else q ∷ insert_latest p qs

unfoldable pub latest_first : List RunRow → List RunRow
latest_first [] = []
latest_first (p ∷ ps) = insert_latest p (latest_first ps)

unfoldable pub list_runs : (limit : ℕ) → Db → List RunRow
list_runs limit db = take limit (latest_first db.runs)
