-- ===== src/Store/Leasing.antt =====
-- internal/store/postgres/jobs.go, LeaseJob: a runner takes the next job that is ready. `now` is
-- now() in the transaction, `clock` the time that the Go code reads, `parse` is config.ParseBytes,
-- `lease` the fresh uuid, and `skip` says which rows other transactions hold locked.
pub mod Readiness
use forgeci.Base.{
  ℕ, String, ◌+◌, ◌==◌, ltb, leb, if◌then◌else◌, Bool, true, false, not, ◌&&◌, ◌||◌, Option, none,
  some, List, [], ◌∷◌, ◌++◌, map, is_some, opt_is, opt_until, or_else, str_eq, str_lt, update_where,
  count_where, rows_affected, select_first, select_where, select_least, Result, ok, err, ◌>>=◌,
  ◌>>◌, guard, or_fail, not_found, conflict, no_rows, refused,
}
use forgeci.Config.{Pipeline, find_job}
use forgeci.Config
use forgeci.Store.Tables.{
  Db, RunRow, JobRow, RunnerRow, SnapshotRow, RunStatus, JobStatus, RunnerStatus, is_queued,
  is_executing, is_open, is_pending, is_running, is_passed, is_unfinished, is_job,
}
use forgeci.Store.Settle.{has_upstream, block_dependents, finalize_run, expire_artifacts_of, in_run}
use forgeci.Store.Ownership.{job_lease_ttl, Ownership, owns, artifact_set_committed}

pub record JobDefinition : Type 0 where
  pub image : Option String
  pub steps : List String
  pub uploads : List Config.ArtifactUpload
  pub downloads : List Config.ArtifactDownload
  pub cache_restore : List Config.CacheEntry
  pub cache_save : List Config.CacheEntry

pub record JobLease : Type 0 where
  pub run_id : ℕ
  pub job_name : String
  pub runner_id : ℕ
  pub lease_id : ℕ
  pub generation : ℕ
  pub expires_at : ℕ
  pub job : JobDefinition
  pub snapshot : SnapshotRow

abbrev pub no_column {ℓ} : {A : Type ℓ} → Option A → Bool
no_column none = true
no_column (some _) = false

abbrev pub is_online : RunnerStatus → Bool
is_online RunnerStatus.online = true
is_online RunnerStatus.offline = false

-- `SELECT count(*) FROM job_runs WHERE runner_id=$1 AND status='RUNNING'`.
abbrev pub runs_on : ℕ → JobRow → Bool
runs_on runner j = opt_is j.runner_id runner && is_running j.status

-- `pipeline_runs p JOIN job_runs j ON j.run_id=p.id`.
unfoldable pub join_jobs : List RunRow → List JobRow → List (RunRow × JobRow)
join_jobs [] jobs = []
join_jobs (p ∷ ps) jobs =
    map (λ j. (p, j)) (select_where (λ j. j.run_id == p.id) jobs) ++ join_jobs ps jobs

unfoldable pub snapshot_of : RunRow → Db → Option SnapshotRow
snapshot_of p db = elim p.source_digest [
  | none ↦ none
  | some digest ↦ select_first (λ s. str_eq s.source_digest digest) db.snapshots
]

abbrev pub is_unpassed : JobStatus → Bool
is_unpassed s = not (is_passed s)

-- The WHERE clause of the query for the next job.
unfoldable pub is_leasable : Bool → (ℕ → String → Bool) → Db → RunRow × JobRow → Bool
is_leasable docker skip db (p, j) =
    (is_open p.status && (no_column p.cancel_requested_at && is_pending j.status))
    && ((docker || no_column j.image)
        && (not (has_upstream is_unpassed db j)
            && (ltb (count_where (in_run p.id is_running) db.jobs) p.max_parallel
                && (is_some (snapshot_of p db) && not (skip p.id j.job_name)))))

-- ORDER BY p.created_at,p.id,j.job_name.
unfoldable pub leases_before : RunRow × JobRow → RunRow × JobRow → Bool
leases_before (p, j) (q, k) =
    ltb p.created_at q.created_at
    || ((p.created_at == q.created_at)
        && (ltb p.id q.id || ((p.id == q.id) && str_lt j.job_name k.job_name)))

unfoldable pub next_job : Bool → (ℕ → String → Bool) → Db → Option (RunRow × JobRow)
next_job docker skip db =
    select_least leases_before
      (select_where (is_leasable docker skip db) (join_jobs db.runs db.jobs))

abbrev pub is_pending_job : ℕ → String → JobRow → Bool
is_pending_job run name j = is_job run name j && is_pending j.status

unfoldable pub start_lease : (now expires runner lease : ℕ) → JobRow → JobRow
start_lease now expires runner lease j = record j {
  status = JobStatus.running;
  runner_id = some runner;
  lease_id = some lease;
  lease_generation = j.lease_generation + 1;
  lease_expires_at = some expires;
  started_at = or_else j.started_at now;
  finished_at = none;
  error_message = none;
}

unfoldable pub start_run : ℕ → RunRow → RunRow
start_run now p = record p { status = RunStatus.running; started_at = or_else p.started_at now }

unfoldable pub define_job : Config.Job → JobDefinition
define_job job = record {
  image = job.image;
  steps = map (λ s. s.run) job.steps;
  uploads = job.artifacts.upload;
  downloads = job.artifacts.download;
  cache_restore = job.cache.restore;
  cache_save = job.cache.save;
}

unfoldable pub take_lease : (now expires runner lease run : ℕ) → String → Db → Db
take_lease now expires runner lease run name db = record db {
  jobs = update_where (is_pending_job run name) (start_lease now expires runner lease) db.jobs;
  runs = update_where (λ p. (p.id == run) && is_queued p.status) (start_run now) db.runs;
}

module _ (parse : String → Result Pipeline) where
  unfoldable pub lease_to :
      (clock now runner lease : ℕ) → RunRow × JobRow → Db → Result (Option JobLease × Db)
  lease_to clock now runner lease (p, j) db = do
    cfg ← parse p.pipeline_yaml
    job ← or_fail (find_job j.job_name cfg.jobs) (refused "leased job missing from pipeline")
    guard (rows_affected (is_pending_job p.id j.job_name) db.jobs == 1) conflict
    let expires = clock + job_lease_ttl
    let db' = take_lease now expires runner lease p.id j.job_name db
    row ← or_fail (select_first (is_job p.id j.job_name) db'.jobs) no_rows
    snapshot ← or_fail (snapshot_of p db) no_rows
    ok (
      some (record {
        run_id = p.id;
        job_name = j.job_name;
        runner_id = runner;
        lease_id = lease;
        generation = row.lease_generation;
        expires_at = expires;
        job = define_job job;
        snapshot = snapshot;
      }),
      db',
    )

  unfoldable pub lease_found :
      (clock now runner lease : ℕ) → Option (RunRow × JobRow) → Db → Result (Option JobLease × Db)
  lease_found clock now runner lease none db = ok (none, db)
  lease_found clock now runner lease (some c) db = lease_to clock now runner lease c db

  unfoldable pub lease_job :
      (clock now : ℕ)
      → (ℕ → String → Bool)
      → (lease runner : ℕ) → Db
      → Result (Option JobLease × Db)
  lease_job clock now skip lease runner db = do
    r ← or_fail (select_first (λ r. r.id == runner) db.runners) not_found
    guard ((r.protocol_version == 2) && is_online r.status) conflict
    if leb r.max_parallel (count_where (runs_on runner) db.jobs)
        then ok (none, db)
        else lease_found clock now runner lease (next_job r.docker_available skip db) db
