-- ===== src/Store/Ownership.antt =====
-- internal/store/postgres/jobs.go and internal/store/store.go: a runner's claim on a job, and
-- artifactSetCommittedTx. `parse` is config.ParseBytes. ORDER BY name is taken to order as Go does.
use forgeci.Base.{
  Bool, List, Result, String, [], false, map, not_found, ok, opt_after, opt_is, or_fail,
  select_where, sort_names, str_eq, true, ℕ, ◌&&◌, ◌==◌, ◌>>=◌, ◌∷◌,
}
use forgeci.Config.{Pipeline, find_job}
use forgeci.Store.Settle.{is_none}
use forgeci.Store.Tables.{Db, JobRow, is_job, is_running}

abbrev pub job_lease_ttl : ℕ
job_lease_ttl = 30

-- store.ArtifactOwnership and store.LeaseHeartbeat: what a runner shows as its claim on a job.
pub record Ownership : Type 0 where
  pub run_id : ℕ
  pub job_name : String
  pub runner_id : ℕ
  pub lease_id : ℕ
  pub generation : ℕ

-- The WHERE clause of CompleteJob and of the heartbeat: the job is running under this lease, which
-- has not expired.
abbrev pub has_lease : Ownership → JobRow → Bool
has_lease o j =
    is_job o.run_id o.job_name j
    && (opt_is j.runner_id o.runner_id
        && (opt_is j.lease_id o.lease_id
            && ((j.lease_generation == o.generation) && is_running j.status)))

unfoldable pub owns : ℕ → Ownership → JobRow → Bool
owns now o j = has_lease o j && opt_after j.lease_expires_at now

-- artifactSetCommittedTx: the sorted names that the job declares are the names of its artifacts.
unfoldable pub same_names : List String → List String → Bool
same_names [] [] = true
same_names [] (_ ∷ _) = false
same_names (_ ∷ _) [] = false
same_names (m ∷ ms) (n ∷ ns) = str_eq m n && same_names ms ns

unfoldable pub committed_names : ℕ → String → Db → List String
committed_names run name db = sort_names (
    map (λ a. a.name)
      (select_where (λ a. (a.run_id == run) && (str_eq a.producer_job name && is_none a.deleted_at))
        db.artifacts))

module _ (parse : String → Result Pipeline) where
  unfoldable pub artifact_set_committed : String → ℕ → String → Db → Result Bool
  artifact_set_committed yaml run name db = do
    cfg ← parse yaml
    job ← or_fail (find_job name cfg.jobs) not_found
    ok (
        same_names (sort_names (map (λ u. u.name) job.artifacts.upload))
          (committed_names run name db))
