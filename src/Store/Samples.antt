-- ===== src/Store/Samples.antt =====
-- The theorems on the store at the rows of Store/Example.
use mathlib.Core.List.{Memᴰ}
use forgeci.Base.{
  All, [], arith, conflict, count_where, err, false, keep_least, none, not_found, ok, refl,
  select_first, select_least, select_where, some, sort_names, str_eq, subst, sym, update_where, ◌<◌,
  ◌==◌, ◌↔◌, ◌∷◌, ◌≡◌, ◌⊎◌,
}
use forgeci.Config.{find_job}
use forgeci.Store.Artifacts.{get_artifact_for_lease}
use forgeci.Store.Artifacts.Access.{get_artifact-fenced}
use forgeci.Store.Example.{
  build_claim, build_row, busy_db, busy_db-UniqueJobs, parse_any, run_row, test_row,
}
use forgeci.Store.Jobs.{
  abort_job, beat, complete_job, contains, end_job, expire_job_leases, lose_runner, may_complete,
  owned_pipeline, runs_of, settle_dependents, settle_runs,
}
use forgeci.Store.Jobs.Evolution.{AllEvolve}
use forgeci.Store.Jobs.Fencing.{IsOverOn, completed_once, expired_refused}
use forgeci.Store.Jobs.Keys.{UniqueJobs}
use forgeci.Store.Leasing.{
  JobLease, define_job, is_leasable, join_jobs, lease_found, lease_job, lease_to, next_job, runs_on,
  snapshot_of, start_lease, start_run, take_lease,
}
use forgeci.Store.Leasing.Readiness.{Leases, lease_job-IsReady}
use forgeci.Store.Ownership.{artifact_set_committed, committed_names, owns, same_names}
use forgeci.Store.Settle.{
  block_dependents, block_loop, block_round, close_run, expire_artifacts_of, final_message,
  finalize_idle, finalize_run, has_upstream, is_blockable, mark_blocked, settle, verdict,
  verdict_of,
}
use forgeci.Store.Settle.Blocking.{block_dependents-IsSettled}
use forgeci.Store.Settle.Verdict.{MayPass, finalize_run-passed}
use forgeci.Store.Steps.{Reach-AllEvolve, here, leases, next}
use forgeci.Store.Tables.{
  Db, DependencyRow, JobRow, JobStatus, RunRow, RunStatus, RunnerRow, RunnerStatus,
}

-- After `build` has passed.
abbrev passed_db : Db
passed_db = record busy_db { jobs = end_job 30 JobStatus.passed none build_row ∷ test_row ∷ [] }

passed_db-UniqueJobs : UniqueJobs passed_db.jobs
unfolding str_eq end_job
passed_db-UniqueJobs = ((refl, tt), (tt, tt))

build_completes :
    complete_job parse_any 30 60 build_claim JobStatus.passed none busy_db ≡ ok passed_db
unfolding complete_job owned_pipeline owns str_eq may_complete artifact_set_committed find_job
    settle_dependents finalize_run update_where count_where select_first select_where
    committed_names sort_names same_names end_job
build_completes = refl

abbrev test_lease : JobLease
test_lease = record {
  run_id = 1;
  job_name = "test";
  runner_id = 3;
  lease_id = 8;
  generation = 1;
  expires_at = 61;
  job = record {
    image = none;
    steps = "make" ∷ [];
    uploads = [];
    downloads = [];
    cache_restore = [];
    cache_save = [];
  };
  snapshot = record {
    source_digest = "s";
    blob_digest = "b";
    format = "tar-gzip-v1";
    archive_size_bytes = 1;
    logical_size_bytes = 1;
    entry_count = 1;
  };
}

abbrev leased_db : Db
leased_db = take_lease 31 61 3 8 1 "test" passed_db

test_leased :
    lease_job parse_any 31 31 (λ _ _. false) 8 3 passed_db ≡ ok (some test_lease, leased_db)
unfolding lease_job lease_found lease_to next_job is_leasable join_jobs snapshot_of has_upstream
    select_first select_where select_least keep_least count_where update_where take_lease
    start_lease start_run end_job str_eq find_job define_job
test_leased = refl

-- The second report of `build`, after `test` was leased, is refused.
completed_once_example :
    (complete_job parse_any 32 60 build_claim JobStatus.failed none leased_db ≡ err conflict)
    × ((beat 32 build_claim leased_db).0.valid ≡ false)
    × ((beat 32 build_claim leased_db).1 ≡ leased_db)
completed_once_example =
    completed_once parse_any busy_db passed_db build_claim 30 60 JobStatus.passed none 32
      JobStatus.failed none busy_db-UniqueJobs build_completes
      (next here (leases 31 31 (λ _ _. false) 8 3 test_leased))

lease_job-IsReady_example :
    (r : RunnerRow) × (select_first (λ r. r.id == 3) passed_db.runners ≡ some r)
    × (r.protocol_version ≡ 2)
    × (r.status ≡ RunnerStatus.online)
    × (count_where (runs_on 3) passed_db.jobs < r.max_parallel)
    × Leases 3 8 passed_db test_lease
lease_job-IsReady_example =
    lease_job-IsReady parse_any 31 31 (λ _ _. false) 8 3 passed_db test_leased

Reach-AllEvolve_example : AllEvolve passed_db.jobs leased_db.jobs × UniqueJobs leased_db.jobs
Reach-AllEvolve_example =
    Reach-AllEvolve parse_any passed_db-UniqueJobs
      (next here (leases 31 31 (λ _ _. false) 8 3 test_leased))

-- The lease of `build` is over at 50.
abbrev expired_db : Db
expired_db = record busy_db {
  jobs = abort_job 50 "job lease expired" build_row ∷ mark_blocked 50 test_row ∷ [];
  runs = close_run 50 RunStatus.aborted run_row ∷ [];
}

build_expires : expire_job_leases (λ runs. runs) 50 50 60 busy_db ≡ ok expired_db
unfolding expire_job_leases runs_of contains settle_runs block_dependents block_loop block_round
    is_blockable mark_blocked has_upstream finalize_run finalize_idle settle expire_artifacts_of
    verdict_of verdict final_message close_run abort_job update_where count_where select_first
    select_where str_eq lose_runner
build_expires = refl

expired_refused_example :
    (complete_job parse_any 51 60 build_claim JobStatus.passed none expired_db ≡ err conflict)
    × ((beat 51 build_claim expired_db).0.valid ≡ false)
    × ((beat 51 build_claim expired_db).1 ≡ expired_db)
unfolding str_eq
expired_refused_example =
    expired_refused parse_any busy_db expired_db (λ runs. runs) 50 build_claim 50 60 51
      JobStatus.passed none busy_db-UniqueJobs over build_expires here
  where
    over : All (IsOverOn 50 build_claim) busy_db.jobs
    over = ((λ _. (omega arith, λ _. refl)), ((λ key. absurd (cc)), tt))

-- `build` has failed, so `test` is blocked; `deploy` needs `lint`, which has passed.
abbrev lint_row : JobRow
lint_row = record build_row { job_name = "lint"; status = JobStatus.passed }

abbrev deploy_row : JobRow
deploy_row = record test_row { job_name = "deploy" }

abbrev deploy_needs : DependencyRow
deploy_needs = record { run_id = 1; job_name = "deploy"; depends_on = "lint" }

abbrev failed_db : Db
failed_db = record busy_db {
  jobs = record build_row { status = JobStatus.failed } ∷ test_row ∷ lint_row ∷ deploy_row ∷ [];
  dependencies = deploy_needs ∷ record { run_id = 1; job_name = "test"; depends_on = "build" } ∷ [];
}

abbrev blocked_db : Db
blocked_db = record failed_db {
  jobs =
      record build_row { status = JobStatus.failed }
      ∷ mark_blocked 50 test_row
      ∷ lint_row
      ∷ deploy_row
      ∷ [];
}

test_blocked : block_dependents 50 1 failed_db ≡ blocked_db
unfolding block_dependents block_loop block_round is_blockable has_upstream mark_blocked
    update_where count_where str_eq
test_blocked = refl

block_dependents-IsSettled_example :
    (lint_row.status ≡ JobStatus.pending)
    ⊎ ((lint_row.status ≡ JobStatus.running) ⊎ (lint_row.status ≡ JobStatus.passed))
block_dependents-IsSettled_example =
    block_dependents-IsSettled 50 1 failed_db deploy_row lint_row deploy_needs
      (subst (λ db. Memᴰ deploy_row db.jobs) (sym test_blocked)
        (Memᴰ.tail (Memᴰ.tail (Memᴰ.tail (Memᴰ.head refl)))))
      refl refl
      (subst (λ db. Memᴰ deploy_needs db.dependencies) (sym test_blocked) (Memᴰ.head refl)) refl
      refl
      (subst (λ db. Memᴰ lint_row db.jobs) (sym test_blocked)
        (Memᴰ.tail (Memᴰ.tail (Memᴰ.head refl))))
      refl refl

-- A run whose one job was canceled though nobody asked for it.
abbrev stopped_db : Db
stopped_db = record busy_db { jobs = record build_row { status = JobStatus.canceled } ∷ [] }

abbrev stopped_after : Db
stopped_after = record stopped_db { runs = close_run 60 RunStatus.passed run_row ∷ [] }

stopped_passes : finalize_run 60 60 1 stopped_db ≡ ok stopped_after
unfolding finalize_run finalize_idle settle expire_artifacts_of verdict_of verdict final_message
    close_run update_where count_where select_first
stopped_passes = refl

finalize_run-passed_example :
    (q : RunRow) × (select_first (λ p. p.id == 1) stopped_after.runs ≡ some q)
    × ((q.status ≡ RunStatus.passed) ↔ MayPass 1 run_row stopped_db)
unfolding select_first
finalize_run-passed_example =
    finalize_run-passed 60 60 1 stopped_db run_row refl refl stopped_passes

get_artifact-fenced_example :
    get_artifact_for_lease 32 build_claim "lib" "bin" passed_db ≡ err not_found
get_artifact-fenced_example =
    get_artifact-fenced parse_any busy_db passed_db build_claim 30 60 JobStatus.passed none 32 "lib"
      "bin" busy_db-UniqueJobs build_completes here
