-- ===== src/Store/Commits.antt =====
-- internal/store/postgres/postgres.go: GetRun, CommitArtifacts and sameArtifactSet. A claim without a
-- runner is that of the server itself. The checks of sizes below 0 are left out, as a natural number
-- is not.
pub mod Repeats
mod Samples
use forgeci.Base.{
  Bool, Codes, List, Option, Result, String, [], all, any, codes, conflict, err, false, guard,
  if◌then◌else◌, leb, length, map, none, not, not_found, ok, opt_after, opt_is, or_fail, same_codes,
  select_first, select_where, some, str_eq, true, ℕ, ◌&&◌, ◌++◌, ◌+◌, ◌==◌, ◌>>=◌, ◌>>◌, ◌||◌, ◌∷◌,
}
use forgeci.BlobStore.{is_digest}
use forgeci.Config.{ArtifactUpload, Pipeline, find_job}
use forgeci.Config.Paths.{base}
use forgeci.Store.Ownership.{Ownership}
use forgeci.Store.Tables.{ArtifactRow, Db, JobRow, RunRow, is_executing, is_job, is_running}

-- The rows of one run; ORDER BY job_name is left out, as each name stands once.
unfoldable pub get_run : ℕ → Db → Result (RunRow × List JobRow)
get_run run db = do
  p ← or_fail (select_first (λ p. p.id == run) db.runs) not_found
  ok (p, select_where (λ j. j.run_id == run) db.jobs)

-- store.ArtifactOwnership with an empty runner id.
pub data Claimant : Type 0 where
  server : (run_id : ℕ) → String → Claimant
  runner : Ownership → Claimant

abbrev pub run_of : Claimant → ℕ
run_of (server run name) = run
run_of (runner o) = o.run_id

abbrev pub job_of : Claimant → String
job_of (server run name) = name
job_of (runner o) = o.job_name

-- `$2='' OR (..)`, for the row of the job.
unfoldable pub may_commit : ℕ → Claimant → JobRow → Bool
may_commit now (server run name) j = true
may_commit now (runner o) j =
    opt_is j.runner_id o.runner_id
    && (opt_is j.lease_id o.lease_id
        && ((j.lease_generation == o.generation) && opt_after j.lease_expires_at now))

-- `expected[item.Name]`: a later upload of a name replaces an earlier one.
unfoldable pub expected_root : String → List ArtifactUpload → Option Codes
expected_root name [] = none
expected_root name (u ∷ uploads) = elim (expected_root name uploads) [
  | some root ↦ some root
  | none ↦ if str_eq u.name name then some (base (codes u.path)) else none
]

-- `len(expected)`.
unfoldable pub count_names : List ArtifactUpload → ℕ
count_names [] = 0
count_names (u ∷ uploads) =
    (if any (λ v. str_eq v.name u.name) uploads then 0 else 1) + count_names uploads

unfoldable pub has_root : Option Codes → String → Bool
has_root none name = false
has_root (some root) name = same_codes (codes name) root

unfoldable pub is_item : Claimant → List ArtifactUpload → ArtifactRow → Bool
is_item c uploads a =
    has_root (expected_root a.name uploads) a.root_name
    && (str_eq a.producer_job (job_of c)
        && ((a.run_id == run_of c)
            && (is_digest a.content_sha256
                && (is_digest a.blob_sha256
                    && (str_eq a.format "artifact-tar-gzip-v1"
                        && ((str_eq a.root_kind "file" || str_eq a.root_kind "directory")
                            && leb 1 a.entry_count))))))

unfoldable pub are_items :
    Claimant → List ArtifactUpload → (seen : List String) → List ArtifactRow → Bool
are_items c uploads seen [] = true
are_items c uploads seen (a ∷ items) =
    (is_item c uploads a && not (any (λ n. str_eq n a.name) seen))
    && are_items c uploads (a.name ∷ seen) items

unfoldable pub same_artifact : ArtifactRow → ArtifactRow → Bool
same_artifact x y =
    str_eq x.root_name y.root_name
    && (str_eq x.root_kind y.root_kind
        && (str_eq x.content_sha256 y.content_sha256
            && (str_eq x.blob_sha256 y.blob_sha256
                && (str_eq x.format y.format
                    && ((x.archive_size_bytes == y.archive_size_bytes)
                        && ((x.logical_size_bytes == y.logical_size_bytes)
                            && (x.entry_count == y.entry_count)))))))

-- `byName[x.Name]`.
unfoldable pub last_named : String → List ArtifactRow → Option ArtifactRow
last_named name [] = none
last_named name (y ∷ ys) = elim (last_named name ys) [
  | some z ↦ some z
  | none ↦ if str_eq y.name name then some y else none
]

unfoldable pub is_among : List ArtifactRow → ArtifactRow → Bool
is_among b x = elim (last_named x.name b) [ none ↦ false | some y ↦ same_artifact x y ]

unfoldable pub same_artifact_set : List ArtifactRow → List ArtifactRow → Bool
same_artifact_set a b = (length a == length b) && all (is_among b) a

unfoldable pub artifacts_of : ℕ → String → Db → List ArtifactRow
artifacts_of run job db =
    select_where (λ a. (a.run_id == run) && str_eq a.producer_job job) db.artifacts

abbrev pub without_expiry : ArtifactRow → ArtifactRow
without_expiry a = record a { expires_at = none; deleted_at = none }

-- INSERT for each item; a row starts without an expiry.
unfoldable pub insert_artifacts : List ArtifactRow → Db → Db
insert_artifacts items db = record db { artifacts = db.artifacts ++ map without_expiry items }

unfoldable pub put_artifacts : List ArtifactRow → List ArtifactRow → Db → Result Db
put_artifacts [] items db = ok (insert_artifacts items db)
put_artifacts (a ∷ existing) items db =
    if same_artifact_set (a ∷ existing) items then ok db else err conflict

module _ (parse : String → Result Pipeline) where
  unfoldable pub commit_artifacts : ℕ → Claimant → List ArtifactRow → Db → Result Db
  commit_artifacts now c items db = do
    p ← or_fail (select_first (λ p. (p.id == run_of c) && is_executing p.status) db.runs) not_found
    j ← or_fail (select_first (is_job (run_of c) (job_of c)) db.jobs) not_found
    guard (may_commit now c j && is_running j.status) conflict
    cfg ← parse p.pipeline_yaml
    job ← or_fail (find_job (job_of c) cfg.jobs) not_found
    guard (length items == count_names job.artifacts.upload) conflict
    guard (are_items c job.artifacts.upload [] items) conflict
    put_artifacts (artifacts_of (run_of c) (job_of c) db) items db
