-- ===== src/Store/Artifacts.antt =====
-- internal/store/postgres/postgres.go: GetArtifactForLease, GetArtifact, SetArtifactExpiry,
-- ExpireArtifacts and LiveArtifactBlobs. A digest is stored in a char(64) column, which it fills, so
-- the trimming changes nothing.
pub mod Blobs
pub mod Access
mod Samples
use forgeci.Base.{
  Bool, List, Result, String, [], any, if◌then◌else◌, not_found, opt_until, or_fail, select_first,
  select_where, some, sort_names, str_eq, update_where, ℕ, ◌&&◌, ◌==◌, ◌∷◌,
}
use forgeci.Store.Ownership.{Ownership, owns}
use forgeci.Store.Runs.{is_running_run}
use forgeci.Store.Settle.{is_none}
use forgeci.Store.Tables.{ArtifactRow, Db, is_job, is_passed}

abbrev pub is_artifact : ℕ → String → String → ArtifactRow → Bool
is_artifact run producer name a =
    (a.run_id == run) && (str_eq a.producer_job producer && str_eq a.name name)

-- The joins of GetArtifactForLease: the run executes, the consumer holds its lease, the producer has
-- passed, and the consumer depends on it.
unfoldable pub may_read : ℕ → Ownership → String → Db → Bool
may_read now o producer db =
    any (is_running_run o.run_id) db.runs
    && (any (owns now o) db.jobs
        && (any (λ j. is_job o.run_id producer j && is_passed j.status) db.jobs
            && any
                (λ d.
                  (d.run_id == o.run_id)
                  && (str_eq d.job_name o.job_name && str_eq d.depends_on producer))
                db.dependencies))

unfoldable pub get_artifact_for_lease : ℕ → Ownership → String → String → Db → Result ArtifactRow
get_artifact_for_lease now o producer name db =
    or_fail
      (select_first
        (λ a.
          is_artifact o.run_id producer name a
          && (is_none a.deleted_at && may_read now o producer db))
        db.artifacts)
      not_found

unfoldable pub get_artifact : ℕ → String → String → Db → Result ArtifactRow
get_artifact run job name db =
    or_fail (select_first (is_artifact run job name) db.artifacts) not_found

unfoldable pub set_artifact_expiry : (run when : ℕ) → Db → Db
set_artifact_expiry run when db = record db {
  artifacts =
      update_where (λ a. (a.run_id == run) && is_none a.expires_at)
        (λ a. record a { expires_at = some when }) db.artifacts;
}

abbrev pub has_lapsed : ℕ → ArtifactRow → Bool
has_lapsed now a = is_none a.deleted_at && opt_until a.expires_at now

unfoldable pub delete_artifact : ℕ → ArtifactRow → ArtifactRow
delete_artifact now a = record a { deleted_at = some now }

-- A blob that an artifact still needs.
abbrev pub is_live : String → ArtifactRow → Bool
is_live digest a = str_eq a.blob_sha256 digest && is_none a.deleted_at

abbrev pub has_name : String → List String → Bool
has_name n ns = any (λ m. str_eq m n) ns

-- The keys of the map that collects the digests of the rows.
unfoldable pub blobs_of : List ArtifactRow → List String
blobs_of [] = []
blobs_of (a ∷ artifacts) =
    let rest = blobs_of artifacts in
    if has_name a.blob_sha256 rest then rest else a.blob_sha256 ∷ rest

-- The digests that no live artifact needs.
unfoldable pub not_live : List ArtifactRow → List String → List String
not_live artifacts [] = []
not_live artifacts (d ∷ ds) =
    let rest = not_live artifacts ds in if any (is_live d) artifacts then rest else d ∷ rest

unfoldable pub expire_artifacts : ℕ → Db → List String × Db
expire_artifacts now db =
    let after = update_where (has_lapsed now) (delete_artifact now) db.artifacts in
    (
      sort_names (not_live after (blobs_of (select_where (has_lapsed now) db.artifacts))),
      record db { artifacts = after },
    )

unfoldable pub live_artifact_blobs : Db → List String
live_artifact_blobs db = blobs_of (select_where (λ a. is_none a.deleted_at) db.artifacts)
