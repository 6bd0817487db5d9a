-- ===== src/Store/Artifacts/Samples.antt =====
-- Two artifacts with one blob, of which one has lapsed: the theorem on ExpireArtifacts at them.
use forgeci.Base.{
  [], any, if◌then◌else◌, insert_name, map, none, not, refl, select_where, some, sort_names, str_eq,
  update_where, ◌&&◌, ◌∷◌, ◌≡◌,
}
use forgeci.Store.Artifacts.{blobs_of, delete_artifact, expire_artifacts, not_live}
use forgeci.Store.Artifacts.Blobs.{expire_artifacts-exact, is_due, is_kept}
use forgeci.Store.Tables.{ArtifactRow, Db}

abbrev lapsed : ArtifactRow
lapsed = record {
  run_id = 1;
  producer_job = "build";
  name = "bin";
  root_name = "bin";
  root_kind = "file";
  content_sha256 = "c1";
  blob_sha256 = "b1";
  format = "artifact-tar-gzip-v1";
  archive_size_bytes = 10;
  logical_size_bytes = 20;
  entry_count = 1;
  created_at = 0;
  expires_at = some 10;
  deleted_at = none;
}

abbrev kept : ArtifactRow
kept = record lapsed { run_id = 2; expires_at = none }

abbrev alone : ArtifactRow
alone = record lapsed { name = "log"; blob_sha256 = "b2" }

abbrev artifact_db : Db
artifact_db = record {
  runs = [];
  jobs = [];
  dependencies = [];
  runners = [];
  artifacts = lapsed ∷ kept ∷ alone ∷ [];
  snapshots = [];
}

expire_artifacts-exact_example :
    ((expire_artifacts 20 artifact_db).1 ≡ record artifact_db {
      artifacts =
          map
            (λ a. if is_due 20 a then record a { deleted_at = some 20 } else a)
            artifact_db.artifacts;
    })
    × (any (λ n. str_eq n "b2") (expire_artifacts 20 artifact_db).0 ≡ (
        any (λ a. str_eq a.blob_sha256 "b2" && is_due 20 a) artifact_db.artifacts
        && not (any (λ a. str_eq a.blob_sha256 "b2" && is_kept 20 a) artifact_db.artifacts)))
expire_artifacts-exact_example = expire_artifacts-exact 20 artifact_db "b2"

-- The blob that the other run still needs stays.
only_the_second : (expire_artifacts 20 artifact_db).0 ≡ "b2" ∷ []
unfolding expire_artifacts sort_names not_live blobs_of select_where str_eq update_where
    delete_artifact insert_name
only_the_second = refl
