-- ===== src/Store/Commits/Samples.antt =====
-- A job that uploads one artifact commits it twice.
use forgeci.Base.{
  Result, String, [], codes, none, ok, refl, same_codes, select_first, select_where, some, str_eq,
  true, ◌∷◌, ◌≡◌,
}
use forgeci.BlobStore.{is_digest}
use forgeci.Config.{Job, Pipeline, find_job}
use forgeci.Config.Paths.{add_code, base, elements, last_element}
use forgeci.Store.Commits.{
  Claimant, are_items, artifacts_of, commit_artifacts, count_names, expected_root, has_root,
  insert_artifacts, is_among, is_item, last_named, may_commit, put_artifacts, same_artifact,
  same_artifact_set,
}
use forgeci.Store.Commits.Repeats.{commit_artifacts-again}
use forgeci.Store.Example.{build_claim, build_job, build_row, busy_db}
use forgeci.Store.Tables.{ArtifactRow, Db, is_job}

abbrev digest : String
digest = "aaaaaaaaaaaaaaaaaaaaaaaaaaaaaaaaaaaaaaaaaaaaaaaaaaaaaaaaaaaaaaaa"

abbrev upload_job : Job
upload_job = record build_job {
  artifacts = record { upload = record { name = "bin"; path = "out/bin" } ∷ []; download = [] };
}

abbrev parse_upload : String → Result Pipeline
parse_upload yaml = ok (record { version = 1; jobs = ("build", upload_job) ∷ [] })

abbrev item : ArtifactRow
item = record {
  run_id = 1;
  producer_job = "build";
  name = "bin";
  root_name = "bin";
  root_kind = "file";
  content_sha256 = digest;
  blob_sha256 = digest;
  format = "artifact-tar-gzip-v1";
  archive_size_bytes = 9;
  logical_size_bytes = 5;
  entry_count = 1;
  created_at = 30;
  expires_at = none;
  deleted_at = none;
}

abbrev stored_db : Db
stored_db = record busy_db { artifacts = item ∷ [] }

item_commits :
    commit_artifacts parse_upload 30 (Claimant.runner build_claim) (item ∷ []) busy_db
    ≡ ok stored_db
unfolding commit_artifacts select_first str_eq may_commit find_job count_names are_items is_item
    has_root expected_root same_codes codes base last_element elements add_code is_digest
    put_artifacts select_where artifacts_of insert_artifacts is_among last_named same_artifact
    same_artifact_set
item_commits = refl

build_found : select_first (is_job 1 "build") busy_db.jobs ≡ some build_row
unfolding select_first str_eq
build_found = refl

build_holds : may_commit 31 (Claimant.runner build_claim) build_row ≡ true
unfolding may_commit
build_holds = refl

commit_artifacts-again_example :
    commit_artifacts parse_upload 31 (Claimant.runner build_claim) (item ∷ []) stored_db
    ≡ ok stored_db
commit_artifacts-again_example =
    commit_artifacts-again parse_upload 30 31 (Claimant.runner build_claim) (item ∷ []) busy_db
      build_row item_commits build_found build_holds
