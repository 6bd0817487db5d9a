-- ===== src/Config/Validation.antt =====
-- internal/config/validation.go: Validate, its loops and the checks of artifacts and caches.
use forgeci.Base.{
  Bool, Codes, List, Option, String, [], any, codes, if◌then◌else◌, length, map, none, not,
  same_codes, some, sort_names, str_eq, suc, ℕ, ◌&&◌, ◌==◌, ◌||◌, ◌∷◌,
}
use forgeci.Config.{
  ArtifactDownload, ArtifactUpload, CacheEntry, Job, Pipeline, Step, find_job, has_job,
}
use forgeci.Config.Checks.{
  conflicting_cache_paths, duplicate_dependency, duplicate_restore_key, unsafe_upload,
  duplicate_save_key, conflicting_destination, duplicate_download, no_jobs, duplicate_upload,
  unsafe_restore_path, no_steps, unknown_dependency, unsafe_destination, not_a_dependency,
  unsafe_save_path, upload_conflict, invalid_restore_key, invalid_job_name, depends_on_itself,
  empty_run, invalid_save_key, invalid_artifact_name, unsupported_version, invalid_image,
  download_conflict, undeclared_artifact, ◌<|>◌, invalid_producer, unknown_producer, Invalid,
  is_artifact_name, is_cache_key, is_image, is_job_name, is_safe_path, is_seen, paths_conflict,
  reject, trim_space,
}
use forgeci.Config.Paths.{base, join}

unfoldable pub validate_image : String → Option String → Option Invalid
validate_image name none = none
validate_image name (some image) = reject (not (is_image (codes image))) (invalid_image name)

unfoldable pub validate_steps : String → ℕ → List Step → Option Invalid
validate_steps name i [] = none
validate_steps name i (s ∷ steps) =
    reject (same_codes (trim_space (codes s.run)) []) (empty_run name i)
    <|> validate_steps name (suc i) steps

unfoldable pub validate_needs :
    String → List (String × Job) → (seen needs : List String) → Option Invalid
validate_needs name jobs seen [] = none
validate_needs name jobs seen (d ∷ ds) =
    reject (str_eq d name) (depends_on_itself name)
    <|> reject (not (has_job d jobs)) (unknown_dependency name d)
    <|> reject (is_seen d seen) (duplicate_dependency name d)
    <|> validate_needs name jobs (d ∷ seen) ds

unfoldable pub validate_uploads :
    String → (seen : List String) → List ArtifactUpload → Option Invalid
validate_uploads job seen [] = none
validate_uploads job seen (item ∷ items) =
    reject (not (is_artifact_name item.name) || str_eq item.name "..")
      (invalid_artifact_name job item.name)
    <|> reject (is_seen item.name seen) (duplicate_upload job item.name)
    <|> reject (not (is_safe_path (codes item.path))) (unsafe_upload job item.name)
    <|> validate_uploads job (item.name ∷ seen) items

-- The first upload of that name, and the last element of its path.
unfoldable pub declared_root : String → List ArtifactUpload → Option Codes
declared_root name [] = none
declared_root name (upload ∷ uploads) =
    if str_eq upload.name name then some (base (codes upload.path)) else declared_root name uploads

-- What the loop over the downloads keeps: the pairs of producer and name, and the targets.
pub record Downloads : Type 0 where
  pub refs : List (String × String)
  pub targets : List Codes

unfoldable pub is_ref : ArtifactDownload → Downloads → Bool
is_ref item seen = any (λ r. str_eq r.0 item.from && str_eq r.1 item.name) seen.refs

unfoldable pub is_target : Codes → Downloads → Bool
is_target target seen = any (λ t. same_codes t target) seen.targets

unfoldable pub validate_target :
    String → ArtifactDownload → Downloads → Option Codes → Option Invalid
validate_target job item seen none = some (undeclared_artifact job item.name)
validate_target job item seen (some root) =
    reject (is_ref item seen) (duplicate_download job item.name)
    <|> reject (is_target (join (codes item.into) root) seen)
        (conflicting_destination job (join (codes item.into) root))

unfoldable pub validate_source :
    String → ArtifactDownload → List String → Downloads → Option Job → Option Invalid
validate_source job item needs seen none = some (unknown_producer job item.name)
validate_source job item needs seen (some producer) =
    reject (not (is_seen item.from needs)) (not_a_dependency job item.name)
    <|> validate_target job item seen (declared_root item.name producer.artifacts.upload)

abbrev pub root_of : Option Codes → Codes
root_of none = []
root_of (some root) = root

abbrev pub uploads_of : Option Job → List ArtifactUpload
uploads_of none = []
uploads_of (some producer) = producer.artifacts.upload

-- The map entries that a download adds.
unfoldable pub note_download : ArtifactDownload → List (String × Job) → Downloads → Downloads
note_download item jobs seen =
    let root = root_of (declared_root item.name (uploads_of (find_job item.from jobs))) in
    record {
      refs = (item.from, item.name) ∷ seen.refs;
      targets = join (codes item.into) root ∷ seen.targets;
    }

unfoldable pub validate_downloads :
    String
    → List (String × Job)
    → (needs : List String) → Downloads
    → List ArtifactDownload
    → Option Invalid
validate_downloads job jobs needs seen [] = none
validate_downloads job jobs needs seen (item ∷ items) =
    reject (not (is_job_name item.from)) (invalid_producer job item.from)
    <|> reject (not (is_artifact_name item.name) || str_eq item.name "..")
        (invalid_artifact_name job item.name)
    <|> reject (not (is_safe_path (codes item.into))) (unsafe_destination job item.name)
    <|> validate_source job item needs seen (find_job item.from jobs)
    <|> validate_downloads job jobs needs (note_download item jobs seen) items

unfoldable pub validate_artifacts : String → Job → List (String × Job) → Option Invalid
validate_artifacts name job jobs =
    validate_uploads name [] job.artifacts.upload
    <|> validate_downloads name jobs job.needs (record { refs = []; targets = [] })
        job.artifacts.download

abbrev pub has_key : String → List CacheEntry → Bool
has_key key seen = any (λ e. str_eq e.key key) seen

unfoldable pub validate_restore : String → (seen items : List CacheEntry) → Option Invalid
validate_restore job seen [] = none
validate_restore job seen (item ∷ items) =
    reject (not (is_cache_key item.key)) (invalid_restore_key job item.key)
    <|> reject (not (is_safe_path (codes item.path))) (unsafe_restore_path job item.key)
    <|> reject (has_key item.key seen) (duplicate_restore_key job item.key)
    <|> validate_restore job (item ∷ seen) items

-- A key that is restored to one path and saved from another.
abbrev pub is_moved : CacheEntry → CacheEntry → Bool
is_moved item e = str_eq e.key item.key && not (str_eq e.path item.path)

unfoldable pub validate_save : String → (restore seen items : List CacheEntry) → Option Invalid
validate_save job restore seen [] = none
validate_save job restore seen (item ∷ items) =
    reject (not (is_cache_key item.key)) (invalid_save_key job item.key)
    <|> reject (not (is_safe_path (codes item.path))) (unsafe_save_path job item.key)
    <|> reject (has_key item.key seen) (duplicate_save_key job item.key)
    <|> reject (any (is_moved item) restore) (conflicting_cache_paths job item.key)
    <|> validate_save job restore (item ∷ seen) items

unfoldable pub restore_downloads : String → CacheEntry → List ArtifactDownload → Option Invalid
restore_downloads job item [] = none
restore_downloads job item (a ∷ rest) =
    reject (paths_conflict (codes item.path) (codes a.into)) (download_conflict job item.path)
    <|> restore_downloads job item rest

unfoldable pub restore_uploads : String → CacheEntry → List ArtifactUpload → Option Invalid
restore_uploads job item [] = none
restore_uploads job item (a ∷ rest) =
    reject (paths_conflict (codes item.path) (codes a.path)) (upload_conflict job item.path)
    <|> restore_uploads job item rest

-- A loop over the entries to restore, with a loop inside.
unfoldable pub for_entries : (CacheEntry → Option Invalid) → List CacheEntry → Option Invalid
for_entries check [] = none
for_entries check (item ∷ items) = check item <|> for_entries check items

unfoldable pub validate_cache : String → Job → Option Invalid
validate_cache name job =
    validate_restore name [] job.cache.restore
    <|> validate_save name job.cache.restore [] job.cache.save
    <|> for_entries (λ e. restore_downloads name e job.artifacts.download) job.cache.restore
    <|> for_entries (λ e. restore_uploads name e job.artifacts.upload) job.cache.restore

-- A round of the loop over the sorted names, at the job of that name.
unfoldable pub validate_job : List (String × Job) → String → Option Job → Option Invalid
validate_job jobs name none = none
validate_job jobs name (some job) =
    reject (not (is_job_name name)) (invalid_job_name name)
    <|> reject (length job.steps == 0) (no_steps name)
    <|> validate_image name job.image
    <|> validate_steps name 1 job.steps
    <|> validate_artifacts name job jobs
    <|> validate_cache name job
    <|> validate_needs name jobs [] job.needs

unfoldable pub validate_jobs : List (String × Job) → List String → Option Invalid
validate_jobs jobs [] = none
validate_jobs jobs (name ∷ names) =
    validate_job jobs name (find_job name jobs) <|> validate_jobs jobs names

-- `none` is a nil error.
unfoldable pub validate : Pipeline → Option Invalid
validate cfg =
    reject (not (cfg.version == 1)) (unsupported_version cfg.version)
    <|> reject (length cfg.jobs == 0) no_jobs
    <|> validate_jobs cfg.jobs (sort_names (map (λ e. e.0) cfg.jobs))
