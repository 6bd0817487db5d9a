-- ===== src/Compiler/Downloads.antt =====
-- What Validate has checked of the artifacts that a job downloads.
use forgeci.Base.{
  All, Bool-cases, Codes, List, Option, String, [], any, arith, inl, inr, none, refl, some, str_eq,
  true, ◌∷◌, ◌≡◌,
}
use forgeci.Compiler.Validated.{validate-job}
use forgeci.Config.{ArtifactDownload, ArtifactUpload, Job, Pipeline, find_job}
use forgeci.Config.Checks.{is_seen}
use forgeci.Config.Validation.{
  Downloads, declared_root, note_download, validate, validate_artifacts, validate_downloads,
  validate_job, validate_source, validate_target,
}

-- The producer of a download is a job of the pipeline that the job needs, and it uploads an artifact
-- of that name.
abbrev pub IsProduced : List (String × Job) → List String → ArtifactDownload → Type 0
IsProduced jobs needs item =
    (producer : Job) × (find_job item.from jobs ≡ some producer)
    × (is_seen item.from needs ≡ true)
    × (any (λ u. str_eq u.name item.name) producer.artifacts.upload ≡ true)

declared_root-any :
    (name : String) (uploads : List ArtifactUpload) (root : Codes)
    → declared_root name uploads ≡ some root
    → any (λ u. str_eq u.name name) uploads ≡ true
unfolding declared_root
declared_root-any name [] root h = cc
declared_root-any name (u ∷ uploads) root h = elim (Bool-cases (str_eq u.name name)) [
  | inl e ↦ rw e refl
  | inr e ↦ rw e (declared_root-any name uploads root (rw e at h))
]

validate_target-declared :
    (job : String) (item : ArtifactDownload) (seen : Downloads) (o : Option Codes)
    → validate_target job item seen o ≡ none
    → (root : Codes) × (o ≡ some root)
unfolding validate_target
validate_target-declared job item seen none h = cc
validate_target-declared job item seen (some root) h = (root, refl)

validate_source-IsProduced :
    (job : String) (item : ArtifactDownload) (jobs : List (String × Job)) (needs : List String)
    (seen : Downloads) (o : Option Job)
    → find_job item.from jobs ≡ o
    → validate_source job item needs seen o ≡ none
    → IsProduced jobs needs item
unfolding validate_source
validate_source-IsProduced job item jobs needs seen none e h = cc
validate_source-IsProduced job item jobs needs seen (some producer) e h =
    let target : validate_target job item seen (declared_root item.name producer.artifacts.upload)
        ≡ none =
      ground (arith, h) in
    let (root, declared) = validate_target-declared job item seen _ target in
    (
      producer,
      e,
      ground (arith, h),
      declared_root-any item.name producer.artifacts.upload root declared,
    )

validate_downloads-IsProduced :
    (job : String) (jobs : List (String × Job)) (needs : List String) (seen : Downloads)
    (items : List ArtifactDownload)
    → validate_downloads job jobs needs seen items ≡ none
    → All (IsProduced jobs needs) items
unfolding validate_downloads
validate_downloads-IsProduced job jobs needs seen [] h = tt
validate_downloads-IsProduced job jobs needs seen (item ∷ items) h = (
  validate_source-IsProduced job item jobs needs seen (find_job item.from jobs) refl
      (ground (arith, h)),
  validate_downloads-IsProduced job jobs needs (note_download item jobs seen) items
      (ground (arith, h)),
)

validate_job-downloads :
    (jobs : List (String × Job)) (name : String) (job : Job)
    → validate_job jobs name (some job) ≡ none
    → validate_downloads name jobs job.needs
        (record { refs = []; targets = [] })
        job.artifacts.download
      ≡ none
unfolding validate_job validate_artifacts
validate_job-downloads jobs name job h = ground (arith, h)

-- If Validate accepts a pipeline, then for each artifact that one of its jobs downloads the producer
-- is a job of the pipeline, which the job needs and which uploads an artifact of that name.
pub validate-downloads :
    (cfg : Pipeline) (name : String) (job : Job)
    → validate cfg ≡ none
    → find_job name cfg.jobs ≡ some job
    → All (IsProduced cfg.jobs job.needs) job.artifacts.download
validate-downloads cfg name job h found =
    validate_downloads-IsProduced name cfg.jobs job.needs (record { refs = []; targets = [] })
      job.artifacts.download
      (validate_job-downloads cfg.jobs name job (validate-job cfg name job h found))
