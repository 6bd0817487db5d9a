-- ===== src/Config.antt =====
-- internal/config/config.go: the pipeline file. The map of jobs is an association list whose keys
-- are distinct; a string is a Go string.
pub mod Paths
pub mod Checks
pub mod Elements
pub mod Parser
pub mod SafePaths
pub mod Validation
mod Samples
use forgeci.Base.{
  ℕ, String, Option, List, none, some, if◌then◌else◌, str_eq, [], ◌∷◌, Bool, is_some,
}

pub record CacheEntry : Type 0 where
  pub key : String
  pub path : String

pub record Cache : Type 0 where
  pub restore : List CacheEntry
  pub save : List CacheEntry

pub record ArtifactUpload : Type 0 where
  pub name : String
  pub path : String

pub record ArtifactDownload : Type 0 where
  pub from : String
  pub name : String
  pub into : String

pub record Artifacts : Type 0 where
  pub upload : List ArtifactUpload
  pub download : List ArtifactDownload

pub record Step : Type 0 where
  pub run : String

pub record Job : Type 0 where
  pub needs : List String
  pub image : Option String
  pub steps : List Step
  pub artifacts : Artifacts
  pub cache : Cache

pub record Pipeline : Type 0 where
  pub version : ℕ
  pub jobs : List (String × Job)

-- `jobs[name]`.
unfoldable pub find_job : String → List (String × Job) → Option Job
find_job name [] = none
find_job name ((n, job) ∷ rest) = if str_eq n name then some job else find_job name rest

-- `_, ok := jobs[name]`.
abbrev pub has_job : String → List (String × Job) → Bool
has_job name jobs = is_some (find_job name jobs)
