-- ===== src/Protocol/Routes.antt =====
-- internal/runnerproto/handlers.go, HandleLeaseRoute, and the runner's routes of
-- cmd/forge-server/main.go. net/http's redirect of a path to its cleaned form is left out: a path is
-- one that needs none.
use forgeci.Base.{
  Bool, Codes, List, Option, Result, String, [], codes, has_prefix, if◌then◌else◌, same_codes, some,
  str_eq, ℕ, ◌&&◌, ◌||◌, ◌∷◌,
}
use forgeci.BlobStore.{Blob, Put}
use forgeci.CacheTable.{CacheRow}
use forgeci.Config.{Pipeline}
use forgeci.Protocol.{status_only, Answer, Claim, Server, Uuids}
use forgeci.Protocol.Caches.{CacheCommitRequest, commit_entry, download_cache, upload_cache}
use forgeci.Protocol.Files.{
  CommitRequest, commit_artifact, download_artifact, source, upload_artifact,
}
use forgeci.Protocol.Jobs.{complete, AppendRequest, CompleteRequest, append_logs}
use forgeci.Protocol.Requests.{Request}
use forgeci.Protocol.Runners.{lease, register, RegisterRequest, Round, heartbeat}

-- `path[i:i+len(substr)] == substr` for some i.
unfoldable pub path_contains : Codes → Codes → Bool
path_contains word [] = has_prefix word []
path_contains word (c ∷ path) = has_prefix word (c ∷ path) || path_contains word path

-- strings.HasSuffix.
unfoldable pub has_suffix : Codes → Codes → Bool
has_suffix word [] = same_codes word []
has_suffix word (c ∷ path) = same_codes word (c ∷ path) || has_suffix word path

-- What decodeStrict makes of the body, for the type that each handler asks for.
pub record Bodies : Type 0 where
  pub to_register : Option RegisterRequest
  pub to_heartbeat : Option (String × List Claim)
  pub to_lease : Option String
  pub to_complete : Option CompleteRequest
  pub to_append : Option AppendRequest
  pub to_commit : Option CommitRequest
  pub to_commit_entry : Option CacheCommitRequest

-- What a request meets: the server's clock, the time of the database, the new id, and the file
-- systems below the blob stores.
pub record Site : Type 0 where
  pub clock : ℕ
  pub now : ℕ
  pub retention : ℕ
  pub cache_retention : ℕ
  pub id : ℕ
  pub rounds : List Round
  pub meanwhile : List CacheRow → List CacheRow
  pub open_snapshot : String → Option (List ℕ)
  pub put_artifact : String → ℕ → List Blob → Put × List Blob
  pub put_cache : String → ℕ → List Blob → Put × List Blob

module _ (u : Uuids) (parse : String → Result Pipeline) (e : Site) where
  unfoldable pub lease_route : Request → Bodies → Server → Answer × Server
  lease_route r b s =
      if has_suffix (codes "/source") (codes r.path)
      then source u e.clock e.open_snapshot r s
      else if path_contains (codes "/cache-blobs/") (codes r.path)
      then upload_cache u parse e.clock e.put_cache r s
      else if has_suffix (codes "/cache/commit") (codes r.path)
      then commit_entry u parse e.meanwhile e.clock e.cache_retention e.id r b.to_commit_entry s
      else if path_contains (codes "/cache/") (codes r.path)
      then download_cache u parse e.clock e.cache_retention r s
      else if path_contains (codes "/artifact-blobs/") (codes r.path)
      then upload_artifact u e.clock e.put_artifact r s
      else if has_suffix (codes "/artifacts/commit") (codes r.path)
      then commit_artifact u parse e.clock e.now r b.to_commit s
      else if path_contains (codes "/artifacts/") (codes r.path)
      then download_artifact u e.now r s
      else if path_contains (codes "/jobs/") (codes r.path)
          && has_suffix (codes "/logs") (codes r.path)
      then append_logs u parse e.clock r b.to_append s
      else if path_contains (codes "/complete") (codes r.path)
      then complete u parse e.now e.retention r b.to_complete s
      else (status_only 404, s)

  -- The handlers behind AuthMiddleware, by the path of the request. A poll that uses up its rounds
  -- has no answer yet.
  unfoldable pub dispatch : Request → Bodies → Server → Option (Answer × Server)
  dispatch r b s =
      if str_eq r.path "/v1/runner/register"
      then some (register u e.now r b.to_register s)
      else if str_eq r.path "/v1/runner/heartbeat"
      then some (heartbeat u e.clock r b.to_heartbeat s)
      else if str_eq r.path "/v1/runner/lease"
      then lease parse u r b.to_lease e.rounds s
      else if has_prefix (codes "/v1/runner/leases/") (codes r.path)
      then some (lease_route r b s)
      else some (status_only 404, s)
