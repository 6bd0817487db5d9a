-- ===== src/Protocol/Silence.antt =====
-- internal/runnerproto: an answer of an error leaves the tables of runs, jobs and logs alone.
use forgeci.Base.{
  Bool, List, Option, Result, String, arith, codes, false, if◌then◌else◌, inl, inr, refl, true, ℕ,
  ◌&&◌, ◌<◌, ◌≡◌, ◌⊎◌,
}
use forgeci.BlobStore.{Blob, Put}
use forgeci.CacheTable.{CacheRow}
use forgeci.Config.{Pipeline}
use forgeci.Protocol.{Answer, Server, Uuids, code}
use forgeci.Protocol.Caches.{
  CacheCommitRequest, cache_owner, commit_entry, download_cache, upload_cache,
}
use forgeci.Protocol.Files.{
  CommitRequest, artifact_owner, commit_artifact, download_artifact, leased_run, source,
  upload_artifact,
}
use forgeci.Protocol.Jobs.{AppendRequest, CompleteRequest, append_logs, complete}
use forgeci.Protocol.Requests.{Request}
use forgeci.Protocol.Routes.{Bodies, Site, has_suffix, lease_route, path_contains}

-- The answer is no error, or the tables of the database and the job logs are as they were.
pub data IsSilent (s : Server) (done : Answer × Server) : Type 0 where
  succeeds : code done.0 < 400 → IsSilent s done
  keeps : done.1.db ≡ s.db → done.1.logs ≡ s.logs → IsSilent s done

silent :
    {s : Server} {done : Answer × Server}
    → (code done.0 < 400) ⊎ ((done.1.db ≡ s.db) × (done.1.logs ≡ s.logs))
    → IsSilent s done
silent (inl h) = succeeds h
silent (inr (d, l)) = keeps d l

module _ (u : Uuids) (parse : String → Result Pipeline) (s : Server) where
  pick :
      (test : Bool) {x y : Answer × Server}
      → IsSilent s x
      → IsSilent s y
      → IsSilent s (if test then x else y)
  pick true h k = h
  pick false h k = k

  complete-IsSilent :
      (now retention : ℕ) (r : Request) (body : Option CompleteRequest)
      → IsSilent s (complete u parse now retention r body s)
  unfolding complete
  complete-IsSilent now retention r body = silent (ground arith)

  append_logs-IsSilent :
      (clock : ℕ) (r : Request) (body : Option AppendRequest)
      → IsSilent s (append_logs u parse clock r body s)
  unfolding append_logs
  append_logs-IsSilent clock r body = silent (ground arith)

  commit_artifact-IsSilent :
      (clock now : ℕ) (r : Request) (body : Option CommitRequest)
      → IsSilent s (commit_artifact u parse clock now r body s)
  unfolding commit_artifact leased_run
  commit_artifact-IsSilent clock now r body = silent (ground arith)

  commit_entry-IsSilent :
      (meanwhile : List CacheRow → List CacheRow) (clock retention id : ℕ) (r : Request)
      (body : Option CacheCommitRequest)
      → IsSilent s (commit_entry u parse meanwhile clock retention id r body s)
  unfolding commit_entry cache_owner leased_run
  commit_entry-IsSilent meanwhile clock retention id r body = silent (ground arith)

  source-IsSilent :
      (clock : ℕ) (open_snapshot : String → Option (List ℕ)) (r : Request)
      → IsSilent s (source u clock open_snapshot r s)
  unfolding source
  source-IsSilent clock open_snapshot r = silent (ground arith)

  upload_cache-IsSilent :
      (clock : ℕ) (put_blob : String → ℕ → List Blob → Put × List Blob) (r : Request)
      → IsSilent s (upload_cache u parse clock put_blob r s)
  unfolding upload_cache cache_owner leased_run
  upload_cache-IsSilent clock put_blob r = silent (ground arith)

  upload_artifact-IsSilent :
      (clock : ℕ) (put_blob : String → ℕ → List Blob → Put × List Blob) (r : Request)
      → IsSilent s (upload_artifact u clock put_blob r s)
  unfolding upload_artifact artifact_owner leased_run
  upload_artifact-IsSilent clock put_blob r = silent (ground arith)

  download_cache-IsSilent :
      (clock retention : ℕ) (r : Request) → IsSilent s (download_cache u parse clock retention r s)
  unfolding download_cache cache_owner leased_run
  download_cache-IsSilent clock retention r = silent (ground arith)

  download_artifact-IsSilent : (now : ℕ) (r : Request) → IsSilent s (download_artifact u now r s)
  unfolding download_artifact artifact_owner
  download_artifact-IsSilent now r = silent (ground arith)

  -- Whatever a request to HandleLeaseRoute is, and whatever the server meets: if the answer has a
  -- status of 400 or more, the tables of runs, jobs, runners and artifacts and the job logs are as they
  -- were.
  pub lease_route-IsSilent :
      (e : Site) (r : Request) (b : Bodies) → IsSilent s (lease_route u parse e r b s)
  unfolding lease_route
  lease_route-IsSilent e r b =
      pick (has_suffix (codes "/source") (codes r.path)) (source-IsSilent e.clock e.open_snapshot r)
        (pick (path_contains (codes "/cache-blobs/") (codes r.path))
          (upload_cache-IsSilent e.clock e.put_cache r)
          (pick (has_suffix (codes "/cache/commit") (codes r.path))
            (commit_entry-IsSilent e.meanwhile e.clock e.cache_retention e.id r b.to_commit_entry)
            (pick (path_contains (codes "/cache/") (codes r.path))
              (download_cache-IsSilent e.clock e.cache_retention r)
              (pick (path_contains (codes "/artifact-blobs/") (codes r.path))
                (upload_artifact-IsSilent e.clock e.put_artifact r)
                (pick (has_suffix (codes "/artifacts/commit") (codes r.path))
                  (commit_artifact-IsSilent e.clock e.now r b.to_commit)
                  (pick (path_contains (codes "/artifacts/") (codes r.path))
                    (download_artifact-IsSilent e.now r)
                    (pick
                      (path_contains (codes "/jobs/") (codes r.path)
                        && has_suffix (codes "/logs") (codes r.path))
                      (append_logs-IsSilent e.clock r b.to_append)
                      (pick (path_contains (codes "/complete") (codes r.path))
                        (complete-IsSilent e.now e.retention r b.to_complete)
                        (keeps refl refl)))))))))
