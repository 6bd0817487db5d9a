-- ===== src/Protocol/Caches.antt =====
-- internal/runnerproto/cache_handlers.go: the handlers of build caches. A refusal of cacheOwner is
-- written as one text.
use forgeci.Base.{
  Bool, Error, List, Option, Result, String, [], all, any, codes, conflict, err, false,
  if◌then◌else◌, is_within, leb, length, none, not, not_found, ok, some, str_eq, take, ℕ, ◌&&◌,
  ◌==◌, ◌||◌, ◌∷◌,
}
use forgeci.BlobStore.{Blob, Put, open_blob}
use forgeci.CacheTable.{CacheRow, commit_cache, lookup_cache}
use forgeci.Config.{CacheEntry, Job, Pipeline, find_job}
use forgeci.Protocol.{
  ◌>>=◌, ◌>>◌, Answer, Claim, Handled, Server, Uuids, asks, bad_body, failure, give, is_uuid,
  on_error, or_answer, reply, require, respond, writes, ◌>>=◌, ◌>>◌,
}
use forgeci.Protocol.Files.{leased_run, put_answer, query_claim}
use forgeci.Protocol.Requests.{Request, is_method, parts_of, read_number}
use forgeci.Store.Tables.{RunRow}

pub record CacheCommitRequest : Type 0 where
  pub claim : Claim
  pub key : String
  pub path : String
  pub entry : CacheRow

-- `v1/runner/leases/<lease>/..`.
unfoldable pub leads : String → String → String → Bool
leads v runner leases = str_eq v "v1" && (str_eq runner "runner" && str_eq leases "leases")

unfoldable pub download_cache_path : List String → Option (String × String)
download_cache_path (v ∷ runner ∷ leases ∷ lease ∷ kind ∷ key ∷ []) =
    if leads v runner leases && str_eq kind "cache" then some (lease, key) else none
download_cache_path _ = none

unfoldable pub upload_cache_path : List String → Option (String × String × String)
upload_cache_path (v ∷ runner ∷ leases ∷ lease ∷ jobs ∷ job ∷ kind ∷ digest ∷ []) =
    if leads v runner leases && (str_eq jobs "jobs" && str_eq kind "cache-blobs")
    then some (lease, job, digest)
    else none
upload_cache_path _ = none

unfoldable pub commit_cache_path : List String → Option (String × String)
commit_cache_path (v ∷ runner ∷ leases ∷ lease ∷ jobs ∷ job ∷ kind ∷ word ∷ []) =
    if leads v runner leases
      && (str_eq jobs "jobs" && (str_eq kind "cache" && str_eq word "commit"))
    then some (lease, job)
    else none
commit_cache_path _ = none

-- cacheDigest.
unfoldable pub is_cache_digest : String → Bool
is_cache_digest v =
    (length (codes v) == 64) && all (λ c. is_within b'0' b'9' c || is_within b'a' b'f' c) (codes v)

abbrev pub declares : String → String → CacheEntry → Bool
declares key path e = str_eq e.key key && (str_eq path "" || str_eq e.path path)

-- The job of the stored pipeline declares the key, and the path if one is given.
unfoldable pub is_declared : String → String → Option Job → Bool
is_declared key path none = false
is_declared key path (some job) =
    any (declares key path) job.cache.restore || any (declares key path) job.cache.save

-- LookupCache has written the time of the access before the blob is opened.
unfoldable pub cached : CacheRow → Option (List ℕ) → Answer
cached row none = failure 404 "cache miss"
cached row (some content) = Answer.blob (take row.archive_size_bytes content)

abbrev pub no_owner : Answer
no_owner = failure 409 "invalid cache ownership"

abbrev pub looked_up : Server → Result (CacheRow × List CacheRow) → Result (CacheRow × Server)
looked_up s (err reason) = err reason
looked_up s (ok (row, caches)) = ok (row, record s { caches = caches })

abbrev pub put_cache_blob : Put × List Blob → Server → Put × Server
put_cache_blob done s = (done.0, record s { cache_blobs = done.1 })

abbrev pub store_caches : Server → Result (List CacheRow) → Result (Unit {0} × Server)
store_caches s (err reason) = err reason
store_caches s (ok caches) = ok (tt, record s { caches = caches })

module _ (u : Uuids) (parse : String → Result Pipeline) where
  -- cacheOwner.
  unfoldable pub cache_owner :
      (clock : ℕ) → Request → (lease job key path : String) → Handled RunRow
  cache_owner clock r lease job key path = do
    generation ← or_answer (read_number (r.query "generation")) no_owner
    let c = query_claim r lease job generation
    require
        (is_uuid u c.runner_id
          && (is_uuid u c.run_id
              && (is_uuid u c.lease_id && (not (str_eq job "") && leb 1 generation))))
        no_owner
    p ← leased_run u clock c no_owner
    cfg ← on_error (parse p.pipeline_yaml) (λ e. no_owner)
    require (is_declared key path (find_job job cfg.jobs)) no_owner
    give p

  unfoldable pub lookup_answer : Error → Answer
  lookup_answer not_found = failure 404 "cache miss"
  lookup_answer _ = failure 503 "cache unavailable"

  unfoldable pub download_cache : (clock retention : ℕ) → Request → Server → Answer × Server
  download_cache clock retention r s = respond s (do
    named ← or_answer (download_cache_path (parts_of r)) (failure 404 "not found")
    require (is_method "GET" r) (failure 404 "not found")
    p ← cache_owner clock r named.0 (r.query "job_name") named.1 (r.query "path")
    hit ←
        writes (λ t. looked_up t (lookup_cache clock retention p.workspace named.1 t.caches))
          lookup_answer
    opened ← asks (λ t. open_blob hit.blob_sha256 t.cache_blobs)
    reply (cached hit opened))

  unfoldable pub upload_cache :
      (clock : ℕ) → (String → ℕ → List Blob → Put × List Blob) → Request → Server → Answer × Server
  upload_cache clock put_blob r s = respond s (do
    named ← or_answer (upload_cache_path (parts_of r)) (failure 404 "not found")
    require (is_method "PUT" r) (failure 404 "not found")
    p ← cache_owner clock r named.0 named.1 (r.query "key") (r.query "path")
    require (is_cache_digest named.2) (failure 400 "invalid cache digest")
    size ← or_answer r.content_length (failure 411 "content length required")
    done ← writes (λ t. ok (put_cache_blob (put_blob named.2 size t.cache_blobs) t)) (λ e. no_owner)
    reply (put_answer "cache upload failed" done))

  unfoldable pub commit_answer : Error → Answer
  commit_answer conflict = failure 409 "cache key conflict"
  commit_answer _ = failure 503 "cache commit failed"

  unfoldable pub commit_entry :
      (List CacheRow → List CacheRow)
      → (clock retention id : ℕ) → Request
      → Option CacheCommitRequest
      → Server
      → Answer × Server
  commit_entry meanwhile clock retention id r body s = respond s (do
    named ← or_answer (commit_cache_path (parts_of r)) (failure 404 "not found")
    require (is_method "POST" r) (failure 404 "not found")
    q ← or_answer body bad_body
    require (str_eq q.claim.lease_id named.0 && str_eq q.claim.job_name named.1)
        (failure 400 "cache ownership mismatch")
    p ← cache_owner clock r q.claim.lease_id q.claim.job_name q.key q.path
    require (str_eq q.entry.format "cache-tar-gzip-v1") (failure 400 "invalid cache format")
    writes
        (λ t. store_caches t (
          commit_cache meanwhile clock retention id
            (record q.entry {
              workspace = p.workspace;
              key = q.key;
              created_at = clock;
              expires_at = none;
            })
            t.caches))
        commit_answer
    reply Answer.accepted)
