-- ===== src/Protocol/Files.antt =====
-- internal/runnerproto/handlers.go: the handlers that move sources and artifacts. `put_blob` is Put of
-- a blob store with what it meets, `parse` config.ParseBytes.
use forgeci.Base.{
  Bool, List, Option, Result, String, [], all, if◌then◌else◌, leb, map, none, not, ok, select_first,
  some, str_eq, take, ℕ, ◌&&◌, ◌∷◌,
}
use forgeci.BlobStore.{Blob, Put, has_blob, is_digest, open_blob}
use forgeci.Config.{Pipeline}
use forgeci.Protocol.{
  ◌>>=◌, ◌>>◌, Answer, Claim, Handled, Server, Uuids, asks, bad_body, failure, give, is_uuid,
  on_error, or_answer, owner_of, read_run, reply, require, respond, status_only, store_rows,
  valid_lease, writes, ◌>>=◌, ◌>>◌,
}
use forgeci.Protocol.Requests.{Request, is_method, parts_of, read_number}
use forgeci.Store.Artifacts.{get_artifact_for_lease}
use forgeci.Store.Commits.{Claimant, commit_artifacts}
use forgeci.Store.Ownership.{Ownership}
use forgeci.Store.Tables.{ArtifactRow, Db, RunRow, SnapshotRow}

pub record CommitRequest : Type 0 where
  pub claim : Claim
  pub items : List ArtifactRow

abbrev pub not_there : Answer
not_there = status_only 404

abbrev pub no_lease : Answer
no_lease = failure 409 "invalid or expired lease"

-- The parts of a path that must be there, and those that are read: a lease, a job, a name.
unfoldable pub source_path : Uuids → List String → Option String
source_path u (v ∷ runner ∷ leases ∷ lease ∷ source ∷ []) =
    if str_eq v "v1"
      && (str_eq runner "runner"
          && (str_eq leases "leases" && (str_eq source "source" && is_uuid u lease)))
    then some lease
    else none
source_path u _ = none

unfoldable pub upload_path : Uuids → List String → Option (String × String × String)
upload_path u (v ∷ runner ∷ leases ∷ lease ∷ jobs ∷ job ∷ kind ∷ digest ∷ []) =
    if str_eq jobs "jobs"
      && (str_eq kind "artifact-blobs"
          && (is_uuid u lease && (not (str_eq job "") && is_digest digest)))
    then some (lease, job, digest)
    else none
upload_path u _ = none

unfoldable pub commit_path : Uuids → List String → Option (String × String)
commit_path u (v ∷ runner ∷ leases ∷ lease ∷ jobs ∷ job ∷ kind ∷ word ∷ []) =
    if str_eq jobs "jobs" && (str_eq kind "artifacts" && (str_eq word "commit" && is_uuid u lease))
    then some (lease, job)
    else none
commit_path u _ = none

unfoldable pub download_path : Uuids → List String → Option (String × String × String)
download_path u (v ∷ runner ∷ leases ∷ lease ∷ kind ∷ producer ∷ name ∷ []) =
    if str_eq kind "artifacts"
      && (is_uuid u lease && (not (str_eq producer "") && not (str_eq name "")))
    then some (lease, producer, name)
    else none
download_path u _ = none

-- The error of Put, whose text an artifact's answer gives, stands as one text.
unfoldable pub put_answer : String → Put → Answer
put_answer text Put.stored = status_only 204
put_answer text _ = failure 400 text

-- artifactOwner: the claim in the query of the URL.
unfoldable pub query_claim : Request → String → String → ℕ → Claim
query_claim r lease job generation = record {
  runner_id = r.query "runner_id";
  run_id = r.query "run_id";
  lease_id = lease;
  generation = generation;
  job_name = job;
}

abbrev pub archive_size : Option SnapshotRow → ℕ
archive_size none = 0
archive_size (some row) = row.archive_size_bytes

-- COALESCE(s.archive_size_bytes,0) of the join in GetRun.
unfoldable pub snapshot_size : String → Db → ℕ
snapshot_size digest db =
    archive_size (select_first (λ x. str_eq x.source_digest digest) db.snapshots)

abbrev pub put_artifact_blob : Put × List Blob → Server → Put × Server
put_artifact_blob done s = (done.0, record s { artifact_blobs = done.1 })

module _ (u : Uuids) where
  unfoldable pub artifact_owner : Request → String → String → Handled Claim
  artifact_owner r lease job = do
    generation ←
        or_answer (read_number (r.query "generation")) (failure 400 "invalid artifact ownership")
    let c = query_claim r lease job generation
    require
        (is_uuid u c.run_id && (is_uuid u c.runner_id && (leb 1 generation && not (str_eq job ""))))
        (failure 400 "invalid artifact ownership")
    give c

  -- GetRun and validArtifactLease, which most handlers call in this way.
  unfoldable pub leased_run : ℕ → Claim → Answer → Handled RunRow
  leased_run clock c refusal = do
    answer ← asks (λ t. read_run u c.run_id t.db)
    found ← on_error answer (λ e. refusal)
    require (valid_lease u clock c found.0 found.1) refusal
    give found.0

  unfoldable pub source :
      (clock : ℕ) → (String → Option (List ℕ)) → Request → Server → Answer × Server
  source clock open_snapshot r s = respond s (do
    require (is_method "GET" r) not_there
    lease ← or_answer (source_path u (parts_of r)) (failure 400 "invalid source request")
    generation ←
        or_answer (read_number (r.query "generation")) (failure 400 "invalid source ownership")
    let c = query_claim r lease (r.query "job_name") generation
    require
        (is_uuid u c.runner_id
          && (is_uuid u c.run_id && (not (str_eq c.job_name "") && leb 1 generation)))
        (failure 400 "invalid source ownership")
    answer ← asks (λ t. read_run u c.run_id t.db)
    found ← on_error answer (λ e. failure 404 "run not found")
    require (valid_lease u clock c found.0 found.1) no_lease
    digest ← or_answer found.0.source_digest no_lease
    content ← or_answer (open_snapshot digest) (failure 500 "source unavailable")
    size ← asks (λ t. snapshot_size digest t.db)
    reply (Answer.blob (take size content)))

  unfoldable pub upload_artifact :
      (clock : ℕ) → (String → ℕ → List Blob → Put × List Blob) → Request → Server → Answer × Server
  upload_artifact clock put_blob r s = respond s (do
    require (is_method "PUT" r) not_there
    named ← or_answer (upload_path u (parts_of r)) (failure 400 "invalid artifact upload path")
    c ← artifact_owner r named.0 named.1
    size ← or_answer (read_number r.length_header) (failure 400 "artifact content length required")
    p ← leased_run clock c no_lease
    done ←
        writes (λ t. ok (put_artifact_blob (put_blob named.2 size t.artifact_blobs) t))
          (λ e. no_lease)
    reply (put_answer "upload failed" done))

  unfoldable pub download_artifact : (now : ℕ) → Request → Server → Answer × Server
  download_artifact now r s = respond s (do
    require (is_method "GET" r) not_there
    named ← or_answer (download_path u (parts_of r)) (failure 400 "invalid artifact download path")
    c ← artifact_owner r named.0 (r.query "consumer_job")
    o ← or_answer (owner_of u c) (failure 409 "artifact unavailable")
    answer ← asks (λ t. get_artifact_for_lease now o named.1 named.2 t.db)
    item ← on_error answer (λ e. failure 409 "artifact unavailable")
    opened ← asks (λ t. open_blob item.blob_sha256 t.artifact_blobs)
    content ← or_answer opened (failure 500 "artifact blob unavailable")
    reply (Answer.blob (take item.archive_size_bytes content)))

  unfoldable pub has_blobs : List ArtifactRow → Server → Bool
  has_blobs items s =
      all
        (λ a.
          is_digest a.content_sha256
          && (is_digest a.blob_sha256
              && (str_eq a.format "artifact-tar-gzip-v1"
                  && has_blob a.blob_sha256 a.archive_size_bytes s.artifact_blobs)))
        items

  -- The rows that the handler makes of the items of the request.
  unfoldable pub committed_row : ℕ → Ownership → ArtifactRow → ArtifactRow
  committed_row clock o a = record a {
    run_id = o.run_id;
    producer_job = o.job_name;
    created_at = clock;
  }

  unfoldable pub is_commit_owner : (lease job : String) → Claim → Bool
  is_commit_owner lease job c =
      str_eq c.lease_id lease
      && (str_eq c.job_name job
          && (is_uuid u c.runner_id && (is_uuid u c.run_id && leb 1 c.generation)))

  module _ (parse : String → Result Pipeline) where
    unfoldable pub commit_artifact :
        (clock now : ℕ) → Request → Option CommitRequest → Server → Answer × Server
    commit_artifact clock now r body s = respond s (do
      require (is_method "POST" r) not_there
      named ← or_answer (commit_path u (parts_of r)) (failure 400 "invalid artifact commit path")
      q ← or_answer body bad_body
      let c = q.claim
      require (is_commit_owner named.0 named.1 c) (failure 400 "invalid artifact ownership")
      p ← leased_run clock c no_lease
      present ← asks (has_blobs q.items)
      require present (failure 400 "invalid or missing artifact blob")
      o ← or_answer (owner_of u c) (failure 409 "artifact commit rejected")
      writes
          (λ t. store_rows t (
            commit_artifacts parse now (Claimant.runner o) (map (committed_row clock o) q.items)
              t.db))
          (λ e. failure 409 "artifact commit rejected")
      reply Answer.accepted)
