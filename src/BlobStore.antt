-- ===== src/BlobStore.antt =====
-- internal/artifact/store.go: the directory of content-addressed blobs, which artifacts and caches
-- share. A file is the list of its bytes under its digest; sha256 is a parameter, and so is what the
-- operating system does: whether a call fails, and when a file was last written.
pub mod Contents
mod Samples
use forgeci.Base.{
  Bool, List, Option, String, all, any, codes, false, if◌then◌else◌, is_within, leb, length, ltb,
  none, not, select_first, select_where, some, str_eq, take, ℕ, ◌&&◌, ◌+◌, ◌==◌, ◌||◌, ◌∷◌,
}

pub record Blob : Type 0 where
  pub digest : String
  pub content : List ℕ
  pub modified_at : ℕ

-- How the copy of the upload into a temporary file ends.
pub data Copy : Type 0 where
  canceled failed : Copy
  copied : List ℕ → Copy

-- The calls after the copy: Sync, Close and MkdirAll, then Link and Open.
pub record Disk : Type 0 where
  pub can_write : Bool
  pub can_open : Bool

-- The errors of Put.
pub data Put : Type 0 where
  invalid_metadata cannot_create upload_canceled copy_failed : Put
  size_mismatch digest_mismatch cannot_write collision : Put
  stored : Put

abbrev is_hex : ℕ → Bool
is_hex c = is_within b'0' b'9' c || (is_within b'a' b'f' c || is_within b'A' b'F' c)

-- ValidDigest: hex.DecodeString takes either case.
unfoldable pub is_digest : String → Bool
is_digest d = (length (codes d) == 64) && all is_hex (codes d)

unfoldable pub find_blob : String → List Blob → Option Blob
find_blob d blobs = select_first (λ b. str_eq b.digest d) blobs

-- OpenBlob, as far as the file's content goes.
unfoldable pub open_blob : String → List Blob → Option (List ℕ)
open_blob d blobs =
    if is_digest d then elim (find_blob d blobs) [ none ↦ none | some b ↦ some b.content ] else none

unfoldable pub has_size : ℕ → Option (List ℕ) → Bool
has_size size none = false
has_size size (some content) = length content == size

unfoldable pub has_blob : String → ℕ → List Blob → Bool
has_blob d size blobs = has_size size (open_blob d blobs)

-- os.Link, which leaves a file that is there.
unfoldable pub link : Blob → List Blob → List Blob
link b blobs = elim (find_blob b.digest blobs) [ none ↦ b ∷ blobs | some old ↦ blobs ]

module _ (sha256 : List ℕ → String) where
  -- The file that is published is read back.
  unfoldable pub verify : String → ℕ → Option (List ℕ) → Put
  verify expected size none = collision
  verify expected size (some content) =
      if (length content == size) && str_eq (sha256 content) expected then stored else collision

  unfoldable pub publish : (clock : ℕ) → Disk → String → ℕ → List ℕ → List Blob → Put × List Blob
  publish clock disk expected size content blobs =
      let after =
        link (record { digest = expected; content = content; modified_at = clock }) blobs in
      if disk.can_write
      then (
        if disk.can_open then verify expected size (open_blob expected after) else cannot_write,
        after,
      )
      else (cannot_write, blobs)

  -- At most one byte more than was announced is read of the body.
  unfoldable pub check_copy : (clock : ℕ) → Disk → String → ℕ → List Blob → Copy → Put × List Blob
  check_copy clock disk expected size blobs canceled = (upload_canceled, blobs)
  check_copy clock disk expected size blobs failed = (copy_failed, blobs)
  check_copy clock disk expected size blobs (copied body) =
      let content = take (size + 1) body in
      if not (length content == size)
      then (size_mismatch, blobs)
      else if not (str_eq (sha256 content) expected)
      then (digest_mismatch, blobs)
      else publish clock disk expected size content blobs

  unfoldable pub put :
      (clock max_archive_bytes : ℕ)
      → (can_create : Bool) → Disk
      → Copy
      → String
      → ℕ
      → List Blob
      → Put × List Blob
  put clock max_archive_bytes can_create disk copy expected size blobs =
      if not (is_digest expected) || ltb max_archive_bytes size
      then (invalid_metadata, blobs)
      else if can_create
      then check_copy clock disk expected size blobs copy
      else (cannot_create, blobs)

-- os.Remove; a file that is not there is no error.
unfoldable pub remove_blob : String → List Blob → Option (List Blob)
remove_blob d blobs =
    if is_digest d then some (select_where (λ b. not (str_eq b.digest d)) blobs) else none

-- The files that CleanupOrphans removes: old ones that no entry names. `cutoff` is now less the grace
-- period.
unfoldable pub is_orphan : ℕ → List String → Blob → Bool
is_orphan cutoff live b =
    is_digest b.digest && (not (any (λ d. str_eq d b.digest) live) && leb b.modified_at cutoff)

unfoldable pub cleanup_orphans : ℕ → List String → List Blob → List Blob
cleanup_orphans cutoff live blobs = select_where (λ b. not (is_orphan cutoff live b)) blobs
