-- ===== src/CacheTable/Cleanup.antt =====
-- Removing orphaned cache blobs, with the live digests of the table, takes nothing from an entry.
use forgeci.Base.{
  Bool, Bool-cases, List, Option-cases, String, [], any, ap, arith, inl, inr, ok, ok-injective,
  refl, select_first, select_where, some, str_eq, str_eq_iff, str_eq_refl, subst, sym, true, ℕ,
  ◌&&◌, ◌∙◌, ◌∷◌, ◌≡◌,
}
use forgeci.BlobStore.{open_blob, Blob, cleanup_orphans, find_blob, is_orphan}
use forgeci.CacheTable.{
  CacheRow, has_name, is_fresh, is_hit, is_live, live_cache_blobs, lookup_cache, touch,
}
use forgeci.CacheTable.Blobs.{blobs_of-has}

any-select_where :
    (p q : CacheRow → Bool) (rows : List CacheRow) (r : CacheRow)
    → ((s : CacheRow) → p s ≡ true → q s ≡ true)
    → select_first p rows ≡ some r
    → any (λ s. str_eq s.blob_sha256 r.blob_sha256) (select_where q rows) ≡ true
unfolding select_where select_first
any-select_where p q [] r narrow found = cc
any-select_where p q (s ∷ rows) r narrow found = elim (Bool-cases (p s)) [
  | inl e ↦
      let here : s ≡ r = ground (arith, rw e at found) in
      rw (narrow s e, here, str_eq_refl r.blob_sha256) refl
  | inr e ↦
      let later = any-select_where p q rows r narrow (rw e at found) in
      elim (Bool-cases (q s)) [ inl f ↦ rw (f, later) (ground arith) | inr f ↦ rw f later ]
]

find_blob-cleanup :
    (cutoff : ℕ) (live : List String) (d : String) (blobs : List Blob)
    → has_name d live ≡ true
    → find_blob d (cleanup_orphans cutoff live blobs) ≡ find_blob d blobs
unfolding find_blob cleanup_orphans select_first select_where is_orphan
find_blob-cleanup cutoff live d [] h = refl
find_blob-cleanup cutoff live d (b ∷ blobs) h =
    let ih = find_blob-cleanup cutoff live d blobs h in
    elim (Bool-cases (str_eq b.digest d)) [
      | inl e ↦
          let named = subst (λ x. has_name x live ≡ true) (sym ((str_eq_iff b.digest d).0 e)) h in
          rw (named, e) (ground (arith, e))
      | inr e ↦ elim (Bool-cases (is_orphan cutoff live b)) [
        | inl f ↦ rw (f, e) ih
        | inr f ↦ rw (f, e) ih
      ]
    ]

lookup_cache-hit :
    (now retention : ℕ) (workspace key : String) (rows rows' : List CacheRow) (r : CacheRow)
    → lookup_cache now retention workspace key rows ≡ ok (r, rows')
    → (s : CacheRow) × (select_first (is_hit now workspace key) rows ≡ some s)
      × (s.blob_sha256 ≡ r.blob_sha256)
unfolding lookup_cache touch
lookup_cache-hit now retention workspace key rows rows' r h =
    elim (Option-cases (select_first (is_hit now workspace key) rows)) [
      | inl e ↦ absurd (let bad = rw e at h in ground (arith, bad))
      | inr (s, e) ↦
          let done = ok-injective (rw e at h) in
          (s, e, ap (λ (p : CacheRow × List CacheRow). p.0.blob_sha256) done)
    ]

-- If LookupCache finds an entry, then CleanupOrphans with the live digests of that moment leaves what
-- OpenBlob gives for the digest of the entry.
pub lookup-cleanup :
    (now retention : ℕ) (workspace key : String) (rows rows' : List CacheRow) (r : CacheRow)
    (cutoff : ℕ) (blobs : List Blob)
    → lookup_cache now retention workspace key rows ≡ ok (r, rows')
    → open_blob r.blob_sha256 (cleanup_orphans cutoff (live_cache_blobs now rows) blobs)
      ≡ open_blob r.blob_sha256 blobs
unfolding open_blob live_cache_blobs
lookup-cleanup now retention workspace key rows rows' r cutoff blobs h =
    let (s, found, same) = lookup_cache-hit now retention workspace key rows rows' r h in
    let live =
      blobs_of-has s.blob_sha256 (select_where (λ s. is_live s && is_fresh now s) rows)
      ∙ any-select_where (is_hit now workspace key) (λ s. is_live s && is_fresh now s) rows s
          (λ s e. ground (arith, e)) found in
    let named =
      subst (λ d. has_name d (live_cache_blobs now rows) ≡ true) same
        (unfold live_cache_blobs in live) in
    rw (find_blob-cleanup cutoff (live_cache_blobs now rows) r.blob_sha256 blobs named) refl
