-- ===== src/BlobStore/Contents.antt =====
-- A blob is what its digest says, and stays so.
use forgeci.Base.{
  &&-true_right, All, Bool, Bool-cases, List, Option, Option-cases, String, [], arith, false≢true,
  if◌then◌else◌, inl, inr, is_some, length, ltb, none, not, refl, select_first, some, str_eq,
  str_eq_iff, str_eq_refl, subst, sym, take, true, ℕ, ◌&&◌, ◌+◌, ◌==◌, ◌||◌, ◌∙◌, ◌∷◌, ◌≡◌,
}
use forgeci.BlobStore.{
  Blob, Copy, Disk, check_copy, find_blob, is_digest, link, open_blob, publish, put, stored, verify,
}

find_blob-cons :
    (b : Blob) (blobs : List Blob) (d : String)
    → find_blob d (b ∷ blobs) ≡ (if str_eq b.digest d then some b else find_blob d blobs)
unfolding find_blob select_first
find_blob-cons b blobs d = refl

-- Linking leaves each file that is there.
find_blob-kept :
    (b : Blob) (blobs : List Blob) (d : String) (old : Blob)
    → find_blob d blobs ≡ some old
    → find_blob d (link b blobs) ≡ some old
unfolding link
find_blob-kept b blobs d old h = elim (Option-cases (find_blob b.digest blobs)) [
  | inr (other_blob, e) ↦ rw (e, link) h
  | inl e ↦
      rw (e, link)
        (find_blob-cons b blobs d ∙ elim (Bool-cases (str_eq b.digest d)) [
          | inl f ↦
              let absent = subst (λ x. find_blob x blobs ≡ none) ((str_eq_iff b.digest d).0 f) e in
              absurd (let bad = sym absent ∙ h in ground (arith, bad))
          | inr f ↦ rw f h
        ])
]

module _ (sha256 : List ℕ → String) where
  -- Every file holds what its digest says.
  abbrev pub IsSound : List Blob → Type 0
  IsSound blobs = All (λ b. sha256 b.content ≡ b.digest) blobs

  link-IsSound :
      (b : Blob) (blobs : List Blob)
      → sha256 b.content ≡ b.digest
      → IsSound blobs
      → IsSound (link b blobs)
  unfolding link
  link-IsSound b blobs h sound = elim (Option-cases (find_blob b.digest blobs)) [
    | inr (old, e) ↦ rw (e, link) sound
    | inl e ↦ rw (e, link) (h, sound)
  ]

  verify-stored :
      (expected : String) (size : ℕ) (o : Option (List ℕ))
      → verify sha256 expected size o ≡ stored
      → (content : List ℕ) × (o ≡ some content)
        × (length content ≡ size)
        × (sha256 content ≡ expected)
  unfolding verify
  verify-stored expected size none h = cc
  verify-stored expected size (some content) h =
      elim (Bool-cases ((length content == size) && str_eq (sha256 content) expected)) [
        | inl e ↦ (
          content,
          refl,
          ground (arith, e),
          (str_eq_iff (sha256 content) expected).0
              (&&-true_right (length content == size) (str_eq (sha256 content) expected) e),
        )
        | inr e ↦ absurd (let bad = rw e at h in ground (arith, bad))
      ]

  -- What a store holds when Put has succeeded.
  abbrev pub IsStored : String → ℕ → List Blob → Type 0
  IsStored expected size after =
      (content : List ℕ) × (open_blob expected after ≡ some content)
      × (length content ≡ size)
      × (sha256 content ≡ expected)

  -- The files that were there are as they were.
  abbrev pub IsKept : List Blob → List Blob → Type 0
  IsKept blobs after = All (λ b. find_blob b.digest after ≡ find_blob b.digest blobs) blobs

  link-IsKept :
      (b : Blob) (blobs bs : List Blob)
      → All (λ c. is_some (find_blob c.digest blobs) ≡ true) bs
      → All (λ c. find_blob c.digest (link b blobs) ≡ find_blob c.digest blobs) bs
  link-IsKept b blobs [] h = tt
  link-IsKept b blobs (c ∷ bs) h = (
    elim (Option-cases (find_blob c.digest blobs)) [
      | inl e ↦ absurd (let bad = rw e at (h.0) in false≢true bad)
      | inr (old, e) ↦ find_blob-kept b blobs c.digest old e ∙ sym e
    ],
    link-IsKept b blobs bs h.1,
  )

  present-later :
      (c : Blob) (blobs bs : List Blob)
      → All (λ d. is_some (find_blob d.digest blobs) ≡ true) bs
      → All (λ d. is_some (find_blob d.digest (c ∷ blobs)) ≡ true) bs
  present-later c blobs [] h = tt
  present-later c blobs (d ∷ bs) h =
      (rw (find_blob-cons c blobs d.digest) (ground (arith, h.0)), present-later c blobs bs h.1)

  present : (blobs : List Blob) → All (λ c. is_some (find_blob c.digest blobs) ≡ true) blobs
  present [] = tt
  present (c ∷ blobs) = (
    rw (find_blob-cons c blobs c.digest, str_eq_refl c.digest) refl,
    present-later c blobs blobs (present blobs),
  )

  publish-stored :
      (clock : ℕ) (disk : Disk) (expected : String) (size : ℕ) (content : List ℕ)
      (blobs after : List Blob)
      → IsSound blobs
      → sha256 content ≡ expected
      → publish sha256 clock disk expected size content blobs ≡ (stored, after)
      → IsStored expected size after × IsKept blobs after × IsSound after
  unfolding publish
  publish-stored clock disk expected size content blobs after sound h done =
      let b : Blob = record { digest = expected; content = content; modified_at = clock } in
      elim (Bool-cases disk.can_write) [
        | inr e ↦ absurd (let bad = rw e at done in ground (arith, bad))
        | inl e ↦ elim (Bool-cases disk.can_open) [
          | inr f ↦ absurd (let bad = rw (e, f) at done in ground (arith, bad))
          | inl f ↦
              let linked = rw (e, f) at done in
              let same : link b blobs ≡ after = ground (arith, linked) in
              let read : verify sha256 expected size (open_blob expected (link b blobs)) ≡ stored =
                ground (arith, linked) in
              subst (λ bs. IsStored expected size bs × IsKept blobs bs × IsSound bs) same
                (
                  verify-stored expected size (open_blob expected (link b blobs)) read,
                  link-IsKept b blobs blobs (present blobs),
                  link-IsSound b blobs h sound,
                )
        ]
      ]

  check_copy-stored :
      (clock : ℕ) (disk : Disk) (expected : String) (size : ℕ) (blobs after : List Blob)
      (copy : Copy)
      → IsSound blobs
      → check_copy sha256 clock disk expected size blobs copy ≡ (stored, after)
      → IsStored expected size after × IsKept blobs after × IsSound after
  unfolding check_copy
  check_copy-stored clock disk expected size blobs after Copy.canceled sound done =
      absurd (ground (arith, done))
  check_copy-stored clock disk expected size blobs after Copy.failed sound done =
      absurd (ground (arith, done))
  check_copy-stored clock disk expected size blobs after (Copy.copied body) sound done =
      let content = take (size + 1) body in
      elim (Bool-cases (length content == size)) [
        | inr e ↦ absurd (let bad = rw e at done in ground (arith, bad))
        | inl e ↦ elim (Bool-cases (str_eq (sha256 content) expected)) [
          | inr f ↦ absurd (let bad = rw (e, f) at done in ground (arith, bad))
          | inl f ↦
              publish-stored clock disk expected size content blobs after sound
                ((str_eq_iff (sha256 content) expected).0 f) (rw (e, f) at done)
        ]
      ]

  -- If each file holds what its digest says and Put succeeds, then OpenBlob gives a content of the
  -- announced size with the announced digest, the files that were there are as they were, and each
  -- file holds what its digest says.
  pub put-stored :
      (clock max_archive_bytes : ℕ) (can_create : Bool) (disk : Disk) (copy : Copy)
      (expected : String) (size : ℕ) (blobs after : List Blob)
      → IsSound blobs
      → put sha256 clock max_archive_bytes can_create disk copy expected size blobs
        ≡ (stored, after)
      → IsStored expected size after × IsKept blobs after × IsSound after
  unfolding put
  put-stored clock max_archive_bytes can_create disk copy expected size blobs after sound done =
      elim (Bool-cases (not (is_digest expected) || ltb max_archive_bytes size)) [
        | inl e ↦ absurd (let bad = rw e at done in ground (arith, bad))
        | inr e ↦ elim (Bool-cases can_create) [
          | inl f ↦
              check_copy-stored clock disk expected size blobs after copy sound (rw (e, f) at done)
          | inr f ↦ absurd (let bad = rw (e, f) at done in ground (arith, bad))
        ]
      ]
