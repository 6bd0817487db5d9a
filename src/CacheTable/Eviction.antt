-- ===== src/CacheTable/Eviction.antt =====
-- ExpireCache brings the live blobs within the bound.
use forgeci.Base.{
  All, Bool, Bool-cases, List, String, [], any, ap, arith, inl, inr, ltb, refl, select_where,
  str_eq, str_eq_iff, str_eq_refl, subst, sym, true, update_where, ℕ, ◌&&◌, ◌-◌, ◌<◌, ◌||◌, ◌∙◌,
  ◌∷◌, ◌≡◌, ◌≤◌,
}
use forgeci.CacheTable.{
  used_before, CacheRow, blobs_of, delete_row, evict_loop, evict_rows, expire_cache, has_lapsed,
  has_name, insert_by, is_live, order_by, shrink, sum_sizes, total_size,
}
use forgeci.CacheTable.Blobs.{
  Distinct, SizesAgree, blobs_of-Distinct, blobs_of-has, blobs_of-outside, keep_outside, left_over,
  left_over-next, live-evict_rows, total_size-agrees,
}
use forgeci.Compiler.Coverage.{positive}

any-insert_by :
    (p : CacheRow → Bool) (before : CacheRow → CacheRow → Bool) (r : CacheRow)
    (rows : List CacheRow)
    → any p (insert_by before r rows) ≡ any p (r ∷ rows)
unfolding insert_by
any-insert_by p before r [] = refl
any-insert_by p before r (s ∷ rows) = elim (Bool-cases (before s r)) [
  | inl e ↦ rw e (ground (arith, any-insert_by p before r rows))
  | inr e ↦ rw e refl
]

any-order_by :
    (p : CacheRow → Bool) (before : CacheRow → CacheRow → Bool) (rows : List CacheRow)
    → any p (order_by before rows) ≡ any p rows
unfolding order_by
any-order_by p before [] = refl
any-order_by p before (r ∷ rows) =
    any-insert_by p before r (order_by before rows)
    ∙ ap (λ b. p r || b) (any-order_by p before rows)

All-insert_by :
    (P : CacheRow → Type 0) (before : CacheRow → CacheRow → Bool) (r : CacheRow)
    (rows : List CacheRow)
    → P r
    → All P rows
    → All P (insert_by before r rows)
unfolding insert_by
All-insert_by P before r [] h hs = (h, tt)
All-insert_by P before r (s ∷ rows) h hs = elim (Bool-cases (before s r)) [
  | inl e ↦ rw e (hs.0, All-insert_by P before r rows h hs.1)
  | inr e ↦ rw e (h, hs)
]

All-order_by :
    (P : CacheRow → Type 0) (before : CacheRow → CacheRow → Bool) (rows : List CacheRow)
    → All P rows
    → All P (order_by before rows)
unfolding order_by
All-order_by P before [] h = tt
All-order_by P before (r ∷ rows) h =
    All-insert_by P before r (order_by before rows) h.0 (All-order_by P before rows h.1)

-- All the digests are among those put aside or those still to come.
abbrev IsCovered : (ds seen : List String) → List CacheRow → Type 0
IsCovered ds seen rows =
    (d : String)
    → has_name d ds ≡ true
    → (has_name d seen || any (λ r. str_eq r.blob_sha256 d) rows) ≡ true

nothing-left :
    (size : String → ℕ) (out ds : List String)
    → ((d : String) → has_name d ds ≡ true → has_name d out ≡ true)
    → left_over size out ds ≡ 0
unfolding left_over keep_outside sum_sizes
nothing-left size out [] h = refl
nothing-left size out (d ∷ ds) h =
    rw (h d (rw (str_eq_refl d) refl)) (nothing-left size out ds (λ e f. h e (ground (arith, f))))

evict_loop-within :
    (size : String → ℕ) (ds : List String) (max_bytes total : ℕ) (seen : List String)
    (rows : List CacheRow)
    → Distinct ds
    → All (λ r. r.archive_size_bytes ≡ size r.blob_sha256) rows
    → All (λ r. has_name r.blob_sha256 ds ≡ true) rows
    → total ≡ left_over size seen ds
    → IsCovered ds seen rows
    → left_over size (evict_loop max_bytes total seen rows) ds ≤ max_bytes
unfolding evict_loop
evict_loop-within size ds max_bytes total seen [] distinct sizes among counted covered =
    let nothing = nothing-left size seen ds (λ d h. ground (arith, covered d h)) in
    omega (arith, nothing)
evict_loop-within size ds max_bytes total seen (r ∷ rows) distinct sizes among counted covered =
    elim (Bool-cases (ltb max_bytes total)) [
      | inr e ↦ rw e (ground (arith, e, counted))
      | inl e ↦ elim (Bool-cases (has_name r.blob_sha256 seen)) [
        | inl f ↦
            rw (e, f)
              (evict_loop-within size ds max_bytes total seen rows distinct sizes.1 among.1 counted
                (λ d h. elim (Bool-cases (str_eq r.blob_sha256 d)) [
                  | inl g ↦
                      let seen_d =
                        subst (λ x. has_name x seen ≡ true) ((str_eq_iff r.blob_sha256 d).0 g) f in
                      rw seen_d refl
                  | inr g ↦ rw g at (covered d h)
                ]))
        | inr f ↦
            let next = left_over-next size r.blob_sha256 seen ds distinct among.0 f in
            rw (e, f)
              (evict_loop-within size ds max_bytes (total - r.archive_size_bytes)
                (r.blob_sha256 ∷ seen) rows distinct sizes.1 among.1
                (omega (arith, counted, next, sizes.0)) (λ d h. ground (arith, covered d h)))
      ]
    ]

All-select_where :
    (P : CacheRow → Type 0) (p : CacheRow → Bool) (rows : List CacheRow)
    → All P rows
    → All P (select_where p rows)
unfolding select_where
All-select_where P p [] h = tt
All-select_where P p (r ∷ rows) h = elim (Bool-cases (p r)) [
  | inl e ↦ rw e (h.0, All-select_where P p rows h.1)
  | inr e ↦ rw e (All-select_where P p rows h.1)
]

delete-SizesAgree :
    (size : String → ℕ) (p : CacheRow → Bool) (now : ℕ) (rows : List CacheRow)
    → SizesAgree size rows
    → SizesAgree size (update_where p (delete_row now) rows)
unfolding update_where delete_row
delete-SizesAgree size p now [] h = tt
delete-SizesAgree size p now (r ∷ rows) h = elim (Bool-cases (p r)) [
  | inl e ↦ rw e (h.0, delete-SizesAgree size p now rows h.1)
  | inr e ↦ rw e (h.0, delete-SizesAgree size p now rows h.1)
]

keep_outside-nothing : (ds : List String) → keep_outside [] ds ≡ ds
unfolding keep_outside
keep_outside-nothing [] = refl
keep_outside-nothing (d ∷ ds) = ap (◌∷◌ d) (keep_outside-nothing ds)

All-among :
    (all_rows rows : List CacheRow)
    → ((d : String)
        → any (λ r. str_eq r.blob_sha256 d) rows ≡ true
        → has_name d (blobs_of all_rows) ≡ true)
    → All (λ r. has_name r.blob_sha256 (blobs_of all_rows) ≡ true) rows
All-among all_rows [] h = tt
All-among all_rows (r ∷ rows) h = (
  h r.blob_sha256 (rw (str_eq_refl r.blob_sha256) refl),
  All-among all_rows rows (λ d e. h d (ground (arith, e))),
)

evict_loop-enough :
    (size : String → ℕ) (max_bytes : ℕ) (live : List CacheRow)
    → SizesAgree size live
    → left_over size
        (evict_loop max_bytes (sum_sizes size (blobs_of live)) [] (order_by used_before live))
        (blobs_of live)
      ≤ max_bytes
unfolding left_over
evict_loop-enough size max_bytes live h =
    let has = λ (d : String). any-order_by (λ r. str_eq r.blob_sha256 d) used_before live in
    evict_loop-within size (blobs_of live) max_bytes (sum_sizes size (blobs_of live)) []
      (order_by used_before live) (blobs_of-Distinct live)
      (All-order_by (λ r. r.archive_size_bytes ≡ size r.blob_sha256) used_before live h)
      (All-among live (order_by used_before live) (λ d e. blobs_of-has d live ∙ sym (has d) ∙ e))
      (ap (sum_sizes size) (sym (keep_outside-nothing (blobs_of live))))
      (λ d e. has d ∙ sym (blobs_of-has d live) ∙ e)

shrink-within :
    (size : String → ℕ) (now max_bytes : ℕ) (rows : List CacheRow)
    → 0 < max_bytes
    → SizesAgree size rows
    → total_size (shrink now max_bytes rows) ≤ max_bytes
unfolding shrink left_over evict_rows
shrink-within size now max_bytes rows positive h =
    let live = select_where is_live rows in
    let live_sizes =
      All-select_where (λ r. r.archive_size_bytes ≡ size r.blob_sha256) is_live rows h in
    let counted = total_size-agrees size rows live_sizes in
    elim (Bool-cases (ltb 0 max_bytes && ltb max_bytes (total_size rows))) [
      | inr e ↦ rw e (ground (arith, e, positive))
      | inl e ↦
          let out = evict_loop max_bytes (total_size rows) [] (order_by used_before live) in
          let remain = live-evict_rows now out rows in
          let after : total_size (evict_rows now out rows) ≡ left_over size out (blobs_of live) =
            total_size-agrees size (evict_rows now out rows) (
              All-select_where (λ r. r.archive_size_bytes ≡ size r.blob_sha256) is_live
                (evict_rows now out rows)
                (delete-SizesAgree size (λ r. has_name r.blob_sha256 out && is_live r) now rows h))
            ∙ ap (λ l. sum_sizes size (blobs_of l)) remain
            ∙ ap (sum_sizes size) (blobs_of-outside out live) in
          let enough =
            subst
              (λ t.
                left_over size (evict_loop max_bytes t [] (order_by used_before live))
                  (blobs_of live)
                ≤ max_bytes)
              (sym counted) (evict_loop-enough size max_bytes live live_sizes) in
          rw e (omega (arith, after, enough))
    ]

-- If the bound is positive and every entry of a blob records the size of this blob, then after
-- ExpireCache the blobs that live entries name, each counted once, are within the bound.
pub expire_cache-within :
    (size : String → ℕ) (now max_bytes : ℕ) (rows : List CacheRow)
    → 0 < max_bytes
    → SizesAgree size rows
    → total_size (expire_cache now max_bytes rows).1 ≤ max_bytes
unfolding expire_cache
expire_cache-within size now max_bytes rows positive h =
    shrink-within size now max_bytes (update_where (has_lapsed now) (delete_row now) rows) positive
      (delete-SizesAgree size (has_lapsed now) now rows h)
