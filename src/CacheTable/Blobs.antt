-- ===== src/CacheTable/Blobs.antt =====
-- The digests of a list of entries, the size of their blobs, and what evicting some of them leaves.
use forgeci.Base.{
  All, Bool, Bool-cases, List, String, [], any, ap, arith, false, false≢true, if◌then◌else◌, inl,
  inr, not, refl, select_where, str_eq, str_eq_comm, str_eq_iff, str_eq_refl, subst, sym, true,
  update_where, ℕ, ◌+◌, ◌||◌, ◌∙◌, ◌∷◌, ◌≡◌,
}
use forgeci.CacheTable.{
  CacheRow, blob_size, blobs_of, delete_row, evict_rows, has_name, is_live, sum_sizes, total_size,
}

-- Every entry of a blob records its size, as a digest determines its content.
abbrev pub SizesAgree : (String → ℕ) → List CacheRow → Type 0
SizesAgree size rows = All (λ r. r.archive_size_bytes ≡ size r.blob_sha256) rows

-- The digests outside a list, and their size.
unfoldable pub keep_outside : List String → List String → List String
keep_outside out [] = []
keep_outside out (d ∷ ds) =
    let rest = keep_outside out ds in if has_name d out then rest else d ∷ rest

unfoldable pub left_over : (String → ℕ) → (out ds : List String) → ℕ
left_over size out ds = sum_sizes size (keep_outside out ds)

abbrev pub Distinct : List String → Type 0
Distinct [] = Unit
Distinct (d ∷ ds) = (has_name d ds ≡ false) × Distinct ds

pub blobs_of-Distinct : (rows : List CacheRow) → Distinct (blobs_of rows)
unfolding blobs_of
blobs_of-Distinct [] = tt
blobs_of-Distinct (r ∷ rows) = elim (Bool-cases (has_name r.blob_sha256 (blobs_of rows))) [
  | inl e ↦ rw e (blobs_of-Distinct rows)
  | inr e ↦ rw e (e, blobs_of-Distinct rows)
]

pub blobs_of-has :
    (d : String) (rows : List CacheRow)
    → has_name d (blobs_of rows) ≡ any (λ r. str_eq r.blob_sha256 d) rows
unfolding blobs_of
blobs_of-has d [] = refl
blobs_of-has d (r ∷ rows) = elim (Bool-cases (has_name r.blob_sha256 (blobs_of rows))) [
  | inl e ↦ rw e (elim (Bool-cases (str_eq r.blob_sha256 d)) [
    | inl f ↦
        rw f (subst (λ x. has_name x (blobs_of rows) ≡ true) ((str_eq_iff r.blob_sha256 d).0 f) e)
    | inr f ↦ rw f (blobs_of-has d rows)
  ])
  | inr e ↦ rw e (ap (λ b. str_eq r.blob_sha256 d || b) (blobs_of-has d rows))
]

-- Putting a further digest aside takes its size away, once.
keep_outside-absent :
    (d : String) (out ds : List String)
    → has_name d ds ≡ false
    → keep_outside (d ∷ out) ds ≡ keep_outside out ds
unfolding keep_outside
keep_outside-absent d out [] h = refl
keep_outside-absent d out (e ∷ ds) h =
    let apart : str_eq d e ≡ false = str_eq_comm d e ∙ ground (arith, h) in
    let rest = keep_outside-absent d out ds (ground (arith, h)) in rw (apart, rest) refl

pub left_over-next :
    (size : String → ℕ) (d : String) (out ds : List String)
    → Distinct ds
    → has_name d ds ≡ true
    → has_name d out ≡ false
    → left_over size (d ∷ out) ds + size d ≡ left_over size out ds
unfolding left_over keep_outside sum_sizes
left_over-next size d out [] distinct h fresh = cc
left_over-next size d out (e ∷ ds) distinct h fresh = elim (Bool-cases (str_eq e d)) [
  | inl f ↦
      let same = (str_eq_iff e d).0 f in
      let absent = subst (λ x. has_name x ds ≡ false) same distinct.0 in
      rw (same, str_eq_refl d, fresh, keep_outside-absent d out ds absent) (omega arith)
  | inr f ↦
      let apart : str_eq d e ≡ false = str_eq_comm d e ∙ f in
      let rest = left_over-next size d out ds distinct.1 (rw f at h) fresh in
      rw apart (elim (Bool-cases (has_name e out)) [
        | inl g ↦ rw g rest
        | inr g ↦ rw g (omega (arith, rest))
      ])
]

keep_outside-has :
    (d : String) (out ds : List String)
    → has_name d out ≡ false
    → has_name d (keep_outside out ds) ≡ has_name d ds
unfolding keep_outside
keep_outside-has d out [] h = refl
keep_outside-has d out (e ∷ ds) h = elim (Bool-cases (has_name e out)) [
  | inl f ↦
      let apart : str_eq e d ≡ false = elim (Bool-cases (str_eq e d)) [
        | inl g ↦
            absurd
              (false≢true (sym h ∙ subst (λ x. has_name x out ≡ true) ((str_eq_iff e d).0 g) f))
        | inr g ↦ g
      ] in
      rw (f, apart) (keep_outside-has d out ds h)
  | inr f ↦ rw f (ap (λ b. str_eq e d || b) (keep_outside-has d out ds h))
]

abbrev pub is_outside : List String → CacheRow → Bool
is_outside out r = not (has_name r.blob_sha256 out)

pub blobs_of-outside :
    (out : List String) (rows : List CacheRow)
    → blobs_of (select_where (is_outside out) rows) ≡ keep_outside out (blobs_of rows)
unfolding blobs_of keep_outside select_where
blobs_of-outside out [] = refl
blobs_of-outside out (r ∷ rows) =
    let ih = blobs_of-outside out rows in
    elim (Bool-cases (has_name r.blob_sha256 out)) [
      | inl e ↦ elim (Bool-cases (has_name r.blob_sha256 (blobs_of rows))) [
        | inl f ↦ rw (e, f) ih
        | inr f ↦ rw (e, f, e) ih
      ]
      | inr e ↦
          let same = keep_outside-has r.blob_sha256 out (blobs_of rows) e in
          rw (e, ih, same)
            (elim (Bool-cases (has_name r.blob_sha256 (blobs_of rows))) [
              | inl f ↦ rw f refl
              | inr f ↦ rw (f, e) refl
            ])
    ]

pub live-evict_rows :
    (now : ℕ) (out : List String) (rows : List CacheRow)
    → select_where is_live (evict_rows now out rows)
      ≡ select_where (is_outside out) (select_where is_live rows)
unfolding evict_rows select_where update_where delete_row
live-evict_rows now out [] = refl
live-evict_rows now out (r ∷ rows) =
    let ih = live-evict_rows now out rows in
    elim (Bool-cases (is_live r)) [
      | inl e ↦ elim (Bool-cases (has_name r.blob_sha256 out)) [
        | inl f ↦ rw (e, f) ih
        | inr f ↦ rw (f, e, f) (ap (◌∷◌ r) ih)
      ]
      | inr e ↦ elim (Bool-cases (has_name r.blob_sha256 out)) [
        | inl f ↦ rw (f, e, e) ih
        | inr f ↦ rw (f, e) ih
      ]
    ]

-- The total counts each live blob once.
sum_sizes-same :
    (f g : String → ℕ) (ds : List String)
    → All (λ d. f d ≡ g d) ds
    → sum_sizes f ds ≡ sum_sizes g ds
unfolding sum_sizes
sum_sizes-same f g [] h = refl
sum_sizes-same f g (d ∷ ds) h = omega (arith, h.0, sum_sizes-same f g ds h.1)

blob_size-agrees :
    (size : String → ℕ) (d : String) (rows : List CacheRow)
    → SizesAgree size rows
    → blob_size d rows ≡ (if any (λ r. str_eq r.blob_sha256 d) rows then size d else 0)
unfolding blob_size
blob_size-agrees size d [] h = refl
blob_size-agrees size d (r ∷ rows) h =
    let ih = blob_size-agrees size d rows h.1 in
    elim (Bool-cases (str_eq r.blob_sha256 d)) [
      | inl e ↦
          let here : r.archive_size_bytes ≡ size d =
            h.0 ∙ ap size ((str_eq_iff r.blob_sha256 d).0 e) in
          rw e (ground (arith, ih, here))
      | inr e ↦ rw e ih
    ]

All-has_name :
    (P : String → Type 0) (ds : List String)
    → ((d : String) → has_name d ds ≡ true → P d)
    → All P ds
All-has_name P [] f = tt
All-has_name P (d ∷ ds) f =
    (f d (rw (str_eq_refl d) refl), All-has_name P ds (λ e h. f e (ground (arith, h))))

pub total_size-agrees :
    (size : String → ℕ) (rows : List CacheRow)
    → SizesAgree size (select_where is_live rows)
    → total_size rows ≡ sum_sizes size (blobs_of (select_where is_live rows))
unfolding total_size
total_size-agrees size rows h =
    let live = select_where is_live rows in
    sum_sizes-same (λ d. blob_size d live) size (blobs_of live)
      (All-has_name (λ d. blob_size d live ≡ size d) (blobs_of live)
        (λ d e. blob_size-agrees size d live h ∙ rw (sym (blobs_of-has d live) ∙ e) refl))
