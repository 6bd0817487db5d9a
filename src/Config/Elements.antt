-- ===== src/Config/Elements.antt =====
-- A path and its elements: Clean leaves a path alone when its elements are plain names, and what it
-- makes of a relative path is plain names, or starts with "..".
use mathlib.Core.List.{reverse-cons}
use forgeci.Base.{
  All, Bool, Bool-cases, Codes, List, [], ap, append_assoc, arith, false, false≢true, inl, inr, not,
  refl, reverse, same_codes, same_codes_refl, subst, sym, true, ℕ, ◌++◌, ◌==◌, ◌||◌, ◌∙◌, ◌∷◌, ◌≡◌,
  ◌⊎◌,
}
use forgeci.Config.Paths.{
  add_code, dot, dot_dot, elements, go_up, join_elements, keep_element, keep_elements, slash,
}

-- An element that Clean neither drops nor takes back.
unfoldable pub is_plain : Codes → Bool
is_plain e = not (same_codes e [] || (same_codes e dot || same_codes e dot_dot))

abbrev pub IsPlain : Codes → Type 0
IsPlain e = is_plain e ≡ true

abbrev pub NoSlash : Codes → Type 0
NoSlash e = All (λ c. (c == slash) ≡ false) e

elements-shape : (s : Codes) → (e : Codes) × (es : List Codes) × (elements s ≡ e ∷ es)
unfolding elements add_code
elements-shape [] = ([], [], refl)
elements-shape (c ∷ s) = elim (Bool-cases (c == slash)) [
  | inl e ↦ ([], elements s, rw e refl)
  | inr e ↦ let (f, es, h) = elements-shape s in (c ∷ f, es, rw (e, h) refl)
]

join-add_code : (c : ℕ) (es : List Codes) → join_elements (add_code c es) ≡ c ∷ join_elements es
unfolding join_elements add_code
join-add_code c [] = refl
join-add_code c (e ∷ []) = refl
join-add_code c (e ∷ f ∷ es) = refl

pub join-elements : (s : Codes) → join_elements (elements s) ≡ s
unfolding join_elements elements
join-elements [] = refl
join-elements (c ∷ s) = elim (Bool-cases (c == slash)) [
  | inl e ↦
      let (f, es, h) = elements-shape s in
      let same : c ≡ slash = ground (arith, e) in
      let rest = join-elements s in rw e (rw (h, same) (ap (◌∷◌ slash) (rw h at rest)))
  | inr e ↦ rw e (join-add_code c (elements s) ∙ ap (◌∷◌ c) (join-elements s))
]

elements-cut : (e s : Codes) → NoSlash e → elements (e ++ slash ∷ s) ≡ e ∷ elements s
unfolding elements add_code
elements-cut [] s h = refl
elements-cut (c ∷ e) s h = rw (h.0, elements-cut e s h.1) refl

elements-one : (e : Codes) → NoSlash e → elements e ≡ e ∷ []
unfolding elements add_code
elements-one [] h = refl
elements-one (c ∷ e) h = rw (h.0, elements-one e h.1) refl

pub elements-join :
    (e : Codes) (es : List Codes)
    → All NoSlash (e ∷ es)
    → elements (join_elements (e ∷ es)) ≡ e ∷ es
unfolding join_elements
elements-join e [] h = elements-one e h.0
elements-join e (f ∷ es) h =
    elements-cut e (join_elements (f ∷ es)) h.0 ∙ ap (◌∷◌ e) (elements-join f es h.1)

pub elements-NoSlash : (s : Codes) → All NoSlash (elements s)
unfolding elements add_code
elements-NoSlash [] = (tt, tt)
elements-NoSlash (c ∷ s) = elim (Bool-cases (c == slash)) [
  | inl e ↦ rw e (tt, elements-NoSlash s)
  | inr e ↦
      let (f, es, h) = elements-shape s in
      let rest = rw h at (elements-NoSlash s) in rw (e, h) ((e, rest.0), rest.1)
]

-- Clean keeps plain elements.
pub keep-plain :
    (rooted : Bool) (kept es : List Codes)
    → All IsPlain es
    → keep_elements rooted kept es ≡ reverse es ++ kept
unfolding keep_elements keep_element is_plain
keep-plain rooted kept [] h = refl
keep-plain rooted kept (e ∷ es) h =
    let not_empty : same_codes e [] ≡ false = ground (arith, h.0) in
    let not_dot : same_codes e dot ≡ false = ground (arith, h.0) in
    let not_up : same_codes e dot_dot ≡ false = ground (arith, h.0) in
    rw (not_empty, not_dot, not_up, reverse-cons e es, append_assoc (reverse es) (e ∷ []) kept)
      (keep-plain rooted (e ∷ kept) es h.1)

-- What Clean keeps of a relative path: plain elements, or at the end a "..".
abbrev pub IsKept : List Codes → Type 0
IsKept kept = All IsPlain kept ⊎ ((above : List Codes) × (kept ≡ above ++ dot_dot ∷ []))

go_up-IsKept : (kept : List Codes) → IsKept kept → IsKept (go_up false kept)
unfolding go_up
go_up-IsKept [] h = inr ([], refl)
go_up-IsKept (e ∷ above) h = elim (Bool-cases (same_codes e dot_dot)) [
  | inl same ↦ rw same (elim h [
    | inl plain ↦ absurd (unfold is_plain in ground (arith, same, plain.0))
    | inr (front, f) ↦ inr (dot_dot ∷ front, ap (◌∷◌ dot_dot) f)
  ])
  | inr apart ↦
      rw apart (elim h [ inl plain ↦ inl plain.1 | inr (front, f) ↦ dropped front f apart ])
]
  where
    dropped :
        (front : List Codes)
        → e ∷ above ≡ front ++ dot_dot ∷ []
        → same_codes e dot_dot ≡ false
        → IsKept above
    dropped [] f apart =
        let same : e ≡ dot_dot = cc in
        absurd (
          false≢true (
            sym apart
            ∙ subst (λ x. same_codes x dot_dot ≡ true) (sym same) (same_codes_refl dot_dot)))
    dropped (x ∷ front) f apart = inr (front, cc)

keep_element-IsKept :
    (kept : List Codes) (e : Codes) → IsKept kept → IsKept (keep_element false kept e)
unfolding keep_element
keep_element-IsKept kept e h = elim (Bool-cases (same_codes e [] || same_codes e dot)) [
  | inl drop_it ↦ rw drop_it h
  | inr named ↦ elim (Bool-cases (same_codes e dot_dot)) [
    | inl up ↦ rw (named, up) (go_up-IsKept kept h)
    | inr down ↦
        let plain : IsPlain e = unfold is_plain in ground (arith, named, down) in
        rw (named, down)
          (elim h [
            | inl all_plain ↦ inl (plain, all_plain)
            | inr (front, f) ↦ inr (e ∷ front, ap (◌∷◌ e) f)
          ])
  ]
]

pub keep_elements-IsKept :
    (kept es : List Codes) → IsKept kept → IsKept (keep_elements false kept es)
unfolding keep_elements
keep_elements-IsKept kept [] h = h
keep_elements-IsKept kept (e ∷ es) h =
    keep_elements-IsKept (keep_element false kept e) es (keep_element-IsKept kept e h)

go_up-NoSlash : (kept : List Codes) → All NoSlash kept → All NoSlash (go_up false kept)
unfolding go_up
go_up-NoSlash [] h = ((refl, (refl, tt)), tt)
go_up-NoSlash (e ∷ above) h = elim (Bool-cases (same_codes e dot_dot)) [
  | inl same ↦ rw same ((refl, (refl, tt)), h)
  | inr apart ↦ rw apart h.1
]

keep_element-NoSlash :
    (kept : List Codes) (e : Codes)
    → All NoSlash kept
    → NoSlash e
    → All NoSlash (keep_element false kept e)
unfolding keep_element
keep_element-NoSlash kept e h n = elim (Bool-cases (same_codes e [] || same_codes e dot)) [
  | inl drop_it ↦ rw drop_it h
  | inr named ↦ elim (Bool-cases (same_codes e dot_dot)) [
    | inl up ↦ rw (named, up) (go_up-NoSlash kept h)
    | inr down ↦ rw (named, down) (n, h)
  ]
]

pub keep_elements-NoSlash :
    (kept es : List Codes)
    → All NoSlash kept
    → All NoSlash es
    → All NoSlash (keep_elements false kept es)
unfolding keep_elements
keep_elements-NoSlash kept [] h n = h
keep_elements-NoSlash kept (e ∷ es) h n =
    keep_elements-NoSlash (keep_element false kept e) es (keep_element-NoSlash kept e h n.0) n.1
