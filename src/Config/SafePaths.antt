-- ===== src/Config/SafePaths.antt =====
-- safeCachePath and safeArtifactPath accept the paths whose every element is a plain name.
use mathlib.Core.List.{reverse-append, reverse_aux, reverse-reverse}
use forgeci.Base.{
  All, Bool, Bool-cases, Codes, List, [], all, any, ap, append-nil, arith, false, false≢true,
  has_code, has_prefix, inl, inr, is_control, not, refl, reverse, same_codes, same_codes-eq,
  same_codes_refl, subst, sym, true, ◌&&◌, ◌++◌, ◌==◌, ◌||◌, ◌∙◌, ◌∷◌, ◌≡◌,
}
use forgeci.Config.Checks.{is_safe_path}
use forgeci.Config.Elements.{
  IsPlain, NoSlash, elements-NoSlash, elements-join, is_plain, join-elements, keep-plain,
  keep_elements-IsKept, keep_elements-NoSlash,
}
use forgeci.Config.Paths.{
  add_code, clean, dot, dot_dot, elements, is_abs, join_elements, keep_elements, or_dot, slash,
}

-- What may not stand in a path.
unfoldable pub has_bad_code : Codes → Bool
has_bad_code v = has_code 0 v || (has_code b'\\' v || any is_control v)

-- No element is empty, "." or "..": below any directory such a path leads nowhere else.
unfoldable pub is_contained : Codes → Bool
is_contained v = not (has_bad_code v) && all is_plain (elements v)

All-all : (es : List Codes) → All IsPlain es → all is_plain es ≡ true
All-all [] h = refl
All-all (e ∷ es) h = rw h.0 (All-all es h.1)

all-All : (es : List Codes) → all is_plain es ≡ true → All IsPlain es
all-All [] h = tt
all-All (e ∷ es) h = (ground (arith, h), all-All es (ground (arith, h)))

reverse-All :
    (P : Codes → Type 0) (es kept : List Codes)
    → All P es
    → All P kept
    → All P (reverse_aux es kept)
reverse-All P [] kept h k = k
reverse-All P (e ∷ es) kept h k = reverse-All P es (e ∷ kept) h.1 (h.0, k)

-- Clean changes nothing in a path of plain elements.
plain-relative : (v : Codes) → All IsPlain (elements v) → is_abs v ≡ false
unfolding elements is_plain same_codes is_abs
plain-relative [] h = refl
plain-relative (c ∷ v) h = elim (Bool-cases (c == slash)) [
  | inl e ↦ absurd (let first = rw e at h in ground (arith, first.0))
  | inr e ↦ e
]

plain-or_dot : (v : Codes) → All IsPlain (elements v) → or_dot v ≡ v
unfolding elements is_plain same_codes or_dot
plain-or_dot [] h = absurd (ground (arith, h.0))
plain-or_dot (c ∷ v) h = refl

clean-plain : (v : Codes) → All IsPlain (elements v) → clean v ≡ v
unfolding clean
clean-plain v h =
    let relative = plain-relative v h in
    rw
      (
        relative,
        keep-plain false [] (elements v) h,
        append-nil (reverse (elements v)),
        reverse-reverse (elements v),
        join-elements v,
      )
      (plain-or_dot v h)

plain-not_dot : (v : Codes) → All IsPlain (elements v) → same_codes v dot ≡ false
unfolding elements is_plain same_codes add_code
plain-not_dot v h = elim (Bool-cases (same_codes v dot)) [
  | inl e ↦
      let at_dot = subst (λ x. All IsPlain (elements x)) (same_codes-eq v dot e) h in
      absurd (ground (arith, at_dot.0))
  | inr e ↦ e
]

plain-not_up : (v : Codes) → All IsPlain (elements v) → same_codes v dot_dot ≡ false
unfolding elements is_plain same_codes add_code
plain-not_up v h = elim (Bool-cases (same_codes v dot_dot)) [
  | inl e ↦
      let at_up = subst (λ x. All IsPlain (elements x)) (same_codes-eq v dot_dot e) h in
      absurd (ground (arith, at_up.0))
  | inr e ↦ e
]

plain-no_prefix :
    (v : Codes) → All IsPlain (elements v) → has_prefix (dot_dot ++ slash ∷ []) v ≡ false
unfolding elements is_plain same_codes add_code has_prefix
plain-no_prefix [] h = refl
plain-no_prefix (a ∷ []) h = ground arith
plain-no_prefix (a ∷ b ∷ []) h = ground arith
plain-no_prefix (a ∷ b ∷ c ∷ v) h =
    elim (Bool-cases (has_prefix (dot_dot ++ slash ∷ []) (a ∷ b ∷ c ∷ v))) [
      | inl e ↦
          let first : a ≡ b'.' = ground (arith, e) in
          let second : b ≡ b'.' = ground (arith, e) in
          let third : c ≡ slash = ground (arith, e) in
          let at_up = rw (first, second, third) at h in absurd (ground (arith, at_up.0))
      | inr e ↦ e
    ]

-- The other way: what Clean leaves alone, and does not start with "..".
or_dot-eq : (s v : Codes) → or_dot s ≡ v → same_codes v dot ≡ false → s ≡ v
unfolding or_dot
or_dot-eq [] v h apart =
    absurd (false≢true (sym apart ∙ subst (λ x. same_codes x dot ≡ true) h (same_codes_refl dot)))
or_dot-eq (c ∷ s) v h apart = h

leads-up :
    (es : List Codes) (v : Codes)
    → join_elements (dot_dot ∷ es) ≡ v
    → (same_codes v dot_dot || has_prefix (dot_dot ++ slash ∷ []) v) ≡ true
unfolding join_elements same_codes has_prefix
leads-up [] v h = rw (← h) refl
leads-up (f ∷ es) v h = rw (← h) refl

kept-IsPlain :
    (ks : List Codes) (v : Codes)
    → join_elements ks ≡ v
    → same_codes v [] ≡ false
    → All NoSlash ks
    → All IsPlain ks
    → All IsPlain (elements v)
kept-IsPlain [] v h some_code n plain = absurd (
    false≢true (
      sym some_code
      ∙ subst (λ x. same_codes x [] ≡ true) h (unfold join_elements in same_codes_refl [])))
kept-IsPlain (k ∷ ks) v h some_code n plain =
    subst (λ x. All IsPlain (elements x)) h (subst (All IsPlain) (sym (elements-join k ks n)) plain)

clean-kept :
    (v : Codes)
    → is_abs v ≡ false
    → clean v ≡ or_dot (join_elements (reverse (keep_elements false [] (elements v))))
unfolding clean
clean-kept v relative = rw relative refl

clean-fixed :
    (v : Codes)
    → is_abs v ≡ false
    → same_codes v [] ≡ false
    → same_codes v dot ≡ false
    → clean v ≡ v
    → (same_codes v dot_dot || has_prefix (dot_dot ++ slash ∷ []) v) ≡ false
    → All IsPlain (elements v)
clean-fixed v relative some_code not_dot fixed down =
    let kept = keep_elements false [] (elements v) in
    let joined : join_elements (reverse kept) ≡ v =
      or_dot-eq (join_elements (reverse kept)) v (sym (clean-kept v relative) ∙ fixed) not_dot in
    elim (keep_elements-IsKept [] (elements v) (inl tt)) [
      | inl plain ↦
          kept-IsPlain (reverse kept) v joined some_code
            (reverse-All NoSlash kept []
              (keep_elements-NoSlash [] (elements v) tt (elements-NoSlash v)) tt)
            (reverse-All IsPlain kept [] plain tt)
      | inr (front, f) ↦
          let up : reverse kept ≡ dot_dot ∷ reverse front =
            ap (reverse {A = Codes}) f ∙ reverse-append front (dot_dot ∷ []) in
          let leads = leads-up (reverse front) v (ap join_elements (sym up) ∙ joined) in
          absurd (false≢true (sym down ∙ leads))
    ]

safe-IsPlain : (v : Codes) → is_safe_path v ≡ true → All IsPlain (elements v)
unfolding is_safe_path
safe-IsPlain v h =
    let fixed = same_codes-eq (clean v) v (ground (arith, h)) in
    let down : (same_codes (clean v) dot_dot || has_prefix (dot_dot ++ slash ∷ []) (clean v))
        ≡ false =
      ground (arith, h) in
    clean-fixed v (ground (arith, h)) (ground (arith, h)) (ground (arith, h)) fixed (
      subst (λ x. (same_codes x dot_dot || has_prefix (dot_dot ++ slash ∷ []) x) ≡ false) fixed
        down)

plain-some_code : (v : Codes) → All IsPlain (elements v) → same_codes v [] ≡ false
unfolding elements is_plain same_codes
plain-some_code [] h = absurd (ground (arith, h.0))
plain-some_code (c ∷ v) h = refl

plain-safe : (v : Codes) → All IsPlain (elements v) → is_safe_path v ≡ not (has_bad_code v)
unfolding is_safe_path has_bad_code
plain-safe v h =
    rw
      (
        clean-plain v h,
        same_codes_refl v,
        plain-not_up v h,
        plain-no_prefix v h,
        plain-not_dot v h,
        plain-some_code v h,
        plain-relative v h,
      )
      (ground arith)

-- A path is safe exactly when it has no control character, no NUL and no backslash, and none of its
-- elements between slashes is empty, "." or "..".
pub is_safe_path_lem : (v : Codes) → is_safe_path v ≡ is_contained v
unfolding is_contained
is_safe_path_lem v = elim (Bool-cases (all is_plain (elements v))) [
  | inl plain ↦ rw plain (plain-safe v (all-All (elements v) plain) ∙ ground arith)
  | inr other ↦ elim (Bool-cases (is_safe_path v)) [
    | inl safe ↦ absurd (false≢true (sym other ∙ All-all (elements v) (safe-IsPlain v safe)))
    | inr e ↦ rw (e, other) (ground arith)
  ]
]
