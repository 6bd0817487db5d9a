-- ===== src/Compiler/Coverage.antt =====
-- The loop of Compile ends with no job ready, and an order as long as the nodes has all of them.
use forgeci.Base.{
  Bool-cases, List, String, [], ap, arith, count_where, inl, inr, insert_name, length,
  length-append, ltb, refl, sort_names, str_eq, str_eq_iff, str_eq_refl, str_lt, subst, suc, sym,
  zero, ℕ, ◌++◌, ◌+◌, ◌<◌, ◌==◌, ◌∙◌, ◌∷◌, ◌≡◌, ◌≤◌,
}
use forgeci.Compiler.{
  Node, Sorting, degree_of, dependents_of, lower, release, release_all, sort_jobs, total_degree,
  weight,
}
use forgeci.Compiler.Names.{occ, occ-append, one}
use forgeci.Compiler.Balance.{
  IsBalanced, IsKnown, IsLinked, degree_of-lower, pushed, release-IsBalanced, unreleased,
}
use forgeci.Compiler.Order.{round, round-IsBalanced, round-order, started-IsBalanced}

length-insert_name : (n : String) (ns : List String) → length (insert_name n ns) ≡ suc (length ns)
unfolding insert_name
length-insert_name n [] = refl
length-insert_name n (m ∷ ms) = elim (Bool-cases (str_lt m n)) [
  | inl e ↦ rw e (ap suc (length-insert_name n ms))
  | inr e ↦ rw e refl
]

pub length-sort_names : (ns : List String) → length (sort_names ns) ≡ length ns
unfolding sort_names
length-sort_names [] = refl
length-sort_names (n ∷ ns) = length-insert_name n (sort_names ns) ∙ ap suc (length-sort_names ns)

abbrev pub positive : List (String × ℕ) → ℕ
positive m = count_where (λ e. ltb 0 e.1) m

lower-positive :
    (x : String) (m : List (String × ℕ))
    → 1 ≤ degree_of x m
    → positive (lower x m) + one (degree_of x (lower x m) == 0) ≡ positive m
unfolding lower degree_of count_where
lower-positive x [] h = absurd (omega arith)
lower-positive x ((n, d) ∷ rest) h = elim (Bool-cases (str_eq n x)) [
  | inl e ↦ let some_left = rw e at h in rw e (ground (arith, some_left, e))
  | inr e ↦ let later = lower-positive x rest (rw e at h) in rw e (ground (arith, later, e))
]

lower-total :
    (x : String) (m : List (String × ℕ))
    → 1 ≤ degree_of x m
    → total_degree (lower x m) + 1 ≡ total_degree m
unfolding lower degree_of total_degree
lower-total x [] h = absurd (omega arith)
lower-total x ((n, d) ∷ rest) h = elim (Bool-cases (str_eq n x)) [
  | inl e ↦ let some_left = rw e at h in rw e (omega (arith, some_left))
  | inr e ↦ let later = lower-total x rest (rw e at h) in rw e (omega (arith, later))
]

pub no_positive : (x : String) (m : List (String × ℕ)) → positive m ≡ 0 → degree_of x m ≡ 0
unfolding degree_of count_where
no_positive x [] h = refl
no_positive x ((n, d) ∷ rest) h = elim (Bool-cases (str_eq n x)) [
  | inl e ↦ rw e (ground (arith, h))
  | inr e ↦ rw e (no_positive x rest (ground (arith, h)))
]

module _ (nodes : List (String × Node)) where
  -- Every node is in the order, ready, or has a degree.
  pub record IsCounted (order : List String) (s : Sorting) : Type 0 where
    pub counted : length order + length s.ready + positive s.degrees ≡ length nodes
    pub complete :
        (x : String) → IsKnown nodes x → degree_of x s.degrees ≡ 0 → 1 ≤ occ x order + occ x s.ready

  release-IsCounted :
      (order left : List String) (x : String) (s : Sorting)
      → IsKnown nodes x
      → IsBalanced nodes order (x ∷ left) s
      → IsCounted order s
      → IsCounted order (release x s) × (weight (release x s) ≤ weight s)
  unfolding release
  release-IsCounted order left x s k b c =
      let (has_degree, apart) = unreleased nodes order left x s k b in
      let fewer = lower-positive x s.degrees has_degree in
      let less = lower-total x s.degrees has_degree in
      let longer = length-sort_names (s.ready ++ x ∷ []) ∙ length-append s.ready (x ∷ []) in
      elim (Bool-cases (degree_of x (lower x s.degrees) == 0)) [
        | inl e ↦
            let zero_now = ap one e in
            simp e (
              record {
                counted = omega (arith, c.counted, fewer, longer, zero_now);
                complete = λ y ky z. elim (Bool-cases (str_eq x y)) [
                  | inl f ↦ ground (arith, pushed nodes x y s.ready, f)
                  | inr f ↦
                      let same : degree_of y s.degrees ≡ 0 =
                        ground (arith, degree_of-lower x y s.degrees, f, z) in
                      ground (arith, pushed nodes x y s.ready, f, c.complete y ky same)
                ];
              },
              omega (arith, less, longer),
            )
        | inr e ↦
            let not_now = ap one e in
            simp e (
              record {
                counted = omega (arith, c.counted, fewer, not_now);
                complete = λ y ky z. elim (Bool-cases (str_eq x y)) [
                  | inl f ↦
                      let at_x =
                        subst (λ n. degree_of n (lower x s.degrees) ≡ 0)
                          (sym ((str_eq_iff x y).0 f)) z in
                      absurd (ground (arith, e, at_x))
                  | inr f ↦
                      let same : degree_of y s.degrees ≡ 0 =
                        ground (arith, degree_of-lower x y s.degrees, f, z) in
                      c.complete y ky same
                ];
              },
              omega (arith, less),
            )
      ]

  release_all-IsCounted :
      (order left : List String) (s : Sorting)
      → ((x : String) → 1 ≤ occ x left → IsKnown nodes x)
      → IsBalanced nodes order left s
      → IsCounted order s
      → IsCounted order (release_all left s) × (weight (release_all left s) ≤ weight s)
  unfolding release_all count_where
  release_all-IsCounted order [] s k b c = (c, omega arith)
  release_all-IsCounted order (x ∷ left) s k b c =
      let kx = k x (ground (arith, str_eq_refl x)) in
      let (here, less) = release-IsCounted order left x s kx b c in
      let (after, later) =
        release_all-IsCounted order left (release x s) (λ y h. k y (ground (arith, h)))
          (release-IsBalanced nodes order left x s kx b) here in
      (after, omega (arith, less, later))

  started-IsCounted :
      (name : String) (rest : List String) (s : Sorting)
      → s.ready ≡ name ∷ rest
      → IsCounted s.order s
      → IsCounted (s.order ++ name ∷ []) (record s { ready = rest; order = s.order ++ name ∷ [] })
  unfolding count_where
  started-IsCounted name rest s e c = record {
    counted =
        omega (arith, c.counted, ap (length {A = String}) e, length-append s.order (name ∷ []));
    complete =
        λ x k z. omega (arith, c.complete x k z, ap (occ x) e, occ-append x s.order (name ∷ []));
  }

  round-IsCounted :
      (name : String) (rest : List String) (s : Sorting)
      → IsLinked nodes
      → s.ready ≡ name ∷ rest
      → IsBalanced nodes s.order [] s
      → IsCounted s.order s
      → IsCounted (round nodes name rest s).order (round nodes name rest s)
        × (weight (round nodes name rest s) < weight s)
  round-IsCounted name rest s linked e b c =
      let (after, less) =
        release_all-IsCounted (s.order ++ name ∷ []) (dependents_of name nodes)
          (record s { ready = rest; order = s.order ++ name ∷ [] })
          (λ x h. linked.known_dependents x name h)
          (started-IsBalanced nodes name rest s linked e b) (started-IsCounted name rest s e c) in
      (
        subst (λ ns. IsCounted ns (round nodes name rest s)) (sym (round-order nodes name rest s))
            after,
        omega (arith, less, ap (length {A = String}) e),
      )

  pub sort_jobs-IsCounted :
      (fuel : ℕ) (s : Sorting)
      → IsLinked nodes
      → IsBalanced nodes s.order [] s
      → IsCounted s.order s
      → weight s < fuel
      → ((sort_jobs fuel nodes s).ready ≡ [])
        × IsCounted (sort_jobs fuel nodes s).order (sort_jobs fuel nodes s)
  unfolding sort_jobs
  sort_jobs-IsCounted zero s linked b c enough = absurd (omega arith)
  sort_jobs-IsCounted (suc fuel) s linked b c enough =
      go (λ t d q w. sort_jobs-IsCounted fuel t linked d q w) s.ready refl
    where
      go :
          ((t : Sorting)
            → IsBalanced nodes t.order [] t
            → IsCounted t.order t
            → weight t < fuel
            → ((sort_jobs fuel nodes t).ready ≡ [])
              × IsCounted (sort_jobs fuel nodes t).order (sort_jobs fuel nodes t))
          → (ready : List String) → s.ready ≡ ready
          → let t : Sorting = elim ready [
            | [] ↦ s
            | name ∷ rest ↦ sort_jobs fuel nodes (round nodes name rest s)
          ] in
            (t.ready ≡ []) × IsCounted t.order t
      go again [] e = (e, c)
      go again (name ∷ rest) e =
          let (after, less) = round-IsCounted name rest s linked e b c in
          again (round nodes name rest s) (round-IsBalanced nodes name rest s linked e b) after
            (omega (arith, less))
