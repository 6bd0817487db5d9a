-- ===== src/Compiler/Balance.antt =====
-- What the loop of Compile keeps: degrees, ready jobs and the order are in balance.
use forgeci.Base.{
  Bool-cases, List, String, [], ap, arith, count_where, if◌then◌else◌, inl, inr, is_some, leb,
  length, refl, sort_names, str_eq, str_eq-apart, str_eq_iff, str_eq_refl, subst, true, ℕ, ◌++◌,
  ◌+◌, ◌-◌, ◌==◌, ◌∷◌, ◌≡◌, ◌≤◌,
}
use forgeci.Compiler.{
  Node, Sorting, degree_of, dependents_of, find_node, lower, needs_in, release, release_all,
}
use forgeci.Compiler.Names.{
  done_of, done_of-length, done_of-next, occ, occ-append, occ-sort_names, one,
}

abbrev pub IsKnown : List (String × Node) → String → Type 0
IsKnown nodes name = is_some (find_node name nodes) ≡ true

-- Each list of dependents names a job once for each time that the job needs its owner.
pub record IsLinked (nodes : List (String × Node)) : Type 0 where
  pub matched :
      (x name : String)
      → IsKnown nodes x
      → occ x (dependents_of name nodes) ≡ occ name (needs_in x nodes)
  pub known_dependents : (x name : String) → 1 ≤ occ x (dependents_of name nodes) → IsKnown nodes x

pub degree_of-lower :
    (x k : String) (m : List (String × ℕ))
    → degree_of k (lower x m) ≡ (if str_eq x k then degree_of k m - 1 else degree_of k m)
unfolding degree_of lower
degree_of-lower x k [] = ground arith
degree_of-lower x k ((n, d) ∷ rest) = elim (Bool-cases (str_eq n x)) [
  | inl e ↦ let same = (str_eq_iff n x).0 e in rw (e, same) (ground arith)
  | inr e ↦ elim (Bool-cases (str_eq n k)) [
    | inl f ↦ rw (e, f, str_eq-apart n k x f e) refl
    | inr f ↦ rw (e, f) (degree_of-lower x k rest)
  ]
]

module _ (nodes : List (String × Node)) where
  -- `order` is what has been put into the order, `left` the dependents that are still to be released.
  pub record IsBalanced (order left : List String) (s : Sorting) : Type 0 where
    pub balanced :
        (x : String)
        → IsKnown nodes x
        → degree_of x s.degrees + done_of order (needs_in x nodes)
          ≡ length (needs_in x nodes) + occ x left
    pub released : (x : String) → 1 ≤ occ x order + occ x s.ready → degree_of x s.degrees ≡ 0
    pub once : (x : String) → occ x order + occ x s.ready ≤ 1
    pub known : (x : String) → 1 ≤ occ x s.ready → IsKnown nodes x

  -- A job that is to be released has a degree, and it is not ready yet.
  pub unreleased :
      (order left : List String) (x : String) (s : Sorting)
      → IsKnown nodes x
      → IsBalanced order (x ∷ left) s
      → (1 ≤ degree_of x s.degrees) × (occ x order + occ x s.ready ≡ 0)
  unfolding count_where
  unreleased order left x s k b =
      let counted = b.balanced x k in
      let most = done_of-length order (needs_in x nodes) in
      let has_degree : 1 ≤ degree_of x s.degrees = ground (arith, counted, most, str_eq_refl x) in
      (
        has_degree,
        elim (Bool-cases (leb 1 (occ x order + occ x s.ready))) [
          | inl e ↦ absurd (omega (arith, has_degree, b.released x (ground (arith, e))))
          | inr e ↦ ground (arith, e)
        ],
      )

  lower-balanced :
      (order left : List String) (x : String) (s : Sorting)
      → IsKnown nodes x
      → IsBalanced order (x ∷ left) s
      → (y : String) → IsKnown nodes y
      → degree_of y (lower x s.degrees) + done_of order (needs_in y nodes)
        ≡ length (needs_in y nodes) + occ y left
  unfolding count_where
  lower-balanced order left x s k b y ky =
      let low = degree_of-lower x y s.degrees in
      let counted = b.balanced y ky in
      elim (Bool-cases (str_eq x y)) [
        | inl f ↦
            let has_degree =
              subst (λ n. 1 ≤ degree_of n s.degrees) ((str_eq_iff x y).0 f)
                (unreleased order left x s k b).0 in
            ground (arith, low, counted, f, has_degree)
        | inr f ↦ ground (arith, low, counted, f)
      ]

  pub pushed :
      (x y : String) (ready : List String)
      → occ y (sort_names (ready ++ x ∷ [])) ≡ occ y ready + one (str_eq x y)
  unfolding count_where
  pushed x y ready = omega (arith, occ-sort_names y (ready ++ x ∷ []), occ-append y ready (x ∷ []))

  -- The released job is ready now.
  push-IsBalanced :
      (order left : List String) (x : String) (s : Sorting)
      → IsKnown nodes x
      → IsBalanced order (x ∷ left) s
      → degree_of x (lower x s.degrees) ≡ 0
      → IsBalanced order left
          (record s { degrees = lower x s.degrees; ready = sort_names (s.ready ++ x ∷ []) })
  push-IsBalanced order left x s k b zero_now = record {
    balanced = lower-balanced order left x s k b;
    released = λ y h. elim (Bool-cases (str_eq x y)) [
      | inl f ↦ subst (λ n. degree_of n (lower x s.degrees) ≡ 0) ((str_eq_iff x y).0 f) zero_now
      | inr f ↦
          let more : 1 ≤ occ y order + occ y s.ready = ground (arith, h, pushed x y s.ready, f) in
          ground (arith, degree_of-lower x y s.degrees, f, b.released y more)
    ];
    once = λ y. elim (Bool-cases (str_eq x y)) [
      | inl f ↦
          let apart =
            subst (λ n. occ n order + occ n s.ready ≡ 0) ((str_eq_iff x y).0 f)
              (unreleased order left x s k b).1 in
          ground (arith, pushed x y s.ready, f, apart)
      | inr f ↦ ground (arith, pushed x y s.ready, f, b.once y)
    ];
    known = λ y h. elim (Bool-cases (str_eq x y)) [
      | inl f ↦ subst (IsKnown nodes) ((str_eq_iff x y).0 f) k
      | inr f ↦ b.known y (ground (arith, h, pushed x y s.ready, f))
    ];
  }

  keep-IsBalanced :
      (order left : List String) (x : String) (s : Sorting)
      → IsKnown nodes x
      → IsBalanced order (x ∷ left) s
      → IsBalanced order left (record s { degrees = lower x s.degrees })
  keep-IsBalanced order left x s k b = record {
    balanced = lower-balanced order left x s k b;
    released = λ y h. elim (Bool-cases (str_eq x y)) [
      | inl f ↦
          let apart =
            subst (λ n. occ n order + occ n s.ready ≡ 0) ((str_eq_iff x y).0 f)
              (unreleased order left x s k b).1 in
          absurd (omega (arith, h, apart))
      | inr f ↦ ground (arith, degree_of-lower x y s.degrees, f, b.released y h)
    ];
    once = b.once;
    known = b.known;
  }

  pub release-IsBalanced :
      (order left : List String) (x : String) (s : Sorting)
      → IsKnown nodes x
      → IsBalanced order (x ∷ left) s
      → IsBalanced order left (release x s)
  unfolding release
  release-IsBalanced order left x s k b = elim (Bool-cases (degree_of x (lower x s.degrees) == 0)) [
    | inl e ↦ simp e (push-IsBalanced order left x s k b (ground (arith, e)))
    | inr e ↦ simp e (keep-IsBalanced order left x s k b)
  ]

  pub release_all-IsBalanced :
      (order left : List String) (s : Sorting)
      → ((x : String) → 1 ≤ occ x left → IsKnown nodes x)
      → IsBalanced order left s
      → IsBalanced order [] (release_all left s)
  unfolding release_all count_where
  release_all-IsBalanced order [] s k b = b
  release_all-IsBalanced order (x ∷ left) s k b =
      release_all-IsBalanced order left (release x s) (λ y h. k y (ground (arith, h)))
        (release-IsBalanced order left x s (k x (ground (arith, str_eq_refl x))) b)

  -- A ready job goes into the order.
  pub visit-IsBalanced :
      (order rest : List String) (name : String) (s : Sorting)
      → IsLinked nodes
      → s.ready ≡ name ∷ rest
      → IsBalanced order [] s
      → IsBalanced (order ++ name ∷ []) (dependents_of name nodes) (record s { ready = rest })
  unfolding count_where
  visit-IsBalanced order rest name s linked e b =
      let ready_has = λ (y : String). ap (occ y) e in
      let fresh : occ name order ≡ 0 =
        ground (arith, b.once name, ready_has name, str_eq_refl name) in
      record {
        balanced = λ y ky. omega (
          arith,
          b.balanced y ky,
          done_of-next order (needs_in y nodes) name fresh,
          linked.matched y name ky,
        );
        released =
            λ y h. b.released y (omega (arith, h, ready_has y, occ-append y order (name ∷ [])));
        once = λ y. omega (arith, b.once y, ready_has y, occ-append y order (name ∷ []));
        known = λ y h. b.known y (omega (arith, h, ready_has y));
      }
