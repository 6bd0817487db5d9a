-- ===== src/Compiler/Order.antt =====
-- The loop of Compile puts a job into the order only after everything that it needs.
use forgeci.Base.{
  All, Bool-cases, List, String, [], ap, append-nil, append_assoc, arith, count_where, inl, inr,
  refl, str_eq_refl, subst, suc, sym, zero, ℕ, ◌++◌, ◌==◌, ◌∙◌, ◌∷◌, ◌≡◌, ◌≤◌,
}
use forgeci.Compiler.{
  Node, Sorting, degree_of, dependents_of, lower, needs_in, release, release_all, sort_jobs,
}
use forgeci.Compiler.Balance.{IsBalanced, IsLinked, release_all-IsBalanced, visit-IsBalanced}
use forgeci.Compiler.Names.{done_of-full, occ}

module _ (nodes : List (String × Node)) where
  -- Each job of the order stands after all that it needs.
  abbrev pub IsOrdered : List String → List String → Type 0
  IsOrdered before [] = Unit
  IsOrdered before (n ∷ ns) =
      All (λ d. 1 ≤ occ d before) (needs_in n nodes) × IsOrdered (before ++ n ∷ []) ns

  IsOrdered-next :
      (before order : List String) (name : String)
      → IsOrdered before order
      → All (λ d. 1 ≤ occ d (before ++ order)) (needs_in name nodes)
      → IsOrdered before (order ++ name ∷ [])
  IsOrdered-next before [] name o h =
      (subst (λ ns. All (λ d. 1 ≤ occ d ns) (needs_in name nodes)) (append-nil before) h, tt)
  IsOrdered-next before (n ∷ ns) name o h = (
    o.0,
    IsOrdered-next (before ++ n ∷ []) ns name o.1 (
        subst (λ ms. All (λ d. 1 ≤ occ d ms) (needs_in name nodes))
          (sym (append_assoc before (n ∷ []) ns)) h),
  )

  visit-needs :
      (order rest : List String) (name : String) (s : Sorting)
      → s.ready ≡ name ∷ rest
      → IsBalanced nodes order [] s
      → All (λ d. 1 ≤ occ d order) (needs_in name nodes)
  unfolding count_where
  visit-needs order rest name s e b =
      let stands : 1 ≤ occ name s.ready = ground (arith, ap (occ name) e, str_eq_refl name) in
      done_of-full order (needs_in name nodes) (
        omega
          (arith, b.balanced name (b.known name stands), b.released name (omega (arith, stands))))

  pub release_all-order : (left : List String) (s : Sorting) → (release_all left s).order ≡ s.order
  unfolding release_all release
  release_all-order [] s = refl
  release_all-order (x ∷ left) s =
      release_all-order left (release x s)
      ∙ elim (Bool-cases (degree_of x (lower x s.degrees) == 0)) [
        | inl e ↦ rw e refl
        | inr e ↦ rw e refl
      ]

  abbrev pub round : String → List String → Sorting → Sorting
  round name rest s =
      release_all (dependents_of name nodes)
        (record s { ready = rest; order = s.order ++ name ∷ [] })

  -- The state in which a round releases the dependents of the job that it has visited.
  pub started-IsBalanced :
      (name : String) (rest : List String) (s : Sorting)
      → IsLinked nodes
      → s.ready ≡ name ∷ rest
      → IsBalanced nodes s.order [] s
      → IsBalanced nodes
          (s.order ++ name ∷ [])
          (dependents_of name nodes)
          (record s { ready = rest; order = s.order ++ name ∷ [] })
  started-IsBalanced name rest s linked e b =
      let v = visit-IsBalanced nodes s.order rest name s linked e b in
      record { balanced = v.balanced; released = v.released; once = v.once; known = v.known }

  pub round-order :
      (name : String) (rest : List String) (s : Sorting)
      → (round name rest s).order ≡ s.order ++ name ∷ []
  round-order name rest s =
      release_all-order (dependents_of name nodes)
        (record s { ready = rest; order = s.order ++ name ∷ [] })

  pub round-IsBalanced :
      (name : String) (rest : List String) (s : Sorting)
      → IsLinked nodes
      → s.ready ≡ name ∷ rest
      → IsBalanced nodes s.order [] s
      → IsBalanced nodes (round name rest s).order [] (round name rest s)
  round-IsBalanced name rest s linked e b =
      subst (λ ns. IsBalanced nodes ns [] (round name rest s)) (sym (round-order name rest s))
        (release_all-IsBalanced nodes (s.order ++ name ∷ []) (dependents_of name nodes)
          (record s { ready = rest; order = s.order ++ name ∷ [] })
          (λ x h. linked.known_dependents x name h) (started-IsBalanced name rest s linked e b))

  pub sort_jobs-IsOrdered :
      (fuel : ℕ) (s : Sorting)
      → IsLinked nodes
      → IsBalanced nodes s.order [] s
      → IsOrdered [] s.order
      → IsOrdered [] (sort_jobs fuel nodes s).order
        × IsBalanced nodes (sort_jobs fuel nodes s).order [] (sort_jobs fuel nodes s)
  unfolding sort_jobs
  sort_jobs-IsOrdered zero s linked b o = (o, b)
  sort_jobs-IsOrdered (suc fuel) s linked b o =
      go (λ t c q. sort_jobs-IsOrdered fuel t linked c q) s.ready refl
    where
      go :
          ((t : Sorting)
            → IsBalanced nodes t.order [] t
            → IsOrdered [] t.order
            → IsOrdered [] (sort_jobs fuel nodes t).order
              × IsBalanced nodes (sort_jobs fuel nodes t).order [] (sort_jobs fuel nodes t))
          → (ready : List String) → s.ready ≡ ready
          → let t : Sorting = elim ready [
            | [] ↦ s
            | name ∷ rest ↦ sort_jobs fuel nodes (
                release_all
                  (dependents_of name nodes)
                  (record s { ready = rest; order = s.order ++ name ∷ [] }))
          ] in
            IsOrdered [] t.order × IsBalanced nodes t.order [] t
      go again [] e = (o, b)
      go again (name ∷ rest) e =
          again (round name rest s) (round-IsBalanced name rest s linked e b) (
            subst (IsOrdered []) (sym (round-order name rest s))
              (IsOrdered-next [] s.order name o (visit-needs s.order rest name s e b)))
