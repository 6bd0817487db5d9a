-- ===== src/Compiler/Names.antt =====
-- How often a name stands in a list, and how many names of a list stand in another.
use forgeci.Base.{
  All, Bool, Bool-cases, List, String, [], arith, count_where, if◌then◌else◌, inl, inr, insert_name,
  leb, length, refl, sort_names, str_eq, str_eq_comm, str_eq_iff, str_lt, subst, sym, ℕ, ◌++◌, ◌+◌,
  ◌∙◌, ◌∷◌, ◌≡◌, ◌≤◌,
}

abbrev pub occ : String → List String → ℕ
occ n ns = count_where (λ m. str_eq m n) ns

abbrev pub one : Bool → ℕ
one b = if b then 1 else 0

pub occ-append : (n : String) (xs ys : List String) → occ n (xs ++ ys) ≡ occ n xs + occ n ys
unfolding count_where
occ-append n [] ys = omega arith
occ-append n (x ∷ xs) ys = omega (arith, occ-append n xs ys)

occ-insert_name : (n m : String) (ns : List String) → occ n (insert_name m ns) ≡ occ n (m ∷ ns)
unfolding insert_name count_where
occ-insert_name n m [] = refl
occ-insert_name n m (k ∷ ks) = elim (Bool-cases (str_lt k m)) [
  | inl e ↦ rw e (omega (arith, occ-insert_name n m ks))
  | inr e ↦ rw e refl
]

pub occ-sort_names : (n : String) (ns : List String) → occ n (sort_names ns) ≡ occ n ns
unfolding sort_names count_where
occ-sort_names n [] = refl
occ-sort_names n (m ∷ ms) = omega (arith, occ-insert_name n m (sort_names ms), occ-sort_names n ms)

-- How many of the names have been put into the order.
abbrev pub done_of : List String → List String → ℕ
done_of order ds = count_where (λ d. leb 1 (occ d order)) ds

pub done_of-length : (order ds : List String) → done_of order ds ≤ length ds
unfolding count_where
done_of-length order [] = omega arith
done_of-length order (d ∷ ds) = ground (arith, done_of-length order ds)

pub done_of-full :
    (order ds : List String) → done_of order ds ≡ length ds → All (λ d. 1 ≤ occ d order) ds
unfolding count_where
done_of-full order [] h = tt
done_of-full order (d ∷ ds) h = elim (Bool-cases (leb 1 (occ d order))) [
  | inl e ↦ (ground (arith, e), done_of-full order ds (ground (arith, rw e at h)))
  | inr e ↦ absurd (ground (arith, rw e at h, done_of-length order ds))
]

done-next :
    (order : List String) (d name : String)
    → occ name order ≡ 0
    → one (leb 1 (occ d (order ++ name ∷ []))) ≡ one (leb 1 (occ d order)) + one (str_eq d name)
unfolding count_where
done-next order d name fresh =
    let grown = occ-append d order (name ∷ []) in
    elim (Bool-cases (str_eq d name)) [
      | inl e ↦
          let fresh' = subst (λ n. occ n order ≡ 0) (sym ((str_eq_iff d name).0 e)) fresh in
          ground (arith, grown, fresh', e, sym (str_eq_comm d name) ∙ e)
      | inr e ↦ ground (arith, grown, e, sym (str_eq_comm d name) ∙ e)
    ]

pub done_of-next :
    (order ds : List String) (name : String)
    → occ name order ≡ 0
    → done_of (order ++ name ∷ []) ds ≡ done_of order ds + occ name ds
unfolding count_where
done_of-next order [] name fresh = omega arith
done_of-next order (d ∷ ds) name fresh =
    omega (arith, done_of-next order ds name fresh, done-next order d name fresh)
