-- ===== src/Compiler/Links.antt =====
-- The nodes that Compile links: the dependents of a job are the jobs that need it.
use forgeci.Base.{
  All, Bool-cases, List, String, [], arith, count_where, false, if◌then◌else◌, inl, inr, is_some,
  refl, sort_names, str_eq, str_eq_iff, subst, ◌∷◌, ◌≡◌,
}
use forgeci.Compiler.{
  Node, dependents_among, dependents_of, find_node, link_nodes, needs_in, repeat_for,
}
use forgeci.Compiler.Names.{occ, occ-append}

-- No two entries have one name.
abbrev pub DistinctNames : List (String × Node) → Type 0
DistinctNames [] = Unit
DistinctNames (e ∷ es) = All (λ f. str_eq f.0 e.0 ≡ false) es × DistinctNames es

repeat_for-occ :
    (n name x : String) (needs : List String)
    → occ x (repeat_for n name needs) ≡ (if str_eq n x then occ name needs else 0)
unfolding repeat_for count_where
repeat_for-occ n name x [] = ground arith
repeat_for-occ n name x (d ∷ ds) =
    let rest = repeat_for-occ n name x ds in
    elim (Bool-cases (str_eq d name)) [
      | inl e ↦ rw e (ground (arith, rest))
      | inr e ↦ rw e (ground (arith, rest))
    ]

absent-occ :
    (name x : String) (es : List (String × Node))
    → All (λ f. str_eq f.0 x ≡ false) es
    → occ x (dependents_among name es) ≡ 0
unfolding dependents_among count_where
absent-occ name x [] h = refl
absent-occ name x ((n, node) ∷ es) h =
    let split = occ-append x (repeat_for n name node.needs) (dependents_among name es) in
    ground (arith, split, repeat_for-occ n name x node.needs, h.0, absent-occ name x es h.1)

-- The dependents of `name` hold a known job as often as the job needs `name`, and no other.
pub dependents_among-occ :
    (name x : String) (es : List (String × Node))
    → DistinctNames es
    → occ x (dependents_among name es) ≡ occ name (needs_in x es)
unfolding dependents_among needs_in find_node count_where
dependents_among-occ name x [] d = refl
dependents_among-occ name x ((n, node) ∷ es) d =
    let split = occ-append x (repeat_for n name node.needs) (dependents_among name es) in
    let here = repeat_for-occ n name x node.needs in
    elim (Bool-cases (str_eq n x)) [
      | inl e ↦
          let others =
            absent-occ name x es
              (subst (λ k. All (λ f. str_eq f.0 k ≡ false) es) ((str_eq_iff n x).0 e) d.0) in
          rw e (ground (arith, split, here, others, e))
      | inr e ↦ rw e (ground (arith, split, here, dependents_among-occ name x es d.1, e))
    ]

-- Linking changes neither names nor needs.
pub link-needs :
    (all_nodes : List (String × Node)) (x : String) (es : List (String × Node))
    → needs_in x (link_nodes all_nodes es) ≡ needs_in x es
unfolding link_nodes needs_in find_node
link-needs all_nodes x [] = refl
link-needs all_nodes x ((n, node) ∷ es) = elim (Bool-cases (str_eq n x)) [
  | inl e ↦ rw e refl
  | inr e ↦ rw e (link-needs all_nodes x es)
]

pub link-known :
    (all_nodes : List (String × Node)) (x : String) (es : List (String × Node))
    → is_some (find_node x (link_nodes all_nodes es)) ≡ is_some (find_node x es)
unfolding link_nodes find_node
link-known all_nodes x [] = refl
link-known all_nodes x ((n, node) ∷ es) = elim (Bool-cases (str_eq n x)) [
  | inl e ↦ rw e refl
  | inr e ↦ rw e (link-known all_nodes x es)
]

pub link-dependents :
    (all_nodes : List (String × Node)) (x : String) (es : List (String × Node))
    → dependents_of x (link_nodes all_nodes es)
      ≡ (if is_some (find_node x es) then sort_names (dependents_among x all_nodes) else [])
unfolding link_nodes dependents_of find_node
link-dependents all_nodes x [] = refl
link-dependents all_nodes x ((n, node) ∷ es) = elim (Bool-cases (str_eq n x)) [
  | inl e ↦ let same = (str_eq_iff n x).0 e in rw e (rw same refl)
  | inr e ↦ rw e (link-dependents all_nodes x es)
]
