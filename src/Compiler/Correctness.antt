-- ===== src/Compiler/Correctness.antt =====
-- Compile returns an order in which each job stands after all that it needs.
use forgeci.Base.{
  All, Bool-cases, List, Option, Option-cases, String, [], ap, arith, count_where, false,
  false≢true, if◌then◌else◌, inl, inr, is_some, leb, length, none, refl, str_eq, str_eq_iff, subst,
  suc, sym, ◌&&◌, ◌==◌, ◌∙◌, ◌∷◌, ◌≡◌, ◌≤◌,
}
use forgeci.Compiler.{
  Graph, Node, begin_sorting, compile, compile_nodes, compiled, degree_of, degrees_of,
  dependents_among, dependents_of, find_node, link_nodes, needs_in, node_needs, nodes_of, roots_of,
  sort_jobs, weight,
}
use forgeci.Compiler.Links.{
  DistinctNames, dependents_among-occ, link-dependents, link-known, link-needs,
}
use forgeci.Compiler.Names.{done_of, occ, occ-sort_names}
use forgeci.Compiler.Balance.{IsBalanced, IsKnown, IsLinked}
use forgeci.Compiler.Order.{IsOrdered, sort_jobs-IsOrdered}
use forgeci.Config.{Pipeline}

-- Every need is the name of a job, which Validate demands.
abbrev pub NeedsKnown : List (String × Node) → Type 0
NeedsKnown nodes = All (λ e. All (IsKnown nodes) e.1.needs) nodes

All-occ : (P : String → Type 0) (d : String) (ds : List String) → All P ds → 1 ≤ occ d ds → P d
unfolding count_where
All-occ P d [] h o = absurd (omega arith)
All-occ P d (m ∷ ms) h o = elim (Bool-cases (str_eq m d)) [
  | inl e ↦ subst P ((str_eq_iff m d).0 e) h.0
  | inr e ↦ All-occ P d ms h.1 (ground (arith, o, e))
]

All-needs_in :
    (P : String → Type 0) (x : String) (es : List (String × Node))
    → All (λ e. All P e.1.needs) es
    → All P (needs_in x es)
unfolding needs_in find_node
All-needs_in P x [] h = tt
All-needs_in P x ((n, node) ∷ es) h = elim (Bool-cases (str_eq n x)) [
  | inl e ↦ rw e h.0
  | inr e ↦ rw e (All-needs_in P x es h.1)
]

needs_in-IsKnown :
    (x name : String) (nodes : List (String × Node))
    → 1 ≤ occ name (needs_in x nodes)
    → IsKnown nodes x
unfolding needs_in count_where
needs_in-IsKnown x name nodes h = elim (Option-cases (find_node x nodes)) [
  | inl e ↦
      let none_here : 1 ≤ occ name (node_needs none) =
        subst (λ (o : Option Node). 1 ≤ occ name (node_needs o)) e h in
      absurd (omega arith)
  | inr (node, e) ↦ rw e refl
]

-- The links that Compile makes.
links :
    (nodes : List (String × Node)) (x name : String)
    → DistinctNames nodes
    → NeedsKnown nodes
    → occ x (dependents_of name (link_nodes nodes nodes)) ≡ occ name (needs_in x nodes)
unfolding count_where
links nodes x name distinct known =
    let count = dependents_among-occ name x nodes distinct in
    let linked = ap (occ x) (link-dependents nodes name nodes) in
    elim (Bool-cases (is_some (find_node name nodes))) [
      | inl e ↦ linked ∙ rw e (occ-sort_names x (dependents_among name nodes) ∙ count)
      | inr e ↦
          let nobody : occ name (needs_in x nodes) ≡ 0 =
            elim (Bool-cases (leb 1 (occ name (needs_in x nodes)))) [
              | inl f ↦ absurd (
                  false≢true (
                    sym e
                    ∙ All-occ (IsKnown nodes) name (needs_in x nodes)
                        (All-needs_in (IsKnown nodes) x nodes known) (ground (arith, f))))
              | inr f ↦ ground (arith, f)
            ] in
          linked ∙ rw e (sym nobody)
    ]

pub link_nodes-IsLinked :
    (nodes : List (String × Node))
    → DistinctNames nodes
    → NeedsKnown nodes
    → IsLinked (link_nodes nodes nodes)
link_nodes-IsLinked nodes distinct known = record {
  matched = λ x name k.
      links nodes x name distinct known ∙ ap (occ name) (sym (link-needs nodes x nodes));
  known_dependents = λ x name h.
      link-known nodes x nodes
      ∙ needs_in-IsKnown x name nodes (omega (arith, h, links nodes x name distinct known));
}

pub degree_of-degrees_of :
    (x : String) (es : List (String × Node)) → degree_of x (degrees_of es) ≡ length (needs_in x es)
unfolding degree_of degrees_of needs_in find_node
degree_of-degrees_of x [] = refl
degree_of-degrees_of x ((n, node) ∷ es) = elim (Bool-cases (str_eq n x)) [
  | inl e ↦ rw e refl
  | inr e ↦ rw e (degree_of-degrees_of x es)
]

done_of-none : (ds : List String) → done_of [] ds ≡ 0
unfolding count_where
done_of-none [] = refl
done_of-none (d ∷ ds) = ground (arith, done_of-none ds)

absent-roots :
    (x : String) (es : List (String × Node))
    → All (λ f. str_eq f.0 x ≡ false) es
    → occ x (roots_of es) ≡ 0
unfolding roots_of count_where
absent-roots x [] h = refl
absent-roots x ((n, node) ∷ es) h = ground (arith, h.0, absent-roots x es h.1)

-- The roots are the jobs that need nothing, each once.
pub occ-roots_of :
    (x : String) (es : List (String × Node))
    → DistinctNames es
    → occ x (roots_of es)
      ≡ (if is_some (find_node x es) && (length (needs_in x es) == 0) then 1 else 0)
unfolding roots_of needs_in find_node count_where
occ-roots_of x [] d = refl
occ-roots_of x ((n, node) ∷ es) d = elim (Bool-cases (str_eq n x)) [
  | inl e ↦
      let others =
        absent-roots x es
          (subst (λ k. All (λ f. str_eq f.0 k ≡ false) es) ((str_eq_iff n x).0 e) d.0) in
      rw e (ground (arith, others, e))
  | inr e ↦ rw e (ground (arith, occ-roots_of x es d.1, e))
]

pub begin_sorting-IsBalanced :
    (nodes : List (String × Node))
    → DistinctNames nodes
    → IsBalanced nodes [] [] (begin_sorting nodes)
unfolding begin_sorting count_where
begin_sorting-IsBalanced nodes distinct = record {
  balanced = λ x k. omega (arith, degree_of-degrees_of x nodes, done_of-none (needs_in x nodes));
  released = λ x h. ground (
    arith,
    h,
    degree_of-degrees_of x nodes,
    occ-sort_names x (roots_of nodes),
    occ-roots_of x nodes distinct,
  );
  once = λ x. ground (arith, occ-sort_names x (roots_of nodes), occ-roots_of x nodes distinct);
  known =
      λ x h. ground (arith, h, occ-sort_names x (roots_of nodes), occ-roots_of x nodes distinct);
}

absent-link :
    (all_nodes : List (String × Node)) (x : String) (es : List (String × Node))
    → All (λ f. str_eq f.0 x ≡ false) es
    → All (λ f. str_eq f.0 x ≡ false) (link_nodes all_nodes es)
unfolding link_nodes
absent-link all_nodes x [] h = tt
absent-link all_nodes x ((n, node) ∷ es) h = (h.0, absent-link all_nodes x es h.1)

pub link-DistinctNames :
    (all_nodes es : List (String × Node))
    → DistinctNames es
    → DistinctNames (link_nodes all_nodes es)
unfolding link_nodes
link-DistinctNames all_nodes [] d = tt
link-DistinctNames all_nodes ((n, node) ∷ es) d =
    (absent-link all_nodes n es d.0, link-DistinctNames all_nodes es d.1)

pub compile_nodes-compiled :
    (nodes : List (String × Node)) (g : Graph)
    → compile_nodes nodes ≡ compiled g
    → g ≡ record {
      nodes = nodes;
      order = (sort_jobs (suc (weight (begin_sorting nodes))) nodes (begin_sorting nodes)).order;
    }
unfolding compile_nodes
compile_nodes-compiled nodes g h = ground (arith, h)

-- If the jobs have distinct names and every need is the name of a job, and Compile returns a graph,
-- then in the order of the graph each job stands after every job that it needs.
pub compile-IsOrdered :
    (cfg : Pipeline) (g : Graph)
    → DistinctNames (nodes_of cfg.jobs)
    → NeedsKnown (nodes_of cfg.jobs)
    → compile cfg ≡ compiled g
    → IsOrdered g.nodes [] g.order
unfolding compile
compile-IsOrdered cfg g distinct known h =
    let nodes = link_nodes (nodes_of cfg.jobs) (nodes_of cfg.jobs) in
    let start = begin_sorting nodes in
    let d = link-DistinctNames (nodes_of cfg.jobs) (nodes_of cfg.jobs) distinct in
    let sorted =
      sort_jobs-IsOrdered nodes (suc (weight start)) start
        (link_nodes-IsLinked (nodes_of cfg.jobs) distinct known)
        (unfold begin_sorting in begin_sorting-IsBalanced nodes d) (unfold begin_sorting in tt) in
    subst (λ (k : Graph). IsOrdered k.nodes [] k.order) (sym (compile_nodes-compiled nodes g h))
      sorted.0
