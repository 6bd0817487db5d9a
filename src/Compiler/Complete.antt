-- ===== src/Compiler/Complete.antt =====
-- The graph of Compile has each of its jobs in the order.
use forgeci.Base.{
  All, Bool-cases, List, String, [], any, ap, arith, count_where, inl, inr, length, refl, str_eq,
  str_eq_refl, subst, suc, sym, true, ◌+◌, ◌∷◌, ◌≡◌, ◌≤◌,
}
use forgeci.Compiler.{
  Graph, Node, Sorting, begin_sorting, compile, compile_nodes, compiled, degrees_of, find_node,
  link_nodes, nodes_of, roots_of, sort_jobs, weight,
}
use forgeci.Compiler.Correctness.{
  NeedsKnown, begin_sorting-IsBalanced, compile_nodes-compiled, degree_of-degrees_of,
  link-DistinctNames, link_nodes-IsLinked, occ-roots_of,
}
use forgeci.Compiler.Coverage.{
  IsCounted, length-sort_names, no_positive, positive, sort_jobs-IsCounted,
}
use forgeci.Compiler.Links.{DistinctNames}
use forgeci.Compiler.Names.{occ, occ-sort_names}
use forgeci.Compiler.Balance.{IsKnown}
use forgeci.Config.{Pipeline}

any-occ : (x : String) (ns : List String) → 1 ≤ occ x ns → any (λ n. str_eq n x) ns ≡ true
unfolding count_where
any-occ x [] h = absurd (omega arith)
any-occ x (n ∷ ns) h = elim (Bool-cases (str_eq n x)) [
  | inl e ↦ rw e refl
  | inr e ↦ rw e (any-occ x ns (ground (arith, h, e)))
]

All-known :
    (P : String → Type 0) (es : List (String × Node))
    → ((k : String) → IsKnown es k → P k)
    → All (λ e. P e.0) es
unfolding find_node
All-known P [] f = tt
All-known P ((n, node) ∷ es) f = (
  f n (rw (str_eq_refl n) refl),
  All-known P es
      (λ k known. f k (elim (Bool-cases (str_eq n k)) [ inl e ↦ rw e refl | inr e ↦ rw e known ])),
)

roots-positive :
    (es : List (String × Node)) → length (roots_of es) + positive (degrees_of es) ≡ length es
unfolding roots_of degrees_of count_where
roots-positive [] = refl
roots-positive ((n, node) ∷ es) = ground (arith, roots-positive es)

begin_sorting-IsCounted :
    (nodes : List (String × Node)) → DistinctNames nodes → IsCounted nodes [] (begin_sorting nodes)
unfolding begin_sorting count_where
begin_sorting-IsCounted nodes distinct = record {
  counted = omega (arith, length-sort_names (roots_of nodes), roots-positive nodes);
  complete = λ x k z. ground (
    arith,
    k,
    z,
    degree_of-degrees_of x nodes,
    occ-sort_names x (roots_of nodes),
    occ-roots_of x nodes distinct,
  );
}

-- A loop that ends with nothing ready and an order of full length has put every job into it.
ended-occ :
    (nodes : List (String × Node)) (x : String) (s : Sorting)
    → s.ready ≡ []
    → IsCounted nodes s.order s
    → length s.order ≡ length nodes
    → IsKnown nodes x
    → 1 ≤ occ x s.order
unfolding count_where
ended-occ nodes x s e c full k =
    let nothing = ap (length {A = String}) e in
    let none_left : positive s.degrees ≡ 0 = omega (arith, c.counted, full, nothing) in
    omega (arith, c.complete x k (no_positive x s.degrees none_left), ap (occ x) e)

compile_nodes-full :
    (nodes : List (String × Node)) (g : Graph)
    → compile_nodes nodes ≡ compiled g
    → length (sort_jobs (suc (weight (begin_sorting nodes))) nodes (begin_sorting nodes)).order
      ≡ length nodes
unfolding compile_nodes
compile_nodes-full nodes g h = ground (arith, h)

-- If the jobs have distinct names and every need is the name of a job, and Compile returns a graph,
-- then every job of the graph stands in its order.
pub compile-IsCovered :
    (cfg : Pipeline) (g : Graph)
    → DistinctNames (nodes_of cfg.jobs)
    → NeedsKnown (nodes_of cfg.jobs)
    → compile cfg ≡ compiled g
    → All (λ e. any (λ n. str_eq n e.0) g.order ≡ true) g.nodes
unfolding compile
compile-IsCovered cfg g distinct known h =
    let nodes = link_nodes (nodes_of cfg.jobs) (nodes_of cfg.jobs) in
    let start = begin_sorting nodes in
    let d = link-DistinctNames (nodes_of cfg.jobs) (nodes_of cfg.jobs) distinct in
    let (empty, counted) =
      sort_jobs-IsCounted nodes (suc (weight start)) start
        (link_nodes-IsLinked (nodes_of cfg.jobs) distinct known)
        (unfold begin_sorting in begin_sorting-IsBalanced nodes d)
        (unfold begin_sorting in begin_sorting-IsCounted nodes d) (omega arith) in
    subst (λ (k : Graph). All (λ e. any (λ n. str_eq n e.0) k.order ≡ true) k.nodes)
      (sym (compile_nodes-compiled nodes g h))
      (All-known _ nodes (λ x k. any-occ x _ (
        ended-occ nodes x (sort_jobs (suc (weight start)) nodes start) empty counted
          (compile_nodes-full nodes g h) k)))
