-- ===== src/Compiler.antt =====
-- internal/pipeline/graph.go and compiler.go: the graph of a pipeline's jobs and its order.
-- A map is an association list whose keys are distinct; its range order is the order of the list.
pub mod Names
pub mod Balance
pub mod Order
pub mod Links
pub mod Coverage
pub mod Correctness
pub mod Complete
pub mod Validated
pub mod Downloads
mod Samples
mod Accepted
use forgeci.Base.{
  List, Option, String, [], if◌then◌else◌, length, ltb, none, some, sort_names, str_eq, suc, zero,
  ℕ, ◌++◌, ◌+◌, ◌-◌, ◌==◌, ◌∷◌,
}
use forgeci.Config.{Job, Pipeline}

pub record Node : Type 0 where
  pub name : String
  pub job : Job
  pub needs : List String
  pub dependents : List String

pub record Graph : Type 0 where
  pub nodes : List (String × Node)
  pub order : List String

unfoldable pub find_node : String → List (String × Node) → Option Node
find_node name [] = none
find_node name ((n, node) ∷ rest) = if str_eq n name then some node else find_node name rest

-- `graph.Nodes[name].Needs`, for a name that the graph has.
-- A name that the map has not gives no node, and reading its fields would panic.
abbrev pub node_needs : Option Node → List String
node_needs none = []
node_needs (some node) = node.needs

abbrev pub node_dependents : Option Node → List String
node_dependents none = []
node_dependents (some node) = node.dependents

unfoldable pub needs_in : String → List (String × Node) → List String
needs_in name nodes = node_needs (find_node name nodes)

abbrev pub needs_of : String → Graph → List String
needs_of name g = needs_in name g.nodes

-- InitialJobs over the names that are left of the order.
unfoldable pub initial_among : Graph → List String → List String
initial_among g [] = []
initial_among g (name ∷ names) =
    let rest = initial_among g names in if length (needs_of name g) == 0 then name ∷ rest else rest

unfoldable pub initial_jobs : Graph → List String
initial_jobs g = initial_among g g.order

-- The range over the jobs, and what each node needs in order.
unfoldable pub nodes_of : List (String × Job) → List (String × Node)
nodes_of [] = []
nodes_of ((name, job) ∷ jobs) =
    (name, record { name = name; job = job; needs = sort_names job.needs; dependents = [] })
    ∷ nodes_of jobs

-- The appends of one node to the dependents of `name`: one for each time that it needs it.
unfoldable pub repeat_for : (dependent name : String) → List String → List String
repeat_for dependent name [] = []
repeat_for dependent name (d ∷ ds) =
    let rest = repeat_for dependent name ds in if str_eq d name then dependent ∷ rest else rest

unfoldable pub dependents_among : String → List (String × Node) → List String
dependents_among name [] = []
dependents_among name ((n, node) ∷ rest) =
    repeat_for n name node.needs ++ dependents_among name rest

-- Every need is the name of a job, which Validate has checked before.
unfoldable pub link_nodes : List (String × Node) → List (String × Node) → List (String × Node)
link_nodes all_nodes [] = []
link_nodes all_nodes ((n, node) ∷ rest) =
    (n, record node { dependents = sort_names (dependents_among n all_nodes) })
    ∷ link_nodes all_nodes rest

unfoldable pub dependents_of : String → List (String × Node) → List String
dependents_of name nodes = node_dependents (find_node name nodes)

-- The variables of the loop: `indegree`, `ready` and the order so far.
pub record Sorting : Type 0 where
  pub degrees : List (String × ℕ)
  pub ready : List String
  pub order : List String

unfoldable pub degrees_of : List (String × Node) → List (String × ℕ)
degrees_of [] = []
degrees_of ((n, node) ∷ rest) = (n, length node.needs) ∷ degrees_of rest

unfoldable pub roots_of : List (String × Node) → List String
roots_of [] = []
roots_of ((n, node) ∷ rest) =
    let others = roots_of rest in if length node.needs == 0 then n ∷ others else others

unfoldable pub degree_of : String → List (String × ℕ) → ℕ
degree_of name [] = 0
degree_of name ((n, d) ∷ rest) = if str_eq n name then d else degree_of name rest

-- `indegree[dependent]--`, of a dependent whose degree is not yet 0.
unfoldable pub lower : String → List (String × ℕ) → List (String × ℕ)
lower name [] = []
lower name ((n, d) ∷ rest) =
    let others = lower name rest in if str_eq n name then (n, d - 1) ∷ rest else (n, d) ∷ others

unfoldable pub release : String → Sorting → Sorting
release name s =
    let degrees = lower name s.degrees in
    if degree_of name degrees == 0
    then record s { degrees = degrees; ready = sort_names (s.ready ++ name ∷ []) }
    else record s { degrees = degrees }

unfoldable pub release_all : List String → Sorting → Sorting
release_all [] s = s
release_all (name ∷ names) s = release_all names (release name s)

-- The loop while a job is ready; each round takes one off and puts no more on than it lowers degrees
-- to 0, so the ready jobs and the degrees together are enough fuel.
unfoldable pub sort_jobs : ℕ → List (String × Node) → Sorting → Sorting
sort_jobs zero nodes s = s
sort_jobs (suc fuel) nodes s = elim s.ready [
  | [] ↦ s
  | name ∷ rest ↦ sort_jobs fuel nodes (
      release_all (dependents_of name nodes)
        (record s { ready = rest; order = s.order ++ name ∷ [] }))
]

unfoldable pub total_degree : List (String × ℕ) → ℕ
total_degree [] = 0
total_degree ((n, d) ∷ rest) = d + total_degree rest

unfoldable pub begin_sorting : List (String × Node) → Sorting
begin_sorting nodes = record {
  degrees = degrees_of nodes;
  ready = sort_names (roots_of nodes);
  order = [];
}

abbrev pub weight : Sorting → ℕ
weight s = length s.ready + total_degree s.degrees

unfoldable pub cyclic_names : List (String × ℕ) → List String
cyclic_names [] = []
cyclic_names ((n, d) ∷ rest) =
    let others = cyclic_names rest in if ltb 0 d then n ∷ others else others

pub data Compiled : Type 0 where
  compiled : Graph → Compiled
  cycle : List String → Compiled

unfoldable pub compile_nodes : List (String × Node) → Compiled
compile_nodes nodes =
    let s = sort_jobs (suc (weight (begin_sorting nodes))) nodes (begin_sorting nodes) in
    if length s.order == length nodes
    then compiled (record { nodes = nodes; order = s.order })
    else cycle (sort_names (cyclic_names s.degrees))

unfoldable pub compile : Pipeline → Compiled
compile cfg = compile_nodes (link_nodes (nodes_of cfg.jobs) (nodes_of cfg.jobs))
