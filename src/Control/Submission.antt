-- ===== src/Control/Submission.antt =====
-- What Submit leaves in the tables.
use forgeci.Base.{
  List, Option, Result, String, [], ap, arith, codes, in_option, in_result, inl, inr, map, none, ok,
  ok-injective, refl, select_where, some, subst, sym, ℕ, ◌==◌, ◌∙◌, ◌∷◌, ◌≡◌,
}
use forgeci.Compiler.{Graph, compile, compiled, find_node}
use forgeci.Config.{Pipeline}
use forgeci.Control.{
  Files, compiled_graph, jobs_in_order, prepare_run, safe_pipeline_path, submit, wanted_file,
}
use forgeci.Store.Commits.{get_run}
use forgeci.Store.Creation.{NewRun, create_run, pending_job, queued_run}
use forgeci.Store.Creation.Lookup.{create_run-get_run}
use forgeci.Store.Jobs.Keys.{UniqueJobs}
use forgeci.Store.Tables.{Db, JobRow, JobStatus, RunRow, RunStatus, SnapshotRow}

-- The image that the graph gives to a job's name.
abbrev pub image_in : Graph → String → Option String
image_in g n = elim (find_node n g.nodes) [ none ↦ none | some node ↦ node.job.image ]

-- A job row of a run that nobody has worked on: pending, without a lease, times or a message.
pub record IsFresh (id : ℕ) (g : Graph) (n : String) (j : JobRow) : Type 0 where
  pub run : j.run_id ≡ id
  pub name : j.job_name ≡ n
  pub status : j.status ≡ JobStatus.pending
  pub image : j.image ≡ image_in g n
  pub started : j.started_at ≡ none
  pub finished : j.finished_at ≡ none
  pub message : j.error_message ≡ none
  pub runner : j.runner_id ≡ none
  pub lease : j.lease_id ≡ none
  pub generation : j.lease_generation ≡ 0
  pub expiry : j.lease_expires_at ≡ none

-- One such row for each of the names, in their order.
unfoldable pub AllFresh : ℕ → Graph → List String → List JobRow → Type 0
AllFresh id g [] [] = Unit
AllFresh id g [] (j ∷ jobs) = ⊥
AllFresh id g (n ∷ names) [] = ⊥
AllFresh id g (n ∷ names) (j ∷ jobs) = IsFresh id g n j × AllFresh id g names jobs

pending_job-IsFresh :
    (id : ℕ) (g : Graph) (n : String) (image : Option String)
    → image ≡ image_in g n
    → IsFresh id g n (pending_job id (n, image))
pending_job-IsFresh id g n image e = record {
  run = refl;
  name = refl;
  status = refl;
  image = e;
  started = refl;
  finished = refl;
  message = refl;
  runner = refl;
  lease = refl;
  generation = refl;
  expiry = refl;
}

jobs_in_order-cons :
    (g : Graph) (n : String) (names : List String)
    → jobs_in_order g (n ∷ names) ≡ (n, image_in g n) ∷ jobs_in_order g names
unfolding jobs_in_order
jobs_in_order-cons g n names = elim (in_option (find_node n g.nodes)) [
  | inl e ↦ ground (arith, e)
  | inr (node, e) ↦ ground (arith, e)
]

jobs_in_order-AllFresh :
    (id : ℕ) (g : Graph) (names : List String)
    → AllFresh id g names (map (pending_job id) (jobs_in_order g names))
unfolding AllFresh
jobs_in_order-AllFresh id g [] = unfold jobs_in_order in tt
jobs_in_order-AllFresh id g (n ∷ names) =
    subst (λ given. AllFresh id g (n ∷ names) (map (pending_job id) given))
      (sym (jobs_in_order-cons g n names))
      (pending_job-IsFresh id g n (image_in g n) refl, jobs_in_order-AllFresh id g names)

module _ (parse : String → Result Pipeline) (files : Files) (workspace : String) (id now : ℕ)
    (capture : Option SnapshotRow) (file : String) (max_parallel : ℕ) where
  prepare_run-parts :
      {given : NewRun}
      → prepare_run parse files workspace id capture file max_parallel ≡ ok given
      → (cfg : Pipeline) × (g : Graph) × (parse given.pipeline_yaml ≡ ok cfg)
        × (compile cfg ≡ compiled g)
        × (given.id ≡ id)
        × (given.jobs ≡ jobs_in_order g g.order)
  unfolding prepare_run
  prepare_run-parts {given} h =
      elim (in_result (safe_pipeline_path files (codes workspace) (wanted_file file))) [
        | inl e ↦ absurd (ground arith)
        | inr (path, e) ↦ elim (in_option (files.read path)) [
          | inl f ↦ absurd (ground arith)
          | inr (text, f) ↦ elim (in_result (parse text)) [
            | inl k ↦ absurd (ground arith)
            | inr (cfg, k) ↦ elim (in_result (compiled_graph (compile cfg))) [
              | inl l ↦ absurd (ground arith)
              | inr (g, l) ↦ (cfg, g, ground arith, ground arith, ground arith, ground arith)
            ]
          ]
        ]
      ]

  returned-queued :
      (given : NewRun) (s : SnapshotRow) (d : Db) {names : List (String × Option String)}
      {p : RunRow} {jobs : List JobRow}
      → given.id ≡ id
      → given.jobs ≡ names
      → get_run given.id d ≡ ok (queued_run now given s, map (pending_job given.id) given.jobs)
      → get_run id d ≡ ok (p, jobs)
      → (p ≡ queued_run now given s) × (jobs ≡ map (pending_job id) names)
  returned-queued given s d {names} {p} {jobs} same listed found got =
      let at_id : get_run id d ≡ ok (queued_run now given s, map (pending_job id) given.jobs) =
        subst (λ k. get_run k d ≡ ok (queued_run now given s, map (pending_job k) given.jobs)) same
          found in
      let both : (p, jobs) ≡ (queued_run now given s, map (pending_job id) given.jobs) =
        ok-injective (sym got ∙ at_id) in
      (ap (λ x. x.0) both, ap (λ x. x.1) both ∙ ap (map (pending_job id)) listed)

  -- If no job row belongs to the new run before, no two job rows have one key, and Submit succeeds,
  -- then the run that it returns is queued, its text is that of a pipeline that Compile accepts, its
  -- jobs are one for each name of the graph's order, in this order, each with the image that the graph
  -- gives to the name, pending, without a lease, times or a message, and still no two job rows have one
  -- key.
  pub submit-IsQueued :
      (db : Db) {p : RunRow} {jobs : List JobRow} {db' : Db}
      → select_where (λ j. j.run_id == id) db.jobs ≡ []
      → UniqueJobs db.jobs
      → submit parse files workspace id now capture file max_parallel db ≡ ok ((p, jobs), db')
      → (cfg : Pipeline) × (g : Graph) × (parse p.pipeline_yaml ≡ ok cfg)
        × (compile cfg ≡ compiled g)
        × (p.status ≡ RunStatus.queued)
        × AllFresh id g g.order jobs
        × UniqueJobs db'.jobs
  unfolding submit
  submit-IsQueued db {p} {jobs} {db'} free u h =
      elim (in_result (prepare_run parse files workspace id capture file max_parallel)) [
        | inl e ↦ absurd (ground arith)
        | inr (given, e) ↦
            let (cfg, g, parsed, graph, same, listed) = prepare_run-parts e in
            elim (in_result (create_run now given db)) [
              | inl f ↦ absurd (ground arith)
              | inr (d, f) ↦
                  let (s, t, found, unique) = create_run-get_run now given db (rw same free) u f in
                  let got : (get_run id d ≡ ok (p, jobs)) × (d ≡ db') = ground arith in
                  let (row, rows) = returned-queued given s d same listed found got.0 in
                  (
                    cfg,
                    g,
                    ap (λ q. parse q.pipeline_yaml) row ∙ parsed,
                    graph,
                    ap (λ q. q.status) row,
                    subst (AllFresh id g g.order) (sym rows) (jobs_in_order-AllFresh id g g.order),
                    subst (λ k. UniqueJobs k.jobs) got.1 unique,
                  )
            ]
      ]
