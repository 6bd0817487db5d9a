-- ===== src/Compiler/Validated.antt =====
-- What Validate has accepted is what Compile needs: every need is the name of a job.
use forgeci.Base.{
  All, All-map, Bool-cases, List, String, [], arith, count_where, false, inl, inr, insert_name,
  is_some, map, none, refl, some, sort_names, str_eq, str_eq_comm, str_eq_iff, str_eq_refl, str_lt,
  subst, true, ◌∙◌, ◌∷◌, ◌≡◌, ◌≤◌,
}
use forgeci.Compiler.{find_node, nodes_of}
use forgeci.Compiler.Correctness.{NeedsKnown}
use forgeci.Compiler.Links.{DistinctNames}
use forgeci.Compiler.Names.{occ, occ-sort_names}
use forgeci.Compiler.Balance.{IsKnown}
use forgeci.Config.{Job, Pipeline, find_job, has_job}
use forgeci.Config.Validation.{validate, validate_job, validate_jobs, validate_needs}

find-head-apart :
    (jobs : List (String × Job)) (n : String) (job : Job) (es : List (String × Job))
    → All (λ f. str_eq f.0 n ≡ false) es
    → All (λ e. find_job e.0 jobs ≡ some e.1) es
    → All (λ e. find_job e.0 ((n, job) ∷ jobs) ≡ some e.1) es
unfolding find_job
find-head-apart jobs n job [] apart found = tt
find-head-apart jobs n job ((k, j) ∷ es) apart found =
    (rw (str_eq_comm n k, apart.0) found.0, find-head-apart jobs n job es apart.1 found.1)

apart-jobs :
    (n : String) (jobs : List (String × Job))
    → All (λ f. str_eq f.0 n ≡ false) (nodes_of jobs)
    → All (λ f. str_eq f.0 n ≡ false) jobs
unfolding nodes_of
apart-jobs n [] h = tt
apart-jobs n ((k, job) ∷ jobs) h = (h.0, apart-jobs n jobs h.1)

-- With distinct names each job is found under its name.
find-own :
    (jobs : List (String × Job))
    → DistinctNames (nodes_of jobs)
    → All (λ e. find_job e.0 jobs ≡ some e.1) jobs
unfolding nodes_of find_job
find-own [] d = tt
find-own ((n, job) ∷ jobs) d = (
  rw (str_eq_refl n) refl,
  find-head-apart jobs n job jobs (apart-jobs n jobs d.0) (find-own jobs d.1),
)

validate_jobs-at :
    (jobs : List (String × Job)) (names : List String) (name : String)
    → validate_jobs jobs names ≡ none
    → 1 ≤ occ name names
    → validate_job jobs name (find_job name jobs) ≡ none
unfolding validate_jobs count_where
validate_jobs-at jobs [] name h o = absurd (omega arith)
validate_jobs-at jobs (n ∷ names) name h o = elim (Bool-cases (str_eq n name)) [
  | inl e ↦
      let here : validate_job jobs n (find_job n jobs) ≡ none = ground (arith, h) in
      subst (λ k. validate_job jobs k (find_job k jobs) ≡ none) ((str_eq_iff n name).0 e) here
  | inr e ↦ validate_jobs-at jobs names name (ground (arith, h)) (ground (arith, o, e))
]

occ-key :
    (n : String) (job : Job) (jobs : List (String × Job))
    → find_job n jobs ≡ some job
    → 1 ≤ occ n (map (λ f. f.0) jobs)
unfolding find_job count_where
occ-key n job [] h = cc
occ-key n job ((k, j) ∷ jobs) h = elim (Bool-cases (str_eq k n)) [
  | inl e ↦ ground (arith, e)
  | inr e ↦ ground (arith, e, occ-key n job jobs (rw e at h))
]

validate_needs-known :
    (name : String) (jobs : List (String × Job)) (seen needs : List String)
    → validate_needs name jobs seen needs ≡ none
    → All (λ d. has_job d jobs ≡ true) needs
unfolding validate_needs
validate_needs-known name jobs seen [] h = tt
validate_needs-known name jobs seen (d ∷ ds) h =
    (ground (arith, h), validate_needs-known name jobs (d ∷ seen) ds (ground (arith, h)))

All-insert_name :
    (P : String → Type 0) (n : String) (ns : List String)
    → P n
    → All P ns
    → All P (insert_name n ns)
unfolding insert_name
All-insert_name P n [] h hs = (h, tt)
All-insert_name P n (m ∷ ms) h hs = elim (Bool-cases (str_lt m n)) [
  | inl e ↦ rw e (hs.0, All-insert_name P n ms h hs.1)
  | inr e ↦ rw e (h, hs)
]

All-sort_names : (P : String → Type 0) (ns : List String) → All P ns → All P (sort_names ns)
unfolding sort_names
All-sort_names P [] h = tt
All-sort_names P (n ∷ ns) h = All-insert_name P n (sort_names ns) h.0 (All-sort_names P ns h.1)

find_node-nodes_of :
    (d : String) (jobs : List (String × Job))
    → is_some (find_node d (nodes_of jobs)) ≡ has_job d jobs
unfolding find_node nodes_of find_job
find_node-nodes_of d [] = refl
find_node-nodes_of d ((n, job) ∷ jobs) = elim (Bool-cases (str_eq n d)) [
  | inl e ↦ rw e refl
  | inr e ↦ rw e (find_node-nodes_of d jobs)
]

validate-jobs :
    (cfg : Pipeline)
    → validate cfg ≡ none
    → validate_jobs cfg.jobs (sort_names (map (λ e. e.0) cfg.jobs)) ≡ none
unfolding validate
validate-jobs cfg h = ground (arith, h)

validate_job-needs :
    (jobs : List (String × Job)) (name : String) (job : Job)
    → validate_job jobs name (some job) ≡ none
    → validate_needs name jobs [] job.needs ≡ none
unfolding validate_job
validate_job-needs jobs name job h = ground (arith, h)

-- Each job of an accepted pipeline has been looked at.
pub validate-job :
    (cfg : Pipeline) (name : String) (job : Job)
    → validate cfg ≡ none
    → find_job name cfg.jobs ≡ some job
    → validate_job cfg.jobs name (some job) ≡ none
validate-job cfg name job h found =
    let keys = map (λ (e : String × Job). e.0) cfg.jobs in
    let seen = occ-sort_names name keys in
    subst (λ o. validate_job cfg.jobs name o ≡ none) found
      (validate_jobs-at cfg.jobs (sort_names keys) name (validate-jobs cfg h)
        (omega (arith, seen, occ-key name job cfg.jobs found)))

needs-IsKnown :
    (cfg : Pipeline) (es : List (String × Job))
    → validate cfg ≡ none
    → All (λ e. find_job e.0 cfg.jobs ≡ some e.1) es
    → All (λ e. All (IsKnown (nodes_of cfg.jobs)) e.1.needs) (nodes_of es)
unfolding nodes_of
needs-IsKnown cfg [] h found = tt
needs-IsKnown cfg ((n, job) ∷ es) h found =
    let checked = validate_job-needs cfg.jobs n job (validate-job cfg n job h found.0) in
    let all_known =
      All-map {P = λ d. has_job d cfg.jobs ≡ true} {Q = IsKnown (nodes_of cfg.jobs)}
        (λ d e. find_node-nodes_of d cfg.jobs ∙ e) job.needs
        (validate_needs-known n cfg.jobs [] job.needs checked) in
    (
      All-sort_names (IsKnown (nodes_of cfg.jobs)) job.needs all_known,
      needs-IsKnown cfg es h found.1,
    )

pub validate-NeedsKnown :
    (cfg : Pipeline)
    → DistinctNames (nodes_of cfg.jobs)
    → validate cfg ≡ none
    → NeedsKnown (nodes_of cfg.jobs)
validate-NeedsKnown cfg distinct h = needs-IsKnown cfg cfg.jobs h (find-own cfg.jobs distinct)
