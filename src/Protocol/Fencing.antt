-- ===== src/Protocol/Fencing.antt =====
-- internal/runnerproto: a claim that the store has lost is refused by the handlers too.
use forgeci.Base.{
  All, Bool, Bool-cases, List, Option, Result, String, [], ap, arith, false, in_option, in_result,
  inl, inr, none, ok, opt_is, select_first, select_where, some, str_eq, str_eq_iff, subst, sym,
  true, ℕ, ◌==◌, ◌∙◌, ◌∷◌, ◌≡◌, ◌≤◌,
}
use forgeci.Config.{Pipeline}
use forgeci.Protocol.{
  Answer, Claim, Server, Uuids, code, holds_lease, owner_of, read_run, shows, valid_lease,
}
use forgeci.Protocol.Files.{CommitRequest, commit_artifact, leased_run}
use forgeci.Protocol.History.{Served, Served-Reach}
use forgeci.Protocol.Jobs.{
  AppendRequest, CompleteRequest, append_logs, complete, is_run_leased, kept_status, read_status,
}
use forgeci.Protocol.Refinement.{complete-Reach}
use forgeci.Protocol.Requests.{Request}
use forgeci.Store.Commits.{get_run}
use forgeci.Store.Jobs.{complete_job, is_completion}
use forgeci.Store.Jobs.Fencing.{Reach-IsLost, complete_job-IsLost}
use forgeci.Store.Jobs.Keys.{UniqueJobs}
use forgeci.Store.Jobs.Lost.{IsLost, IsLost-complete_job, IsLostOn}
use forgeci.Store.Ownership.{Ownership}
use forgeci.Store.Steps.{Reach, Reach-AllEvolve}
use forgeci.Store.Tables.{Db, JobRow, RunRow, is_job}

module _ {A : Type 0} (P : A → Type 0) (p q : A → Bool) where
  All-found :
      (xs : List A) {x : A}
      → All P xs
      → select_first p (select_where q xs) ≡ some x
      → P x × (q x ≡ true) × (p x ≡ true)
  unfolding select_first select_where
  All-found [] a h = cc
  All-found (y ∷ ys) {x} (b, a) h = elim (Bool-cases (q y)) [
    | inr e ↦ All-found ys a (ground arith)
    | inl e ↦ elim (Bool-cases (p y)) [
      | inr f ↦ All-found ys a (ground arith)
      | inl f ↦ let same : y ≡ x = ground arith in (subst P same b, ground arith, ground arith)
    ]
  ]

module _ (u : Uuids) where
  pub owner_of-parts :
      (c : Claim) (o : Ownership)
      → owner_of u c ≡ some o
      → (u.read c.run_id ≡ some o.run_id)
        × (u.read c.runner_id ≡ some o.runner_id)
        × (u.read c.lease_id ≡ some o.lease_id)
        × (o.generation ≡ c.generation)
        × (o.job_name ≡ c.job_name)
  unfolding owner_of
  owner_of-parts c o h = ground arith

  shows-eq :
      (x : Option ℕ) (text : String) (n : ℕ)
      → u.read text ≡ some n
      → shows u x text ≡ true
      → opt_is x n ≡ true
  unfolding shows
  shows-eq none text n r h = cc
  shows-eq (some m) text n r h =
      let same : u.show m ≡ text = (str_eq_iff (u.show m) text).0 h in
      let agree : m ≡ n = ground (arith, u.read-show m, ap u.read same) in ground arith

  holds_lease-IsLostOn :
      (clock : ℕ) (c : Claim) (o : Ownership) (j : JobRow)
      → owner_of u c ≡ some o
      → IsLostOn o j
      → (j.run_id == o.run_id) ≡ true
      → str_eq j.job_name c.job_name ≡ true
      → holds_lease u clock c j ≡ false
  unfolding holds_lease
  holds_lease-IsLostOn clock c o j w lost same name =
      let (r, n, l, g, k) = owner_of-parts c o w in
      let key : is_job o.run_id o.job_name j ≡ true = rw (k, same) name in
      let free = (lost key).1 in
      ground (
        arith,
        shows-eq j.runner_id c.runner_id o.runner_id n,
        shows-eq j.lease_id c.lease_id o.lease_id l,
      )

  valid_lease-IsLost :
      (clock : ℕ) (c : Claim) (o : Ownership) (db : Db) (p : RunRow) (jobs : List JobRow)
      → owner_of u c ≡ some o
      → IsLost o db
      → read_run u c.run_id db ≡ ok (p, jobs)
      → valid_lease u clock c p jobs ≡ false
  unfolding valid_lease read_run get_run
  valid_lease-IsLost clock c o db p jobs w lost h =
      let (r, n, l, g, k) = owner_of-parts c o w in
      let rows : jobs ≡ select_where (λ j. j.run_id == o.run_id) db.jobs = ground arith in
      elim (in_option (select_first (λ j. str_eq j.job_name c.job_name) jobs)) [
        | inl e ↦ ground arith
        | inr (j, e) ↦
            let (lost_on, run, name) =
              All-found (IsLostOn o) (λ j. str_eq j.job_name c.job_name) (λ j. j.run_id == o.run_id)
                db.jobs lost
                (ap (select_first (λ j. str_eq j.job_name c.job_name)) (sym rows) ∙ e) in
            let no_hold = holds_lease-IsLostOn clock c o j w lost_on run name in ground arith
      ]

-- The answer is an error, and the server stays as it was.
abbrev pub IsRefused : Server → Answer × Server → Type 0
IsRefused s done = (400 ≤ code done.0) × (done.1 ≡ s)

module _ (u : Uuids) (parse : String → Result Pipeline) where
  append_logs-IsLost :
      (clock : ℕ) (o : Ownership) (r : Request) (q : AppendRequest) (s : Server)
      → owner_of u q.claim ≡ some o
      → IsLost o s.db
      → IsRefused s (append_logs u parse clock r (some q) s)
  unfolding append_logs
  append_logs-IsLost clock o r q s w lost = elim (in_result (read_run u q.claim.run_id s.db)) [
    | inl e ↦ ground arith
    | inr ((p, jobs), e) ↦
        let over : is_run_leased u parse clock q.claim p jobs ≡ false =
          unfold is_run_leased in
          ground (arith, valid_lease-IsLost u clock q.claim o s.db p jobs w lost e) in
        ground arith
  ]

  commit_artifact-IsLost :
      (clock now : ℕ) (o : Ownership) (r : Request) (q : CommitRequest) (s : Server)
      → owner_of u q.claim ≡ some o
      → IsLost o s.db
      → IsRefused s (commit_artifact u parse clock now r (some q) s)
  unfolding commit_artifact leased_run
  commit_artifact-IsLost clock now o r q s w lost =
      elim (in_result (read_run u q.claim.run_id s.db)) [
        | inl e ↦ ground arith
        | inr ((p, jobs), e) ↦
            let over = valid_lease-IsLost u clock q.claim o s.db p jobs w lost e in ground arith
      ]

  complete-IsLost :
      (now retention : ℕ) (o : Ownership) (r : Request) (q : CompleteRequest) (s : Server)
      → owner_of u q.claim ≡ some o
      → IsLost o s.db
      → IsRefused s (complete u parse now retention r (some q) s)
  unfolding complete
  complete-IsLost now retention o r q s w lost =
      elim (in_option (kept_status is_completion (read_status q.status))) [
        | inl e ↦ ground arith
        | inr (status, e) ↦
            ground (arith, IsLost-complete_job parse now retention o status q.error s.db lost)
      ]

  accepted_lem :
      (now retention : ℕ) (r : Request) (q : CompleteRequest) (s s1 : Server)
      → UniqueJobs s.db.jobs
      → complete u parse now retention r (some q) s ≡ (Answer.accepted, s1)
      → (o : Ownership) × (owner_of u q.claim ≡ some o) × IsLost o s1.db
  unfolding complete
  accepted_lem now retention r q s s1 keys h = elim (in_option (owner_of u q.claim)) [
    | inl e ↦ absurd (ground arith)
    | inr (o, e) ↦ elim (in_option (kept_status is_completion (read_status q.status))) [
      | inl f ↦ absurd (ground arith)
      | inr (status, f) ↦
          elim (in_result (complete_job parse now retention o status q.error s.db)) [
            | inl g ↦ absurd (ground arith)
            | inr (db, g) ↦
                let same : db ≡ s1.db = ground arith in
                (
                  o,
                  e,
                  subst (IsLost o) same
                      (complete_job-IsLost parse s.db db o now retention status q.error keys g),
                )
          ]
    ]
  ]

  -- If no two job rows have one key and the handler of completions accepts a claim, then after any
  -- further requests and sweeps, whatever they meet, a completion, a batch of logs and a commit of
  -- artifacts that name this claim again all get an error, and leave the server as it was.
  pub complete-fences :
      (now retention : ℕ) (r : Request) (q : CompleteRequest) (s s1 s2 : Server) (clock' now' : ℕ)
      (r' : Request) (q' : CompleteRequest) (a' : AppendRequest) (c' : CommitRequest)
      → UniqueJobs s.db.jobs
      → complete u parse now retention r (some q) s ≡ (Answer.accepted, s1)
      → Served u parse s1 s2
      → q'.claim ≡ q.claim
      → a'.claim ≡ q.claim
      → c'.claim ≡ q.claim
      → IsRefused s2 (complete u parse now' retention r' (some q') s2)
        × IsRefused s2 (append_logs u parse clock' r' (some a') s2)
        × IsRefused s2 (commit_artifact u parse clock' now' r' (some c') s2)
  complete-fences now retention r q s s1 s2 clock' now' r' q' a' c' keys h served x y z =
      let (o, w, gone) = accepted_lem now retention r q s s1 keys h in
      let reach : Reach parse s.db s1.db =
        subst (λ d. Reach parse s.db d.1.db) h
          (complete-Reach parse u s now retention r (some q)) in
      let lost =
        Reach-IsLost parse o (Reach-AllEvolve parse keys reach).1 gone
          (Served-Reach u parse served) in
      (
        complete-IsLost now' retention o r' q' s2 (rw x w) lost,
        append_logs-IsLost clock' o r' a' s2 (rw y w) lost,
        commit_artifact-IsLost clock' now' o r' c' s2 (rw z w) lost,
      )
