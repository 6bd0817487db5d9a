-- ===== src/Protocol/Authority.antt =====
-- internal/runnerproto: what a completion, a batch of logs and a commit of artifacts show before the
-- handler takes them.
use mathlib.Core.List.{Memᴰ}
use forgeci.Base.{
  Bool, Bool-cases, List, Option, Result, String, [], ap, arith, in_option, in_result, inl, inr,
  mem-select_where, none, ok, opt_after, opt_is, refl, select_first, select_where, some, str_eq,
  str_eq_iff, subst, sym, true, ℕ, ◌<◌, ◌==◌, ◌∙◌, ◌∷◌, ◌≡◌,
}
use forgeci.Config.{Pipeline}
use forgeci.Protocol.{
  Answer, Claim, Server, Uuids, code, holds_lease, owner_of, read_run, shows, valid_lease,
}
use forgeci.Protocol.Fencing.{owner_of-parts}
use forgeci.Protocol.Files.{CommitRequest, commit_artifact, leased_run}
use forgeci.Protocol.Jobs.{complete, AppendRequest, CompleteRequest, append_logs, is_run_leased}
use forgeci.Protocol.Requests.{Request}
use forgeci.Store.Commits.{get_run}
use forgeci.Store.Jobs.{complete_job, owned_pipeline}
use forgeci.Store.Ownership.{Ownership, owns}
use forgeci.Store.Tables.{Db, JobRow, JobStatus, RunRow}

-- The row is the running job that the claim names, under the lease that it shows, which is not over.
pub record IsHeld (u : Uuids) (clock : ℕ) (c : Claim) (j : JobRow) : Type 0 where
  pub run : u.read c.run_id ≡ some j.run_id
  pub name : j.job_name ≡ c.job_name
  pub status : j.status ≡ JobStatus.running
  pub runner : (n : ℕ) × (j.runner_id ≡ some n) × (u.read c.runner_id ≡ some n)
  pub lease : (n : ℕ) × (j.lease_id ≡ some n) × (u.read c.lease_id ≡ some n)
  pub generation : j.lease_generation ≡ c.generation
  pub expiry : (t : ℕ) × (j.lease_expires_at ≡ some t) × (clock < t)

-- The answer is no error.
abbrev pub IsAccepted : Answer × Server → Type 0
IsAccepted done = code done.0 < 400

abbrev pub HoldsLease : Uuids → ℕ → Claim → Server → Type 0
HoldsLease u clock c s = (j : JobRow) × Memᴰ j s.db.jobs × IsHeld u clock c j

mem-first :
    {A : Type 0} (p : A → Bool) (xs : List A) {x : A}
    → select_first p xs ≡ some x
    → Memᴰ x xs × (p x ≡ true)
unfolding select_first
mem-first p [] h = cc
mem-first p (y ∷ ys) h = elim (Bool-cases (p y)) [
  | inr e ↦ let rest = mem-first p ys (ground arith) in (Memᴰ.tail rest.0, rest.1)
  | inl e ↦
      let same : y ≡ _ = ground arith in (Memᴰ.head (sym same), subst (λ z. p z ≡ true) same e)
]

opt_is-some : (x : Option ℕ) (n : ℕ) → opt_is x n ≡ true → x ≡ some n
opt_is-some none n h = cc
opt_is-some (some m) n h = ap some (ground arith)

opt_after-some : (x : Option ℕ) (n : ℕ) → opt_after x n ≡ true → (t : ℕ) × (x ≡ some t) × (n < t)
opt_after-some none n h = cc
opt_after-some (some m) n h = (m, refl, ground arith)

module _ (u : Uuids) where
  shows-some :
      (x : Option ℕ) (text : String)
      → shows u x text ≡ true
      → (n : ℕ) × (x ≡ some n) × (u.read text ≡ some n)
  unfolding shows
  shows-some none text h = cc
  shows-some (some n) text h =
      (n, refl, subst (λ t. u.read t ≡ some n) ((str_eq_iff (u.show n) text).0 h) (u.read-show n))

  owns-IsHeld :
      (clock : ℕ) (c : Claim) (o : Ownership) (j : JobRow)
      → owner_of u c ≡ some o
      → owns clock o j ≡ true
      → IsHeld u clock c j
  unfolding owns
  owns-IsHeld clock c o j w h =
      let (r, n, l, g, k) = owner_of-parts u c o w in
      let run : o.run_id ≡ j.run_id = ground arith in
      record {
        run = r ∙ ap some run;
        name = (str_eq_iff j.job_name o.job_name).0 (ground arith) ∙ k;
        status = ground arith;
        runner = (o.runner_id, opt_is-some j.runner_id o.runner_id (ground arith), n);
        lease = (o.lease_id, opt_is-some j.lease_id o.lease_id (ground arith), l);
        generation = ground (arith, g);
        expiry = opt_after-some j.lease_expires_at clock (ground arith);
      }

  holds_lease-IsHeld :
      (clock : ℕ) (c : Claim) (j : JobRow)
      → u.read c.run_id ≡ some j.run_id
      → j.job_name ≡ c.job_name
      → holds_lease u clock c j ≡ true
      → IsHeld u clock c j
  unfolding holds_lease
  holds_lease-IsHeld clock c j r k h = record {
    run = r;
    name = k;
    status = ground arith;
    runner = shows-some j.runner_id c.runner_id (ground arith);
    lease = shows-some j.lease_id c.lease_id (ground arith);
    generation = ground arith;
    expiry = opt_after-some j.lease_expires_at clock (ground arith);
  }

  read_run-rows :
      (c : Claim) (db : Db) (p : RunRow) (jobs : List JobRow)
      → read_run u c.run_id db ≡ ok (p, jobs)
      → (n : ℕ) × (u.read c.run_id ≡ some n) × (jobs ≡ select_where (λ j. j.run_id == n) db.jobs)
  unfolding read_run get_run
  read_run-rows c db p jobs h = elim (in_option (u.read c.run_id)) [
    | inl e ↦ absurd (ground arith)
    | inr (n, e) ↦ (n, e, ground arith)
  ]

  valid_lease-HoldsLease :
      (clock : ℕ) (c : Claim) (s : Server) (p : RunRow) (jobs : List JobRow)
      → read_run u c.run_id s.db ≡ ok (p, jobs)
      → valid_lease u clock c p jobs ≡ true
      → HoldsLease u clock c s
  unfolding valid_lease
  valid_lease-HoldsLease clock c s p jobs h valid =
      elim (in_option (select_first (λ j. str_eq j.job_name c.job_name) jobs)) [
        | inl e ↦ absurd (ground arith)
        | inr (j, e) ↦
            let (n, r, rows) = read_run-rows c s.db p jobs h in
            let (found, name) = mem-first (λ j. str_eq j.job_name c.job_name) jobs e in
            let (here, run) =
              mem-select_where (λ j. j.run_id == n) s.db.jobs j (subst (Memᴰ j) rows found) in
            (
              j,
              here,
              holds_lease-IsHeld clock c j (r ∙ ap some (ground arith))
                  ((str_eq_iff j.job_name c.job_name).0 name) (ground arith),
            )
      ]

module _ (u : Uuids) (parse : String → Result Pipeline) where
  -- A request under the claim is answered without an error.
  pub data Takes (clock : ℕ) (c : Claim) (s : Server) : Type 0 where
    completion :
        (retention : ℕ) (r : Request) (q : CompleteRequest)
        → q.claim ≡ c
        → IsAccepted (complete u parse clock retention r (some q) s)
        → Takes clock c s
    logs :
        (r : Request) (q : AppendRequest)
        → q.claim ≡ c
        → IsAccepted (append_logs u parse clock r (some q) s)
        → Takes clock c s
    commit :
        (now : ℕ) (r : Request) (q : CommitRequest)
        → q.claim ≡ c
        → IsAccepted (commit_artifact u parse clock now r (some q) s)
        → Takes clock c s

  complete-HoldsLease :
      (clock retention : ℕ) (r : Request) (q : CompleteRequest) (s : Server)
      → IsAccepted (complete u parse clock retention r (some q) s)
      → HoldsLease u clock q.claim s
  unfolding complete complete_job owned_pipeline
  complete-HoldsLease clock retention r q s h = elim (in_option (owner_of u q.claim)) [
    | inl e ↦ absurd (ground arith)
    | inr (o, e) ↦ elim (in_option (select_first (owns clock o) s.db.jobs)) [
      | inl f ↦ absurd (ground arith)
      | inr (j, f) ↦
          let (here, own) = mem-first (owns clock o) s.db.jobs f in
          (j, here, owns-IsHeld u clock q.claim o j e own)
    ]
  ]

  append_logs-HoldsLease :
      (clock : ℕ) (r : Request) (q : AppendRequest) (s : Server)
      → IsAccepted (append_logs u parse clock r (some q) s)
      → HoldsLease u clock q.claim s
  unfolding append_logs is_run_leased
  append_logs-HoldsLease clock r q s h = elim (in_result (read_run u q.claim.run_id s.db)) [
    | inl e ↦ absurd (ground arith)
    | inr ((p, jobs), e) ↦ valid_lease-HoldsLease u clock q.claim s p jobs e (ground arith)
  ]

  commit_artifact-HoldsLease :
      (clock now : ℕ) (r : Request) (q : CommitRequest) (s : Server)
      → IsAccepted (commit_artifact u parse clock now r (some q) s)
      → HoldsLease u clock q.claim s
  unfolding commit_artifact leased_run
  commit_artifact-HoldsLease clock now r q s h = elim (in_result (read_run u q.claim.run_id s.db)) [
    | inl e ↦ absurd (ground arith)
    | inr ((p, jobs), e) ↦ valid_lease-HoldsLease u clock q.claim s p jobs e (ground arith)
  ]

  -- If a completion, a batch of logs or a commit of artifacts is answered without an error, then the
  -- table has a row of the job that the request names, which is running under the runner, the lease and
  -- the generation that it shows, and whose lease is not over.
  pub Takes-HoldsLease :
      (clock : ℕ) (c : Claim) (s : Server) → Takes clock c s → HoldsLease u clock c s
  Takes-HoldsLease clock c s (completion retention r q same h) =
      subst (λ d. HoldsLease u clock d s) same (complete-HoldsLease clock retention r q s h)
  Takes-HoldsLease clock c s (logs r q same h) =
      subst (λ d. HoldsLease u clock d s) same (append_logs-HoldsLease clock r q s h)
  Takes-HoldsLease clock c s (commit now r q same h) =
      subst (λ d. HoldsLease u clock d s) same (commit_artifact-HoldsLease clock now r q s h)
