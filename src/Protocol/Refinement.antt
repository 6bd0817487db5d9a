-- ===== src/Protocol/Refinement.antt =====
-- internal/runnerproto: what a request does to the tables is what calls of the store do.
use forgeci.Base.{
  Error, List, Option, Result, String, [], arith, err, in_option, in_result, inl, inr, map, none,
  ok, refl, some, subst, sym, ℕ, ◌∷◌, ◌≡◌, ◌⊎◌,
}
use forgeci.Config.{Pipeline}
use forgeci.Protocol.{Answer, Claim, Server, Uuids, owner_of}
use forgeci.Protocol.Caches.{
  CacheCommitRequest, cache_owner, commit_entry, download_cache, upload_cache,
}
use forgeci.Protocol.Files.{
  CommitRequest, artifact_owner, commit_artifact, committed_row, download_artifact, leased_run,
  no_lease, source, upload_artifact,
}
use forgeci.Protocol.Jobs.{
  AppendRequest, CompleteRequest, append_logs, complete, kept_status, read_status,
}
use forgeci.Protocol.Requests.{Request}
use forgeci.Protocol.Routes.{Site}
use forgeci.Protocol.Runners.{
  RegisterRequest, Round, check_beats, heartbeat, lease, owners_of, poll, register, runner_row,
}
use forgeci.Store.Commits.{Claimant, commit_artifacts}
use forgeci.Store.Jobs.{complete_job, heartbeat_job_leases, is_completion}
use forgeci.Store.Leasing.{lease_job}
use forgeci.Store.Ownership.{Ownership}
use forgeci.Store.Steps.{Reach, Step, commits, completes, here, leases, next, registers}
use forgeci.Store.Tables.{Db}

module _ (parse : String → Result Pipeline) where
  pub unmoved : {db db' : Db} → db' ≡ db → Reach parse db db'
  unmoved {db} same = subst (Reach parse db) (sym same) here

  moved : {db e db' : Db} → Step parse db e → (db' ≡ db) ⊎ (db' ≡ e) → Reach parse db db'
  moved step (inl same) = unmoved same
  moved {db} step (inr same) = subst (Reach parse db) (sym same) (next here step)

  moved_on : {db e db' : Db} → Step parse db e → Reach parse e db' → Reach parse db db'
  moved_on step here = next here step
  moved_on step (next r last) = next (moved_on step r) last

  pub joined : {db e db' : Db} → Reach parse db e → Reach parse e db' → Reach parse db db'
  joined r here = r
  joined r (next q step) = next (joined r q) step

  poll_on :
      (runner : ℕ) (r : Round) (rounds : List Round) (s : Server) {done : Answer × Server} {db : Db}
      → lease_job parse r.clock r.now r.skip r.lease runner s.db ≡ ok (none, db)
      → poll parse runner (r ∷ rounds) s ≡ some done
      → (done.1.db ≡ db) ⊎ (poll parse runner rounds (record s { db = db }) ≡ some done)
  unfolding poll
  poll_on runner r rounds s g h = ground arith

  poll-Reach :
      (runner : ℕ) (rounds : List Round) (s : Server) {done : Answer × Server}
      → poll parse runner rounds s ≡ some done
      → Reach parse s.db done.1.db
  unfolding poll
  poll-Reach runner [] s h = cc
  poll-Reach runner (r ∷ rounds) s h =
      elim (in_result (lease_job parse r.clock r.now r.skip r.lease runner s.db)) [
        | inl g ↦ unmoved (ground arith)
        | inr ((some l, db), g) ↦
            moved (leases r.clock r.now r.skip r.lease runner g) (ground arith)
        | inr ((none, db), g) ↦
            moved_on (leases r.clock r.now r.skip r.lease runner g)
              (elim (poll_on runner r rounds s g h) [
                | inl same ↦ unmoved same
                | inr on ↦ poll-Reach runner rounds (record s { db = db }) on
              ])
      ]

  leased_run-reads :
      (u : Uuids) (clock : ℕ) (c : Claim) (refusal : Answer) (s : Server)
      → (leased_run u clock c refusal s).1 ≡ s
  unfolding leased_run
  leased_run-reads u clock c refusal s = ground arith

  check_beats-reads :
      (u : Uuids) (seen cs : List Claim) (s : Server) → (check_beats u seen cs s).1 ≡ s
  unfolding check_beats
  check_beats-reads u seen [] s = refl
  check_beats-reads u seen (c ∷ cs) s = ground (arith, check_beats-reads u (c ∷ seen) cs s)

  module _ (u : Uuids) (s : Server) where
    pub complete-Reach :
        (now retention : ℕ) (r : Request) (body : Option CompleteRequest)
        → Reach parse s.db (complete u parse now retention r body s).1.db
    unfolding complete
    complete-Reach now retention r none = unmoved (ground arith)
    complete-Reach now retention r (some q) = elim (in_option (owner_of u q.claim)) [
      | inl e ↦ unmoved (ground arith)
      | inr (o, e) ↦ elim (in_option (kept_status is_completion (read_status q.status))) [
        | inl f ↦ unmoved (ground arith)
        | inr (status, f) ↦
            elim (in_result (complete_job parse now retention o status q.error s.db)) [
              | inl g ↦ unmoved (ground arith)
              | inr (db, g) ↦ moved (completes now retention o status q.error g) (ground arith)
            ]
      ]
    ]

    commit_artifact-unowned :
        (clock now : ℕ) (r : Request) (q : CommitRequest)
        → owner_of u q.claim ≡ none
        → (commit_artifact u parse clock now r (some q) s).1.db ≡ s.db
    unfolding commit_artifact
    commit_artifact-unowned clock now r q e =
        ground (arith, leased_run-reads u clock q.claim no_lease s)

    commit_artifact-refused :
        (clock now : ℕ) (r : Request) (q : CommitRequest) (o : Ownership) (reason : Error)
        → owner_of u q.claim ≡ some o
        → commit_artifacts parse now
            (Claimant.runner o)
            (map (committed_row u clock o) q.items)
            s.db
          ≡ err reason
        → (commit_artifact u parse clock now r (some q) s).1.db ≡ s.db
    unfolding commit_artifact
    commit_artifact-refused clock now r q o reason e g =
        ground (arith, leased_run-reads u clock q.claim no_lease s)

    commit_artifact-done :
        (clock now : ℕ) (r : Request) (q : CommitRequest) (o : Ownership) (db : Db)
        → owner_of u q.claim ≡ some o
        → commit_artifacts parse now
            (Claimant.runner o)
            (map (committed_row u clock o) q.items)
            s.db
          ≡ ok db
        → ((commit_artifact u parse clock now r (some q) s).1.db ≡ s.db)
          ⊎ ((commit_artifact u parse clock now r (some q) s).1.db ≡ db)
    unfolding commit_artifact
    commit_artifact-done clock now r q o db e g =
        ground (arith, leased_run-reads u clock q.claim no_lease s)

    pub commit_artifact-Reach :
        (clock now : ℕ) (r : Request) (body : Option CommitRequest)
        → Reach parse s.db (commit_artifact u parse clock now r body s).1.db
    commit_artifact-Reach clock now r none = unmoved (unfold commit_artifact in ground arith)
    commit_artifact-Reach clock now r (some q) = elim (in_option (owner_of u q.claim)) [
      | inl e ↦ unmoved (commit_artifact-unowned clock now r q e)
      | inr (o, e) ↦
          let items = map (committed_row u clock o) q.items in
          elim (in_result (commit_artifacts parse now (Claimant.runner o) items s.db)) [
            | inl (reason, g) ↦ unmoved (commit_artifact-refused clock now r q o reason e g)
            | inr (db, g) ↦
                moved (commits now (Claimant.runner o) items g)
                  (commit_artifact-done clock now r q o db e g)
          ]
    ]

    pub heartbeat-Reach :
        (clock : ℕ) (r : Request) (body : Option (String × List Claim))
        → Reach parse s.db (heartbeat u clock r body s).1.db
    unfolding heartbeat
    heartbeat-Reach clock r none = unmoved (ground arith)
    heartbeat-Reach clock r (some q) = elim (in_option (u.read q.0)) [
      | inl e ↦ unmoved (ground (arith, check_beats-reads u [] q.1 s))
      | inr (runner, e) ↦
          elim (in_result (heartbeat_job_leases clock runner (owners_of u q.0 q.1) s.db)) [
            | inl g ↦ unmoved (ground (arith, check_beats-reads u [] q.1 s))
            | inr (done, g) ↦
                moved (Step.beats clock runner (owners_of u q.0 q.1) g)
                  (ground (arith, check_beats-reads u [] q.1 s))
          ]
    ]

    lease_on :
        (r : Request) (text : String) (rounds : List Round) {done : Answer × Server} (runner : ℕ)
        → u.read text ≡ some runner
        → lease parse u r (some text) rounds s ≡ some done
        → (done.1.db ≡ s.db) ⊎ (poll parse runner rounds s ≡ some done)
    unfolding lease
    lease_on r text rounds runner e h = ground arith

    pub lease-Reach :
        (r : Request) (body : Option String) (rounds : List Round) {done : Answer × Server}
        → lease parse u r body rounds s ≡ some done
        → Reach parse s.db done.1.db
    unfolding lease
    lease-Reach r none rounds h = unmoved (ground arith)
    lease-Reach r (some text) rounds h = elim (in_option (u.read text)) [
      | inl e ↦ unmoved (ground arith)
      | inr (runner, e) ↦ elim (lease_on r text rounds runner e h) [
        | inl same ↦ unmoved same
        | inr on ↦ poll-Reach runner rounds s on
      ]
    ]

    pub register-Reach :
        (now : ℕ) (r : Request) (body : Option RegisterRequest)
        → Reach parse s.db (register u now r body s).1.db
    unfolding register
    register-Reach now r none = unmoved (ground arith)
    register-Reach now r (some q) = elim (in_option (u.read q.id)) [
      | inl e ↦ unmoved (ground arith)
      | inr (id, e) ↦ moved (registers now (runner_row id now q) refl) (ground arith)
    ]

    module _ (e : Site) where
      -- The handlers that leave the tables alone.
      pub source-db : (r : Request) → (source u e.clock e.open_snapshot r s).1.db ≡ s.db
      unfolding source
      source-db r = ground arith

      pub upload_cache-db :
          (r : Request) → (upload_cache u parse e.clock e.put_cache r s).1.db ≡ s.db
      unfolding upload_cache cache_owner leased_run
      upload_cache-db r = ground arith

      pub commit_entry-db :
          (r : Request) (body : Option CacheCommitRequest)
          → (commit_entry u parse e.meanwhile e.clock e.cache_retention e.id r body s).1.db ≡ s.db
      unfolding commit_entry cache_owner leased_run
      commit_entry-db r body = ground arith

      pub download_cache-db :
          (r : Request) → (download_cache u parse e.clock e.cache_retention r s).1.db ≡ s.db
      unfolding download_cache cache_owner leased_run
      download_cache-db r = ground arith

      pub upload_artifact-db :
          (r : Request) → (upload_artifact u e.clock e.put_artifact r s).1.db ≡ s.db
      unfolding upload_artifact artifact_owner leased_run
      upload_artifact-db r = ground arith

      pub download_artifact-db : (r : Request) → (download_artifact u e.now r s).1.db ≡ s.db
      unfolding download_artifact artifact_owner
      download_artifact-db r = ground arith

      pub append_logs-db :
          (r : Request) (body : Option AppendRequest)
          → (append_logs u parse e.clock r body s).1.db ≡ s.db
      unfolding append_logs
      append_logs-db r body = ground arith
