-- ===== src/Store/Leasing/Readiness.antt =====
-- A job is leased only when it is ready: what LeaseJob promises of the job that it hands out.
use mathlib.Core.List.{Memᴰ}
use forgeci.Base.{
  >>=-eq-ok, All, All-map, Bool, List, Option, Option-cases, Result, String, [], ap, arith,
  conflict, count_where, false, false-any, guard, if◌then◌else◌, inl, inr, map, mem-append,
  mem-cons, mem-nil, mem-select_where, none, not_found, ok, or_fail, refl, select_first,
  select_least-mem, select_where, some, true, ℕ, ◌&&◌, ◌<◌, ◌==◌, ◌∷◌, ◌≡◌,
}
use forgeci.Config.{Pipeline}
use forgeci.Store.Leasing.{
  JobLease, is_leasable, is_online, is_unpassed, join_jobs, lease_found, lease_job, lease_to,
  leases_before, next_job, no_column, runs_on,
}
use forgeci.Store.Settle.{depends, has_upstream, in_run, upstream}
use forgeci.Store.Tables.{
  Db, DependencyRow, JobRow, JobStatus, RunRow, RunnerRow, RunnerStatus, is_job, is_open,
  is_running,
}

-- What the join pairs: a run with one of its jobs.
abbrev IsJoined : List RunRow → List JobRow → RunRow × JobRow → Type 0
IsJoined ps js (p, j) = Memᴰ p ps × Memᴰ j js × (j.run_id ≡ p.id)

mem-paired :
    (p : RunRow) (js : List JobRow) (c : RunRow × JobRow)
    → Memᴰ c (map (λ j. (p, j)) js)
    → (c.0 ≡ p) × Memᴰ c.1 js
mem-paired p [] c m = absurd (mem-nil m)
mem-paired p (j ∷ js) c m = elim (mem-cons m) [
  | inl e ↦ (ap (λ (d : RunRow × JobRow). d.0) e, Memᴰ.head (ap (λ (d : RunRow × JobRow). d.1) e))
  | inr m' ↦ let h = mem-paired p js c m' in (h.0, Memᴰ.tail h.1)
]

mem-join_jobs :
    (ps : List RunRow) (js : List JobRow) (c : RunRow × JobRow)
    → Memᴰ c (join_jobs ps js)
    → IsJoined ps js c
unfolding join_jobs
mem-join_jobs [] js c m = absurd (mem-nil m)
mem-join_jobs (p ∷ ps) js c m =
    elim (mem-append (map (λ j. (p, j)) (select_where (λ j. j.run_id == p.id) js)) (join_jobs ps js)
      c m) [
        | inl here ↦
            let (e, k) = mem-paired p _ c here in
            let (k', same) = mem-select_where _ js c.1 k in (Memᴰ.head e, k', rw e (ground arith))
        | inr later ↦ let h = mem-join_jobs ps js c later in (Memᴰ.tail h.0, h.1, h.2)
      ]

-- Each job that the dependencies of `j` name, if it has a row, has passed.
abbrev pub UpstreamPassed : Db → JobRow → Type 0
UpstreamPassed db j =
    All
      (λ d.
        depends j d ≡ true
        → All (λ u. is_job d.run_id d.depends_on u ≡ true → u.status ≡ JobStatus.passed) db.jobs)
      db.dependencies

passed-of :
    (key : Bool) (s : JobStatus)
    → (key && is_unpassed s) ≡ false
    → key ≡ true
    → s ≡ JobStatus.passed
passed-of key s h e = ground arith

upstream-passed :
    (db : Db) (j : JobRow) → has_upstream is_unpassed db j ≡ false → UpstreamPassed db j
unfolding has_upstream
upstream-passed db j h = All-map one db.dependencies (false-any _ db.dependencies h)
  where
    one :
        (d : DependencyRow)
        → (depends j d && upstream is_unpassed db d) ≡ false
        → depends j d ≡ true
        → All (λ u. is_job d.run_id d.depends_on u ≡ true → u.status ≡ JobStatus.passed) db.jobs
    one d e k = All-map (λ u. passed-of _ _) db.jobs (false-any _ db.jobs (ground arith))

-- The run `p` may go on with its job `j`.
pub record IsReady (db : Db) (p : RunRow) (j : JobRow) : Type 0 where
  pub joined : IsJoined db.runs db.jobs (p, j)
  pub open_run : is_open p.status ≡ true
  pub not_canceled : p.cancel_requested_at ≡ none
  pub waiting : j.status ≡ JobStatus.pending
  pub upstream_passed : UpstreamPassed db j
  pub below_limit : count_where (in_run p.id is_running) db.jobs < p.max_parallel

no_column-eq : {A : Type 0} (o : Option A) → no_column o ≡ true → o ≡ none
no_column-eq none h = refl
no_column-eq (some a) h = cc

is_leasable-IsReady :
    (docker : Bool) (skip : ℕ → String → Bool) (db : Db) (p : RunRow) (j : JobRow)
    → IsJoined db.runs db.jobs (p, j)
    → is_leasable docker skip db (p, j) ≡ true
    → IsReady db p j
unfolding is_leasable
is_leasable-IsReady docker skip db p j m h = record {
  joined = m;
  open_run = ground arith;
  not_canceled = no_column-eq _ (ground arith);
  waiting = ground arith;
  upstream_passed = upstream-passed db j (ground arith);
  below_limit = ground arith;
}

next_job-IsReady :
    (docker : Bool) (skip : ℕ → String → Bool) (db : Db) (p : RunRow) (j : JobRow)
    → next_job docker skip db ≡ some (p, j)
    → IsReady db p j
unfolding next_job
next_job-IsReady docker skip db p j h =
    let (m, good) = mem-select_where _ _ (p, j) (select_least-mem leases_before _ (p, j) h) in
    is_leasable-IsReady docker skip db p j (mem-join_jobs db.runs db.jobs (p, j) m) good

-- What a lease `l` of a ready job says.
abbrev pub Leases : ℕ → ℕ → Db → JobLease → Type 0
Leases runner lease db l =
    (p : RunRow) × (j : JobRow) × IsReady db p j
    × ((l.run_id ≡ p.id)
        × (l.job_name ≡ j.job_name)
        × (l.lease_id ≡ lease)
        × (l.runner_id ≡ runner))

module _ (parse : String → Result Pipeline) where
  lease_to-job :
      (clock now runner lease : ℕ) (p : RunRow) (j : JobRow) (db : Db) {l : JobLease} {db' : Db}
      → lease_to parse clock now runner lease (p, j) db ≡ ok (some l, db')
      → (l.run_id ≡ p.id)
        × (l.job_name ≡ j.job_name)
        × (l.lease_id ≡ lease)
        × (l.runner_id ≡ runner)
  unfolding lease_to
  lease_to-job clock now runner lease p j db h = ground arith

  lease_within-Leases :
      (full : Bool) (clock now runner lease : ℕ) (docker : Bool) (skip : ℕ → String → Bool)
      (db : Db) {l : JobLease} {db' : Db}
      → (if full
          then ok (none, db)
          else lease_found parse clock now runner lease (next_job docker skip db) db)
        ≡ ok (some l, db')
      → (full ≡ false) × Leases runner lease db l
  unfolding lease_found
  lease_within-Leases true clock now runner lease docker skip db h = cc
  lease_within-Leases false clock now runner lease docker skip db h =
      elim (Option-cases (next_job docker skip db)) [
        | inl e ↦ absurd (ground arith)
        | inr ((p, j), e) ↦
            let ready = next_job-IsReady docker skip db p j e in
            (refl, (p, j, ready, lease_to-job clock now runner lease p j db (rw e at h)))
      ]

  -- A lease is granted only to a runner that is registered, online, speaks protocol 2 and executes
  -- fewer jobs than its limit, under the fresh lease id, and only for a ready job: a pending job of a
  -- run that is queued or running and not asked to cancel, whose upstream jobs have all passed, in a
  -- run that executes fewer jobs than its limit.
  pub lease_job-IsReady :
      (clock now : ℕ) (skip : ℕ → String → Bool) (lease runner : ℕ) (db : Db) {l : JobLease}
      {db' : Db}
      → lease_job parse clock now skip lease runner db ≡ ok (some l, db')
      → (r : RunnerRow) × (select_first (λ r. r.id == runner) db.runners ≡ some r)
        × (r.protocol_version ≡ 2)
        × (r.status ≡ RunnerStatus.online)
        × (count_where (runs_on runner) db.jobs < r.max_parallel)
        × Leases runner lease db l
  unfolding lease_job
  lease_job-IsReady clock now skip lease runner db h =
      let (r, found, h1) =
        >>=-eq-ok (or_fail (select_first (λ r. r.id == runner) db.runners) not_found) _ h in
      let (_, allowed, h2) =
        >>=-eq-ok (guard ((r.protocol_version == 2) && is_online r.status) conflict) _ h1 in
      let (room, leased) =
        lease_within-Leases _ clock now runner lease r.docker_available skip db h2 in
      (r, ground arith, ground arith, ground arith, ground arith, leased)
