-- ===== src/Store/RunLeases/Effects.antt =====
-- What the operations on whole runs, runners and artifacts do to the job rows: nothing, but for
-- ExpireLeases, which aborts the unfinished jobs of the runs that it aborts.
use forgeci.Base.{
  >>=-eq-ok, Bool, Bool-cases, List, Option, Option-cases, String, [], any, ap, conflict, guard,
  inl, inr, is_some, map, none, not, not_found, ok, ok-injective, or_fail, refl, rows_affected,
  select_first, select_least, select_where, some, sym, update_where, ℕ, ◌&&◌, ◌==◌, ◌∷◌, ◌≡◌,
}
use forgeci.Store.Jobs.{abort_run, lose_jobs, lose_jobs_of}
use forgeci.Store.Jobs.Evolution.{AllEvolve, AllEvolve-refl, AllEvolve-trans}
use forgeci.Store.Jobs.Operations.{lose_jobs-AllEvolve}
use forgeci.Store.RunLeases.{
  RunClaim, complete_run, expire_leases, expire_runs, holds, is_overdue, is_runner, lease_run,
  register_runner, renew_lease, run_to, update_runner_liveness,
}
use forgeci.Store.Runs.{
  claim_next_queued_run, claim_run, finish_run, is_queued_run, is_running_run, runs_before,
}
use forgeci.Store.Settle.{expire_artifacts_of}
use forgeci.Store.Tables.{Db, RunRow, RunStatus, RunnerRow, is_queued}

pub claim_next_queued_run-jobs :
    (now : ℕ) (skip : ℕ → Bool) {r : Option ℕ} (db : Db) {db' : Db}
    → claim_next_queued_run now skip db ≡ ok (r, db')
    → db'.jobs ≡ db.jobs
unfolding claim_next_queued_run claim_run
claim_next_queued_run-jobs now skip db h =
    elim (Option-cases (
      select_least runs_before
        (select_where (λ p. is_queued p.status && not (skip p.id)) db.runs))) [
          | inl e ↦ sym (ap (λ (x : Option ℕ × Db). x.1.jobs) (ok-injective (rw e at h)))
          | inr (p, e) ↦
              let (_, _, last) =
                >>=-eq-ok (guard (rows_affected (is_queued_run p.id) db.runs == 1) conflict) _
                  (rw e at h) in
              sym (ap (λ (x : Option ℕ × Db). x.1.jobs) (ok-injective last))
        ]

pub finish_run-jobs :
    (now retention run : ℕ) (status : RunStatus) (message : Option String) (db : Db) {db' : Db}
    → finish_run now retention run status message db ≡ ok db'
    → db'.jobs ≡ db.jobs
unfolding finish_run expire_artifacts_of
finish_run-jobs now retention run status message db h =
    let (_, _, last) =
      >>=-eq-ok (guard (rows_affected (is_running_run run) db.runs == 1) conflict) _ h in
    sym (ap (λ d. d.jobs) (ok-injective last))

run_to-jobs :
    (now clock lease runner capacity : ℕ) (p : Option RunRow) {r : Option ℕ} (db : Db) {db' : Db}
    → run_to now clock lease runner capacity p db ≡ ok (r, db')
    → db'.jobs ≡ db.jobs
unfolding run_to
run_to-jobs now clock lease runner capacity none db h =
    sym (ap (λ (x : Option ℕ × Db). x.1.jobs) (ok-injective h))
run_to-jobs now clock lease runner capacity (some p) db h =
    let (_, _, last) =
      >>=-eq-ok (guard (rows_affected (is_queued_run p.id) db.runs == 1) conflict) _ h in
    sym (ap (λ (x : Option ℕ × Db). x.1.jobs) (ok-injective last))

pub lease_run-jobs :
    (now clock : ℕ) (skip : ℕ → Bool) (lease runner : ℕ) {r : Option ℕ} (db : Db) {db' : Db}
    → lease_run now clock skip lease runner db ≡ ok (r, db')
    → db'.jobs ≡ db.jobs
unfolding lease_run
lease_run-jobs now clock skip lease runner db h =
    let (r, _, rest) =
      >>=-eq-ok (or_fail (select_first (is_runner runner) db.runners) not_found) _ h in
    elim (Bool-cases (is_some r.current_run_id)) [
      | inl e ↦ sym (ap (λ (x : Option ℕ × Db). x.1.jobs) (ok-injective (rw e at rest)))
      | inr e ↦ run_to-jobs now clock lease runner r.max_parallel _ db (rw e at rest)
    ]

pub renew_lease-jobs :
    (now expires : ℕ) (c : RunClaim) (db : Db) {db' : Db}
    → renew_lease now expires c db ≡ ok db'
    → db'.jobs ≡ db.jobs
unfolding renew_lease
renew_lease-jobs now expires c db h =
    let (_, _, last) = >>=-eq-ok (guard (rows_affected (holds now c) db.runs == 1) conflict) _ h in
    sym (ap (λ d. d.jobs) (ok-injective last))

pub complete_run-jobs :
    (now retention : ℕ) (c : RunClaim) (status : RunStatus) (message : Option String) (db : Db)
    {db' : Db}
    → complete_run now retention c status message db ≡ ok db'
    → db'.jobs ≡ db.jobs
unfolding complete_run expire_artifacts_of
complete_run-jobs now retention c status message db h =
    let (_, _, rest) = >>=-eq-ok (guard (any (holds now c) db.runs) conflict) _ h in
    let (_, _, last) =
      >>=-eq-ok (guard (rows_affected (is_running_run c.run_id) db.runs == 1) conflict) _ rest in
    sym (ap (λ d. d.jobs) (ok-injective last))

pub update_runner_liveness-jobs :
    (seen runner : ℕ) (db : Db) {db' : Db}
    → update_runner_liveness seen runner db ≡ ok db'
    → db'.jobs ≡ db.jobs
unfolding update_runner_liveness
update_runner_liveness-jobs seen runner db h =
    let (_, _, last) =
      >>=-eq-ok (guard (rows_affected (is_runner runner) db.runners == 1) not_found) _ h in
    sym (ap (λ d. d.jobs) (ok-injective last))

pub register_runner-jobs :
    (now : ℕ) (given : RunnerRow) (db : Db) → (register_runner now given db).jobs ≡ db.jobs
unfolding register_runner
register_runner-jobs now given db = elim (Bool-cases (any (is_runner given.id) db.runners)) [
  | inl e ↦ rw e refl
  | inr e ↦ rw e refl
]

expire_runs-AllEvolve :
    (now retention : ℕ) (runs : List ℕ) (db : Db)
    → AllEvolve db.jobs (expire_runs now retention runs db).jobs
unfolding expire_runs
expire_runs-AllEvolve now retention [] db = AllEvolve-refl db.jobs
expire_runs-AllEvolve now retention (run ∷ runs) db =
    let aborted = record db {
      runs = update_where (λ p. p.id == run) (abort_run now "runner lease expired") db.runs;
    } in
    AllEvolve-trans db.jobs (lose_jobs_of now retention "runner lease expired" run aborted).jobs
      (expire_runs now retention runs
        (lose_jobs_of now retention "runner lease expired" run aborted)).jobs
      (unfold lose_jobs in
        lose_jobs-AllEvolve now retention "runner lease expired" (run ∷ []) aborted)
      (expire_runs-AllEvolve now retention runs
        (lose_jobs_of now retention "runner lease expired" run aborted))

pub expire_leases-AllEvolve :
    (clock now retention : ℕ) (db : Db)
    → AllEvolve db.jobs (expire_leases clock now retention db).jobs
unfolding expire_leases
expire_leases-AllEvolve clock now retention db =
    expire_runs-AllEvolve now retention (map (λ p. p.id) (select_where (is_overdue clock) db.runs))
      db
