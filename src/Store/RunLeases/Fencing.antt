-- ===== src/Store/RunLeases/Fencing.antt =====
-- After CompleteRun the lease of the run is dead, and ExpireLeases leaves no overdue run.
use forgeci.Base.{
  >>=-eq-ok, Bool, Bool-cases, List, Option, Result, String, [], any, ap, arith, conflict,
  count_where, err, false, guard, guard-true, inl, inr, ok, ok-injective, refl, rows_affected, sym,
  true, update_where, ℕ, ◌==◌, ◌∷◌, ◌≡◌, ◌≢◌,
}
use forgeci.Config.{Pipeline}
use forgeci.Runner.States.{one}
use forgeci.Store.RunLeases.{
  RunClaim, complete_run, holds, is_event_of, release_run, renew_lease, report_job_event,
}
use forgeci.Store.Runs.{artifacts_allow, is_running_run}
use forgeci.Store.Settle.{expire_artifacts_of}
use forgeci.Store.Tables.{Db, JobStatus, RunStatus}

module _ {A : Type 0} (p q : A → Bool) (f : A → A) where
  -- No row satisfies `q` after an update of the rows with `p`, which has all that do.
  none_after_update :
      ((a : A) → p a ≡ true → q (f a) ≡ false)
      → ((a : A) → p a ≡ false → q a ≡ false)
      → (xs : List A) → any q (update_where p f xs) ≡ false
  unfolding update_where
  none_after_update on off [] = refl
  none_after_update on off (x ∷ xs) = elim (Bool-cases (p x)) [
    | inl e ↦ rw (e, on x e) (none_after_update on off xs)
    | inr e ↦ rw (e, off x e) (none_after_update on off xs)
  ]

count-any : {A : Type 0} (p : A → Bool) (xs : List A) → any p xs ≡ false → rows_affected p xs ≡ 0
unfolding count_where
count-any p [] h = refl
count-any p (x ∷ xs) h = ground (arith, count-any p xs)

complete_run-runs :
    (now retention : ℕ) (c : RunClaim) (status : RunStatus) (message : Option String) (db db' : Db)
    → complete_run now retention c status message db ≡ ok db'
    → db'.runs ≡ update_where (is_running_run c.run_id) (release_run now status message) db.runs
unfolding complete_run expire_artifacts_of
complete_run-runs now retention c status message db db' h =
    let (_, held, rest) = >>=-eq-ok (guard (any (holds now c) db.runs) conflict) _ h in
    let (_, one, last) =
      >>=-eq-ok (guard (rows_affected (is_running_run c.run_id) db.runs == 1) conflict) _ rest in
    sym (ap (λ d. d.runs) (ok-injective last))

count_none :
    {A : Type 0} (p : A → Bool) → ((a : A) → p a ≡ false) → (xs : List A) → rows_affected p xs ≡ 0
unfolding count_where
count_none p none_holds [] = refl
count_none p none_holds (x ∷ xs) = ground (arith, none_holds x, count_none p none_holds xs)

complete_run-dead :
    (now retention : ℕ) (c : RunClaim) (status : RunStatus) (message : Option String) (db db' : Db)
    (now' : ℕ)
    → complete_run now retention c status message db ≡ ok db'
    → any (holds now' c) db'.runs ≡ false
unfolding holds release_run
complete_run-dead now retention c status message db db' now' h =
    rw (complete_run-runs now retention c status message db db' h) (
      none_after_update (is_running_run c.run_id) (holds now' c) (release_run now status message)
        (λ p e. ground arith) (λ p e. ground (arith, e)) db.runs)

module _ (parse : String → Result Pipeline) where
  no_event :
      (now : ℕ) (c : RunClaim) (name : String) (event : JobStatus) (db db' : Db)
      → any (holds now c) db.runs ≡ false
      → report_job_event parse now c name event db ≢ ok db'
  unfolding report_job_event is_event_of
  no_event now c name event db db' gone e =
      let (allowed, _, rest) = >>=-eq-ok (artifacts_allow parse event c.run_id name db) _ e in
      let (_, _, more) = >>=-eq-ok (guard allowed conflict) _ rest in
      let (_, one, last) =
        >>=-eq-ok (guard (rows_affected (is_event_of now c name event db) db.jobs == 1) conflict) _
          more in
      let none_left =
        count_none (is_event_of now c name event db) (λ j. ground (arith, gone)) db.jobs in
      absurd (ground (arith, guard-true _ _ one, none_left))

  -- If CompleteRun has accepted a claim, whatever status it was given, then at any time the same
  -- claim is refused with a conflict by CompleteRun and by RenewLease, and ReportJobEvent accepts no
  -- event under it.
  pub complete_run-fences :
      (now retention : ℕ) (c : RunClaim) (status : RunStatus) (message : Option String)
      (db db' : Db) (now' expires : ℕ) (status' : RunStatus) (message' : Option String)
      (name : String) (event : JobStatus) (db'' : Db)
      → complete_run now retention c status message db ≡ ok db'
      → (complete_run now' retention c status' message' db' ≡ err conflict)
        × (renew_lease now' expires c db' ≡ err conflict)
        × (report_job_event parse now' c name event db' ≢ ok db'')
  complete_run-fences now retention c status message db db' now' expires status' message' name event
        db'' h =
      let gone = complete_run-dead now retention c status message db db' now' h in
      (
        unfold complete_run in rw gone refl,
        unfold renew_lease in rw (count-any (holds now' c) db'.runs gone) refl,
        no_event now' c name event db' db'' gone,
      )
