-- ===== src/Store/RunLeases/Events.antt =====
-- ReportJobEvent moves a job only along its life: from pending to running, blocked or canceled, from
-- running to passed, failed or canceled.
use forgeci.Base.{
  >>=-eq-ok, Bool, Bool-cases, List, Result, String, [], arith, conflict, false, guard, inl, inr,
  ok, ok-injective, refl, rows_affected, some, subst, true, update_where, ℕ, ◌==◌, ◌∷◌, ◌≡◌, ◌⊎◌,
}
use forgeci.Config.{Pipeline}
use forgeci.LogQueue.{new}
use forgeci.Runner.States.{one}
use forgeci.Store.RunLeases.{RunClaim, is_event_of, may_move, move_job, report_job_event}
use forgeci.Store.Runs.{artifacts_allow}
use forgeci.Store.Tables.{Db, JobRow, JobStatus, is_unfinished}

-- The status stays, or takes one of the steps of a job's life.
abbrev pub IsAlong : JobStatus → JobStatus → Type 0
IsAlong old new =
    (new ≡ old)
    ⊎ (((old ≡ JobStatus.pending)
          × ((new ≡ JobStatus.running) ⊎ ((new ≡ JobStatus.blocked) ⊎ (new ≡ JobStatus.canceled))))
        ⊎ ((old ≡ JobStatus.running)
            × ((new ≡ JobStatus.passed) ⊎ ((new ≡ JobStatus.failed) ⊎ (new ≡ JobStatus.canceled)))))

-- What an accepted event may do to a job row.
pub record Moves (j k : JobRow) : Type 0 where
  pub same_key : (k.run_id ≡ j.run_id) × (k.job_name ≡ j.job_name)
  pub same_lease :
      (k.runner_id ≡ j.runner_id)
      × (k.lease_id ≡ j.lease_id)
      × (k.lease_generation ≡ j.lease_generation)
      × (k.lease_expires_at ≡ j.lease_expires_at)
  pub along : IsAlong j.status k.status
  pub ended_once : is_unfinished j.status ≡ false → k.status ≡ j.status
  pub started_once : (t : ℕ) → j.started_at ≡ some t → k.started_at ≡ some t

abbrev pub AllMove : List JobRow → List JobRow → Type 0
AllMove [] [] = Unit
AllMove [] (_ ∷ _) = ⊥
AllMove (_ ∷ _) [] = ⊥
AllMove (j ∷ js) (k ∷ ks) = Moves j k × AllMove js ks

may_move-IsAlong : (old new : JobStatus) → may_move old new ≡ true → IsAlong old new
unfolding may_move
may_move-IsAlong old new h = ground arith

stays : (j : JobRow) → Moves j j
stays j = record {
  same_key = (refl, refl);
  same_lease = (refl, refl, refl, refl);
  along = inl refl;
  ended_once = λ _. refl;
  started_once = λ t e. e;
}

ended_stays :
    (old new : JobStatus) → may_move old new ≡ true → is_unfinished old ≡ false → new ≡ old
unfolding may_move
ended_stays old new h e = ground (arith, h, e)

move_job-Moves :
    (now : ℕ) (status : JobStatus) (j : JobRow)
    → may_move j.status status ≡ true
    → Moves j (move_job now status j)
unfolding move_job
move_job-Moves now status j h = record {
  same_key = (refl, refl);
  same_lease = (refl, refl, refl, refl);
  along = may_move-IsAlong j.status status h;
  ended_once = ended_stays j.status status h;
  started_once = λ t e. ground (arith, e);
}

update-AllMove :
    (p : JobRow → Bool) (f : JobRow → JobRow)
    → ((j : JobRow) → p j ≡ true → Moves j (f j))
    → (js : List JobRow) → AllMove js (update_where p f js)
unfolding update_where
update-AllMove p f h [] = tt
update-AllMove p f h (j ∷ js) = elim (Bool-cases (p j)) [
  | inl e ↦ rw e (h j e, update-AllMove p f h js)
  | inr e ↦ rw e (stays j, update-AllMove p f h js)
]

module _ (parse : String → Result Pipeline) where
  -- If ReportJobEvent accepts an event, then every job row keeps its place, its key, its lease and
  -- the time at which it started, and its status stays or goes from pending to running, blocked or
  -- canceled, or from running to passed, failed or canceled; a job that has ended keeps its status.
  pub report_job_event-AllMove :
      (now : ℕ) (c : RunClaim) (name : String) (status : JobStatus) (db db' : Db)
      → report_job_event parse now c name status db ≡ ok db'
      → AllMove db.jobs db'.jobs
  unfolding report_job_event is_event_of
  report_job_event-AllMove now c name status db db' h =
      let (allowed, _, rest) = >>=-eq-ok (artifacts_allow parse status c.run_id name db) _ h in
      let (_, _, more) = >>=-eq-ok (guard allowed conflict) _ rest in
      let (_, one, last) =
        >>=-eq-ok (guard (rows_affected (is_event_of now c name status db) db.jobs == 1) conflict) _
          more in
      subst (λ d. AllMove db.jobs d.jobs) (ok-injective last)
        (update-AllMove (is_event_of now c name status db) (move_job now status)
          (λ j e. move_job-Moves now status j (ground (arith, e))) db.jobs)
