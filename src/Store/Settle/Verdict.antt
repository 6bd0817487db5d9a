-- ===== src/Store/Settle/Verdict.antt =====
-- The status that finalizeRun gives a run, against the statuses of its jobs.
use forgeci.Base.{
  All, All-map, Bool, Bool-cases, List, [], any-false, arith, count_where, false, false-any,
  if◌then◌else◌, inl, inr, is_some, ltb, ok, ok-injective, refl, select_first, some, true,
  update_where, ℕ, ◌<◌, ◌==◌, ◌↔◌, ◌∷◌, ◌≡◌, ◌⊎◌,
}
use forgeci.Store.Settle.{
  close_run, expire_artifacts_of, finalize_idle, finalize_run, in_run, is_aborted, is_error,
  is_failure, is_open_run, settle, verdict, verdict_of,
}
use forgeci.Store.Tables.{Db, JobRow, JobStatus, RunRow, RunStatus, is_open, is_unfinished}

module _ {A : Type 0} where
  zero-count : (p : A → Bool) (xs : List A) → count_where p xs ≡ 0 → All (λ x. p x ≡ false) xs
  unfolding count_where
  zero-count p [] h = tt
  zero-count p (x ∷ xs) h = ground (arith, zero-count p xs)

  count-zero : (p : A → Bool) (xs : List A) → All (λ x. p x ≡ false) xs → count_where p xs ≡ 0
  unfolding count_where
  count-zero p [] h = refl
  count-zero p (x ∷ xs) h = ground (arith, count-zero p xs)

  -- A query by a key that the UPDATE keeps.
  select_first-update :
      (k p : A → Bool) (f : A → A) (xs : List A) (x : A)
      → ((a : A) → k (f a) ≡ k a)
      → select_first k xs ≡ some x
      → select_first k (update_where p f xs) ≡ some (if p x then f x else x)
  unfolding select_first update_where
  select_first-update k p f [] x same h = cc
  select_first-update k p f (y ∷ ys) x same h =
      ground (arith, same y, select_first-update k p f ys x same)

  select_first-count :
      (k p : A → Bool) (xs : List A) (x : A)
      → select_first k xs ≡ some x
      → p x ≡ true
      → 0 < count_where p xs
  unfolding select_first count_where
  select_first-count k p [] x h e = cc
  select_first-count k p (y ∷ ys) x h e = ground (arith, select_first-count k p ys x)

  select_first-key : (k : A → Bool) (xs : List A) (x : A) → select_first k xs ≡ some x → k x ≡ true
  unfolding select_first
  select_first-key k [] x h = cc
  select_first-key k (y ∷ ys) x h = ground (arith, select_first-key k ys x)

-- The job, if it is one of the run, has passed or was canceled.
abbrev pub IsPassedOrCanceled : ℕ → JobRow → Type 0
IsPassedOrCanceled run j =
    (j.run_id == run) ≡ true → (j.status ≡ JobStatus.passed) ⊎ (j.status ≡ JobStatus.canceled)

-- Of the four groups of statuses that finalizeRun looks for, the job is in none.
abbrev IsNeither : ℕ → JobRow → Type 0
IsNeither run j =
    (in_run run is_unfinished j ≡ false)
    × (in_run run is_error j ≡ false)
    × (in_run run is_aborted j ≡ false)
    × (in_run run is_failure j ≡ false)

no_failure_cases : (run : ℕ) (j : JobRow) → IsNeither run j → IsPassedOrCanceled run j
no_failure_cases run j h e = ground arith

no_failure_intro : (run : ℕ) (j : JobRow) → IsPassedOrCanceled run j → IsNeither run j
no_failure_intro run j h = ground arith

verdict-passed :
    (cancel a b c : Bool)
    → verdict cancel a b c ≡ RunStatus.passed
    → (cancel ≡ false) × (a ≡ false) × (b ≡ false) × (c ≡ false)
unfolding verdict
verdict-passed cancel a b c h = ground arith

All-zip :
    {A : Type 0} (p q r s : A → Bool) (xs : List A)
    → All (λ x. p x ≡ false) xs
    → All (λ x. q x ≡ false) xs
    → All (λ x. r x ≡ false) xs
    → All (λ x. s x ≡ false) xs
    → All (λ x. (p x ≡ false) × (q x ≡ false) × (r x ≡ false) × (s x ≡ false)) xs
All-zip p q r s [] a b c d = tt
All-zip p q r s (x ∷ xs) a b c d = ((a.0, b.0, c.0, d.0), All-zip p q r s xs a.1 b.1 c.1 d.1)

-- What the verdict is to mean: no cancellation was asked for, and every job passed or was canceled.
abbrev pub MayPass : ℕ → RunRow → Db → Type 0
MayPass run p db = (is_some p.cancel_requested_at ≡ false) × All (IsPassedOrCanceled run) db.jobs

verdict_of-MayPass :
    (run : ℕ) (p : RunRow) (db : Db)
    → count_where (in_run run is_unfinished) db.jobs ≡ 0
    → verdict_of run p db ≡ RunStatus.passed
    → MayPass run p db
unfolding verdict_of
verdict_of-MayPass run p db idle h =
    let (cancel, a, b, c) = verdict-passed _ _ _ _ h in
    (
      cancel,
      All-map (no_failure_cases run) db.jobs (
          All-zip _ _ _ _ db.jobs (zero-count _ db.jobs idle) (false-any _ db.jobs a)
            (false-any _ db.jobs b) (false-any _ db.jobs c)),
    )

MayPass-verdict_of :
    (run : ℕ) (p : RunRow) (db : Db) → MayPass run p db → verdict_of run p db ≡ RunStatus.passed
unfolding verdict_of verdict
MayPass-verdict_of run p db h =
    let neither = All-map (no_failure_intro run) db.jobs h.1 in
    rw (
      h.0,
      any-false (in_run run is_error) db.jobs (All-map (λ j n. n.1) db.jobs neither),
      any-false (in_run run is_aborted) db.jobs (All-map (λ j n. n.2) db.jobs neither),
      any-false (in_run run is_failure) db.jobs (All-map (λ j n. n.3) db.jobs neither),
    )

MayPass-idle :
    (run : ℕ) (p : RunRow) (db : Db)
    → MayPass run p db
    → count_where (in_run run is_unfinished) db.jobs ≡ 0
MayPass-idle run p db h =
    count-zero _ db.jobs (All-map (λ j n. n.0) db.jobs (All-map (no_failure_intro run) db.jobs h.1))

-- The run that `settle` closes carries the new status.
settle-run :
    (now retention run : ℕ) (status : RunStatus) (db : Db) (p : RunRow)
    → select_first (λ p. p.id == run) db.runs ≡ some p
    → is_open p.status ≡ true
    → select_first (λ p. p.id == run) (settle now retention run status db).runs
      ≡ some (close_run now status p)
unfolding settle expire_artifacts_of
settle-run now retention run status db p found open_now =
    let key = select_first-key (λ p. p.id == run) db.runs p found in
    ground (
      arith,
      key,
      select_first-count (λ p. p.id == run) (is_open_run run) db.runs p found,
      select_first-update (λ p. p.id == run) (is_open_run run) (close_run now status) db.runs p
          (λ a. unfold close_run in refl) found,
    )

finalize_idle-run :
    (now retention run : ℕ) (p : RunRow) (jobs : Bool) (db : Db) {db' : Db}
    → finalize_idle now retention run (some p) jobs db ≡ ok db'
    → db' ≡ settle now retention run (verdict_of run p db) db
unfolding finalize_idle
finalize_idle-run now retention run p jobs db h = ground arith

-- If the run has the row `p`, which is queued or running, and finalizeRun succeeds, then the run has
-- a row afterwards, and its status is PASSED exactly when no cancellation was asked for and every
-- job of the run has passed or was canceled.
pub finalize_run-passed :
    (now retention run : ℕ) (db : Db) (p : RunRow) {db' : Db}
    → select_first (λ p. p.id == run) db.runs ≡ some p
    → is_open p.status ≡ true
    → finalize_run now retention run db ≡ ok db'
    → (q : RunRow) × (select_first (λ p. p.id == run) db'.runs ≡ some q)
      × ((q.status ≡ RunStatus.passed) ↔ MayPass run p db)
unfolding finalize_run close_run
finalize_run-passed now retention run db p {db'} found open_now h =
    elim (Bool-cases (ltb 0 (count_where (in_run run is_unfinished) db.jobs))) [
      | inl busy ↦
          let same : db ≡ db' = ok-injective (rw busy at h) in
          (
            p,
            rw (← same) found,
            ((λ e. cc), (λ may. absurd (ground (arith, MayPass-idle run p db may)))),
          )
      | inr idle ↦
          let z : count_where (in_run run is_unfinished) db.jobs ≡ 0 = ground arith in
          let same = finalize_idle-run now retention run p _ db (rw found at (rw idle at h)) in
          (
            close_run now (verdict_of run p db) p,
            rw same (settle-run now retention run _ db p found open_now),
            (verdict_of-MayPass run p db z, MayPass-verdict_of run p db),
          )
    ]
