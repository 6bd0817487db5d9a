-- ===== src/Control/Execution.antt =====
-- What the server writes of a run that it executes itself.
use forgeci.Base.{
  All, Bool, Bool-cases, List, Option, Result, String, [], all, any, ap, arith, false, false≢true,
  in_option, in_result, inl, inr, none, ok, refl, some, subst, sym, true, update_where, ℕ, ◌&&◌,
  ◌==◌, ◌∙◌, ◌∷◌, ◌≡◌, ◌⊎◌,
}
use forgeci.Compiler.{Compiled, Graph, compile, compiled, cycle}
use forgeci.Config.{Pipeline}
use forgeci.Control.Running.{
  end_status, execute, finish, finish_execution, is_failed_state, mark_failed, mark_internal,
  observe, or_same, or_text,
}
use forgeci.Protocol.{written}
use forgeci.Runner.{
  Outcome, Progress, State, Turn, ended, going, has_passed, run_pipeline, succeeded,
}
use forgeci.Store.Runs.{finish_row, finish_run, is_running_run, update_job}
use forgeci.Store.Settle.{expire_artifacts_of}
use forgeci.Store.Tables.{Db, JobStatus, RunRow, RunStatus}

abbrev pub has_run_passed : RunStatus → Bool
has_run_passed RunStatus.passed = true
has_run_passed _ = false

abbrev pub is_passed_run : ℕ → RunRow → Bool
is_passed_run run r = (r.id == run) && has_run_passed r.status

in_compiled :
    (c : Compiled) → ((names : List String) × (c ≡ cycle names)) ⊎ ((g : Graph) × (c ≡ compiled g))
in_compiled (cycle names) = inl (names, refl)
in_compiled (compiled g) = inr (g, refl)

any-update :
    {A : Type 0} (q k : A → Bool) (f : A → A) (xs : List A)
    → ((x : A) → q (f x) ≡ false)
    → any q xs ≡ false
    → any q (update_where k f xs) ≡ false
unfolding update_where
any-update q k f [] h e = refl
any-update q k f (x ∷ xs) h e = ground (arith, h x, any-update q k f xs h)

finish_run-runs :
    (now retention run : ℕ) (status : RunStatus) (message : Option String) (db : Db) {db' : Db}
    → finish_run now retention run status message db ≡ ok db'
    → db'.runs ≡ update_where (is_running_run run) (finish_row now status message) db.runs
unfolding finish_run expire_artifacts_of
finish_run-runs now retention run status message db h = ground arith

module _ (parse : String → Result Pipeline) where
  -- Each of the events in turn is written into the table, from the first database to the last.
  unfoldable pub AllWritten : (run : ℕ) → List (ℕ × String × JobStatus) → Db → Db → Type 0
  AllWritten run [] db last = db ≡ last
  AllWritten run ((now, name, status) ∷ events) db last =
      (next : Db) × (update_job parse now run name status none db ≡ ok next)
      × AllWritten run events next last

  observe-some :
      (run : ℕ) (events : List (ℕ × String × JobStatus)) (text : String) (db : Db)
      → (observe parse run events (some text, db)).0 ≡ none
      → ⊥
  unfolding observe
  observe-some run [] text db h = absurd (ground arith)
  observe-some run ((now, name, status) ∷ events) text db h =
      elim (in_result (update_job parse now run name status none db)) [
        | inl f ↦ observe-some run events text db (rw (f.1, observe) at h)
        | inr (db', f) ↦ observe-some run events text db' (rw (f, observe) at h)
      ]

  observe-AllWritten :
      (run : ℕ) (events : List (ℕ × String × JobStatus)) (db : Db)
      → (observe parse run events (none, db)).0 ≡ none
      → AllWritten run events db (observe parse run events (none, db)).1
  unfolding observe AllWritten
  observe-AllWritten run [] db h = refl
  observe-AllWritten run ((now, name, status) ∷ events) db h =
      elim (in_result (update_job parse now run name status none db)) [
        | inl f ↦ absurd (observe-some run events "update job" db (rw (f.1, observe) at h))
        | inr (db', f) ↦ (
          db',
          f,
          subst (AllWritten run events db') (sym (rw (f, observe) refl))
              (observe-AllWritten run events db' (rw (f, observe) at h)),
        )
      ]

-- A run that is not finished as passed does not become so.
finish-unpassed :
    (now retention run : ℕ) (outcome : RunStatus × Option String) (db : Db)
    → has_run_passed outcome.0 ≡ false
    → any (is_passed_run run) db.runs ≡ false
    → any (is_passed_run run) (finish now retention run outcome db).runs ≡ false
finish-unpassed now retention run outcome db e h =
    elim (in_result (finish_run now retention run outcome.0 outcome.1 db)) [
      | inl f ↦ rw f.1 h
      | inr (db', f) ↦
          rw (f, finish_run-runs now retention run outcome.0 outcome.1 db f)
            (any-update (is_passed_run run) (is_running_run run)
              (finish_row now outcome.0 outcome.1) db.runs (λ r. unfold finish_row in ground arith)
              h)
    ]

end_status-passed :
    (o : Option String) (q : Progress)
    → has_run_passed (end_status o q).0 ≡ true
    → (o ≡ none) × (q.internal_error ≡ false) × (q.interrupted ≡ false) × (succeeded q ≡ true)
unfolding end_status
end_status-passed (some text) q h = absurd (ground arith)
end_status-passed none q h = (refl, ground arith, ground arith, ground arith)

has_passed_lem : (state : State) → has_passed state ≡ true → state ≡ State.passed
has_passed_lem State.passed h = refl
has_passed_lem State.pending h = absurd (ground arith)
has_passed_lem State.running h = absurd (ground arith)
has_passed_lem State.failed h = absurd (ground arith)
has_passed_lem State.blocked h = absurd (ground arith)
has_passed_lem State.canceled h = absurd (ground arith)

all_passed-All :
    (states : List (String × State))
    → all (λ e. has_passed e.1) states ≡ true
    → All (λ e. e.1 ≡ State.passed) states
all_passed-All [] h = tt
all_passed-All ((name, state) ∷ states) h =
    (has_passed_lem state (ground arith), all_passed-All states (ground arith))

succeeded-All : (q : Progress) → succeeded q ≡ true → All (λ e. e.1 ≡ State.passed) q.states
unfolding succeeded
succeeded-All q h = all_passed-All q.states (ground arith)

module _ (parse : String → Result Pipeline) where
  update_job-runs :
      (now run : ℕ) (name : String) (status : JobStatus) (message : Option String) (db : Db)
      {db' : Db}
      → update_job parse now run name status message db ≡ ok db'
      → db'.runs ≡ db.runs
  unfolding update_job
  update_job-runs now run name status message db h = ground arith

  observe-runs :
      (run : ℕ) (events : List (ℕ × String × JobStatus)) (o : Option String × Db)
      → (observe parse run events o).1.runs ≡ o.1.runs
  unfolding observe
  observe-runs run [] o = refl
  observe-runs run ((now, name, status) ∷ events) (e, db) =
      elim (in_result (update_job parse now run name status none db)) [
        | inl f ↦ ground (arith, f.1, observe-runs run events (some (or_text e "update job"), db))
        | inr (db', f) ↦
            ground (
              arith,
              observe-runs run events (e, db'),
              update_job-runs now run name status none db f,
            )
      ]

  mark_failed-runs :
      (now run : ℕ) (text : String) (states : List (String × State)) (db : Db)
      → (mark_failed parse now run text states db).runs ≡ db.runs
  unfolding mark_failed
  mark_failed-runs now run text [] db = refl
  mark_failed-runs now run text ((name, state) ∷ states) db =
      elim (Bool-cases (is_failed_state state)) [
        | inr e ↦ rw e (mark_failed-runs now run text states db)
        | inl e ↦ elim (in_result (update_job parse now run name JobStatus.failed (some text) db)) [
          | inl f ↦ rw (e, f.1) (mark_failed-runs now run text states db)
          | inr (db', f) ↦
              rw (e, f)
                (mark_failed-runs now run text states db'
                  ∙ update_job-runs now run name JobStatus.failed (some text) db f)
        ]
      ]

  mark_internal-runs :
      (now run : ℕ) (o : Option String) (p : Progress) (db : Db)
      → (mark_internal parse now run o p db).runs ≡ db.runs
  unfolding mark_internal
  mark_internal-runs now run (some text) p db = refl
  mark_internal-runs now run none p db =
      ground (arith, mark_failed-runs now run "job infrastructure failure" p.states db)

  ended-unpassed :
      (now retention run : ℕ) (o : Option String × Db) (q : Progress) {db' : Db}
      → has_run_passed (end_status o.0 q).0 ≡ false
      → any (is_passed_run run) o.1.runs ≡ false
      → finish_execution parse now retention run o (ended q) ≡ some db'
      → any (is_passed_run run) db'.runs ≡ false
  unfolding finish_execution
  ended-unpassed now retention run o q {db'} e before h =
      let marked = mark_internal parse now run o.0 q o.1 in
      let same : finish now retention run (end_status o.0 q) marked ≡ db' = ground arith in
      subst (λ d. any (is_passed_run run) d.runs ≡ false) same
        (finish-unpassed now retention run (end_status o.0 q) marked e
          (rw (mark_internal-runs now run o.0 q o.1) before))

  ended-written :
      (now retention run : ℕ) (o : Option String × Db) (q : Progress) {db' : Db}
      → (o.0 ≡ none) × (q.internal_error ≡ false) × (q.interrupted ≡ false) × (succeeded q ≡ true)
      → any (is_passed_run run) o.1.runs ≡ false
      → finish_execution parse now retention run o (ended q) ≡ some db'
      → any (is_passed_run run) db'.runs ≡ true
      → finish_run now retention run RunStatus.passed none o.1 ≡ ok db'
  unfolding finish_execution end_status mark_internal
  ended-written now retention run (fault, db) q {db'} (fine, sound, calm, won) before h after =
      let same : or_same db (finish_run now retention run RunStatus.passed none db) ≡ db' =
        ground (arith, fine, sound, calm, won) in
      elim (in_result (finish_run now retention run RunStatus.passed none db)) [
        | inl f ↦ absurd (
            false≢true (
              sym before
              ∙ subst (λ d. any (is_passed_run run) d.runs ≡ true) (sym (rw f.1 at same)) after))
        | inr (d, f) ↦ f ∙ ap ok (rw f at same)
      ]

  finish_execution-passed :
      (now retention run : ℕ) (o : Option String × Db) (outcome : Outcome) {db' : Db}
      → any (is_passed_run run) o.1.runs ≡ false
      → finish_execution parse now retention run o outcome ≡ some db'
      → any (is_passed_run run) db'.runs ≡ true
      → (q : Progress) × (outcome ≡ ended q)
        × (o.0 ≡ none)
        × (q.internal_error ≡ false)
        × (q.interrupted ≡ false)
        × (succeeded q ≡ true)
        × (finish_run now retention run RunStatus.passed none o.1 ≡ ok db')
  finish_execution-passed now retention run o (going q) before h after =
      unfold finish_execution in cc
  finish_execution-passed now retention run o (ended q) before h after =
      elim (Bool-cases (has_run_passed (end_status o.0 q).0)) [
        | inl e ↦
            let clean : (o.0 ≡ none)
                × (q.internal_error ≡ false)
                × (q.interrupted ≡ false)
                × (succeeded q ≡ true) =
              end_status-passed o.0 q e in
            (
              q,
              refl,
              clean.0,
              clean.1,
              clean.2,
              clean.3,
              ended-written now retention run o q clean before h after,
            )
        | inr e ↦
            absurd (false≢true (sym (ended-unpassed now retention run o q e before h) ∙ after))
      ]

  error-unpassed :
      (now retention run : ℕ) (text : String) (db : Db)
      → any (is_passed_run run) db.runs ≡ false
      → any (is_passed_run run) (finish now retention run (RunStatus.error, some text) db).runs
        ≡ false
  error-unpassed now retention run text db before =
      finish-unpassed now retention run (RunStatus.error, some text) db refl before

  -- If no row of the run says that it has passed, and execute ends with a row of it that does, then
  -- the stored text is that of a pipeline that Compile accepts, nothing was amiss in the preparation,
  -- each change of a job's state that Run reported was written into the table, one after the other,
  -- Run on the graph ended without an interruption or a failure of the infrastructure, every state it
  -- ended with is passed, and the tables at the end are what FinishRun with PASSED makes of those after
  -- the last change.
  pub execute-passed :
      (now retention : ℕ) (workspace_fault executor_fault : Option String)
      (events : List (ℕ × String × JobStatus)) (turns : List Turn) (p : RunRow) (db : Db) {db' : Db}
      → any (is_passed_run p.id) db.runs ≡ false
      → execute parse now retention workspace_fault executor_fault events turns p db ≡ some db'
      → any (is_passed_run p.id) db'.runs ≡ true
      → (cfg : Pipeline) × (g : Graph) × (q : Progress) × (parse p.pipeline_yaml ≡ ok cfg)
        × (compile cfg ≡ compiled g)
        × (workspace_fault ≡ none)
        × (executor_fault ≡ none)
        × (run_pipeline g p.max_parallel turns ≡ ended q)
        × (q.internal_error ≡ false)
        × (q.interrupted ≡ false)
        × All (λ e. e.1 ≡ State.passed) q.states
        × (last : Db) × AllWritten parse p.id events db last
        × (finish_run now retention p.id RunStatus.passed none last ≡ ok db')
  unfolding execute
  execute-passed now retention (some text) executor_fault events turns p db before h after =
      absurd (ground (arith, error-unpassed now retention p.id text db before))
  execute-passed now retention none executor_fault events turns p db {db'} before h after =
      elim (in_result (parse p.pipeline_yaml)) [
        | inl e ↦ absurd (ground (arith, e.1, error-unpassed now retention p.id "parse" db before))
        | inr (cfg, e) ↦ elim (in_compiled (compile cfg)) [
          | inl f ↦
              absurd (ground (arith, f.1, error-unpassed now retention p.id "compile" db before))
          | inr (g, f) ↦ elim (in_option executor_fault) [
            | inr k ↦ absurd (ground (arith, k.1, error-unpassed now retention p.id k.0 db before))
            | inl k ↦
                let observed = observe parse p.id events (none, db) in
                let ran : finish_execution parse now retention p.id observed
                      (run_pipeline g p.max_parallel turns)
                    ≡ some db' =
                  ground arith in
                let (q, l, m, sound, calm, won, written) =
                  finish_execution-passed now retention p.id observed
                    (run_pipeline g p.max_parallel turns)
                    (rw (observe-runs p.id events (none, db)) before) ran after in
                (
                  cfg,
                  g,
                  q,
                  e,
                  f,
                  refl,
                  k,
                  l,
                  sound,
                  calm,
                  succeeded-All q won,
                  observed.1,
                  observe-AllWritten parse p.id events db m,
                  written,
                )
          ]
        ]
      ]
