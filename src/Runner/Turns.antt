-- ===== src/Runner/Turns.antt =====
-- The loop of Run over its turns: it keeps the counters, and it ends.
use forgeci.Base.{
  Bool, Bool-cases, List, Option, [], arith, false, inl, inr, length, ltb, none, refl, some, suc,
  true, ℕ, ◌+◌, ◌-◌, ◌==◌, ◌||◌, ◌∷◌, ◌≡◌, ◌≢◌,
}
use forgeci.Compiler.{Graph}
use forgeci.Runner.{
  Completion, Outcome, Progress, State, Turn, block_among, ended, going, is_active, notice, prepare,
  receive, run_turns, settle_wait, state_of, take_turn,
}
use forgeci.Runner.Ending.{IsFinal, all_terminal-IsFinal, found-count, wind_up-IsFinal}
use forgeci.Runner.Rounds.{block_among-IsValid, notice-IsValid, start_ready-IsValid}
use forgeci.Runner.Schedule.{IsValid, change-IsValid}

-- What executeJob returns.
abbrev pub is_result : State → Bool
is_result State.passed = true
is_result State.failed = true
is_result State.canceled = true
is_result _ = false

-- How a wait with active jobs can end: by the completion of a running job, or by the context, which
-- Run does not wait for once it is canceling.
abbrev pub Answers : Progress → Option Completion → Type 0
Answers p none = p.canceling ≡ false
Answers p (some c) = (state_of c.name p.states ≡ some State.running) × (is_result c.state ≡ true)

abbrev pub ended_wait : Option Completion → Bool
ended_wait none = true
ended_wait (some c) = false

module _ (g : Graph) (max_parallel : ℕ) where
  -- The turns can be met: a context that is done stays done, also when it has ended a wait.
  abbrev pub CanMeet : (was_done : Bool) → List Turn → Outcome → Type 0
  CanMeet was_done turns (ended p) = Unit
  CanMeet was_done [] (going p) = Unit
  CanMeet was_done (t ∷ ts) (going p) =
      (was_done ≡ true → t.context_done ≡ true)
      × ((prepare g max_parallel t.context_done p).active ≢ 0
          → Answers (prepare g max_parallel t.context_done p) t.answer)
      × CanMeet (t.context_done || ended_wait t.answer) ts (take_turn g max_parallel t p)

  abbrev pub IsValidOutcome : Outcome → Type 0
  IsValidOutcome (going p) = IsValid g max_parallel p
  IsValidOutcome (ended p) = IsValid g max_parallel p × IsFinal p

  pub prepare-IsValid :
      (done : Bool) (p : Progress)
      → IsValid g max_parallel p
      → IsValid g max_parallel (prepare g max_parallel done p)
  unfolding prepare notice
  prepare-IsValid done p v =
      let noticed = notice-IsValid g max_parallel done p v in
      elim (Bool-cases (notice done p).canceling) [
        | inl e ↦ rw e noticed
        | inr e ↦ rw e (
            start_ready-IsValid g max_parallel (suc max_parallel)
              (block_among g g.order (notice done p))
              (block_among-IsValid g max_parallel g.order (notice done p) noticed))
      ]

  receive-IsValid :
      (c : Completion) (p : Progress)
      → IsValid g max_parallel p
      → state_of c.name p.states ≡ some State.running
      → is_result c.state ≡ true
      → IsValid g max_parallel (receive c p)
  unfolding receive
  receive-IsValid c p v found result =
      let busy = found-count is_active c.name State.running p.states found refl in
      let changed =
        change-IsValid g max_parallel c.name State.running c.state (p.active - 1) (p.terminal + 1) p
          v found refl (λ _. v.needs_met c.name State.running found refl)
          (ground (arith, result, busy, v.counted_active)) (ground (arith, result))
          (omega (arith, v.bounded)) in
      record {
        counted_active = changed.counted_active;
        counted_terminal = changed.counted_terminal;
        complete = changed.complete;
        bounded = changed.bounded;
        needs_met = changed.needs_met;
        ordered = changed.ordered;
      }

  settle_wait-IsValid :
      (answer : Option Completion) (p : Progress)
      → IsValid g max_parallel p
      → Answers p answer
      → IsValid g max_parallel (settle_wait answer p)
  unfolding settle_wait
  settle_wait-IsValid none p v a = v
  settle_wait-IsValid (some c) p v a = receive-IsValid c p v a.0 a.1

  take_turn-IsValid :
      (t : Turn) (p : Progress)
      → IsValid g max_parallel p
      → ((prepare g max_parallel t.context_done p).active ≢ 0
          → Answers (prepare g max_parallel t.context_done p) t.answer)
      → IsValidOutcome (take_turn g max_parallel t p)
  unfolding take_turn
  take_turn-IsValid t p v meets =
      let ready = prepare g max_parallel t.context_done p in
      let rv = prepare-IsValid t.context_done p v in
      elim (Bool-cases (ltb p.terminal (length g.nodes))) [
        | inl e ↦ elim (Bool-cases (ready.active == 0)) [
          | inl idle ↦ rw (e, idle) (wind_up-IsFinal g max_parallel ready rv (ground (arith, idle)))
          | inr busy ↦
              rw (e, busy)
                (settle_wait-IsValid t.answer ready rv
                  (meets (λ z. absurd (ground (arith, z, busy)))))
        ]
        | inr e ↦ rw e (v, all_terminal-IsFinal g max_parallel p v (ground (arith, e)))
      ]

  pub run_turns-IsValid :
      (was_done : Bool) (turns : List Turn) (o : Outcome)
      → IsValidOutcome o
      → CanMeet was_done turns o
      → IsValidOutcome (run_turns g max_parallel turns o)
  unfolding run_turns
  run_turns-IsValid was_done [] (ended p) v m = v
  run_turns-IsValid was_done (t ∷ ts) (ended p) v m = v
  run_turns-IsValid was_done [] (going p) v m = v
  run_turns-IsValid was_done (t ∷ ts) (going p) v m =
      let (_, meets, rest) = m in
      run_turns-IsValid (t.context_done || ended_wait t.answer) ts (take_turn g max_parallel t p)
        (take_turn-IsValid t p v meets) rest
