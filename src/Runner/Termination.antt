-- ===== src/Runner/Termination.antt =====
-- The loop of Run ends: each turn finishes a job, or finds the context done, or is the last.
use forgeci.Base.{
  Bool, Bool-cases, List, Option, String, [], arith, false, inl, inr, length, ltb, none, not, refl,
  some, str_eq, subst, suc, sym, true, zero, ℕ, ◌&&◌, ◌+◌, ◌-◌, ◌<◌, ◌==◌, ◌||◌, ◌∷◌, ◌≡◌, ◌≢◌, ◌≤◌,
  ◌⊎◌,
}
use forgeci.Compiler.{Graph}
use forgeci.Runner.{
  Completion, Outcome, Progress, Turn, block_among, block_one, ended, going, has_failed_dependency,
  is_in, is_waiting, next_ready_job, notice, prepare, receive, run_turns, settle_wait, start_job,
  start_ready, state_of, take_turn, wind_up,
}
use forgeci.Runner.States.{one}
use forgeci.Runner.Turns.{Answers, CanMeet, ended_wait}

abbrev pub IsEnded : Outcome → Type 0
IsEnded (going p) = ⊥
IsEnded (ended p) = Unit

module _ (g : Graph) (max_parallel : ℕ) where
  block_one-terminal : (name : String) (p : Progress) → p.terminal ≤ (block_one g name p).terminal
  unfolding block_one
  block_one-terminal name p =
      elim (Bool-cases
        (is_in is_waiting (state_of name p.states) && has_failed_dependency g p.states name)) [
          | inl e ↦ rw e (omega arith)
          | inr e ↦ rw e (omega arith)
        ]

  block_among-terminal :
      (names : List String) (p : Progress) → p.terminal ≤ (block_among g names p).terminal
  unfolding block_among
  block_among-terminal [] p = omega arith
  block_among-terminal (name ∷ names) p =
      omega (arith, block_one-terminal name p, block_among-terminal names (block_one g name p))

  start_ready-terminal :
      (fuel : ℕ) (p : Progress) → (start_ready fuel g max_parallel p).terminal ≡ p.terminal
  unfolding start_ready start_job
  start_ready-terminal zero p = refl
  start_ready-terminal (suc fuel) p = elim (Bool-cases (ltb p.active max_parallel)) [
    | inl room ↦ elim (Bool-cases (str_eq (next_ready_job g p.states) "")) [
      | inl e ↦ rw (room, e) refl
      | inr e ↦ rw (room, e) (start_ready-terminal fuel (start_job (next_ready_job g p.states) p))
    ]
    | inr full ↦ rw full refl
  ]

  notice-terminal : (done : Bool) (p : Progress) → (notice done p).terminal ≡ p.terminal
  unfolding notice
  notice-terminal done p = elim (Bool-cases (not p.canceling && done)) [
    | inl e ↦ rw e refl
    | inr e ↦ rw e refl
  ]

  notice-done : (p : Progress) → (notice true p).canceling ≡ true
  unfolding notice
  notice-done p = ground arith

  prepare-terminal :
      (done : Bool) (p : Progress) → p.terminal ≤ (prepare g max_parallel done p).terminal
  unfolding prepare
  prepare-terminal done p =
      let same = notice-terminal done p in
      let blocked = block_among-terminal g.order (notice done p) in
      let started =
        start_ready-terminal (suc max_parallel) (block_among g g.order (notice done p)) in
      elim (Bool-cases (notice done p).canceling) [
        | inl e ↦ simp e (omega (arith, same))
        | inr e ↦ simp e (omega (arith, same, blocked, started))
      ]

  -- A turn that leaves the wait to the context has not found it done before.
  waiting-is_new :
      (done : Bool) (p : Progress)
      → (prepare g max_parallel done p).canceling ≡ false
      → done ≡ false
  unfolding prepare
  waiting-is_new false p h = refl
  waiting-is_new true p h = absurd (ground (arith, h, notice-done p))

  abbrev left : Progress → ℕ
  left p = length g.nodes - p.terminal

  run_turns-ended :
      (turns : List Turn) (p : Progress) → IsEnded (run_turns g max_parallel turns (ended p))
  unfolding run_turns
  run_turns-ended [] p = tt
  run_turns-ended (t ∷ ts) p = tt

  -- A turn of a loop that is not over is its last, or it waits.
  take_turn-cases :
      (t : Turn) (p : Progress)
      → ((q : Progress) × (take_turn g max_parallel t p ≡ ended q))
        ⊎ ((p.terminal < length g.nodes)
            × ((prepare g max_parallel t.context_done p).active ≢ 0)
            × (take_turn g max_parallel t p
                ≡ going (settle_wait t.answer (prepare g max_parallel t.context_done p))))
  unfolding take_turn
  take_turn-cases t p =
      let ready = prepare g max_parallel t.context_done p in
      elim (Bool-cases (ltb p.terminal (length g.nodes))) [
        | inl e ↦ elim (Bool-cases (ready.active == 0)) [
          | inl idle ↦ inl (wind_up g ready, rw (e, idle) refl)
          | inr busy ↦
              inr (ground (arith, e), λ z. absurd (ground (arith, z, busy)), rw (e, busy) refl)
        ]
        | inr e ↦ inl (p, rw e refl)
      ]

  -- A wait finishes a job, or it ends with a context that was not done before.
  wait-advances :
      (was_done done : Bool) (answer : Option Completion) (p : Progress)
      → p.terminal < length g.nodes
      → (was_done ≡ true → done ≡ true)
      → Answers (prepare g max_parallel done p) answer
      → left (settle_wait answer (prepare g max_parallel done p))
          + one (not (done || ended_wait answer))
        < left p + one (not was_done)
  unfolding settle_wait receive
  wait-advances was_done done none p room sticky a =
      let fresh = waiting-is_new done p a in ground (arith, fresh, sticky, prepare-terminal done p)
  wait-advances was_done done (some c) p room sticky a =
      ground (arith, sticky, prepare-terminal done p)

  pub run_turns-IsEnded :
      (was_done : Bool) (turns : List Turn) (p : Progress)
      → CanMeet g max_parallel was_done turns (going p)
      → left p + one (not was_done) < length turns
      → IsEnded (run_turns g max_parallel turns (going p))
  unfolding run_turns
  run_turns-IsEnded was_done [] p m enough = absurd (omega arith)
  run_turns-IsEnded was_done (t ∷ ts) p m enough =
      let (sticky, meets, rest) = m in
      elim (take_turn-cases t p) [
        | inl (q, e) ↦
            subst (λ o. IsEnded (run_turns g max_parallel ts o)) (sym e) (run_turns-ended ts q)
        | inr (room, busy, e) ↦
            let q = settle_wait t.answer (prepare g max_parallel t.context_done p) in
            let less = wait-advances was_done t.context_done t.answer p room sticky (meets busy) in
            let later =
              subst (CanMeet g max_parallel (t.context_done || ended_wait t.answer) ts) e rest in
            subst (λ o. IsEnded (run_turns g max_parallel ts o)) (sym e)
              (run_turns-IsEnded (t.context_done || ended_wait t.answer) ts q later (omega arith))
      ]
