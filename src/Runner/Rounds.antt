-- ===== src/Runner/Rounds.antt =====
-- The parts of a turn keep what Schedule states.
use forgeci.Base.{
  &&-true_left, All, Bool, Bool-cases, List, String, [], any, ap, arith, count_where, false,
  false≢true, inl, inr, length, ltb, not, refl, some, str_eq, str_eq_iff, str_eq_refl, subst, suc,
  sym, true, zero, ℕ, ◌&&◌, ◌+◌, ◌<◌, ◌∙◌, ◌∷◌, ◌≡◌,
}
use forgeci.Compiler.{Graph, Node, needs_of}
use forgeci.Runner.{
  Progress, State, all_pending, begin_progress, block_among, block_one, drop_one, drop_pending,
  has_failed_dependency, has_passed, is_active, is_in, is_terminal, is_waiting, needs_passed,
  next_ready_job, notice, ready_among, set_state, start_job, start_ready, state_of,
}
use forgeci.Runner.Schedule.{IsValid, change-IsValid, is_in-some}
use forgeci.Runner.States.{count_states}

all_pending-none :
    (f : State → Bool) (nodes : List (String × Node))
    → f State.pending ≡ false
    → count_states f (all_pending nodes) ≡ 0
unfolding all_pending count_where
all_pending-none f [] h = refl
all_pending-none f (e ∷ es) h = ground (arith, h, all_pending-none f es h)

length-all_pending : (nodes : List (String × Node)) → length (all_pending nodes) ≡ length nodes
unfolding all_pending
length-all_pending [] = refl
length-all_pending (e ∷ es) = ap suc (length-all_pending es)

all_pending-found :
    (P : String → Type 0) (name : String) (s : State) (nodes : List (String × Node))
    → state_of name (all_pending nodes) ≡ some s
    → All (λ e. P e.0) nodes
    → (s ≡ State.pending) × P name
unfolding all_pending state_of
all_pending-found P name s [] found h = cc
all_pending-found P name s ((n, node) ∷ es) found h = elim (Bool-cases (str_eq n name)) [
  | inl e ↦ let here = rw e at found in (cc, subst P ((str_eq_iff n name).0 e) h.0)
  | inr e ↦ all_pending-found P name s es (rw e at found) h.1
]

pub begin_progress-IsValid :
    (g : Graph) (max_parallel : ℕ)
    → All (λ e. any (λ n. str_eq n e.0) g.order ≡ true) g.nodes
    → IsValid g max_parallel (begin_progress g)
unfolding begin_progress
begin_progress-IsValid g max_parallel covered = record {
  counted_active = sym (all_pending-none is_active g.nodes refl);
  counted_terminal = sym (all_pending-none is_terminal g.nodes refl);
  complete = length-all_pending g.nodes;
  bounded = omega arith;
  needs_met = λ name s found starts.
      let (same, _) =
        all_pending-found (λ n. any (λ m. str_eq m n) g.order ≡ true) name s g.nodes found
          covered in
      ground (arith, same, starts);
  ordered = λ name s found.
      (all_pending-found (λ n. any (λ m. str_eq m n) g.order ≡ true) name s g.nodes found
        covered).1;
}

module _ (g : Graph) (max_parallel : ℕ) where
  pub notice-IsValid :
      (done : Bool) (p : Progress)
      → IsValid g max_parallel p
      → IsValid g max_parallel (notice done p)
  unfolding notice
  notice-IsValid done p v = elim (Bool-cases (not p.canceling && done)) [
    | inl e ↦ rw e (record {
      counted_active = v.counted_active;
      counted_terminal = v.counted_terminal;
      complete = v.complete;
      bounded = v.bounded;
      needs_met = v.needs_met;
      ordered = v.ordered;
    })
    | inr e ↦ rw e v
  ]

  -- A pending job goes to a last state that is no pass.
  drop-IsValid :
      (name : String) (s : State) (p : Progress)
      → IsValid g max_parallel p
      → is_in is_waiting (state_of name p.states) ≡ true
      → is_terminal s ≡ true
      → has_passed s ≡ false
      → IsValid g max_parallel
          (record p { states = set_state name s p.states; terminal = p.terminal + 1 })
  drop-IsValid name s p v waits last not_passed =
      let (old, found, waiting) =
        is_in-some g max_parallel is_waiting (state_of name p.states) waits in
      change-IsValid g max_parallel name old s p.active (p.terminal + 1) p v found (ground arith)
        (ground arith) (ground arith) (ground arith) v.bounded

  block_one-IsValid :
      (name : String) (p : Progress)
      → IsValid g max_parallel p
      → IsValid g max_parallel (block_one g name p)
  unfolding block_one
  block_one-IsValid name p v =
      elim (Bool-cases
        (is_in is_waiting (state_of name p.states) && has_failed_dependency g p.states name)) [
          | inl e ↦ rw e (
              drop-IsValid name State.blocked p v
                (&&-true_left (is_in is_waiting (state_of name p.states))
                  (has_failed_dependency g p.states name) e)
                refl refl)
          | inr e ↦ rw e v
        ]

  pub block_among-IsValid :
      (names : List String) (p : Progress)
      → IsValid g max_parallel p
      → IsValid g max_parallel (block_among g names p)
  unfolding block_among
  block_among-IsValid [] p v = v
  block_among-IsValid (name ∷ names) p v =
      block_among-IsValid names (block_one g name p) (block_one-IsValid name p v)

  drop_one-IsValid :
      (s : State) (name : String) (p : Progress)
      → is_terminal s ≡ true
      → has_passed s ≡ false
      → IsValid g max_parallel p
      → IsValid g max_parallel (drop_one s name p)
  unfolding drop_one
  drop_one-IsValid s name p last not_passed v =
      elim (Bool-cases (is_in is_waiting (state_of name p.states))) [
        | inl e ↦ rw e (drop-IsValid name s p v e last not_passed)
        | inr e ↦ rw e v
      ]

  pub drop_pending-IsValid :
      (s : State) (names : List String) (p : Progress)
      → is_terminal s ≡ true
      → has_passed s ≡ false
      → IsValid g max_parallel p
      → IsValid g max_parallel (drop_pending s names p)
  unfolding drop_pending
  drop_pending-IsValid s [] p last not_passed v = v
  drop_pending-IsValid s (name ∷ names) p last not_passed v =
      drop_pending-IsValid s names (drop_one s name p) last not_passed
        (drop_one-IsValid s name p last not_passed v)

  -- What nextReadyJob returns is pending, and all its needs have passed.
  ready_among-IsReady :
      (m : List (String × State)) (names : List String)
      → str_eq (ready_among g m names) "" ≡ false
      → (is_in is_waiting (state_of (ready_among g m names) m) ≡ true)
        × (needs_passed (needs_of (ready_among g m names) g) m ≡ true)
  unfolding ready_among
  ready_among-IsReady m [] h = absurd (false≢true (sym h ∙ str_eq_refl ""))
  ready_among-IsReady m (name ∷ names) h = elim (Bool-cases (is_in is_waiting (state_of name m))) [
    | inl e ↦ elim (Bool-cases (needs_passed (needs_of name g) m)) [
      | inl f ↦ rw (e, f) (e, f)
      | inr f ↦ rw (e, f) (ready_among-IsReady m names (rw (e, f) at h))
    ]
    | inr e ↦ rw e (ready_among-IsReady m names (rw e at h))
  ]

  start_job-IsValid :
      (p : Progress)
      → IsValid g max_parallel p
      → p.active < max_parallel
      → str_eq (next_ready_job g p.states) "" ≡ false
      → IsValid g max_parallel (start_job (next_ready_job g p.states) p)
  unfolding start_job next_ready_job
  start_job-IsValid p v room named =
      let (waits, met) = ready_among-IsReady p.states g.order named in
      let name = ready_among g p.states g.order in
      let (old, found, waiting) =
        is_in-some g max_parallel is_waiting (state_of name p.states) waits in
      change-IsValid g max_parallel name old State.running (p.active + 1) p.terminal p v found
        (ground arith) (λ _. met) (ground arith) (ground arith) (omega arith)

  pub start_ready-IsValid :
      (fuel : ℕ) (p : Progress)
      → IsValid g max_parallel p
      → IsValid g max_parallel (start_ready fuel g max_parallel p)
  unfolding start_ready
  start_ready-IsValid zero p v = v
  start_ready-IsValid (suc fuel) p v = elim (Bool-cases (ltb p.active max_parallel)) [
    | inl room ↦ elim (Bool-cases (str_eq (next_ready_job g p.states) "")) [
      | inl e ↦ rw (room, e) v
      | inr e ↦
          rw (room, e)
            (start_ready-IsValid fuel (start_job (next_ready_job g p.states) p)
              (start_job-IsValid p v (ground arith) e))
    ]
    | inr full ↦ rw full v
  ]
