-- ===== src/Runner/Correctness.antt =====
-- What Run promises: it ends with every job in a last state, it never runs more jobs than it may, it
-- runs a job only after its needs, and it leaves no ready job waiting while it may run another.
use mathlib.Core.List.{Memᴰ}
use forgeci.Base.{
  All, Bool, Bool-cases, List, String, [], any, arith, false, if◌then◌else◌, inl, inr, length, ltb,
  mem-cons, mem-nil, not, refl, some, str_eq, str_eq_iff, subst, suc, sym, true, zero, ℕ, ◌&&◌, ◌+◌,
  ◌<◌, ◌∙◌, ◌∷◌, ◌≡◌, ◌≢◌, ◌≤◌, ◌⊎◌,
}
use forgeci.Compiler.{Graph, needs_of}
use forgeci.Runner.{
  Outcome, Progress, State, Turn, begin_progress, block_among, block_one, ended, going,
  has_failed_dependency, has_passed, is_in, is_waiting, needs_passed, next_ready_job, notice,
  prepare, ready_among, run_pipeline, start_job, start_ready, state_of,
}
use forgeci.Runner.Ending.{IsFinal}
use forgeci.Runner.Rounds.{begin_progress-IsValid}
use forgeci.Runner.Schedule.{IsValid}
use forgeci.Runner.Termination.{IsEnded, run_turns-IsEnded}
use forgeci.Runner.Turns.{CanMeet, IsValidOutcome, run_turns-IsValid}

abbrev pub parallel : ℕ → ℕ
parallel max_parallel = if ltb max_parallel 1 then 1 else max_parallel

-- Every node of the graph stands in its order.
abbrev pub IsCovered : Graph → Type 0
IsCovered g = All (λ e. any (λ n. str_eq n e.0) g.order ≡ true) g.nodes

abbrev pub CanRun : Graph → ℕ → List Turn → Type 0
CanRun g max_parallel turns =
    CanMeet g (parallel max_parallel) false turns (going (begin_progress g))

-- If every node stands in the order and Run meets turns that can be met, then after any number of
-- them the two counters count the running and the finished jobs, no more jobs run than MaxParallel
-- (or one, when it is less), and the needs of each job that runs or has passed have all passed; and
-- when the loop has ended, each job is in a last state.
pub run_pipeline-IsValid :
    (g : Graph) (max_parallel : ℕ) (turns : List Turn)
    → IsCovered g
    → CanRun g max_parallel turns
    → IsValidOutcome g (parallel max_parallel) (run_pipeline g max_parallel turns)
unfolding run_pipeline
run_pipeline-IsValid g max_parallel turns covered meets =
    run_turns-IsValid g (parallel max_parallel) false turns (going (begin_progress g))
      (begin_progress-IsValid g (parallel max_parallel) covered) meets

ended-cases : (o : Outcome) → IsEnded o → (p : Progress) × (o ≡ ended p)
ended-cases (going p) h = elim h [ ]
ended-cases (ended p) h = (p, refl)

-- If every node stands in the order and Run meets two more turns than there are nodes, which can be
-- met, then it has ended, and each job is in a last state: passed, failed, blocked or canceled.
pub run_pipeline-ends :
    (g : Graph) (max_parallel : ℕ) (turns : List Turn)
    → IsCovered g
    → CanRun g max_parallel turns
    → length g.nodes + 2 ≤ length turns
    → (p : Progress) × (run_pipeline g max_parallel turns ≡ ended p) × IsFinal p
unfolding run_pipeline begin_progress
run_pipeline-ends g max_parallel turns covered meets enough =
    let valid = run_pipeline-IsValid g max_parallel turns covered meets in
    let over : IsEnded (run_pipeline g max_parallel turns) =
      run_turns-IsEnded g (parallel max_parallel) false turns (begin_progress g) meets
        (omega arith) in
    let (p, e) = ended-cases (run_pipeline g max_parallel turns) over in
    (p, e, (subst (IsValidOutcome g (parallel max_parallel)) e valid).1)

start_ready-IsFull :
    (fuel : ℕ) (g : Graph) (max_parallel : ℕ) (p : Progress)
    → p.active ≤ max_parallel
    → max_parallel < fuel + p.active
    → let q = start_ready fuel g max_parallel p in
      (q.active ≡ max_parallel) ⊎ (next_ready_job g q.states ≡ "")
unfolding start_ready start_job
start_ready-IsFull zero g max_parallel p within enough = absurd (omega arith)
start_ready-IsFull (suc fuel) g max_parallel p within enough =
    elim (Bool-cases (ltb p.active max_parallel)) [
      | inl room ↦ elim (Bool-cases (str_eq (next_ready_job g p.states) "")) [
        | inl e ↦ rw (room, e) (inr ((str_eq_iff (next_ready_job g p.states) "").0 e))
        | inr e ↦
            rw (room, e)
              (start_ready-IsFull fuel g max_parallel (start_job (next_ready_job g p.states) p)
                (ground (arith, room)) (omega arith))
      ]
      | inr full ↦ rw full (inl (ground (arith, full)))
    ]

block_among-active :
    (g : Graph) (names : List String) (p : Progress) → (block_among g names p).active ≡ p.active
unfolding block_among block_one
block_among-active g [] p = refl
block_among-active g (name ∷ names) p =
    block_among-active g names (block_one g name p)
    ∙ elim (Bool-cases
        (is_in is_waiting (state_of name p.states) && has_failed_dependency g p.states name)) [
          | inl e ↦ rw e refl
          | inr e ↦ rw e refl
        ]

notice-active : (done : Bool) (p : Progress) → (notice done p).active ≡ p.active
unfolding notice
notice-active done p = elim (Bool-cases (not p.canceling && done)) [
  | inl e ↦ rw e refl
  | inr e ↦ rw e refl
]

needs_passed-missing :
    (needs : List String) (states : List (String × State))
    → needs_passed needs states ≡ false
    → (d : String) × Memᴰ d needs × (state_of d states ≢ some State.passed)
unfolding needs_passed
needs_passed-missing [] states h = absurd (ground arith)
needs_passed-missing (d ∷ ds) states h = elim (Bool-cases (is_in has_passed (state_of d states))) [
  | inr e ↦ (d, Memᴰ.head refl, ground arith)
  | inl e ↦
      let (x, m, missing) = needs_passed-missing ds states (ground arith) in
      (x, Memᴰ.tail m, missing)
]

ready_among-none :
    (g : Graph) (states : List (String × State)) (names : List String) (n : String)
    → ready_among g states names ≡ ""
    → All (λ m. str_eq m "" ≡ false) names
    → Memᴰ n names
    → state_of n states ≡ some State.pending
    → needs_passed (needs_of n g) states ≡ false
unfolding ready_among
ready_among-none g states [] n r named m h = absurd (mem-nil m)
ready_among-none g states (x ∷ names) n r named m h = elim (mem-cons m) [
  | inl same ↦ elim (Bool-cases (needs_passed (needs_of n g) states)) [
    | inr e ↦ e
    | inl e ↦
        let there : ready_among g states (n ∷ names) ≡ "" =
          subst (λ k. ready_among g states (k ∷ names) ≡ "") (sym same) r in
        let named_n = subst (λ k. str_eq k "" ≡ false) (sym same) named.0 in
        absurd (ground (arith, str_eq_iff n ""))
  ]
  | inr later ↦
      elim (Bool-cases
        (is_in is_waiting (state_of x states) && needs_passed (needs_of x g) states)) [
          | inl e ↦ absurd (let named_x = named.0 in ground (arith, str_eq_iff x ""))
          | inr e ↦ ready_among-none g states names n (ground arith) named.1 later h
        ]
]

start_all :
    (g : Graph) (max_parallel : ℕ) (done : Bool) (p : Progress)
    → IsValid g max_parallel p
    → (notice done p).canceling ≡ false
    → let q = prepare g max_parallel done p in
      (q.active ≡ max_parallel) ⊎ (next_ready_job g q.states ≡ "")
unfolding prepare
start_all g max_parallel done p v h =
    let started = block_among g g.order (notice done p) in
    let same = block_among-active g g.order (notice done p) ∙ notice-active done p in
    simp h (
      start_ready-IsFull (suc max_parallel) g max_parallel started (omega (arith, v.bounded, same))
        (omega arith))

-- If the counters of a turn's start are right, no job of the order has the empty name and the turn
-- does not find the run canceled, then for each job of the order that is still pending when it comes
-- to wait, either as many jobs run as may, or the job needs one that has not passed.
pub prepare-IsFull :
    (g : Graph) (max_parallel : ℕ) (done : Bool) (p : Progress) (n : String)
    → IsValid g max_parallel p
    → (notice done p).canceling ≡ false
    → All (λ m. str_eq m "" ≡ false) g.order
    → Memᴰ n g.order
    → state_of n (prepare g max_parallel done p).states ≡ some State.pending
    → ((prepare g max_parallel done p).active ≡ max_parallel)
      ⊎ ((d : String) × Memᴰ d (needs_of n g)
          × (state_of d (prepare g max_parallel done p).states ≢ some State.passed))
prepare-IsFull g max_parallel done p n v h named m pending =
    elim (start_all g max_parallel done p v h) [
      | inl full ↦ inl full
      | inr idle ↦ inr (
          needs_passed-missing (needs_of n g) (prepare g max_parallel done p).states (
            ready_among-none g (prepare g max_parallel done p).states g.order n
              (unfold next_ready_job in idle) named m pending))
    ]
