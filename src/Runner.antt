-- ===== src/Runner.antt =====
-- internal/runner/runner.go: Runner.Run, nextReadyJob and hasFailedDependency. The loop of Run is a
-- sequence of turns. What a turn meets is a parameter: whether the context is done when the turn
-- starts, and how its wait ends, by a completion or by the context.
pub mod Attempt
pub mod Schedule
pub mod Rounds
pub mod Ending
pub mod Turns
pub mod Termination
pub mod Correctness
pub mod Sweep
pub mod Progressing
pub mod Compiled
mod Samples
pub mod States
use forgeci.Base.{
  Bool, List, Option, String, [], all, any, false, if◌then◌else◌, length, ltb, none, not, some,
  str_eq, suc, true, zero, ℕ, ◌&&◌, ◌+◌, ◌-◌, ◌==◌, ◌||◌, ◌∷◌,
}
use forgeci.Compiler.{Graph, Node, needs_of}

pub data State : Type 0 where
  pending running passed failed blocked canceled : State

abbrev pub is_waiting : State → Bool
is_waiting State.pending = true
is_waiting _ = false

abbrev pub is_active : State → Bool
is_active State.running = true
is_active _ = false

abbrev pub has_passed : State → Bool
has_passed State.passed = true
has_passed _ = false

-- What a dependent of the job cannot get over.
abbrev pub has_failed : State → Bool
has_failed State.failed = true
has_failed State.blocked = true
has_failed _ = false

abbrev pub is_terminal : State → Bool
is_terminal s = not (is_waiting s || is_active s)

-- `map[string]State`: the entry of a name, and an assignment to it.
unfoldable pub state_of : String → List (String × State) → Option State
state_of name [] = none
state_of name ((n, s) ∷ rest) = if str_eq n name then some s else state_of name rest

unfoldable pub set_state : String → State → List (String × State) → List (String × State)
set_state name s [] = (name, s) ∷ []
set_state name s ((n, old) ∷ rest) =
    let others = set_state name s rest in if str_eq n name then (n, s) ∷ rest else (n, old) ∷ others

-- `states[name] == ..`, which no state but that one satisfies; a missing entry is none of them.
abbrev pub is_in : (State → Bool) → Option State → Bool
is_in p none = false
is_in p (some s) = p s

-- The variables of Run, with its result.
pub record Progress : Type 0 where
  pub states : List (String × State)
  pub active : ℕ
  pub terminal : ℕ
  pub canceling : Bool
  pub interrupted : Bool
  pub internal_error : Bool

pub record Completion : Type 0 where
  pub name : String
  pub state : State
  pub internal_error : Bool

unfoldable pub all_pending : List (String × Node) → List (String × State)
all_pending [] = []
all_pending ((n, node) ∷ rest) = (n, State.pending) ∷ all_pending rest

unfoldable pub begin_progress : Graph → Progress
begin_progress g = record {
  states = all_pending g.nodes;
  active = 0;
  terminal = 0;
  canceling = false;
  interrupted = false;
  internal_error = false;
}

unfoldable pub needs_passed : List String → List (String × State) → Bool
needs_passed needs states = all (λ d. is_in has_passed (state_of d states)) needs

unfoldable pub has_failed_dependency : Graph → List (String × State) → String → Bool
has_failed_dependency g states name =
    any (λ d. is_in has_failed (state_of d states)) (needs_of name g)

-- nextReadyJob over the names that are left of the order; "" when there is none.
unfoldable pub ready_among : Graph → List (String × State) → List String → String
ready_among g states [] = ""
ready_among g states (name ∷ names) =
    let rest = ready_among g states names in
    if is_in is_waiting (state_of name states)
    then (if needs_passed (needs_of name g) states then name else rest)
    else rest

unfoldable pub next_ready_job : Graph → List (String × State) → String
next_ready_job g states = ready_among g states g.order

-- The context is done at the start of a turn.
unfoldable pub notice : Bool → Progress → Progress
notice context_done p =
    if not p.canceling && context_done then record p { canceling = true; interrupted = true } else p

unfoldable pub block_one : Graph → String → Progress → Progress
block_one g name p =
    if is_in is_waiting (state_of name p.states) && has_failed_dependency g p.states name
    then record p { states = set_state name State.blocked p.states; terminal = p.terminal + 1 }
    else p

unfoldable pub block_among : Graph → List String → Progress → Progress
block_among g [] p = p
block_among g (name ∷ names) p = block_among g names (block_one g name p)

-- A job that starts is running before its goroutine runs.
unfoldable pub start_job : String → Progress → Progress
start_job name p = record p {
  states = set_state name State.running p.states;
  active = p.active + 1;
}

-- The loop that starts jobs: a round more than there may be jobs started is enough fuel.
unfoldable pub start_ready : ℕ → Graph → (max_parallel : ℕ) → Progress → Progress
start_ready zero g max_parallel p = p
start_ready (suc fuel) g max_parallel p =
    let name = next_ready_job g p.states in
    let rest = start_ready fuel g max_parallel (start_job name p) in
    if ltb p.active max_parallel then (if str_eq name "" then p else rest) else p

-- A turn up to its wait.
unfoldable pub prepare : Graph → (max_parallel : ℕ) → Bool → Progress → Progress
prepare g max_parallel context_done p =
    let noticed = notice context_done p in
    if noticed.canceling
    then noticed
    else start_ready (suc max_parallel) g max_parallel (block_among g g.order noticed)

unfoldable pub drop_one : State → String → Progress → Progress
drop_one s name p =
    if is_in is_waiting (state_of name p.states)
    then record p { states = set_state name s p.states; terminal = p.terminal + 1 }
    else p

-- A loop over the order that gives every pending job one last state.
unfoldable pub drop_pending : State → List String → Progress → Progress
drop_pending s [] p = p
drop_pending s (name ∷ names) p = drop_pending s names (drop_one s name p)

-- The branch with no active job, which always ends the loop.
unfoldable pub wind_up : Graph → Progress → Progress
wind_up g p =
    let drained = if p.canceling then drop_pending State.canceled g.order p else p in
    if drained.terminal == length g.nodes
    then drained
    else drop_pending State.failed g.order (record drained { internal_error = true })

unfoldable pub receive : Completion → Progress → Progress
receive c p = record p {
  states = set_state c.name c.state p.states;
  internal_error = p.internal_error || c.internal_error;
  active = p.active - 1;
  terminal = p.terminal + 1;
}

-- What a turn meets: `answer` is none when the context ends the wait.
pub record Turn : Type 0 where
  pub context_done : Bool
  pub answer : Option Completion

pub data Outcome : Type 0 where
  going : Progress → Outcome
  ended : Progress → Outcome

unfoldable pub settle_wait : Option Completion → Progress → Progress
settle_wait none p = p
settle_wait (some c) p = receive c p

unfoldable pub take_turn : Graph → (max_parallel : ℕ) → Turn → Progress → Outcome
take_turn g max_parallel t p =
    if ltb p.terminal (length g.nodes)
    then (let ready = prepare g max_parallel t.context_done p in
        if ready.active == 0 then ended (wind_up g ready) else going (settle_wait t.answer ready))
    else ended p

unfoldable pub run_turns : Graph → (max_parallel : ℕ) → List Turn → Outcome → Outcome
run_turns g max_parallel turns (ended p) = ended p
run_turns g max_parallel [] (going p) = going p
run_turns g max_parallel (t ∷ turns) (going p) =
    run_turns g max_parallel turns (take_turn g max_parallel t p)

-- Run: fewer than one parallel job is taken as one.
unfoldable pub run_pipeline : Graph → ℕ → List Turn → Outcome
run_pipeline g max_parallel turns =
    run_turns g (if ltb max_parallel 1 then 1 else max_parallel) turns (going (begin_progress g))

-- Result.Succeeded.
unfoldable pub succeeded : Progress → Bool
succeeded p = not (p.interrupted || p.internal_error) && all (λ e. has_passed e.1) p.states
