-- ===== src/Runner/Ending.antt =====
-- The last turn: when no job runs, every job gets a last state, and the loop ends.
use forgeci.Base.{
  Bool, Bool-cases, List, String, [], any, arith, count_where, false, false≢true, if◌then◌else◌,
  inl, inr, length, not, refl, some, str_eq, str_eq_iff, str_eq_refl, subst, true, ℕ, ◌&&◌, ◌+◌,
  ◌==◌, ◌∙◌, ◌∷◌, ◌≡◌, ◌≤◌,
}
use forgeci.Compiler.{Graph}
use forgeci.Runner.{
  Progress, State, drop_one, drop_pending, has_passed, is_active, is_in, is_terminal, is_waiting,
  state_of, wind_up,
}
use forgeci.Runner.Rounds.{drop_pending-IsValid}
use forgeci.Runner.Schedule.{IsValid}
use forgeci.Runner.States.{count_states, state_of-set_state}

abbrev pub IsFinal : Progress → Type 0
IsFinal p = (name : String) (s : State) → state_of name p.states ≡ some s → is_terminal s ≡ true

pub found-count :
    (f : State → Bool) (name : String) (s : State) (m : List (String × State))
    → state_of name m ≡ some s
    → f s ≡ true
    → 1 ≤ count_states f m
unfolding state_of count_where
found-count f name s [] found h = cc
found-count f name s ((n, x) ∷ m) found h = elim (Bool-cases (str_eq n name)) [
  | inl e ↦ let here = rw e at found in ground (arith, h)
  | inr e ↦ omega (arith, found-count f name s m (rw e at found) h)
]

count-length :
    (f h : State → Bool)
    → ((s : State) → (f s && h s) ≡ false)
    → (m : List (String × State)) → count_states f m + count_states h m ≤ length m
unfolding count_where
count-length f h apart [] = omega arith
count-length f h apart ((n, x) ∷ m) = ground (arith, apart x, count-length f h apart m)

module _ (g : Graph) (max_parallel : ℕ) where
  pub all_terminal-IsFinal :
      (p : Progress) → IsValid g max_parallel p → length g.nodes ≤ p.terminal → IsFinal p
  all_terminal-IsFinal p v full name s found = elim (Bool-cases (is_terminal s)) [
    | inl e ↦ e
    | inr e ↦
        let one_left =
          found-count (λ x. not (is_terminal x)) name s p.states found (ground (arith, e)) in
        let split =
          count-length is_terminal (λ x. not (is_terminal x)) (λ x. ground arith) p.states in
        absurd (omega (arith, v.counted_terminal, v.complete, one_left, split))
  ]

  drop_one-keeps :
      (s : State) (name : String) (p : Progress) (k : String)
      → is_terminal s ≡ true
      → is_in is_waiting (state_of k p.states) ≡ false
      → is_in is_waiting (state_of k (drop_one s name p).states) ≡ false
  unfolding drop_one
  drop_one-keeps s name p k last h = elim (Bool-cases (is_in is_waiting (state_of name p.states))) [
    | inl e ↦ rw e (rw (state_of-set_state name k s p.states) (ground (arith, h, last)))
    | inr e ↦ rw e h
  ]

  drop_one-clears :
      (s : State) (name : String) (p : Progress)
      → is_terminal s ≡ true
      → is_in is_waiting (state_of name (drop_one s name p).states) ≡ false
  unfolding drop_one
  drop_one-clears s name p last = elim (Bool-cases (is_in is_waiting (state_of name p.states))) [
    | inl e ↦
        rw e (rw (state_of-set_state name name s p.states, str_eq_refl name) (ground (arith, last)))
    | inr e ↦ rw e e
  ]

  drop_pending-keeps :
      (s : State) (names : List String) (p : Progress) (k : String)
      → is_terminal s ≡ true
      → is_in is_waiting (state_of k p.states) ≡ false
      → is_in is_waiting (state_of k (drop_pending s names p).states) ≡ false
  unfolding drop_pending
  drop_pending-keeps s [] p k last h = h
  drop_pending-keeps s (name ∷ names) p k last h =
      drop_pending-keeps s names (drop_one s name p) k last (drop_one-keeps s name p k last h)

  drop_pending-clears :
      (s : State) (names : List String) (p : Progress) (k : String)
      → is_terminal s ≡ true
      → any (λ n. str_eq n k) names ≡ true
      → is_in is_waiting (state_of k (drop_pending s names p).states) ≡ false
  unfolding drop_pending
  drop_pending-clears s [] p k last h = absurd (false≢true h)
  drop_pending-clears s (name ∷ names) p k last h = elim (Bool-cases (str_eq name k)) [
    | inl same ↦ drop_pending-keeps s names (drop_one s name p) k last (
        subst (λ n. is_in is_waiting (state_of n (drop_one s name p).states) ≡ false)
          ((str_eq_iff name k).0 same) (drop_one-clears s name p last))
    | inr other ↦ drop_pending-clears s names (drop_one s name p) k last (rw other at h)
  ]

  drop_pending-active :
      (s : State) (names : List String) (p : Progress) → (drop_pending s names p).active ≡ p.active
  unfolding drop_pending drop_one
  drop_pending-active s [] p = refl
  drop_pending-active s (name ∷ names) p =
      drop_pending-active s names (drop_one s name p)
      ∙ elim (Bool-cases (is_in is_waiting (state_of name p.states))) [
        | inl e ↦ rw e refl
        | inr e ↦ rw e refl
      ]

  dropped-IsFinal :
      (s : State) (p : Progress)
      → is_terminal s ≡ true
      → has_passed s ≡ false
      → p.active ≡ 0
      → IsValid g max_parallel p
      → IsFinal (drop_pending s g.order p)
  dropped-IsFinal s p last not_passed idle v name t found =
      let after = drop_pending s g.order p in
      let v' = drop_pending-IsValid g max_parallel s g.order p last not_passed v in
      let cleared = drop_pending-clears s g.order p name last (v'.ordered name t found) in
      elim (Bool-cases (is_active t)) [
        | inl e ↦ absurd (
            omega (
              arith,
              found-count is_active name t after.states found e,
              v'.counted_active,
              drop_pending-active s g.order p,
            ))
        | inr e ↦ ground (arith, e, cleared, found)
      ]

  fail_rest-IsValid :
      (p : Progress)
      → IsValid g max_parallel p
      → IsValid g max_parallel (record p { internal_error = true })
  fail_rest-IsValid p v = record {
    counted_active = v.counted_active;
    counted_terminal = v.counted_terminal;
    complete = v.complete;
    bounded = v.bounded;
    needs_met = v.needs_met;
    ordered = v.ordered;
  }

  drained-IsValid :
      (p : Progress)
      → IsValid g max_parallel p
      → p.active ≡ 0
      → let drained = if p.canceling then drop_pending State.canceled g.order p else p in
        IsValid g max_parallel drained × (drained.active ≡ 0)
  drained-IsValid p v idle = elim (Bool-cases p.canceling) [
    | inl e ↦ simp e (
      drop_pending-IsValid g max_parallel State.canceled g.order p refl refl v,
      drop_pending-active State.canceled g.order p ∙ idle,
    )
    | inr e ↦ simp e (v, idle)
  ]

  pub wind_up-IsFinal :
      (p : Progress)
      → IsValid g max_parallel p
      → p.active ≡ 0
      → IsValid g max_parallel (wind_up g p) × IsFinal (wind_up g p)
  unfolding wind_up
  wind_up-IsFinal p v idle =
      let drained = if p.canceling then drop_pending State.canceled g.order p else p in
      let (dv, still) = drained-IsValid p v idle in
      elim (Bool-cases (drained.terminal == length g.nodes)) [
        | inl e ↦ rw e (dv, all_terminal-IsFinal drained dv (ground (arith, e)))
        | inr e ↦
            let marked = fail_rest-IsValid drained dv in
            rw e (
              drop_pending-IsValid g max_parallel State.failed g.order
                  (record drained { internal_error = true }) refl refl marked,
              dropped-IsFinal State.failed (record drained { internal_error = true }) refl refl
                  still marked,
            )
      ]
