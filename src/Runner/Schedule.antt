-- ===== src/Runner/Schedule.antt =====
-- What every turn of the loop keeps: the two counters count, no more jobs run than may, and a job that
-- runs or has passed had all that it needs.
use forgeci.Base.{
  &&-true_left, &&-true_right, Bool, Bool-cases, List, Option, String, [], any, arith, false, inl,
  inr, length, none, refl, some, str_eq, str_eq_iff, subst, sym, true, ℕ, ◌+◌, ◌||◌, ◌∙◌, ◌∷◌, ◌≡◌,
  ◌≤◌,
}
use forgeci.Compiler.{Graph, needs_of}
use forgeci.Runner.{
  Progress, State, has_passed, is_active, is_in, is_terminal, needs_passed, set_state, state_of,
}
use forgeci.Runner.States.{
  count_states, count_states-set_state, length-set_state, one, state_of-set_state,
}

module _ (g : Graph) (max_parallel : ℕ) where
  pub record IsValid (p : Progress) : Type 0 where
    pub counted_active : p.active ≡ count_states is_active p.states
    pub counted_terminal : p.terminal ≡ count_states is_terminal p.states
    pub complete : length p.states ≡ length g.nodes
    pub bounded : p.active ≤ max_parallel
    pub needs_met :
        (name : String) (s : State)
        → state_of name p.states ≡ some s
        → (is_active s || has_passed s) ≡ true
        → needs_passed (needs_of name g) p.states ≡ true
    pub ordered :
        (name : String) (s : State)
        → state_of name p.states ≡ some s
        → any (λ n. str_eq n name) g.order ≡ true

  pub is_in-some :
      (f : State → Bool) (o : Option State)
      → is_in f o ≡ true
      → (s : State) × (o ≡ some s) × (f s ≡ true)
  is_in-some f none h = cc
  is_in-some f (some s) h = (s, refl, h)

  -- An assignment that takes no pass away keeps the needs that are met.
  needs_passed-set_state :
      (needs : List String) (name : String) (old s : State) (m : List (String × State))
      → state_of name m ≡ some old
      → has_passed old ≡ false
      → needs_passed needs m ≡ true
      → needs_passed needs (set_state name s m) ≡ true
  unfolding needs_passed
  needs_passed-set_state [] name old s m h not_passed met = refl
  needs_passed-set_state (d ∷ ds) name old s m h not_passed met =
      let here = &&-true_left (is_in has_passed (state_of d m)) (needs_passed ds m) met in
      let rest =
        needs_passed-set_state ds name old s m h not_passed
          (&&-true_right (is_in has_passed (state_of d m)) (needs_passed ds m) met) in
      elim (Bool-cases (str_eq name d)) [
        | inl e ↦
            let at_d = subst (λ x. state_of x m ≡ some old) ((str_eq_iff name d).0 e) h in
            absurd (ground (arith, here, at_d, not_passed))
        | inr e ↦ rw (state_of-set_state name d s m, e, here) rest
      ]

  -- A job that leaves a state in which it had not passed.
  change-needs :
      (name : String) (old s : State) (p : Progress)
      → IsValid p
      → state_of name p.states ≡ some old
      → has_passed old ≡ false
      → ((is_active s || has_passed s) ≡ true → needs_passed (needs_of name g) p.states ≡ true)
      → (k : String) (t : State) → state_of k (set_state name s p.states) ≡ some t
      → (is_active t || has_passed t) ≡ true
      → needs_passed (needs_of k g) (set_state name s p.states) ≡ true
  change-needs name old s p v h not_passed earned k t found starts =
      needs_passed-set_state (needs_of k g) name old s p.states h not_passed
        (elim (Bool-cases (str_eq name k)) [
          | inl e ↦
              let set = rw e at (sym (state_of-set_state name k s p.states) ∙ found) in
              let same : s ≡ t = cc in
              rw (← (str_eq_iff name k).0 e)
                (earned (subst (λ x. (is_active x || has_passed x) ≡ true) (sym same) starts))
          | inr e ↦
              v.needs_met k t (rw e at (sym (state_of-set_state name k s p.states) ∙ found)) starts
        ])

  pub change-IsValid :
      (name : String) (old s : State) (a t : ℕ) (p : Progress)
      → IsValid p
      → state_of name p.states ≡ some old
      → has_passed old ≡ false
      → ((is_active s || has_passed s) ≡ true → needs_passed (needs_of name g) p.states ≡ true)
      → a + one (is_active old) ≡ p.active + one (is_active s)
      → t + one (is_terminal old) ≡ p.terminal + one (is_terminal s)
      → a ≤ max_parallel
      → IsValid (record p { states = set_state name s p.states; active = a; terminal = t })
  change-IsValid name old s a t p v h not_passed earned active terminal room = record {
    counted_active =
        omega
          (arith, v.counted_active, active, count_states-set_state is_active name old s p.states h);
    counted_terminal = omega (
      arith,
      v.counted_terminal,
      terminal,
      count_states-set_state is_terminal name old s p.states h,
    );
    complete = length-set_state name old s p.states h ∙ v.complete;
    bounded = room;
    needs_met = change-needs name old s p v h not_passed earned;
    ordered = λ k u found. elim (Bool-cases (str_eq name k)) [
      | inl e ↦ rw (← (str_eq_iff name k).0 e) (v.ordered name old h)
      | inr e ↦ v.ordered k u (rw e at (sym (state_of-set_state name k s p.states) ∙ found))
    ];
  }
