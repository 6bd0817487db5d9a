-- ===== src/Runner/Sweep.antt =====
-- What blockDependents of Run leaves: no job of the order that it has seen waits for a job that cannot
-- pass.
use forgeci.Base.{
  &&-true_left, &&-true_right, All, Bool, Bool-cases, List, String, [], any, append-nil,
  append_assoc, arith, count_where, false, false≢true, inl, inr, leb, refl, str_eq, str_eq_iff,
  subst, sym, true, ◌&&◌, ◌++◌, ◌∙◌, ◌∷◌, ◌≡◌, ◌≤◌,
}
use forgeci.Compiler.{Graph, needs_of}
use forgeci.Compiler.Names.{occ, occ-append}
use forgeci.Compiler.Order.{IsOrdered}
use forgeci.Runner.{
  Progress, State, block_among, block_one, has_failed, has_failed_dependency, is_in, is_waiting,
  set_state, state_of,
}
use forgeci.Runner.States.{state_of-set_state}

abbrev pub is_calm : State → Bool
is_calm State.canceled = false
is_calm _ = true

-- Every job of the order has a state, which is not canceled.
abbrev pub IsCalm : Graph → Progress → Type 0
IsCalm g p = (x : String) → 1 ≤ occ x g.order → is_in is_calm (state_of x p.states) ≡ true

module _ (g : Graph) where
  -- What blockDependents has seen to: none of `before` waits for a job that cannot pass.
  pub record IsSwept (before : List String) (p : Progress) : Type 0 where
    pub closed : (x : String) → 1 ≤ occ x before → All (λ d. 1 ≤ occ d before) (needs_of x g)
    pub swept :
        (x : String)
        → 1 ≤ occ x before
        → has_failed_dependency g p.states x ≡ true
        → is_in is_waiting (state_of x p.states) ≡ false

  any-apart :
      (f : State → Bool) (before ds : List String) (k : String) (s : State)
      (m : List (String × State))
      → occ k before ≡ 0
      → All (λ d. 1 ≤ occ d before) ds
      → any (λ d. is_in f (state_of d (set_state k s m))) ds ≡ any (λ d. is_in f (state_of d m)) ds
  any-apart f before [] k s m fresh h = refl
  any-apart f before (d ∷ ds) k s m fresh h =
      let rest = any-apart f before ds k s m fresh h.1 in
      elim (Bool-cases (str_eq k d)) [
        | inl e ↦
            let at_d = subst (λ x. occ x before ≡ 0) ((str_eq_iff k d).0 e) fresh in
            absurd (omega (arith, at_d, h.0))
        | inr e ↦ rw (state_of-set_state k d s m, e, rest) refl
      ]

  All-weaken :
      (before : List String) (k : String) (ds : List String)
      → All (λ d. 1 ≤ occ d before) ds
      → All (λ d. 1 ≤ occ d (before ++ k ∷ [])) ds
  All-weaken before k [] h = tt
  All-weaken before k (d ∷ ds) h =
      (omega (arith, occ-append d before (k ∷ []), h.0), All-weaken before k ds h.1)

  pub in_next :
      (before : List String) (k x : String)
      → 1 ≤ occ x (before ++ k ∷ [])
      → str_eq k x ≡ false
      → 1 ≤ occ x before
  unfolding count_where
  in_next before k x h e = ground (arith, occ-append x before (k ∷ []), h, e)

  closed-next :
      (before : List String) (k : String) (p : Progress)
      → IsSwept before p
      → All (λ d. 1 ≤ occ d before) (needs_of k g)
      → (x : String) → 1 ≤ occ x (before ++ k ∷ [])
      → All (λ d. 1 ≤ occ d (before ++ k ∷ [])) (needs_of x g)
  closed-next before k p w needs x h = elim (Bool-cases (str_eq k x)) [
    | inl e ↦
        All-weaken before k (needs_of x g)
          (subst (λ y. All (λ d. 1 ≤ occ d before) (needs_of y g)) ((str_eq_iff k x).0 e) needs)
    | inr e ↦ All-weaken before k (needs_of x g) (w.closed x (in_next before k x h e))
  ]

  block_one-IsSwept :
      (before : List String) (k : String) (p : Progress)
      → IsSwept before p
      → All (λ d. 1 ≤ occ d before) (needs_of k g)
      → IsSwept (before ++ k ∷ []) (block_one g k p)
  unfolding block_one has_failed_dependency
  block_one-IsSwept before k p w needs =
      elim (Bool-cases
        (is_in is_waiting (state_of k p.states) && has_failed_dependency g p.states k)) [
          | inl e ↦
              let waits =
                &&-true_left (is_in is_waiting (state_of k p.states))
                  (has_failed_dependency g p.states k) e in
              let fails =
                &&-true_right (is_in is_waiting (state_of k p.states))
                  (has_failed_dependency g p.states k) e in
              let fresh : occ k before ≡ 0 = elim (Bool-cases (leb 1 (occ k before))) [
                | inl f ↦ absurd (false≢true (sym (w.swept k (ground (arith, f)) fails) ∙ waits))
                | inr f ↦ ground (arith, f)
              ] in
              rw e (record {
                closed = closed-next before k p w needs;
                swept = λ x h failed. elim (Bool-cases (str_eq k x)) [
                  | inl f ↦ rw (state_of-set_state k x State.blocked p.states, f) refl
                  | inr f ↦
                      let old = in_next before k x h f in
                      rw (state_of-set_state k x State.blocked p.states, f)
                        (w.swept x old (
                          sym (
                            any-apart has_failed before (needs_of x g) k State.blocked p.states
                              fresh (w.closed x old))
                          ∙ failed))
                ];
              })
          | inr e ↦ rw e (record {
            closed = closed-next before k p w needs;
            swept = λ x h failed. elim (Bool-cases (str_eq k x)) [
              | inl f ↦
                  let same = (str_eq_iff k x).0 f in
                  let at_x =
                    subst
                      (λ y.
                        (is_in is_waiting (state_of y p.states)
                          && has_failed_dependency g p.states y)
                        ≡ false)
                      same e in
                  ground (arith, at_x, failed)
              | inr f ↦ w.swept x (in_next before k x h f) failed
            ];
          })
        ]

  pub block_among-IsSwept :
      (before rest : List String) (p : Progress)
      → IsOrdered g.nodes before rest
      → IsSwept before p
      → IsSwept (before ++ rest) (block_among g rest p)
  unfolding block_among
  block_among-IsSwept before [] p o w = subst (λ ns. IsSwept ns p) (sym (append-nil before)) w
  block_among-IsSwept before (k ∷ rest) p o w =
      subst (λ ns. IsSwept ns (block_among g rest (block_one g k p)))
        (append_assoc before (k ∷ []) rest)
        (block_among-IsSwept (before ++ k ∷ []) rest (block_one g k p) o.1
          (block_one-IsSwept before k p w o.0))

  block_one-calm :
      (k x : String) (p : Progress)
      → is_in is_calm (state_of x p.states) ≡ true
      → is_in is_calm (state_of x (block_one g k p).states) ≡ true
  unfolding block_one
  block_one-calm k x p h =
      elim (Bool-cases
        (is_in is_waiting (state_of k p.states) && has_failed_dependency g p.states k)) [
          | inl e ↦
              rw (e, state_of-set_state k x State.blocked p.states)
                (elim (Bool-cases (str_eq k x)) [ inl f ↦ rw f refl | inr f ↦ rw f h ])
          | inr e ↦ rw e h
        ]

  pub block_among-calm :
      (names : List String) (x : String) (p : Progress)
      → is_in is_calm (state_of x p.states) ≡ true
      → is_in is_calm (state_of x (block_among g names p).states) ≡ true
  unfolding block_among
  block_among-calm [] x p h = h
  block_among-calm (k ∷ names) x p h =
      block_among-calm names x (block_one g k p) (block_one-calm k x p h)
