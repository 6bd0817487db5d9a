-- ===== src/Runner/Progressing.antt =====
-- Run is never stuck: with no job running and none to start, no job of the order is left pending.
use forgeci.Base.{
  All, Bool, Bool-cases, List, Option, String, [], any, ap, append_assoc, arith, count_where, false,
  false≢true, inl, inr, ltb, none, refl, some, str_eq, str_eq_iff, str_eq_refl, subst, suc, sym,
  true, zero, ℕ, ◌++◌, ◌∙◌, ◌∷◌, ◌≡◌, ◌≤◌,
}
use forgeci.Compiler.{Graph, needs_of}
use forgeci.Compiler.Names.{occ, occ-append}
use forgeci.Compiler.Order.{IsOrdered}
use forgeci.Runner.{
  Progress, State, block_among, has_failed, has_failed_dependency, has_passed, is_active, is_in,
  is_terminal, is_waiting, needs_passed, next_ready_job, notice, prepare, ready_among, start_job,
  start_ready, state_of,
}
use forgeci.Runner.Rounds.{block_among-IsValid, notice-IsValid}
use forgeci.Runner.Schedule.{IsValid}
use forgeci.Runner.States.{count_states}
use forgeci.Runner.Sweep.{IsCalm, IsSwept, block_among-IsSwept, block_among-calm, in_next, is_calm}

abbrev pub IsSettled : Graph → Progress → Type 0
IsSettled g p = All (λ n. is_in is_terminal (state_of n p.states) ≡ true) g.order

module _ (g : Graph) where
  -- Settled needs of which none is lost have all passed.
  settled-passed :
      (ds : List String) (m : List (String × State))
      → All (λ d. is_in is_terminal (state_of d m) ≡ true) ds
      → All (λ d. is_in is_calm (state_of d m) ≡ true) ds
      → any (λ d. is_in has_failed (state_of d m)) ds ≡ false
      → needs_passed ds m ≡ true
  unfolding needs_passed
  settled-passed [] m settled calm h = refl
  settled-passed (d ∷ ds) m settled calm h =
      let here = one_passed (state_of d m) settled.0 calm.0 (ground (arith, h)) in
      rw here (settled-passed ds m settled.1 calm.1 (ground (arith, h)))
    where
      one_passed :
          (o : Option State)
          → is_in is_terminal o ≡ true
          → is_in is_calm o ≡ true
          → is_in has_failed o ≡ false
          → is_in has_passed o ≡ true
      one_passed none t c f = t
      one_passed (some State.pending) t c f = t
      one_passed (some State.running) t c f = t
      one_passed (some State.passed) t c f = refl
      one_passed (some State.failed) t c f = sym f
      one_passed (some State.blocked) t c f = sym f
      one_passed (some State.canceled) t c f = c

  not_active-settled :
      (o : Option State)
      → is_in is_calm o ≡ true
      → is_in is_active o ≡ false
      → is_in is_waiting o ≡ false
      → is_in is_terminal o ≡ true
  not_active-settled none c a w = c
  not_active-settled (some State.pending) c a w = sym w
  not_active-settled (some State.running) c a w = sym a
  not_active-settled (some State.passed) c a w = refl
  not_active-settled (some State.failed) c a w = refl
  not_active-settled (some State.blocked) c a w = refl
  not_active-settled (some State.canceled) c a w = refl

  none_active :
      (x : String) (m : List (String × State))
      → count_states is_active m ≡ 0
      → is_in is_active (state_of x m) ≡ false
  unfolding state_of count_where
  none_active x [] h = refl
  none_active x ((n, s) ∷ rest) h = elim (Bool-cases (str_eq n x)) [
    | inl e ↦ rw e (ground (arith, h))
    | inr e ↦ rw e (none_active x rest (ground (arith, h)))
  ]

  All-before :
      (P : String → Type 0) (before ds : List String)
      → ((x : String) → 1 ≤ occ x before → P x)
      → All (λ d. 1 ≤ occ d before) ds
      → All P ds
  All-before P before [] f h = tt
  All-before P before (d ∷ ds) f h = (f d h.0, All-before P before ds f h.1)

  settle :
      (before rest : List String) (p : Progress)
      → IsOrdered g.nodes before rest
      → ((x : String) → 1 ≤ occ x before → is_in is_terminal (state_of x p.states) ≡ true)
      → ((x : String) → 1 ≤ occ x (before ++ rest) → is_in is_calm (state_of x p.states) ≡ true)
      → IsSwept g (before ++ rest) p
      → count_states is_active p.states ≡ 0
      → ready_among g p.states rest ≡ ""
      → All (λ n. str_eq n "" ≡ false) rest
      → All (λ n. is_in is_terminal (state_of n p.states) ≡ true) rest
  unfolding ready_among has_failed_dependency count_where
  settle before [] p o settled calm w idle r named = tt
  settle before (n ∷ rest) p o settled calm w idle r named =
      let counted = λ (x : String). occ-append x before (n ∷ rest) in
      let calm_n = calm n (ground (arith, counted n, str_eq_refl n)) in
      let idle_n = none_active n p.states idle in
      let needs_settled =
        All-before (λ d. is_in is_terminal (state_of d p.states) ≡ true) before (needs_of n g)
          settled o.0 in
      let needs_calm =
        All-before (λ d. is_in is_calm (state_of d p.states) ≡ true) before (needs_of n g)
          (λ x h. calm x (omega (arith, counted x, h))) o.0 in
      let not_ready : is_in is_waiting (state_of n p.states) ≡ false =
        elim (Bool-cases (is_in is_waiting (state_of n p.states))) [
          | inl e ↦ elim (Bool-cases (has_failed_dependency g p.states n)) [
            | inl f ↦ w.swept n (ground (arith, counted n, str_eq_refl n)) f
            | inr f ↦
                let passed = settled-passed (needs_of n g) p.states needs_settled needs_calm f in
                let first : n ≡ "" = rw (e, passed) at r in
                absurd (false≢true (sym named.0 ∙ (str_eq_iff n "").1 first))
          ]
          | inr e ↦ e
        ] in
      let here = not_active-settled (state_of n p.states) calm_n idle_n not_ready in
      let again = append_assoc before (n ∷ []) rest in
      (
        here,
        settle (before ++ n ∷ []) rest p o.1
            (λ x h. elim (Bool-cases (str_eq n x)) [
              | inl e ↦
                  subst (λ y. is_in is_terminal (state_of y p.states) ≡ true) ((str_eq_iff n x).0 e)
                    here
              | inr e ↦ settled x (in_next g before n x h e)
            ])
            (λ x h. calm x (subst (λ ns. 1 ≤ occ x ns) again h))
            (subst (λ ns. IsSwept g ns p) (sym again) w) idle (rw not_ready at r) named.1,
      )

  start_ready-active :
      (fuel max_parallel : ℕ) (p : Progress) → p.active ≤ (start_ready fuel g max_parallel p).active
  unfolding start_ready start_job
  start_ready-active zero max_parallel p = omega arith
  start_ready-active (suc fuel) max_parallel p =
      let later = start_ready-active fuel max_parallel (start_job (next_ready_job g p.states) p) in
      ground (arith, later)

  start_ready-idle :
      (fuel max_parallel : ℕ) (p : Progress)
      → 1 ≤ max_parallel
      → (start_ready (suc fuel) g max_parallel p).active ≡ 0
      → (start_ready (suc fuel) g max_parallel p ≡ p) × (next_ready_job g p.states ≡ "")
  unfolding start_ready start_job
  start_ready-idle fuel max_parallel p some_room idle =
      let later = start_ready-active fuel max_parallel (start_job (next_ready_job g p.states) p) in
      elim (Bool-cases (ltb p.active max_parallel)) [
        | inl room ↦ elim (Bool-cases (str_eq (next_ready_job g p.states) "")) [
          | inl e ↦ rw (room, e) (refl, (str_eq_iff (next_ready_job g p.states) "").0 e)
          | inr e ↦ absurd (omega (arith, later, rw (room, e) at idle))
        ]
        | inr full ↦ absurd (ground (arith, full, rw full at idle))
      ]

  notice-states : (done : Bool) (p : Progress) → (notice done p).states ≡ p.states
  unfolding notice
  notice-states done p = ground arith

-- If the order of the graph has each job after all that it needs, no job of it has the empty name, a
-- turn does not find the run canceled, its counters are right, at least one job may run and each job
-- of the order has a state other than canceled, then, should no job run when the turn has blocked and
-- started what it can, every job of the order is in a last state: none is left pending.
pub prepare-IsSettled :
    (g : Graph) (max_parallel : ℕ) (done : Bool) (p : Progress)
    → IsOrdered g.nodes [] g.order
    → All (λ n. str_eq n "" ≡ false) g.order
    → 1 ≤ max_parallel
    → IsValid g max_parallel p
    → IsCalm g p
    → (notice done p).canceling ≡ false
    → (prepare g max_parallel done p).active ≡ 0
    → IsSettled g (prepare g max_parallel done p)
unfolding prepare next_ready_job count_where notice
prepare-IsSettled g max_parallel done p o named some_room v calm h idle =
    let noticed = notice done p in
    let q = block_among g g.order noticed in
    let valid =
      block_among-IsValid g max_parallel g.order noticed (notice-IsValid g max_parallel done p v) in
    let (same, nothing) = start_ready-idle g max_parallel max_parallel q some_room (rw h at idle) in
    let quiet : q.active ≡ 0 = ap (λ (r : Progress). r.active) (sym same) ∙ (rw h at idle) in
    let swept =
      block_among-IsSwept g [] g.order noticed o
        (record { closed = λ x k. absurd (omega arith); swept = λ x k. absurd (omega arith) }) in
    let settled =
      settle g [] g.order q o (λ x k. absurd (omega arith))
        (λ x k. block_among-calm g g.order x noticed (
          subst (λ m. is_in is_calm (state_of x m) ≡ true) (sym (notice-states g done p))
            (calm x k)))
        swept (sym valid.counted_active ∙ quiet) nothing named in
    rw h (subst (IsSettled g) (sym same) settled)
