-- ===== src/Runner/States.antt =====
-- The map of states under an assignment: what it holds, and how many of its entries satisfy a test.
use forgeci.Base.{
  Bool, Bool-cases, List, String, [], ap, arith, count_where, if◌then◌else◌, inl, inr, length, refl,
  some, str_eq, str_eq-apart, str_eq_iff, suc, ℕ, ◌+◌, ◌∷◌, ◌≡◌,
}
use forgeci.Runner.{State, set_state, state_of}

pub state_of-set_state :
    (name k : String) (s : State) (m : List (String × State))
    → state_of k (set_state name s m) ≡ (if str_eq name k then some s else state_of k m)
unfolding state_of set_state
state_of-set_state name k s [] = refl
state_of-set_state name k s ((n, old) ∷ rest) = elim (Bool-cases (str_eq n name)) [
  | inl e ↦ let same = (str_eq_iff n name).0 e in rw (e, same) (ground arith)
  | inr e ↦ elim (Bool-cases (str_eq n k)) [
    | inl f ↦ rw (e, f, str_eq-apart n k name f e) refl
    | inr f ↦ rw (e, f) (state_of-set_state name k s rest)
  ]
]

abbrev pub one : Bool → ℕ
one b = if b then 1 else 0

abbrev pub count_states : (State → Bool) → List (String × State) → ℕ
count_states p m = count_where (λ e. p e.1) m

pub count_states-set_state :
    (p : State → Bool) (name : String) (old s : State) (m : List (String × State))
    → state_of name m ≡ some old
    → count_states p (set_state name s m) + one (p old) ≡ count_states p m + one (p s)
unfolding state_of set_state count_where
count_states-set_state p name old s [] h = cc
count_states-set_state p name old s ((n, x) ∷ rest) h = elim (Bool-cases (str_eq n name)) [
  | inl e ↦ rw e (ground arith)
  | inr e ↦ rw e (ground (arith, count_states-set_state p name old s rest (rw e at h)))
]

pub length-set_state :
    (name : String) (old s : State) (m : List (String × State))
    → state_of name m ≡ some old
    → length (set_state name s m) ≡ length m
unfolding state_of set_state
length-set_state name old s [] h = cc
length-set_state name old s ((n, x) ∷ rest) h = elim (Bool-cases (str_eq n name)) [
  | inl e ↦ rw e refl
  | inr e ↦ rw e (ap suc (length-set_state name old s rest (rw e at h)))
]
