-- ===== src/Scm/Backoff.antt =====
-- The delay before a retry: the base doubled for each attempt after the first, up to the maximum.
use native.Mathlib.Nat.{mul_assoc, pow-succ'}
use forgeci.Base.{
  Bool-cases, ap, arith, if◌then◌else◌, inl, inr, ltb, min, refl, subst, suc, sym, true, zero, ℕ,
  ◌*◌, ◌+◌, ◌-◌, ◌^◌, ◌∙◌, ◌≡◌, ◌≤◌,
}
use forgeci.Scm.{backoff, double_delay}

double-pow : (d k : ℕ) → d * 2 ^ suc k ≡ (d * 2) * 2 ^ k
double-pow d k = ap (◌*◌ d) (pow-succ' 2 k) ∙ sym (mul_assoc d 2 (2 ^ k))

grows : (d k : ℕ) → d ≤ d * 2 ^ k
grows d zero = omega arith
grows d (suc k) = omega (arith, double-pow d k, grows (d * 2) k)

-- One round: what is doubled and cut at the maximum has the same end.
round-closed :
    (m delay k : ℕ)
    → delay ≤ m
    → min ((if ltb m (delay * 2) then m else delay * 2) * 2 ^ k) m ≡ min (delay * 2 ^ suc k) m
round-closed m delay k le = elim (Bool-cases (ltb m (delay * 2))) [
  | inl e ↦ rw (e, double-pow delay k) (ground (arith, e, grows m k, grows (delay * 2) k))
  | inr e ↦ rw (e, double-pow delay k) refl
]

double_delay-closed :
    (fuel i k m delay : ℕ)
    → delay ≤ m
    → k ≤ fuel
    → double_delay fuel i (i + k) m delay ≡ min (delay * 2 ^ k) m
unfolding double_delay
double_delay-closed zero i zero m delay le enough = omega arith
double_delay-closed zero i (suc k) m delay le enough = absurd (omega arith)
double_delay-closed (suc fuel) i zero m delay le enough = ground arith
double_delay-closed (suc fuel) i (suc k) m delay le enough =
    let next = if ltb m (delay * 2) then m else delay * 2 in
    let later : double_delay fuel (i + 1) (i + suc k) m next ≡ min (next * 2 ^ k) m =
      subst (λ n. double_delay fuel (i + 1) n m next ≡ min (next * 2 ^ k) m) (omega arith)
        (double_delay-closed fuel (i + 1) k m next (ground arith) (omega arith)) in
    elim (Bool-cases (ltb delay m)) [
      | inl e ↦
          let here : ltb i (i + suc k) ≡ true = ground arith in
          rw (here, e) (later ∙ round-closed m delay k le)
      | inr e ↦
          let full : delay ≡ m = ground (arith, e) in
          let here : ltb i (i + suc k) ≡ true = ground arith in
          rw (here, e) (omega (arith, full, grows delay (suc k)))
    ]

-- If the base is at most the maximum, then the delay after the given number of attempts, at least
-- one, is the base times two to the power of the attempts before it, but at most the maximum.
pub backoff-closed :
    (base_backoff max_backoff attempts : ℕ)
    → base_backoff ≤ max_backoff
    → 1 ≤ attempts
    → backoff base_backoff max_backoff attempts
      ≡ min (base_backoff * 2 ^ (attempts - 1)) max_backoff
unfolding backoff
backoff-closed base_backoff max_backoff attempts le some_made =
    subst
      (λ n.
        double_delay attempts 1 n max_backoff base_backoff
        ≡ min (base_backoff * 2 ^ (attempts - 1)) max_backoff)
      (omega arith)
      (double_delay-closed attempts 1 (attempts - 1) max_backoff base_backoff le (omega arith))
