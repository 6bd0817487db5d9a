-- ===== src/Scm/Claims.antt =====
-- A claim excludes every other worker until it expires, and a delivery that is over stays as it is.
use mathlib.Core.List.{Memᴰ}
use forgeci.Base.{
  &&-true_left, All, All-map, Bool, Bool-cases, Error, List, Option, Option-cases, Result, [], ap,
  arith, conflict, err, false, false≢true, guard, inl, inr, is_some, length, ltb, mem-cons, mem-nil,
  mem-select_where, not, ok, opt_after, opt_is, refl, rows_affected, select_least, select_least-mem,
  select_where, subst, sym, true, update_where, ℕ, ◌&&◌, ◌+◌, ◌==◌, ◌>>◌, ◌||◌, ◌∙◌, ◌∷◌, ◌≡◌,
}
use forgeci.Scm.{
  Delivery, DeliveryStatus, claim_delivery, claim_found, close_delivery, complete_delivery,
  cut_message, extend_claim, fail_delivery, failed, is_claim, is_claimable, is_over, is_processing,
  put_off, received_before, renew_claim, take_claim,
}

-- One call on the deliveries; an error leaves them as they were.
pub data Call : Type 0 where
  claims : (lease token : ℕ) → (ℕ → Bool) → List ℕ → Call
  renews : (lease id token : ℕ) → Call
  completes : (id token : ℕ) → DeliveryStatus → Call
  fails : (id token : ℕ) → Option ℕ → List ℕ → Call

abbrev pub token_of : Call → ℕ
token_of (claims lease token skip worker) = token
token_of (renews lease id token) = token
token_of (completes id token status) = token
token_of (fails id token retry_at message) = token

abbrev pub or_same : List Delivery → Result (List Delivery) → List Delivery
or_same ds (ok es) = es
or_same ds (err e) = ds

abbrev pub claimed_rows : List Delivery → Result (Option Delivery × List Delivery) → List Delivery
claimed_rows ds (ok r) = r.1
claimed_rows ds (err e) = ds

abbrev pub apply : ℕ → Call → List Delivery → List Delivery
apply now (claims lease token skip worker) ds =
    claimed_rows ds (claim_delivery now lease token skip worker ds)
apply now (renews lease id token) ds = or_same ds (renew_claim now lease id token ds)
apply now (completes id token status) ds = or_same ds (complete_delivery now id token status ds)
apply now (fails id token retry_at message) ds =
    or_same ds (fail_delivery now id token retry_at message ds)

-- FAILED without a time for another attempt.
abbrev pub is_given_up : Delivery → Bool
is_given_up d = elim d.status [ failed ↦ not (is_some d.next_attempt_at) | _ ↦ false ]

-- What a call with the token `mine` must leave alone: what is over or given up, and what is in
-- another's claim.
abbrev pub is_protected : (now mine : ℕ) → Delivery → Bool
is_protected now mine d =
    is_over d.status
    || is_given_up d
    || (is_processing d.status
        && (opt_after d.claim_expires_at now && not (opt_is d.claim_token mine)))

abbrev pub AllKept : (now mine : ℕ) → List Delivery → List Delivery → Type 0
AllKept now mine [] [] = Unit
AllKept now mine [] (_ ∷ _) = ⊥
AllKept now mine (_ ∷ _) [] = ⊥
AllKept now mine (d ∷ ds) (e ∷ es) =
    (is_protected now mine d ≡ true → e ≡ d) × AllKept now mine ds es

-- No two deliveries have one id.
abbrev pub UniqueIds : List Delivery → Type 0
UniqueIds [] = Unit
UniqueIds (d ∷ ds) = All (λ e. (e.id == d.id) ≡ false) ds × UniqueIds ds

AllKept-refl : (now mine : ℕ) (ds : List Delivery) → AllKept now mine ds ds
AllKept-refl now mine [] = tt
AllKept-refl now mine (d ∷ ds) = (λ _. refl, AllKept-refl now mine ds)

update-AllKept :
    (now mine : ℕ) (p : Delivery → Bool) (f : Delivery → Delivery) (ds : List Delivery)
    → All (λ d. is_protected now mine d ≡ true → p d ≡ false) ds
    → AllKept now mine ds (update_where p f ds)
unfolding update_where
update-AllKept now mine p f [] h = tt
update-AllKept now mine p f (d ∷ ds) h =
    let rest = update-AllKept now mine p f ds h.1 in
    elim (Bool-cases (p d)) [
      | inl e ↦ rw e (λ held. absurd (false≢true (sym (h.0 held) ∙ e)), rest)
      | inr e ↦ rw e (λ _. refl, rest)
    ]

every : {P : Delivery → Type 0} → ((d : Delivery) → P d) → (ds : List Delivery) → All P ds
every f [] = tt
every f (d ∷ ds) = (f d, every f ds)

claim-apart :
    (now id token : ℕ) (d : Delivery)
    → is_protected now token d ≡ true
    → is_claim now id token d ≡ false
unfolding is_claim
claim-apart now id token d h = ground (arith, h)

claimable-apart :
    (now token : ℕ) (d : Delivery) → is_claimable now d ≡ true → is_protected now token d ≡ false
unfolding is_claimable
claimable-apart now token d h = ground (arith, h)

-- The row that is claimed is the only one with its id.
protected-apart :
    (now token : ℕ) (d : Delivery) (ds : List Delivery)
    → is_claimable now d ≡ true
    → Memᴰ d ds
    → UniqueIds ds
    → All (λ e. is_protected now token e ≡ true → (e.id == d.id) ≡ false) ds
protected-apart now token d [] claimable m u = tt
protected-apart now token d (e ∷ es) claimable m u = elim (mem-cons m) [
  | inl same ↦ (
    λ held. absurd (
        false≢true (
          sym (claimable-apart now token d claimable)
          ∙ subst (λ x. is_protected now token x ≡ true) (sym same) held)),
    All-map (λ x apart held. subst (λ y. (x.id == y.id) ≡ false) (sym same) apart) es u.0,
  )
  | inr later ↦
      (λ held. other_id e d es later u.0, protected-apart now token d es claimable later u.1)
]
  where
    other_id :
        (e d : Delivery) (es : List Delivery)
        → Memᴰ d es
        → All (λ x. (x.id == e.id) ≡ false) es
        → (e.id == d.id) ≡ false
    other_id e d [] m u = absurd (mem-nil m)
    other_id e d (x ∷ es) m u = elim (mem-cons m) [
      | inl same ↦ ground (arith, u.0, ap (λ (y : Delivery). y.id) same)
      | inr later ↦ other_id e d es later u.1
    ]

claim_found-AllKept :
    (now expires token : ℕ) (worker : List ℕ) (skip : ℕ → Bool) (ds : List Delivery)
    → UniqueIds ds
    → AllKept now token ds
        (claim_found expires token worker
          (select_least received_before
            (select_where (λ d. is_claimable now d && not (skip d.id)) ds))
          ds).1
unfolding claim_found
claim_found-AllKept now expires token worker skip ds u =
    let rows = select_where (λ d. is_claimable now d && not (skip d.id)) ds in
    elim (Option-cases (select_least received_before rows)) [
      | inl e ↦ rw e (AllKept-refl now token ds)
      | inr (d, e) ↦
          let (m, fine) =
            mem-select_where (λ x. is_claimable now x && not (skip x.id)) ds d
              (select_least-mem received_before rows d e) in
          rw e (
            update-AllKept now token (λ x. x.id == d.id) (take_claim expires token worker) ds
              (protected-apart now token d ds
                (&&-true_left (is_claimable now d) (not (skip d.id)) fine) m u))
    ]

guarded-AllKept :
    (now token : ℕ) (b : Bool) (e : Error) (ds : List Delivery) (rest : Result (List Delivery))
    → AllKept now token ds (or_same ds rest)
    → AllKept now token ds (or_same ds (guard b e >> rest))
guarded-AllKept now token true e ds rest h = h
guarded-AllKept now token false e ds rest h = AllKept-refl now token ds

update_claim-AllKept :
    (now id token : ℕ) (f : Delivery → Delivery) (ds : List Delivery)
    → AllKept now token ds (update_where (is_claim now id token) f ds)
update_claim-AllKept now id token f ds =
    update-AllKept now token (is_claim now id token) f ds
      (every (λ d held. claim-apart now id token d held) ds)

-- If no two deliveries have one id, then no call of ClaimSCMDelivery, RenewSCMDeliveryClaim,
-- CompleteSCMDelivery or FailSCMDelivery changes a delivery that is processed or ignored or has
-- failed without a time for another attempt, nor one that is claimed under another token and whose
-- claim has not yet expired.
pub apply-AllKept :
    (now : ℕ) (call : Call) (ds : List Delivery)
    → UniqueIds ds
    → AllKept now (token_of call) ds (apply now call ds)
unfolding claim_delivery renew_claim complete_delivery fail_delivery
apply-AllKept now (claims lease token skip worker) ds u =
    elim (Bool-cases
      (not (length worker == 0) && (not (ltb 256 (length worker)) && not (lease == 0)))) [
        | inl e ↦ rw e (claim_found-AllKept now (now + lease) token worker skip ds u)
        | inr e ↦ rw e (AllKept-refl now token ds)
      ]
apply-AllKept now (renews lease id token) ds u =
    guarded-AllKept now token (not (lease == 0)) _ ds _ (
      guarded-AllKept now token (rows_affected (is_claim now id token) ds == 1) conflict ds
        (ok (update_where (is_claim now id token) (extend_claim (now + lease)) ds))
        (update_claim-AllKept now id token (extend_claim (now + lease)) ds))
apply-AllKept now (completes id token status) ds u =
    guarded-AllKept now token (is_over status) _ ds _ (
      guarded-AllKept now token (rows_affected (is_claim now id token) ds == 1) conflict ds
        (ok (update_where (is_claim now id token) (close_delivery now status) ds))
        (update_claim-AllKept now id token (close_delivery now status) ds))
apply-AllKept now (fails id token retry_at message) ds u =
    guarded-AllKept now token (rows_affected (is_claim now id token) ds == 1) conflict ds
      (ok (update_where (is_claim now id token) (put_off retry_at (cut_message message)) ds))
      (update_claim-AllKept now id token (put_off retry_at (cut_message message)) ds)
