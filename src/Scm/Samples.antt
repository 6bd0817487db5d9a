-- ===== src/Scm/Samples.antt =====
-- One delivery in a worker's claim, and one that waits: the theorems at them.
use forgeci.Base.{
  List, [], arith, false, keep_least, min, none, refl, select_least, select_where, some,
  update_where, ◌*◌, ◌^◌, ◌∷◌, ◌≡◌,
}
use forgeci.Scm.{
  Delivery, DeliveryStatus, backoff, claim_delivery, claim_found, is_claimable, take_claim,
}
use forgeci.Scm.Backoff.{backoff-closed}
use forgeci.Scm.Claims.{AllKept, Call, UniqueIds, apply, apply-AllKept, claims}

abbrev claimed : Delivery
claimed = record {
  id = 1;
  status = DeliveryStatus.processing;
  attempt_count = 1;
  next_attempt_at = none;
  last_error = none;
  claim_token = some 5;
  claimed_by = some (119 ∷ []);
  claim_expires_at = some 40;
  received_at = 2;
  processed_at = 0;
}

abbrev unclaimed : Delivery
unclaimed = record claimed {
  id = 2;
  status = DeliveryStatus.pending;
  claim_token = none;
  claimed_by = none;
  claim_expires_at = none;
}

abbrev two_deliveries : List Delivery
two_deliveries = claimed ∷ unclaimed ∷ []

abbrev next_claim : Call
next_claim = claims 30 6 (λ _. false) (119 ∷ [])

two_deliveries-UniqueIds : UniqueIds two_deliveries
two_deliveries-UniqueIds = ((refl, tt), (tt, tt))

apply-AllKept_example : AllKept 10 6 two_deliveries (apply 10 next_claim two_deliveries)
apply-AllKept_example = apply-AllKept 10 next_claim two_deliveries two_deliveries-UniqueIds

-- The claim goes to the delivery that waits.
claims_the_other :
    apply 10 next_claim two_deliveries ≡ claimed ∷ take_claim 40 6 (119 ∷ []) unclaimed ∷ []
unfolding claim_delivery claim_found select_least select_where is_claimable keep_least update_where
claims_the_other = refl

backoff-closed_example : backoff 1000 60000 4 ≡ min (1000 * 2 ^ 3) 60000
backoff-closed_example = backoff-closed 1000 60000 4 (omega arith) (omega arith)
