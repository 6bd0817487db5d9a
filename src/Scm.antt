-- ===== src/Scm.antt =====
-- internal/store/postgres/scm_deliveries.go: the claims on webhook deliveries, and the retries of
-- internal/scmworker/worker.go. The columns that say what a delivery is about decide nothing here and
-- are left out. A uuid and a time are numbers, which the code only compares; a text is its bytes.
pub mod Claims
pub mod Backoff
mod Samples
use forgeci.Base.{
  Bool, List, Option, Result, conflict, false, guard, if◌then◌else◌, leb, length, ltb, none, not,
  ok, opt_after, opt_is, opt_until, refused, rows_affected, select_least, select_where, some, suc,
  take, true, update_where, zero, ℕ, ◌&&◌, ◌*◌, ◌+◌, ◌==◌, ◌>>◌, ◌||◌,
}

pub data DeliveryStatus : Type 0 where
  pending processing processed failed ignored : DeliveryStatus

pub record Delivery : Type 0 where
  pub id : ℕ
  pub status : DeliveryStatus
  pub attempt_count : ℕ
  pub next_attempt_at : Option ℕ
  pub last_error : Option (List ℕ)
  pub claim_token : Option ℕ
  pub claimed_by : Option (List ℕ)
  pub claim_expires_at : Option ℕ
  pub received_at : ℕ
  pub processed_at : ℕ

abbrev pub is_processing : DeliveryStatus → Bool
is_processing DeliveryStatus.processing = true
is_processing _ = false

-- A status that a completion may set.
abbrev pub is_over : DeliveryStatus → Bool
is_over DeliveryStatus.processed = true
is_over DeliveryStatus.ignored = true
is_over _ = false

-- `next_attempt_at IS NULL OR next_attempt_at <= $1`.
abbrev pub is_due : Option ℕ → ℕ → Bool
is_due none now = true
is_due (some t) now = leb t now

-- The WHERE of the inner SELECT of ClaimSCMDelivery, by the status.
unfoldable pub is_claimable : ℕ → Delivery → Bool
is_claimable now d = elim d.status [
  | pending ↦ is_due d.next_attempt_at now
  | failed ↦ opt_until d.next_attempt_at now
  | processing ↦ opt_until d.claim_expires_at now
  | processed ↦ false
  | ignored ↦ false
]

-- ORDER BY received_at,id.
unfoldable pub received_before : Delivery → Delivery → Bool
received_before d e =
    ltb d.received_at e.received_at || ((d.received_at == e.received_at) && ltb d.id e.id)

unfoldable pub take_claim : (expires token : ℕ) → List ℕ → Delivery → Delivery
take_claim expires token worker d = record d {
  status = DeliveryStatus.processing;
  attempt_count = d.attempt_count + 1;
  claim_token = some token;
  claimed_by = some worker;
  claim_expires_at = some expires;
  next_attempt_at = none;
}

unfoldable pub claim_found :
    (expires token : ℕ) → List ℕ → Option Delivery → List Delivery → Option Delivery × List Delivery
claim_found expires token worker none ds = (none, ds)
claim_found expires token worker (some d) ds = (
  some (take_claim expires token worker d),
  update_where (λ e. e.id == d.id) (take_claim expires token worker) ds,
)

-- `skip` says which rows other transactions hold locked, `token` is the new claim token.
unfoldable pub claim_delivery :
    (now lease token : ℕ)
    → (ℕ → Bool)
    → List ℕ
    → List Delivery
    → Result (Option Delivery × List Delivery)
claim_delivery now lease token skip worker ds = do
  guard (not (length worker == 0) && (not (ltb 256 (length worker)) && not (lease == 0)))
      (refused "invalid SCM delivery claim")
  ok (
      claim_found (now + lease) token worker
        (select_least received_before
          (select_where (λ d. is_claimable now d && not (skip d.id)) ds))
        ds)

-- `id=$1 AND status='PROCESSING' AND claim_token=$2 AND claim_expires_at>..`.
unfoldable pub is_claim : (now id token : ℕ) → Delivery → Bool
is_claim now id token d =
    (d.id == id)
    && (is_processing d.status && (opt_is d.claim_token token && opt_after d.claim_expires_at now))

unfoldable pub extend_claim : ℕ → Delivery → Delivery
extend_claim expires d = record d { claim_expires_at = some expires }

unfoldable pub renew_claim : (now lease id token : ℕ) → List Delivery → Result (List Delivery)
renew_claim now lease id token ds = do
  guard (not (lease == 0)) (refused "invalid SCM delivery claim renewal")
  guard (rows_affected (is_claim now id token) ds == 1) conflict
  ok (update_where (is_claim now id token) (extend_claim (now + lease)) ds)

unfoldable pub close_delivery : ℕ → DeliveryStatus → Delivery → Delivery
close_delivery now status d = record d {
  status = status;
  processed_at = now;
  claim_token = none;
  claimed_by = none;
  claim_expires_at = none;
  next_attempt_at = none;
  last_error = none;
}

unfoldable pub complete_delivery :
    (now id token : ℕ) → DeliveryStatus → List Delivery → Result (List Delivery)
complete_delivery now id token status ds = do
  guard (is_over status) (refused "invalid completed SCM delivery status")
  guard (rows_affected (is_claim now id token) ds == 1) conflict
  ok (update_where (is_claim now id token) (close_delivery now status) ds)

-- `message[:4096]` when it is longer.
unfoldable pub cut_message : List ℕ → List ℕ
cut_message message = if ltb 4096 (length message) then take 4096 message else message

unfoldable pub put_off : Option ℕ → List ℕ → Delivery → Delivery
put_off retry_at message d = record d {
  status = DeliveryStatus.failed;
  last_error = some message;
  next_attempt_at = retry_at;
  claim_token = none;
  claimed_by = none;
  claim_expires_at = none;
}

unfoldable pub fail_delivery :
    (now id token : ℕ) → Option ℕ → List ℕ → List Delivery → Result (List Delivery)
fail_delivery now id token retry_at message ds = do
  guard (rows_affected (is_claim now id token) ds == 1) conflict
  ok (update_where (is_claim now id token) (put_off retry_at (cut_message message)) ds)

-- The loop of fail over its counter, from `i` on: at most as many rounds as there were attempts.
unfoldable pub double_delay : (fuel i attempts max_backoff delay : ℕ) → ℕ
double_delay zero i attempts max_backoff delay = delay
double_delay (suc fuel) i attempts max_backoff delay =
    let rest =
      double_delay fuel (i + 1) attempts max_backoff
        (if ltb max_backoff (delay * 2) then max_backoff else delay * 2) in
    if ltb i attempts && ltb delay max_backoff then rest else delay

-- The delays are natural numbers: with the defaults of one second and one minute, which nothing in
-- cmd/ changes, an int64 Duration does not wrap.
unfoldable pub backoff : (base_backoff max_backoff attempts : ℕ) → ℕ
backoff base_backoff max_backoff attempts =
    double_delay attempts 1 attempts max_backoff base_backoff

-- When to try again: a permanent failure and the last attempt have no time.
unfoldable pub retry_time :
    (transient : Bool) → (now base_backoff max_backoff max_attempts attempts : ℕ) → Option ℕ
retry_time transient now base_backoff max_backoff max_attempts attempts =
    if transient && ltb attempts max_attempts
    then some (now + backoff base_backoff max_backoff attempts)
    else none

-- Worker.fail: the store's answer is dropped.
unfoldable pub fail_claim :
    (transient : Bool)
    → (clock now base_backoff max_backoff max_attempts : ℕ) → Delivery
    → (token : ℕ) → List ℕ
    → List Delivery
    → Result (List Delivery)
fail_claim transient clock now base_backoff max_backoff max_attempts d token message ds =
    fail_delivery now d.id token
      (retry_time transient clock base_backoff max_backoff max_attempts d.attempt_count)
      (cut_message message) ds
