-- ===== src/Protocol/Runners.antt =====
-- internal/runnerproto/handlers.go: the handlers that register runners, keep their leases alive and
-- hand out jobs.
use forgeci.Base.{
  Bool, List, Option, Result, String, [], any, codes, err, if◌then◌else◌, leb, none, not, ok,
  select_first, some, str_eq, ℕ, ◌&&◌, ◌==◌, ◌||◌, ◌∷◌,
}
use forgeci.Config.{Pipeline}
use forgeci.Config.Checks.{has_short_pattern, is_name_code}
use forgeci.Protocol.{
  ◌>>=◌, ◌>>◌, Answer, Claim, Handled, Server, Uuids, asks, bad_body, beats, failure, give, is_uuid,
  leased, or_answer, owner_of, registered, reply, require, respond, status_only, writes, ◌>>=◌,
  ◌>>◌,
}
use forgeci.Protocol.Requests.{Request, is_method}
use forgeci.Store.Jobs.{HeartbeatResult, heartbeat_job_leases}
use forgeci.Store.Leasing.{lease_job}
use forgeci.Store.Ownership.{Ownership}
use forgeci.Store.RunLeases.{register_runner}
use forgeci.Store.Tables.{Db, RunnerRow, RunnerStatus}

pub record RegisterRequest : Type 0 where
  pub id : String
  pub name : String
  pub protocol_version : ℕ
  pub os : String
  pub arch : String
  pub docker : Bool
  pub max_parallel : ℕ

-- runnerNamePattern.
unfoldable pub is_runner_name : String → Bool
is_runner_name name = has_short_pattern (λ c. is_name_code c || (c == b'.')) 127 (codes name)

abbrev pub runner_row : (id now : ℕ) → RegisterRequest → RunnerRow
runner_row id now q = record {
  id = id;
  protocol_version = q.protocol_version;
  docker_available = q.docker;
  max_parallel = q.max_parallel;
  status = RunnerStatus.online;
  last_seen_at = now;
  current_run_id = none;
}

unfoldable pub register : Uuids → ℕ → Request → Option RegisterRequest → Server → Answer × Server
register u now r body s = respond s (do
  require (is_method "POST" r) (status_only 405)
  q ← or_answer body bad_body
  id ← or_answer (u.read q.id) (failure 400 "invalid runner configuration")
  require
      (is_runner_name q.name
        && (not (str_eq q.os "") && (not (str_eq q.arch "") && leb 1 q.max_parallel)))
      (failure 400 "invalid runner configuration")
  require (q.protocol_version == 2) (failure 400 "unsupported protocol version")
  row ←
      writes
        (λ t.
          let db = register_runner now (runner_row id now q) t.db in
          ok (select_first (λ x. x.id == id) db.runners, record t { db = db }))
        (λ e. failure 500 "registration failed")
  reply (registered row))

-- A heartbeat names a lease by its run, job and id, and each of them once.
unfoldable pub is_beat : Uuids → Claim → Bool
is_beat u c =
    is_uuid u c.run_id
    && (not (str_eq c.job_name "") && (is_uuid u c.lease_id && leb 1 c.generation))

unfoldable pub is_repeated : Claim → List Claim → Bool
is_repeated c seen =
    any
      (λ d.
        str_eq d.run_id c.run_id && (str_eq d.job_name c.job_name && str_eq d.lease_id c.lease_id))
      seen

unfoldable pub check_beats : Uuids → (seen leases : List Claim) → Handled (Unit {0})
check_beats u seen [] = give tt
check_beats u seen (c ∷ cs) = do
  require (is_beat u c) (failure 400 "invalid job lease")
  require (not (is_repeated c seen)) (failure 400 "duplicate job lease")
  check_beats u (c ∷ seen) cs

-- The leases as the store reads them; a uuid that is none has been refused.
unfoldable pub owners_of : Uuids → String → List Claim → List Ownership
owners_of u runner [] = []
owners_of u runner (c ∷ cs) = elim (owner_of u (record c { runner_id = runner })) [
  | none ↦ owners_of u runner cs
  | some o ↦ o ∷ owners_of u runner cs
]

abbrev pub beaten :
    Server → Result (List HeartbeatResult × Db) → Result (List HeartbeatResult × Server)
beaten t (err e) = err e
beaten t (ok (results, db)) = ok (results, record t { db = db })

unfoldable pub heartbeat :
    Uuids → (clock : ℕ) → Request → Option (String × List Claim) → Server → Answer × Server
heartbeat u clock r body s = respond s (do
  require (is_method "POST" r) (status_only 405)
  q ← or_answer body bad_body
  runner ← or_answer (u.read q.0) (failure 400 "missing runner_id")
  check_beats u [] q.1
  results ←
      writes (λ t. beaten t (heartbeat_job_leases clock runner (owners_of u q.0 q.1) t.db))
        (λ e. failure 500 "heartbeat failed")
  stopping ← asks (λ t. t.shutting)
  reply (beats results stopping))

-- How a wait for work ends.
pub data Wakeup : Type 0 where
  work timeout gone : Wakeup

-- A round of the long poll: what the wait after a round without work meets, and the parameters of the
-- store's call in the next round.
pub record Round : Type 0 where
  pub wakeup : Wakeup
  pub clock : ℕ
  pub now : ℕ
  pub skip : ℕ → String → Bool
  pub lease : ℕ

module _ (parse : String → Result Pipeline) where
  -- The rounds are those that the request meets; it waits on when they are used up.
  unfoldable pub poll : (runner : ℕ) → List Round → Server → Option (Answer × Server)
  poll runner [] s = none
  poll runner (r ∷ rounds) s = elim (lease_job parse r.clock r.now r.skip r.lease runner s.db) [
    | err e ↦ some (failure 500 "lease acquisition failed", s)
    | ok (some l, db) ↦ some (leased l, record s { db = db })
    | ok (none, db) ↦ elim r.wakeup [
      | work ↦ poll runner rounds (record s { db = db })
      | timeout ↦ some (status_only 204, record s { db = db })
      | gone ↦ some (status_only 408, record s { db = db })
    ]
  ]

  unfoldable pub lease :
      Uuids → Request → Option String → List Round → Server → Option (Answer × Server)
  lease u r body rounds s =
      if is_method "POST" r
      then elim body [
        | none ↦ some (bad_body, s)
        | some text ↦ elim (u.read text) [
          | none ↦ some (failure 400 "missing runner_id", s)
          | some runner ↦ poll runner rounds s
        ]
      ]
      else some (status_only 405, s)
