-- ===== src/Protocol.antt =====
-- internal/runnerproto/handlers.go: the requests of remote runners. A handler is a function of the
-- request and of the server's state. The JSON decoder, the uuid package, sha256 and the clock are
-- parameters: a body is what decodeStrict made of it. A number below 0 stands as 0, which every
-- handler refuses like it.
pub mod Requests
pub mod Runners
pub mod Jobs
pub mod Files
pub mod Caches
pub mod Routes
pub mod Refinement
pub mod History
pub mod Silence
pub mod Fencing
pub mod Authority
mod Samples
use forgeci.Base.{
  Bool, Error, List, Option, Result, String, [], codes, err, false, if◌then◌else◌, is_some, none,
  not, not_found, ok, opt_after, same_codes, select_first, some, str_eq, ℕ, ◌&&◌, ◌++◌, ◌==◌, ◌||◌,
  ◌∷◌, ◌≡◌,
}
use forgeci.BlobStore.{Blob}
use forgeci.CacheTable.{CacheRow}
use forgeci.JobLog.Table.{LogTable}
use forgeci.Store.Commits.{get_run}
use forgeci.Store.Jobs.{HeartbeatResult}
use forgeci.Store.Leasing.{JobLease}
use forgeci.Store.Ownership.{Ownership}
use forgeci.Store.RunLeases.{holds}
use forgeci.Store.Tables.{Db, JobRow, RunRow, RunnerRow, is_executing, is_running}

-- uuid.Parse, and the text in which Postgres returns a uuid.
pub record Uuids : Type 0 where
  pub read : String → Option ℕ
  pub show : ℕ → String
  pub read-show : (n : ℕ) → read (show n) ≡ some n

abbrev pub is_uuid : Uuids → String → Bool
is_uuid u s = is_some (u.read s)

-- What a request names as its lease.
pub record Claim : Type 0 where
  pub runner_id : String
  pub run_id : String
  pub lease_id : String
  pub generation : ℕ
  pub job_name : String

pub record Server : Type 0 where
  pub db : Db
  pub logs : LogTable
  pub caches : List CacheRow
  pub artifact_blobs : List Blob
  pub cache_blobs : List Blob
  pub shutting : Bool

-- What is written to the client: a status alone, a status with an error text, or a body.
pub data Answer : Type 0 where
  status_only : ℕ → Answer
  failure : ℕ → String → Answer
  accepted : Answer
  leased : JobLease → Answer
  beats : List HeartbeatResult → (shutdown : Bool) → Answer
  registered : Option RunnerRow → Answer
  blob : List ℕ → Answer

abbrev pub code : Answer → ℕ
code (status_only n) = n
code (failure n message) = n
code _ = 200

-- How far a handler has got: it has written its answer, or goes on with a value.
pub data Progressed {ℓ} (A : Type ℓ) : Type ℓ where
  answered : Answer → Progressed A
  continue : A → Progressed A

-- A handler acts on the server. What it has changed stays changed when it returns early.
abbrev pub Handled {ℓ} : Type ℓ → Type ℓ
Handled A = Server → Progressed A × Server

infixl 5 ◌>>=◌ ◌>>◌
abbrev pub go_on {ℓ κ} :
    {A : Type ℓ} {B : Type κ} → (A → Handled B) → Progressed A × Server → Progressed B × Server
go_on next (answered a, s) = (answered a, s)
go_on next (continue value, s) = next value s

abbrev pub ◌>>=◌ {ℓ κ} : {A : Type ℓ} {B : Type κ} → Handled A → (A → Handled B) → Handled B
◌>>=◌ first next s = go_on next (first s)

abbrev pub ◌>>◌ {κ} : {B : Type κ} → Handled (Unit {0}) → Handled B → Handled B
first >> second = first >>= λ _. second

abbrev pub reply : Answer → Handled Answer
reply a s = (continue a, s)

abbrev pub give {ℓ} : {A : Type ℓ} → A → Handled A
give value s = (continue value, s)

abbrev pub require : Bool → Answer → Handled (Unit {0})
require holds a s = if holds then (continue tt, s) else (answered a, s)

abbrev pub or_answer {ℓ} : {A : Type ℓ} → Option A → Answer → Handled A
or_answer none a s = (answered a, s)
or_answer (some value) a s = (continue value, s)

-- The value of a call, or the answer that its error gets.
abbrev pub on_error {ℓ} : {A : Type ℓ} → Result A → (Error → Answer) → Handled A
on_error (err reason) answer s = (answered (answer reason), s)
on_error (ok value) answer s = (continue value, s)

abbrev pub asks {ℓ} : {A : Type ℓ} → (Server → A) → Handled A
asks f s = (continue (f s), s)

-- A call that writes: a transaction, which an error undoes.
abbrev pub written {ℓ} :
    {A : Type ℓ} → (Error → Answer) → Server → Result (A × Server) → Progressed A × Server
written answer s (err reason) = (answered (answer reason), s)
written answer s (ok (value, done)) = (continue value, done)

abbrev pub writes {ℓ} : {A : Type ℓ} → (Server → Result (A × Server)) → (Error → Answer) → Handled A
writes call answer s = written answer s (call s)

abbrev pub store_rows : Server → Result Db → Result (Unit {0} × Server)
store_rows s (err reason) = err reason
store_rows s (ok db) = ok (tt, record s { db = db })

abbrev pub ended : Progressed Answer × Server → Answer × Server
ended (answered a, s) = (a, s)
ended (continue a, s) = (a, s)

abbrev pub respond : Server → Handled Answer → Answer × Server
respond s handler = ended (handler s)

abbrev pub bad_body : Answer
bad_body = failure 400 "invalid request body"

-- AuthMiddleware: `next` is the handler behind it.
unfoldable pub authorize :
    String → List String → (Server → Answer × Server) → Server → Answer × Server
authorize token (value ∷ []) next s =
    if str_eq token "" || not (same_codes (codes value) (codes "Bearer " ++ codes token))
    then (failure 401 "unauthorized", s)
    else next s
authorize token _ next s = (failure 401 "unauthorized", s)

module _ (u : Uuids) where
  unfoldable pub shows : Option ℕ → String → Bool
  shows none text = false
  shows (some n) text = str_eq (u.show n) text

  unfoldable pub holds_lease : ℕ → Claim → JobRow → Bool
  holds_lease clock c j =
      is_running j.status
      && (shows j.runner_id c.runner_id
          && (shows j.lease_id c.lease_id
              && ((j.lease_generation == c.generation) && opt_after j.lease_expires_at clock)))

  abbrev pub test_job : (JobRow → Bool) → Option JobRow → Bool
  test_job test none = false
  test_job test (some j) = test j

  -- validArtifactLease, which is always asked for a running job.
  unfoldable pub valid_lease : ℕ → Claim → RunRow → List JobRow → Bool
  valid_lease clock c p jobs =
      is_executing p.status
      && test_job (holds_lease clock c) (select_first (λ j. str_eq j.job_name c.job_name) jobs)

  -- The claim as the store's query reads it.
  unfoldable pub owner_of : Claim → Option Ownership
  owner_of c = elim (u.read c.run_id) [
    | none ↦ none
    | some run ↦ elim (u.read c.runner_id) [
      | none ↦ none
      | some runner ↦ elim (u.read c.lease_id) [
        | none ↦ none
        | some lease ↦ some (record {
          run_id = run;
          job_name = c.job_name;
          runner_id = runner;
          lease_id = lease;
          generation = c.generation;
        })
      ]
    ]
  ]

  -- GetRun, whose argument Postgres reads as a uuid.
  unfoldable pub read_run : String → Db → Result (RunRow × List JobRow)
  read_run run db = elim (u.read run) [ none ↦ err not_found | some n ↦ get_run n db ]
