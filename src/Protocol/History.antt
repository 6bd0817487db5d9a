-- ===== src/Protocol/History.antt =====
-- internal/runnerproto and cmd/forge-server: the runs of the server, whose steps are the requests of
-- runners and the calls that the server's own loops make of the store.
use forgeci.Base.{Result, String, arith, inl, inr, some, subst, sym, ◌≡◌, ◌⊎◌}
use forgeci.Config.{Pipeline}
use forgeci.Protocol.{Answer, Server, Uuids}
use forgeci.Protocol.Files.{commit_artifact}
use forgeci.Protocol.Jobs.{complete}
use forgeci.Protocol.Refinement.{
  append_logs-db, commit_artifact-Reach, commit_entry-db, complete-Reach, download_artifact-db,
  download_cache-db, heartbeat-Reach, joined, lease-Reach, register-Reach, source-db, unmoved,
  upload_artifact-db, upload_cache-db,
}
use forgeci.Protocol.Requests.{Request}
use forgeci.Protocol.Routes.{Bodies, Site, dispatch, lease_route}
use forgeci.Protocol.Runners.{heartbeat, lease, register}
use forgeci.Store.Steps.{Reach, Step, here, next}
use forgeci.Store.Tables.{Db}

module _ (u : Uuids) (parse : String → Result Pipeline) where
  pub data Served (s : Server) : Server → Type 0 where
    started : Served s s
    answers :
        {mid : Server} {done : Answer × Server} (e : Site) (r : Request) (b : Bodies)
        → Served s mid
        → dispatch u parse e r b mid ≡ some done
        → Served s done.1
    sweeps :
        {mid : Server} {db : Db}
        → Served s mid
        → Step parse mid.db db
        → Served s (record mid { db = db })

  -- Two of the handlers behind HandleLeaseRoute write to the tables.
  lease_route-db :
      (e : Site) (r : Request) (b : Bodies) (s : Server)
      → ((lease_route u parse e r b s).1.db ≡ s.db)
        ⊎ (((lease_route u parse e r b s).1.db
              ≡ (commit_artifact u parse e.clock e.now r b.to_commit s).1.db)
            ⊎ ((lease_route u parse e r b s).1.db
                ≡ (complete u parse e.now e.retention r b.to_complete s).1.db))
  unfolding lease_route
  lease_route-db e r b s = ground (
    arith,
    source-db parse u s e r,
    upload_cache-db parse u s e r,
    commit_entry-db parse u s e r b.to_commit_entry,
    download_cache-db parse u s e r,
    upload_artifact-db parse u s e r,
    download_artifact-db parse u s e r,
    append_logs-db parse u s e r b.to_append,
  )

  moved_to : {db e db' : Db} → Reach parse db e → db' ≡ e → Reach parse db db'
  moved_to {db} r same = subst (Reach parse db) (sym same) r

  lease_route-Reach :
      (e : Site) (r : Request) (b : Bodies) (s : Server)
      → Reach parse s.db (lease_route u parse e r b s).1.db
  lease_route-Reach e r b s = elim (lease_route-db e r b s) [
    | inl same ↦ unmoved parse same
    | inr (inl same) ↦ moved_to (commit_artifact-Reach parse u s e.clock e.now r b.to_commit) same
    | inr (inr same) ↦ moved_to (complete-Reach parse u s e.now e.retention r b.to_complete) same
  ]

  dispatch-db :
      (e : Site) (r : Request) (b : Bodies) (s : Server) {done : Answer × Server}
      → dispatch u parse e r b s ≡ some done
      → (done.1.db ≡ s.db)
        ⊎ ((done.1.db ≡ (register u e.now r b.to_register s).1.db)
            ⊎ ((done.1.db ≡ (heartbeat u e.clock r b.to_heartbeat s).1.db)
                ⊎ ((lease parse u r b.to_lease e.rounds s ≡ some done)
                    ⊎ (done.1.db ≡ (lease_route u parse e r b s).1.db))))
  unfolding dispatch
  dispatch-db e r b s h = ground arith

  dispatch-Reach :
      (e : Site) (r : Request) (b : Bodies) (s : Server) {done : Answer × Server}
      → dispatch u parse e r b s ≡ some done
      → Reach parse s.db done.1.db
  dispatch-Reach e r b s h = elim (dispatch-db e r b s h) [
    | inl same ↦ unmoved parse same
    | inr (inl same) ↦ moved_to (register-Reach parse u s e.now r b.to_register) same
    | inr (inr (inl same)) ↦ moved_to (heartbeat-Reach parse u s e.clock r b.to_heartbeat) same
    | inr (inr (inr (inl on))) ↦ lease-Reach parse u s r b.to_lease e.rounds on
    | inr (inr (inr (inr same))) ↦ moved_to (lease_route-Reach e r b s) same
  ]

  -- Whatever requests the server answers, whatever they meet, and whatever calls of the store its own
  -- loops make between them: the tables of runs, jobs, runners and artifacts change only as a sequence
  -- of successful calls of the store would change them.
  pub Served-Reach : {s s' : Server} → Served s s' → Reach parse s.db s'.db
  Served-Reach started = here
  Served-Reach (answers {mid} e r b before h) =
      joined parse (Served-Reach before) (dispatch-Reach e r b mid h)
  Served-Reach (sweeps before step) = next (Served-Reach before) step
