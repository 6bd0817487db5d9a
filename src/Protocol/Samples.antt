-- ===== src/Protocol/Samples.antt =====
-- The theorems on the server at one runner that completes its job, and then asks again.
use Prim.Native.Char.{code}
use forgeci.Base.{
  Option, String, [], arith, codes, count_where, false, has_prefix, if◌then◌else◌, none, refl,
  same_codes, select_first, select_where, some, sort_names, str_eq, subst, suc, sym, update_where,
  zero, ℕ, ◌==◌, ◌∷◌, ◌≡◌,
}
use forgeci.BlobStore.{Put}
use forgeci.Config.{find_job}
use forgeci.Protocol.{Answer, Claim, Server, Uuids, failure, owner_of}
use forgeci.Protocol.Authority.{HoldsLease, IsAccepted, completion, Takes-HoldsLease}
use forgeci.Protocol.Caches.{download_cache, download_cache_path, leads}
use forgeci.Protocol.Fencing.{IsRefused, complete-fences}
use forgeci.Protocol.Files.{CommitRequest, commit_artifact}
use forgeci.Protocol.History.{started}
use forgeci.Protocol.Jobs.{
  AppendRequest, CompleteRequest, append_logs, complete, is_claim, read_status,
}
use forgeci.Protocol.Requests.{Request, add_char, parts_of, split, trim_end, trim_start}
use forgeci.Protocol.Routes.{Bodies, Site, dispatch, has_suffix, lease_route, path_contains}
use forgeci.Protocol.Silence.{IsSilent, lease_route-IsSilent}
use forgeci.Store.Example.{build_row, busy_db, busy_db-UniqueJobs, parse_any, test_row}
use forgeci.Store.Jobs.{complete_job, end_job, may_complete, owned_pipeline, settle_dependents}
use forgeci.Store.Ownership.{artifact_set_committed, committed_names, owns, same_names}
use forgeci.Store.Settle.{finalize_run}
use forgeci.Store.Tables.{Db, JobStatus}

abbrev next_mark : Option ℕ → Option ℕ
next_mark none = none
next_mark (some n) = some (suc n)

unfoldable mark_count : String → Option ℕ
mark_count String.[] = some 0
mark_count (String.◌∷◌ c s) = if code c == b'x' then next_mark (mark_count s) else none

unfoldable marks : ℕ → String
marks zero = ""
marks (suc n) = String.◌∷◌ "x" (marks n)

mark_count-marks : (n : ℕ) → mark_count (marks n) ≡ some n
unfolding mark_count marks
mark_count-marks zero = refl
mark_count-marks (suc n) = rw (mark_count-marks n) refl

abbrev unary : Uuids
unary = record { read = mark_count; show = marks; read-show = mark_count-marks }

abbrev claim : Claim
claim = record {
  runner_id = "xxx";
  run_id = "x";
  lease_id = "xxxxxxx";
  generation = 1;
  job_name = "build";
}

abbrev post : Request
post = record {
  method = "POST";
  path = "/v1/runner/leases/xxxxxxx/complete";
  query = λ _. "";
  length_header = "";
  content_length = none;
}

abbrev passes : CompleteRequest
passes = record { claim = claim; status = "PASSED"; error = none }

abbrev no_logs : AppendRequest
no_logs = record { claim = claim; chunks = [] }

abbrev no_artifacts : CommitRequest
no_artifacts = record { claim = claim; items = [] }

abbrev busy : Server
busy = record {
  db = busy_db;
  logs = record { jobs = []; chunks = [] };
  caches = [];
  artifact_blobs = [];
  cache_blobs = [];
  shutting = false;
}

abbrev done_db : Db
done_db = record busy_db { jobs = end_job 30 JobStatus.passed none build_row ∷ test_row ∷ [] }

busy_completes :
    complete unary parse_any 30 60 post (some passes) busy
    ≡ (Answer.accepted, record busy { db = done_db })
unfolding complete is_claim owner_of read_status mark_count complete_job owned_pipeline owns str_eq
    may_complete artifact_set_committed find_job settle_dependents finalize_run update_where
    count_where select_first select_where committed_names sort_names same_names end_job
busy_completes = refl

abbrev no_bodies : Bodies
no_bodies = record {
  to_register = none;
  to_heartbeat = none;
  to_lease = none;
  to_complete = none;
  to_append = none;
  to_commit = none;
  to_commit_entry = none;
}

abbrev site : Site
site = record {
  clock = 31;
  now = 31;
  retention = 60;
  cache_retention = 60;
  id = 9;
  rounds = [];
  meanwhile = λ rows. rows;
  open_snapshot = λ _. none;
  put_artifact = λ _ _ blobs. (Put.stored, blobs);
  put_cache = λ _ _ blobs. (Put.stored, blobs);
}

post_answers :
    dispatch unary parse_any
      (record site { now = 30 })
      post
      (record no_bodies { to_complete = some passes })
      busy
    ≡ some (Answer.accepted, record busy { db = done_db })
unfolding dispatch lease_route has_prefix has_suffix path_contains codes same_codes complete
    is_claim owner_of read_status mark_count complete_job owned_pipeline owns str_eq may_complete
    artifact_set_committed find_job settle_dependents finalize_run update_where count_where
    select_first select_where committed_names sort_names same_names end_job
post_answers = refl

complete-fences_example :
    IsRefused
      (record busy { db = done_db })
      (complete unary parse_any 40 60 post (some passes) (record busy { db = done_db }))
    × IsRefused
        (record busy { db = done_db })
        (append_logs unary parse_any 40 post (some no_logs) (record busy { db = done_db }))
    × IsRefused
        (record busy { db = done_db })
        (commit_artifact unary parse_any 40 40 post
          (some no_artifacts)
          (record busy { db = done_db }))
complete-fences_example =
    complete-fences unary parse_any 30 60 post passes busy (record busy { db = done_db })
      (record busy { db = done_db }) 40 40 post passes no_logs no_artifacts busy_db-UniqueJobs
      busy_completes started refl refl refl

lease_route-IsSilent_example : IsSilent busy (lease_route unary parse_any site post no_bodies busy)
lease_route-IsSilent_example = lease_route-IsSilent unary parse_any busy site post no_bodies

-- The log of a job that is called `cache` goes to the handler of cache downloads.
cache_log_lost :
    lease_route unary parse_any site
      (record post { path = "/v1/runner/leases/x/jobs/cache/logs" })
      no_bodies
      busy
    ≡ (failure 404 "not found", busy)
unfolding lease_route path_contains has_suffix has_prefix codes same_codes download_cache str_eq
    download_cache_path parts_of split trim_start trim_end leads add_char
cache_log_lost = refl

Takes-HoldsLease_example : HoldsLease unary 30 passes.claim busy
Takes-HoldsLease_example =
    Takes-HoldsLease unary parse_any 30 passes.claim busy
      (completion 60 post passes refl (subst IsAccepted (sym busy_completes) (omega arith)))
