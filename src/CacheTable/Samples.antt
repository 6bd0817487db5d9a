-- ===== src/CacheTable/Samples.antt =====
-- A cache with three entries of two blobs: its theorems at it.
use forgeci.Base.{
  All, List, String, [], arith, codes, insert_name, is_alphanumeric, none, ok, refl, select_first,
  select_where, some, sort_names, str_eq, str_lt, true, update_where, ℕ, ◌++◌, ◌∷◌, ◌≡◌, ◌≤◌,
}
use forgeci.BlobStore.{Blob, cleanup_orphans, open_blob}
use forgeci.CacheTable.{
  CacheRow, accept_row, blob_size, blobs_of, commit_cache, commit_expiry, commit_new, delete_row,
  evict_loop, evict_rows, expire_cache, find_entry, insert_by, insert_row, is_entry, is_fresh,
  is_hit, is_live, is_storable, live_cache_blobs, lookup_cache, new_row, not_live, order_by,
  put_row, same_metadata, shrink, sum_sizes, total_size, touch, unreferenced_blobs, used_before,
}
use forgeci.CacheTable.Cleanup.{lookup-cleanup}
use forgeci.CacheTable.Entries.{HasMetadata, commit-lookup}
use forgeci.CacheTable.Eviction.{expire_cache-within}
use forgeci.Config.Checks.{all_codes, has_pattern, has_short_pattern, is_cache_key, is_name_code}

abbrev entry : ℕ → String → String → ℕ → CacheRow
entry id key digest used = record {
  id = id;
  workspace = "/src";
  key = key;
  root_name = "mod";
  root_kind = "directory";
  content_sha256 = digest;
  blob_sha256 = digest;
  format = "cache-tar-gzip-v1";
  archive_size_bytes = 40;
  logical_size_bytes = 100;
  entry_count = 3;
  created_at = 10;
  last_accessed_at = used;
  expires_at = some 500;
  deleted_at = none;
}

abbrev three : List CacheRow
three = entry 1 "go" "aa" 30 ∷ entry 2 "npm" "bb" 20 ∷ entry 3 "pip" "aa" 40 ∷ []

-- The blob that was used least recently goes.
three-expire :
    ((expire_cache 100 50 three).0 ≡ "bb" ∷ []) × (total_size (expire_cache 100 50 three).1 ≡ 40)
unfolding expire_cache shrink unreferenced_blobs sort_names not_live blobs_of select_where
    total_size sum_sizes update_where str_eq blob_size evict_rows evict_loop order_by insert_by
    used_before delete_row insert_name str_lt
three-expire = (refl, refl)

expire_cache-within_example : total_size (expire_cache 100 50 three).1 ≤ 50
expire_cache-within_example =
    expire_cache-within (λ d. 40) 100 50 three (omega arith) (refl, (refl, (refl, tt)))

abbrev cc_digest : String
cc_digest = "cc00000000000000000000000000000000000000000000000000000000000000"

abbrev fresh_entry : CacheRow
fresh_entry = entry 9 "cargo" cc_digest 10

abbrev four : List CacheRow
four = three ++ new_row 100 60 4 fresh_entry ∷ []

four-commit : commit_cache (λ table. table) 100 60 4 fresh_entry three ≡ ok four
unfolding commit_cache commit_new find_entry select_first str_eq put_row accept_row insert_row
    new_row same_metadata is_storable is_cache_key has_short_pattern has_pattern codes
    is_alphanumeric all_codes is_name_code
four-commit = refl

four-fresh : All (λ s. is_fresh 200 s ≡ true) (select_where (is_entry "/src" "cargo") four)
unfolding select_where str_eq new_row commit_expiry
four-fresh = (refl, tt)

commit-lookup_example :
    (r : CacheRow) × HasMetadata fresh_entry r
    × (is_live r ≡ true)
    × (lookup_cache 200 60 "/src" "cargo" four
        ≡ ok (touch 200 60 r, update_where (is_hit 200 "/src" "cargo") (touch 200 60) four))
commit-lookup_example =
    commit-lookup (λ table. table) 100 60 4 fresh_entry three four 200 60 four-commit four-fresh

abbrev old_blobs : List Blob
old_blobs =
    record { digest = "aa"; content = 1 ∷ []; modified_at = 0 }
    ∷ record { digest = "ee"; content = 2 ∷ []; modified_at = 0 }
    ∷ []

abbrev touched : List CacheRow
touched = update_where (is_hit 100 "/src" "go") (touch 100 60) three

go-lookup :
    lookup_cache 100 60 "/src" "go" three ≡ ok (touch 100 60 (entry 1 "go" "aa" 30), touched)
unfolding lookup_cache select_first str_eq
go-lookup = refl

lookup-cleanup_example :
    open_blob "aa" (cleanup_orphans 90 (live_cache_blobs 100 three) old_blobs)
    ≡ open_blob "aa" old_blobs
unfolding touch
lookup-cleanup_example =
    lookup-cleanup 100 60 "/src" "go" three touched (touch 100 60 (entry 1 "go" "aa" 30)) 90
      old_blobs go-lookup
