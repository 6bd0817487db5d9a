-- ===== src/CacheTable.antt =====
-- internal/store/postgres/cache.go: the table cache_entries. A call is one transaction. `now` is the
-- time of the call, in the unit of `retention`, which is what an entry lives on after it is used;
-- 0 stands for no retention. A lifetime that is not positive is refused when the server starts.
pub mod Blobs
pub mod Eviction
pub mod Cleanup
pub mod Entries
mod Samples
use forgeci.Base.{
  Bool, List, Option, Result, String, [], all, any, codes, conflict, err, guard, if◌then◌else◌,
  is_some, is_within, length, ltb, max, no_rows, none, not, not_found, ok, opt_until, or_fail,
  refused, rows_affected, select_first, select_where, some, sort_names, str_eq, str_lt, take,
  update_where, ℕ, ◌&&◌, ◌++◌, ◌+◌, ◌-◌, ◌==◌, ◌>>=◌, ◌>>◌, ◌||◌, ◌∷◌,
}
use forgeci.Config.Checks.{is_cache_key}

pub record CacheRow : Type 0 where
  pub id : ℕ
  pub workspace : String
  pub key : String
  pub root_name : String
  pub root_kind : String
  pub content_sha256 : String
  pub blob_sha256 : String
  pub format : String
  pub archive_size_bytes : ℕ
  pub logical_size_bytes : ℕ
  pub entry_count : ℕ
  pub created_at : ℕ
  pub last_accessed_at : ℕ
  pub expires_at : Option ℕ
  pub deleted_at : Option ℕ

abbrev pub is_live : CacheRow → Bool
is_live r = not (is_some r.deleted_at)

-- `expires_at IS NULL OR expires_at > now`.
abbrev pub is_fresh : ℕ → CacheRow → Bool
is_fresh now r = not (opt_until r.expires_at now)

abbrev pub is_entry : String → String → CacheRow → Bool
is_entry workspace key r = (str_eq r.workspace workspace && str_eq r.key key) && is_live r

unfoldable pub touch : (now retention : ℕ) → CacheRow → CacheRow
touch now retention r = record r { last_accessed_at = now; expires_at = some (now + retention) }

abbrev pub is_hit : ℕ → String → String → CacheRow → Bool
is_hit now workspace key r = is_entry workspace key r && is_fresh now r

-- The row that is returned is the updated one.
unfoldable pub lookup_cache :
    (now retention : ℕ) → String → String → List CacheRow → Result (CacheRow × List CacheRow)
lookup_cache now retention workspace key rows = do
  r ← or_fail (select_first (is_hit now workspace key) rows) not_found
  ok (touch now retention r, update_where (is_hit now workspace key) (touch now retention) rows)

-- sameCacheMetadata.
unfoldable pub same_metadata : CacheRow → CacheRow → Bool
same_metadata a b =
    str_eq a.workspace b.workspace
    && (str_eq a.key b.key
        && (str_eq a.root_name b.root_name
            && (str_eq a.root_kind b.root_kind
                && (str_eq a.content_sha256 b.content_sha256
                    && (str_eq a.blob_sha256 b.blob_sha256
                        && (str_eq a.format b.format
                            && ((a.archive_size_bytes == b.archive_size_bytes)
                                && ((a.logical_size_bytes == b.logical_size_bytes)
                                    && (a.entry_count == b.entry_count)))))))))

unfoldable pub commit_expiry : (now retention : ℕ) → Option ℕ → Option ℕ
commit_expiry now retention (some t) = some t
commit_expiry now retention none = if ltb 0 retention then some (now + retention) else none

-- The row that INSERT makes of the metadata; its last access is the time of its creation.
unfoldable pub new_row : (now retention id : ℕ) → CacheRow → CacheRow
new_row now retention id m = record m {
  id = id;
  last_accessed_at = m.created_at;
  expires_at = commit_expiry now retention m.expires_at;
  deleted_at = none;
}

abbrev is_row_digest : String → Bool
is_row_digest d =
    (length (codes d) == 64) && all (λ c. is_within b'0' b'9' c || is_within b'a' b'f' c) (codes d)

-- The CHECK constraints of cache_entries, in migrations/007_build_cache.sql; sizes are not negative.
unfoldable pub is_storable : CacheRow → Bool
is_storable r =
    is_cache_key r.key
    && ((not (str_eq r.root_name "")
          && not (any (λ c. (c == b'/') || (c == b'\\')) (codes r.root_name)))
        && ((str_eq r.root_kind "file" || str_eq r.root_kind "directory")
            && (is_row_digest r.content_sha256
                && (is_row_digest r.blob_sha256
                    && (str_eq r.format "cache-tar-gzip-v1" && ltb 0 r.entry_count)))))

-- INSERT .. ON CONFLICT DO NOTHING. The constraints are tested first.
unfoldable pub insert_row : CacheRow → List CacheRow → Result (List CacheRow)
insert_row r rows = do
  guard (is_storable r) (refused "insert cache entry")
  ok (if any (is_entry r.workspace r.key) rows then rows else rows ++ r ∷ [])

unfoldable pub accept_row : CacheRow → List CacheRow → Option CacheRow → Result (List CacheRow)
accept_row m rows none = err no_rows
accept_row m rows (some r) = if same_metadata r m then ok rows else err conflict

unfoldable pub find_entry : CacheRow → List CacheRow → Option CacheRow
find_entry m rows = select_first (is_entry m.workspace m.key) rows

unfoldable pub put_row : CacheRow → CacheRow → List CacheRow → Result (List CacheRow)
put_row r m rows = do grown ← insert_row r rows; accept_row m grown (find_entry m grown)

-- `meanwhile` is what other transactions do to the table between the first SELECT, which locks only
-- a row that it finds, and the INSERT.
unfoldable pub commit_new :
    (List CacheRow → List CacheRow)
    → CacheRow
    → CacheRow
    → List CacheRow
    → Option CacheRow
    → Result (List CacheRow)
commit_new meanwhile r m rows (some old) = if same_metadata old m then ok rows else err conflict
commit_new meanwhile r m rows none = put_row r m (meanwhile rows)

unfoldable pub commit_cache :
    (List CacheRow → List CacheRow)
    → (now retention id : ℕ) → CacheRow
    → List CacheRow
    → Result (List CacheRow)
commit_cache meanwhile now retention id m rows =
    commit_new meanwhile (new_row now retention id m) m rows (find_entry m rows)

unfoldable pub delete_row : ℕ → CacheRow → CacheRow
delete_row now r = record r { deleted_at = some now }

unfoldable pub delete_cache : ℕ → String → String → List CacheRow → Result (List CacheRow)
delete_cache now workspace key rows = do
  guard (not (rows_affected (is_entry workspace key) rows == 0)) not_found
  ok (update_where (is_entry workspace key) (delete_row now) rows)

abbrev pub key_before : CacheRow → CacheRow → Bool
key_before a b = str_lt a.key b.key

unfoldable pub insert_by : (CacheRow → CacheRow → Bool) → CacheRow → List CacheRow → List CacheRow
insert_by before r [] = r ∷ []
insert_by before r (s ∷ rows) =
    let rest = insert_by before r rows in if before s r then s ∷ rest else r ∷ s ∷ rows

-- ORDER BY.
unfoldable pub order_by : (CacheRow → CacheRow → Bool) → List CacheRow → List CacheRow
order_by before [] = []
order_by before (r ∷ rows) = insert_by before r (order_by before rows)

-- `limit` below 1, which a natural number is at 0, asks for the default.
abbrev pub cache_limit : ℕ → ℕ
cache_limit limit = if ltb limit 1 || ltb 1000 limit then 100 else limit

unfoldable pub list_cache : ℕ → String → ℕ → List CacheRow → List CacheRow
list_cache now workspace limit rows = take (cache_limit limit) (
    order_by key_before
      (select_where (λ r. str_eq r.workspace workspace && (is_live r && is_fresh now r)) rows))

-- SELECT DISTINCT blob_sha256.
abbrev pub has_name : String → List String → Bool
has_name d ds = any (λ m. str_eq m d) ds

unfoldable pub blobs_of : List CacheRow → List String
blobs_of [] = []
blobs_of (r ∷ rows) =
    let rest = blobs_of rows in if has_name r.blob_sha256 rest then rest else r.blob_sha256 ∷ rest

-- max(archive_size_bytes) of a group.
unfoldable pub blob_size : String → List CacheRow → ℕ
blob_size d [] = 0
blob_size d (r ∷ rows) =
    if str_eq r.blob_sha256 d then max r.archive_size_bytes (blob_size d rows) else blob_size d rows

unfoldable pub sum_sizes : (String → ℕ) → List String → ℕ
sum_sizes size [] = 0
sum_sizes size (d ∷ ds) = size d + sum_sizes size ds

-- The bytes of the blobs that live entries name, each counted once.
unfoldable pub total_size : List CacheRow → ℕ
total_size rows =
    let live = select_where is_live rows in sum_sizes (λ d. blob_size d live) (blobs_of live)

-- ORDER BY last_accessed_at,created_at,id.
unfoldable pub used_before : CacheRow → CacheRow → Bool
used_before a b =
    ltb a.last_accessed_at b.last_accessed_at
    || ((a.last_accessed_at == b.last_accessed_at)
        && (ltb a.created_at b.created_at || ((a.created_at == b.created_at) && ltb a.id b.id)))

-- The loop that collects digests until the total is within the bound.
unfoldable pub evict_loop : (max_bytes total : ℕ) → List String → List CacheRow → List String
evict_loop max_bytes total seen [] = seen
evict_loop max_bytes total seen (r ∷ rows) =
    let skipped = evict_loop max_bytes total seen rows in
    let taken = evict_loop max_bytes (total - r.archive_size_bytes) (r.blob_sha256 ∷ seen) rows in
    if ltb max_bytes total then (if has_name r.blob_sha256 seen then skipped else taken) else seen

-- The UPDATE for each of the digests.
unfoldable pub evict_rows : ℕ → List String → List CacheRow → List CacheRow
evict_rows now ds rows =
    update_where (λ r. has_name r.blob_sha256 ds && is_live r) (delete_row now) rows

abbrev pub has_lapsed : ℕ → CacheRow → Bool
has_lapsed now r = is_live r && opt_until r.expires_at now

unfoldable pub shrink : (now max_bytes : ℕ) → List CacheRow → List CacheRow
shrink now max_bytes rows =
    if ltb 0 max_bytes && ltb max_bytes (total_size rows)
    then evict_rows now
        (evict_loop max_bytes (total_size rows) []
          (order_by used_before (select_where is_live rows)))
        rows
    else rows

-- The digests of deleted entries that no live entry names, sorted.
unfoldable pub not_live : List CacheRow → List String → List String
not_live rows [] = []
not_live rows (d ∷ ds) =
    let rest = not_live rows ds in
    if any (λ r. str_eq r.blob_sha256 d && is_live r) rows then rest else d ∷ rest

unfoldable pub unreferenced_blobs : List CacheRow → List String
unreferenced_blobs rows =
    sort_names (not_live rows (blobs_of (select_where (λ r. not (is_live r)) rows)))

unfoldable pub expire_cache : (now max_bytes : ℕ) → List CacheRow → List String × List CacheRow
expire_cache now max_bytes rows =
    let after = shrink now max_bytes (update_where (has_lapsed now) (delete_row now) rows) in
    (unreferenced_blobs after, after)

unfoldable pub live_cache_blobs : ℕ → List CacheRow → List String
live_cache_blobs now rows = blobs_of (select_where (λ r. is_live r && is_fresh now r) rows)
