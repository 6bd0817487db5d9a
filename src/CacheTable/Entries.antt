-- ===== src/CacheTable/Entries.antt =====
-- An entry does not change: what CommitCache accepts is what LookupCache returns, and other metadata
-- under the key is refused.
use forgeci.Base.{
  All, Bool, Bool-cases, List, Option, [], ap, arith, false, in_result, inl, inr, none, ok,
  ok-injective, refl, select_first, select_where, some, str_eq_iff, subst, sym, true, update_where,
  ℕ, ◌∙◌, ◌∷◌, ◌≡◌,
}
use forgeci.CacheTable.{
  CacheRow, accept_row, commit_cache, commit_new, find_entry, insert_row, is_entry, is_fresh,
  is_hit, is_live, lookup_cache, new_row, put_row, same_metadata, touch,
}

select_first-narrow :
    (p q : CacheRow → Bool) (rows : List CacheRow) (r : CacheRow)
    → ((s : CacheRow) → p s ≡ false → q s ≡ false)
    → select_first p rows ≡ some r
    → q r ≡ true
    → select_first q rows ≡ some r
unfolding select_first
select_first-narrow p q [] r narrow h found = cc
select_first-narrow p q (s ∷ rows) r narrow h found = elim (Bool-cases (p s)) [
  | inl e ↦
      let here : s ≡ r = ground (arith, rw e at h) in
      rw (subst (λ x. q x ≡ true) (sym here) found, here) refl
  | inr e ↦ rw (narrow s e) (select_first-narrow p q rows r narrow (rw e at h) found)
]

select_first-holds :
    (p : CacheRow → Bool) (rows : List CacheRow) (r : CacheRow)
    → select_first p rows ≡ some r
    → p r ≡ true
unfolding select_first
select_first-holds p [] r h = cc
select_first-holds p (s ∷ rows) r h = elim (Bool-cases (p s)) [
  | inl e ↦ subst (λ x. p x ≡ true) (ground (arith, rw e at h)) e
  | inr e ↦ select_first-holds p rows r (rw e at h)
]

accept_row-found :
    (m : CacheRow) (rows rows' : List CacheRow) (o : Option CacheRow)
    → accept_row m rows o ≡ ok rows'
    → (r : CacheRow) × (o ≡ some r) × (same_metadata r m ≡ true) × (rows ≡ rows')
unfolding accept_row
accept_row-found m rows rows' none h = cc
accept_row-found m rows rows' (some r) h = elim (Bool-cases (same_metadata r m)) [
  | inl e ↦ (r, refl, e, ok-injective (rw e at h))
  | inr e ↦ absurd (let bad = rw e at h in ground (arith, bad))
]

commit_new-found :
    (meanwhile : List CacheRow → List CacheRow) (n m : CacheRow) (rows rows' : List CacheRow)
    (o : Option CacheRow)
    → find_entry m rows ≡ o
    → commit_new meanwhile n m rows o ≡ ok rows'
    → (r : CacheRow) × (find_entry m rows' ≡ some r) × (same_metadata r m ≡ true)
unfolding commit_new put_row
commit_new-found meanwhile n m rows rows' none e h =
    elim (in_result (insert_row n (meanwhile rows))) [
      | inl f ↦ absurd (let bad = rw f.1 at h in ground (arith, bad))
      | inr (grown, f) ↦
          let (r, found, same, kept) =
            accept_row-found m grown rows' (find_entry m grown) (rw f at h) in
          (r, ap (find_entry m) (sym kept) ∙ found, same)
    ]
commit_new-found meanwhile n m rows rows' (some old) e h = elim (Bool-cases (same_metadata old m)) [
  | inl f ↦ (old, ap (find_entry m) (sym (ok-injective (rw f at h))) ∙ e, f)
  | inr f ↦ absurd (let bad = rw f at h in ground (arith, bad))
]

select_first-All :
    (P : CacheRow → Type 0) (p : CacheRow → Bool) (rows : List CacheRow) (r : CacheRow)
    → All P (select_where p rows)
    → select_first p rows ≡ some r
    → P r
unfolding select_first select_where
select_first-All P p [] r h found = cc
select_first-All P p (s ∷ rows) r h found = elim (Bool-cases (p s)) [
  | inl e ↦ let here = rw e at h in subst P (ground (arith, rw e at found)) here.0
  | inr e ↦ select_first-All P p rows r (rw e at h) (rw e at found)
]

-- An entry has the metadata that was committed: everything but its id and its times.
pub record HasMetadata (m r : CacheRow) : Type 0 where
  pub workspace : r.workspace ≡ m.workspace
  pub key : r.key ≡ m.key
  pub root_name : r.root_name ≡ m.root_name
  pub root_kind : r.root_kind ≡ m.root_kind
  pub content_sha256 : r.content_sha256 ≡ m.content_sha256
  pub blob_sha256 : r.blob_sha256 ≡ m.blob_sha256
  pub format : r.format ≡ m.format
  pub archive_size_bytes : r.archive_size_bytes ≡ m.archive_size_bytes
  pub logical_size_bytes : r.logical_size_bytes ≡ m.logical_size_bytes
  pub entry_count : r.entry_count ≡ m.entry_count

same_metadata-HasMetadata : (r m : CacheRow) → same_metadata r m ≡ true → HasMetadata m r
unfolding same_metadata
same_metadata-HasMetadata r m h = record {
  workspace = (str_eq_iff r.workspace m.workspace).0 (ground arith);
  key = (str_eq_iff r.key m.key).0 (ground arith);
  root_name = (str_eq_iff r.root_name m.root_name).0 (ground arith);
  root_kind = (str_eq_iff r.root_kind m.root_kind).0 (ground arith);
  content_sha256 = (str_eq_iff r.content_sha256 m.content_sha256).0 (ground arith);
  blob_sha256 = (str_eq_iff r.blob_sha256 m.blob_sha256).0 (ground arith);
  format = (str_eq_iff r.format m.format).0 (ground arith);
  archive_size_bytes = ground arith;
  logical_size_bytes = ground arith;
  entry_count = ground arith;
}

-- Whatever other transactions do meanwhile, if CommitCache accepts metadata, then at every time at
-- which no live entry under the key has lapsed LookupCache returns a live entry with this metadata and
-- a new expiry, and writes only live entries under the key.
pub commit-lookup :
    (meanwhile : List CacheRow → List CacheRow) (now retention id : ℕ) (m : CacheRow)
    (rows rows' : List CacheRow) (later lifetime : ℕ)
    → commit_cache meanwhile now retention id m rows ≡ ok rows'
    → All (λ s. is_fresh later s ≡ true) (select_where (is_entry m.workspace m.key) rows')
    → (r : CacheRow) × HasMetadata m r
      × (is_live r ≡ true)
      × (lookup_cache later lifetime m.workspace m.key rows'
          ≡ ok (
            touch later lifetime r,
            update_where (is_hit later m.workspace m.key) (touch later lifetime) rows',
          ))
unfolding commit_cache lookup_cache find_entry
commit-lookup meanwhile now retention id m rows rows' later lifetime h all_fresh =
    let (r, found, same) =
      commit_new-found meanwhile (new_row now retention id m) m rows rows' (find_entry m rows) refl
        h in
    let entry = select_first-holds (is_entry m.workspace m.key) rows' r found in
    let fresh =
      select_first-All (λ s. is_fresh later s ≡ true) (is_entry m.workspace m.key) rows' r all_fresh
        found in
    let hit =
      select_first-narrow (is_entry m.workspace m.key) (is_hit later m.workspace m.key) rows' r
        (λ s e. ground (arith, e)) found (ground (arith, entry, fresh)) in
    (r, same_metadata-HasMetadata r m same, ground (arith, entry), rw hit refl)
