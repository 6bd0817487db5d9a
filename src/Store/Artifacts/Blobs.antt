-- ===== src/Store/Artifacts/Blobs.antt =====
-- ExpireArtifacts gives up a blob exactly when its last artifact is gone.
use forgeci.Base.{
  Bool, Bool-cases, List, String, [], any, ap, arith, false, if◌then◌else◌, inl, inr, insert_name,
  leb, map, none, not, refl, select_where, some, sort_names, str_eq, str_eq_iff, str_lt, subst,
  true, update_where, ℕ, ◌&&◌, ◌||◌, ◌∙◌, ◌∷◌, ◌≡◌,
}
use forgeci.Store.Artifacts.{
  blobs_of, delete_artifact, expire_artifacts, has_lapsed, has_name, is_live, not_live,
}
use forgeci.Store.Tables.{ArtifactRow, Db}

has_name-insert_name :
    (d n : String) (ns : List String)
    → has_name d (insert_name n ns) ≡ (str_eq n d || has_name d ns)
unfolding insert_name
has_name-insert_name d n [] = refl
has_name-insert_name d n (m ∷ ms) = elim (Bool-cases (str_lt m n)) [
  | inl e ↦ rw e (ground (arith, has_name-insert_name d n ms))
  | inr e ↦ rw e refl
]

has_name-sort_names : (d : String) (ns : List String) → has_name d (sort_names ns) ≡ has_name d ns
unfolding sort_names
has_name-sort_names d [] = refl
has_name-sort_names d (n ∷ ns) =
    has_name-insert_name d n (sort_names ns) ∙ ap (◌||◌ (str_eq n d)) (has_name-sort_names d ns)

-- The time of an artifact has come: it is not deleted, and it expires now or has expired.
abbrev pub is_due : ℕ → ArtifactRow → Bool
is_due now a = elim a.deleted_at [
  | some t ↦ false
  | none ↦ elim a.expires_at [ none ↦ false | some t ↦ leb t now ]
]

-- An artifact that stays: it is not deleted, and has no time to expire or a later one.
abbrev pub is_kept : ℕ → ArtifactRow → Bool
is_kept now a = elim a.deleted_at [
  | some t ↦ false
  | none ↦ elim a.expires_at [ none ↦ true | some t ↦ not (leb t now) ]
]

has_lapsed-due : (now : ℕ) (a : ArtifactRow) → has_lapsed now a ≡ is_due now a
has_lapsed-due now a = ground arith

after-map :
    (now : ℕ) (rows : List ArtifactRow)
    → update_where (has_lapsed now) (delete_artifact now) rows
      ≡ map (λ a. if is_due now a then record a { deleted_at = some now } else a) rows
unfolding update_where delete_artifact
after-map now [] = refl
after-map now (a ∷ rows) = rw (has_lapsed-due now a, after-map now rows) refl

live-after :
    (now : ℕ) (d : String) (rows : List ArtifactRow)
    → any (is_live d) (update_where (has_lapsed now) (delete_artifact now) rows)
      ≡ any (λ a. str_eq a.blob_sha256 d && is_kept now a) rows
unfolding update_where delete_artifact
live-after now d [] = refl
live-after now d (a ∷ rows) = ground (arith, live-after now d rows)

has_name-blobs_of :
    (d : String) (rows : List ArtifactRow)
    → has_name d (blobs_of rows) ≡ any (λ a. str_eq a.blob_sha256 d) rows
unfolding blobs_of
has_name-blobs_of d [] = refl
has_name-blobs_of d (a ∷ rows) = elim (Bool-cases (has_name a.blob_sha256 (blobs_of rows))) [
  | inr e ↦ ground (arith, has_name-blobs_of d rows)
  | inl e ↦ elim (Bool-cases (str_eq a.blob_sha256 d)) [
    | inr f ↦ ground (arith, has_name-blobs_of d rows)
    | inl f ↦
        let here : has_name d (blobs_of rows) ≡ true =
          subst (λ n. has_name n (blobs_of rows) ≡ true) ((str_eq_iff a.blob_sha256 d).0 f) e in
        ground (arith, has_name-blobs_of d rows)
  ]
]

any-lapsed :
    (now : ℕ) (d : String) (rows : List ArtifactRow)
    → any (λ a. str_eq a.blob_sha256 d) (select_where (has_lapsed now) rows)
      ≡ any (λ a. str_eq a.blob_sha256 d && is_due now a) rows
unfolding select_where
any-lapsed now d [] = refl
any-lapsed now d (a ∷ rows) = ground (arith, any-lapsed now d rows)

has_name-not_live :
    (artifacts : List ArtifactRow) (d : String) (ds : List String)
    → has_name d (not_live artifacts ds) ≡ (has_name d ds && not (any (is_live d) artifacts))
unfolding not_live
has_name-not_live artifacts d [] = refl
has_name-not_live artifacts d (n ∷ ds) = elim (Bool-cases (str_eq n d)) [
  | inr f ↦ ground (arith, has_name-not_live artifacts d ds)
  | inl f ↦
      let same : any (is_live n) artifacts ≡ any (is_live d) artifacts =
        ap (λ m. any (is_live m) artifacts) ((str_eq_iff n d).0 f) in
      ground (arith, has_name-not_live artifacts d ds)
]

-- ExpireArtifacts writes the time of its call as the deletion of exactly the artifacts whose time has
-- come, and changes nothing else of the database; and a digest is among those that it returns exactly
-- when an artifact with this digest is one of them and no artifact that stays has this digest.
pub expire_artifacts-exact :
    (now : ℕ) (db : Db) (d : String)
    → ((expire_artifacts now db).1 ≡ record db {
      artifacts =
          map (λ a. if is_due now a then record a { deleted_at = some now } else a) db.artifacts;
    })
      × (any (λ n. str_eq n d) (expire_artifacts now db).0 ≡ (
          any (λ a. str_eq a.blob_sha256 d && is_due now a) db.artifacts
          && not (any (λ a. str_eq a.blob_sha256 d && is_kept now a) db.artifacts)))
unfolding expire_artifacts
expire_artifacts-exact now db d =
    let after = update_where (has_lapsed now) (delete_artifact now) db.artifacts in
    let digests = blobs_of (select_where (has_lapsed now) db.artifacts) in
    (
      ap (λ rows. record db { artifacts = rows }) (after-map now db.artifacts),
      has_name-sort_names d (not_live after digests)
          ∙ (has_name-not_live after d digests
              ∙ ground (
                arith,
                has_name-blobs_of d (select_where (has_lapsed now) db.artifacts),
                any-lapsed now d db.artifacts,
                live-after now d db.artifacts,
              )),
    )
