-- ===== src/Store/Commits/Repeats.antt =====
-- A commit of artifacts that is sent twice.
use forgeci.Base.{
  Bool-cases, List, Option, Result, String, [], all, any, ap, append-nil, arith, false, false≢true,
  in_option, in_result, inl, inr, length, map, none, ok, ok-injective, refl, select_first,
  select_where, some, str_eq, str_eq_iff, str_eq_refl, subst, suc, sym, true, ℕ, ◌&&◌, ◌==◌, ◌∙◌,
  ◌∷◌, ◌≡◌,
}
use forgeci.Config.{ArtifactUpload, Pipeline, find_job}
use forgeci.Store.Commits.{
  Claimant, are_items, artifacts_of, commit_artifacts, insert_artifacts, is_among, is_item, job_of,
  last_named, may_commit, put_artifacts, run_of, same_artifact, same_artifact_set, without_expiry,
}
use forgeci.Store.Creation.Lookup.{select_where-append}
use forgeci.Store.Tables.{ArtifactRow, Db, JobRow, RunRow, is_executing, is_job}

length-map : (items : List ArtifactRow) → length (map without_expiry items) ≡ length items
length-map [] = refl
length-map (a ∷ items) = ap suc (length-map items)

same_artifact_refl : (a : ArtifactRow) → same_artifact (without_expiry a) a ≡ true
unfolding same_artifact
same_artifact_refl a = ground (
  arith,
  str_eq_refl a.root_name,
  str_eq_refl a.root_kind,
  str_eq_refl a.content_sha256,
  str_eq_refl a.blob_sha256,
  str_eq_refl a.format,
)

seen-apart :
    (seen : List String) (name other : String)
    → any (λ n. str_eq n name) seen ≡ true
    → any (λ n. str_eq n other) seen ≡ false
    → str_eq other name ≡ false
seen-apart seen name other h k = elim (Bool-cases (str_eq other name)) [
  | inr e ↦ e
  | inl e ↦ absurd (
      false≢true (
        sym k
        ∙ subst (λ m. any (λ n. str_eq n m) seen ≡ true) (sym ((str_eq_iff other name).0 e)) h))
]

module _ (c : Claimant) (uploads : List ArtifactUpload) where
  seen-last_named :
      (seen : List String) (items : List ArtifactRow) (name : String)
      → are_items c uploads seen items ≡ true
      → any (λ n. str_eq n name) seen ≡ true
      → last_named name items ≡ none
  unfolding are_items last_named
  seen-last_named seen [] name h k = refl
  seen-last_named seen (a ∷ items) name h k =
      ground (arith, seen-apart seen name a.name, seen-last_named (a.name ∷ seen) items name)

  is_among-cons :
      (y x : ArtifactRow) (ys : List ArtifactRow)
      → is_among ys x ≡ true
      → is_among (y ∷ ys) x ≡ true
  unfolding is_among last_named
  is_among-cons y x ys h = ground arith

  all-cons :
      (y : ArtifactRow) (ys xs : List ArtifactRow)
      → all (is_among ys) xs ≡ true
      → all (is_among (y ∷ ys)) xs ≡ true
  all-cons y ys [] h = refl
  all-cons y ys (x ∷ xs) h = ground (arith, is_among-cons y x ys, all-cons y ys xs)

  is_among-head :
      (seen : List String) (a : ArtifactRow) (items : List ArtifactRow)
      → are_items c uploads seen (a ∷ items) ≡ true
      → is_among (a ∷ items) (without_expiry a) ≡ true
  unfolding is_among last_named are_items
  is_among-head seen a items h = ground (
    arith,
    seen-last_named (a.name ∷ seen) items a.name,
    str_eq_refl a.name,
    same_artifact_refl a,
  )

  all_among :
      (seen : List String) (items : List ArtifactRow)
      → are_items c uploads seen items ≡ true
      → all (is_among items) (map without_expiry items) ≡ true
  all_among seen [] h = refl
  all_among seen (a ∷ items) h = ground (
    arith,
    is_among-head seen a items h,
    all-cons a items (map without_expiry items)
        (all_among (a.name ∷ seen) items (unfold are_items in ground arith)),
  )

  items-selected :
      (seen : List String) (items : List ArtifactRow)
      → are_items c uploads seen items ≡ true
      → select_where
          (λ a. (a.run_id == run_of c) && str_eq a.producer_job (job_of c))
          (map without_expiry items)
        ≡ map without_expiry items
  unfolding are_items is_item select_where
  items-selected seen [] h = refl
  items-selected seen (a ∷ items) h = ground (arith, items-selected (a.name ∷ seen) items)

  put_own :
      (items : List ArtifactRow) (d : Db)
      → are_items c uploads [] items ≡ true
      → put_artifacts (map without_expiry items) items d ≡ ok d
  unfolding put_artifacts insert_artifacts same_artifact_set
  put_own [] d h = ap (λ rows. ok (record d { artifacts = rows })) (append-nil d.artifacts)
  put_own (a ∷ items) d h = ground (arith, all_among [] (a ∷ items) h, length-map items)

  inserted-own :
      (items : List ArtifactRow) (db : Db)
      → are_items c uploads [] items ≡ true
      → artifacts_of (run_of c) (job_of c) db ≡ []
      → artifacts_of (run_of c) (job_of c) (insert_artifacts items db) ≡ map without_expiry items
  unfolding artifacts_of insert_artifacts
  inserted-own items db h none_before =
      rw
        (
          select_where-append
              (λ (a : ArtifactRow). (a.run_id == run_of c) && str_eq a.producer_job (job_of c))
              db.artifacts (map without_expiry items),
          none_before,
        )
        (items-selected [] items h)

  put_again :
      (items existing : List ArtifactRow) (db : Db) {db' : Db}
      → are_items c uploads [] items ≡ true
      → artifacts_of (run_of c) (job_of c) db ≡ existing
      → put_artifacts existing items db ≡ ok db'
      → put_artifacts (artifacts_of (run_of c) (job_of c) db') items db' ≡ ok db'
  put_again items [] db {db'} h e k =
      let same : insert_artifacts items db ≡ db' = ok-injective (unfold put_artifacts in k) in
      subst (λ d. put_artifacts (artifacts_of (run_of c) (job_of c) d) items d ≡ ok d) same
        (rw (inserted-own items db h e) (put_own items (insert_artifacts items db) h))
  put_again items (a ∷ existing) db {db'} h e k =
      let same : db ≡ db' = unfold put_artifacts in ground arith in
      subst (λ d. put_artifacts (artifacts_of (run_of c) (job_of c) d) items d ≡ ok d) same
        (rw e (unfold put_artifacts in ground arith))

put_artifacts-tables :
    (existing items : List ArtifactRow) (db : Db) {db' : Db}
    → put_artifacts existing items db ≡ ok db'
    → (db'.runs ≡ db.runs) × (db'.jobs ≡ db.jobs)
unfolding put_artifacts insert_artifacts
put_artifacts-tables [] items db h = (ground arith, ground arith)
put_artifacts-tables (a ∷ existing) items db h = (ground arith, ground arith)

-- If CommitArtifacts has accepted a set of artifacts, and the claim on the row of the job is still good
-- at a later time, then the same call is accepted again at that time, and changes nothing.
pub commit_artifacts-again :
    (parse : String → Result Pipeline) (now now' : ℕ) (c : Claimant) (items : List ArtifactRow)
    (db : Db) (j : JobRow) {db' : Db}
    → commit_artifacts parse now c items db ≡ ok db'
    → select_first (is_job (run_of c) (job_of c)) db.jobs ≡ some j
    → may_commit now' c j ≡ true
    → commit_artifacts parse now' c items db' ≡ ok db'
unfolding commit_artifacts
commit_artifacts-again parse now now' c items db j {db'} h row good =
    let query : List RunRow → Option RunRow =
      select_first (λ p. (p.id == run_of c) && is_executing p.status) in
    elim (in_option (query db.runs)) [
      | inl e ↦ absurd (ground arith)
      | inr (p, e) ↦ elim (in_result (parse p.pipeline_yaml)) [
        | inl f ↦ absurd (ground arith)
        | inr (cfg, f) ↦ elim (in_option (find_job (job_of c) cfg.jobs)) [
          | inl k ↦ absurd (ground arith)
          | inr (job, k) ↦
              let sound : are_items c job.artifacts.upload [] items ≡ true = ground arith in
              let put : put_artifacts (artifacts_of (run_of c) (job_of c) db) items db ≡ ok db' =
                ground arith in
              let again = put_again c job.artifacts.upload items _ db sound refl put in
              let (runs, jobs) = put_artifacts-tables _ items db put in ground arith
        ]
      ]
    ]
