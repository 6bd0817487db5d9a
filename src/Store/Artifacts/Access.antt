-- ===== src/Store/Artifacts/Access.antt =====
-- A lease that is over reads no artifact.
use forgeci.Base.{
  Bool, List, Option, Result, String, [], any, ap, arith, count_where, err, false, none, not_found,
  ok, or_fail, refl, rows_affected, select_first, ℕ, ◌&&◌, ◌∷◌, ◌≡◌,
}
use forgeci.Config.{Pipeline}
use forgeci.Store.Artifacts.{get_artifact_for_lease, is_artifact, may_read}
use forgeci.Store.Calls.{complete_job-AllEvolve}
use forgeci.Store.Jobs.{complete_job}
use forgeci.Store.Jobs.Fencing.{Reach-IsLost, complete_job-IsLost}
use forgeci.Store.Jobs.Keys.{AllEvolve-UniqueJobs, UniqueJobs}
use forgeci.Store.Jobs.Lost.{IsLost, owns-count}
use forgeci.Store.Ownership.{Ownership, owns}
use forgeci.Store.Settle.{is_none}
use forgeci.Store.Steps.{Reach}
use forgeci.Store.Tables.{Db, JobStatus}

select_first-none :
    {A : Type 0} (p : A → Bool) → ((a : A) → p a ≡ false) → (xs : List A) → select_first p xs ≡ none
unfolding select_first
select_first-none p h [] = refl
select_first-none p h (x ∷ xs) = rw (h x) (select_first-none p h xs)

count-any : {A : Type 0} (p : A → Bool) (xs : List A) → rows_affected p xs ≡ 0 → any p xs ≡ false
unfolding count_where
count-any p [] h = refl
count-any p (x ∷ xs) h = ground (arith, h, count-any p xs)

IsLost-get_artifact :
    (now : ℕ) (o : Ownership) (producer name : String) (db : Db)
    → IsLost o db
    → get_artifact_for_lease now o producer name db ≡ err not_found
unfolding get_artifact_for_lease may_read
IsLost-get_artifact now o producer name db h =
    let gone = count-any (owns now o) db.jobs (owns-count now o db.jobs h) in
    let nothing =
      select_first-none
        (λ a.
          is_artifact o.run_id producer name a
          && (is_none a.deleted_at && may_read now o producer db))
        (λ a. ground (arith, gone)) db.artifacts in
    ap (λ r. or_fail r not_found) nothing

module _ (parse : String → Result Pipeline) where
  -- If no two job rows have one key and CompleteJob accepts a claim, then after any further steps of
  -- Store/Steps, at any time, GetArtifactForLease finds no artifact for this claim.
  pub get_artifact-fenced :
      (db db' : Db) {db'' : Db} (o : Ownership) (now retention : ℕ) (status : JobStatus)
      (message : Option String) (now' : ℕ) (producer name : String)
      → UniqueJobs db.jobs
      → complete_job parse now retention o status message db ≡ ok db'
      → Reach parse db' db''
      → get_artifact_for_lease now' o producer name db'' ≡ err not_found
  get_artifact-fenced db db' {db''} o now retention status message now' producer name u h r =
      IsLost-get_artifact now' o producer name db'' (
        Reach-IsLost parse o
          (AllEvolve-UniqueJobs _ _
            (complete_job-AllEvolve parse now retention o status message db u h) u)
          (complete_job-IsLost parse db db' o now retention status message u h) r)
