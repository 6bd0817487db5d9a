-- ===== src/Store/Jobs/Fencing.antt =====
-- Fenced ownership: a claim on a job that is lost stays lost, whatever calls follow.
use forgeci.Base.{
  All, All-map, Bool-cases, List, Option, Result, String, arith, conflict, err, false, false≢true,
  inl, inr, ok, opt_until, sym, true, ℕ, ◌∙◌, ◌≡◌, ◌≤◌, ◌⊎◌,
}
use forgeci.Config.{Pipeline}
use forgeci.Store.Calls.{
  complete_job-AllEvolve, complete_job-split, expire_job_leases-AllEvolve, expire_job_leases-split,
}
use forgeci.Store.Jobs.{abort_job, beat, complete_job, end_job, expire_job_leases, has_expired}
use forgeci.Store.Jobs.Keys.{All-update, AllEvolve-UniqueJobs, IfKey, UniqueJobs, owned-IfKey}
use forgeci.Store.Jobs.Lost.{
  AllEvolve-IsLost, IsLost, IsLost-beat, IsLost-complete_job, IsLostOn, has_lease-parts,
}
use forgeci.Store.Ownership.{Ownership, has_lease, owns}
use forgeci.Store.Steps.{Reach, Reach-AllEvolve}
use forgeci.Store.Tables.{Db, JobRow, JobStatus, is_job}

owns-generation :
    (now : ℕ) (o : Ownership) (k : JobRow) → owns now o k ≡ true → k.lease_generation ≡ o.generation
unfolding owns
owns-generation now o k h = ground arith

-- The claim `o` is out of date on a row: the generation of the job is not below that of `o`, and
-- if the row still holds `o` then the lease is over at the time `clock`.
abbrev pub IsOverOn : ℕ → Ownership → JobRow → Type 0
IsOverOn clock o = IfKey o.run_id o.job_name (λ k.
    (o.generation ≤ k.lease_generation)
    × (has_lease o k ≡ true → opt_until k.lease_expires_at clock ≡ true))

module _ (parse : String → Result Pipeline) where
  pub Reach-IsLost :
      {db db' : Db} (o : Ownership)
      → UniqueJobs db.jobs
      → IsLost o db
      → Reach parse db db'
      → IsLost o db'
  Reach-IsLost o u h r = AllEvolve-IsLost o _ _ (Reach-AllEvolve parse u r).0 h

  -- If no two job rows have one key, and no row holds the claim `o` while the generation of the job
  -- that it names is not below that of `o`, then after any calls CompleteJob refuses `o` with a
  -- conflict, whatever status is reported, and a heartbeat finds `o` invalid and changes nothing.
  pub IsLost-refused :
      {db db' : Db} (o : Ownership) (now retention : ℕ) (status : JobStatus)
      (message : Option String)
      → UniqueJobs db.jobs
      → IsLost o db
      → Reach parse db db'
      → (complete_job parse now retention o status message db' ≡ err conflict)
        × ((beat now o db').0.valid ≡ false)
        × ((beat now o db').1 ≡ db')
  IsLost-refused {db'} o now retention status message u h r =
      let lost = Reach-IsLost o u h r in
      let silent = IsLost-beat now o db' lost in
      (IsLost-complete_job parse now retention o status message db' lost, silent.0, silent.1)

  ended-IsLostOn :
      (now : ℕ) (o : Ownership) (status : JobStatus) (message : Option String) (j : JobRow)
      → IfKey o.run_id o.job_name (λ k. k.lease_generation ≡ o.generation) j
      → (is_job o.run_id o.job_name j ≡ true → IsLostOn o (end_job now status message j))
        × (is_job o.run_id o.job_name j ≡ false → IsLostOn o j)
  unfolding end_job
  ended-IsLostOn now o status message j h =
      ((λ key _. (omega (arith, h key), ground arith)), λ other key. cc)

  pub complete_job-IsLost :
      (db db' : Db) (o : Ownership) (now retention : ℕ) (status : JobStatus)
      (message : Option String)
      → UniqueJobs db.jobs
      → complete_job parse now retention o status message db ≡ ok db'
      → IsLost o db'
  complete_job-IsLost db db' o now retention status message u h =
      let (_, (j, sel), settled) = complete_job-split parse now retention o status message db u h in
      AllEvolve-IsLost o _ _ settled (
        All-update _ _ (IsLostOn o) db.jobs (
          All-map (ended-IsLostOn now o status message) db.jobs (
            owned-IfKey now o (λ k. k.lease_generation ≡ o.generation) (owns-generation now o)
              db.jobs u sel)))

  -- If no two job rows have one key and CompleteJob accepts the claim `o`, then after any further
  -- calls it refuses `o` with a conflict, whatever is reported, and a heartbeat finds `o` invalid and
  -- changes nothing.
  pub completed_once :
      (db db' : Db) {db'' : Db} (o : Ownership) (now retention : ℕ) (status : JobStatus)
      (message : Option String) (now' : ℕ) (status' : JobStatus) (message' : Option String)
      → UniqueJobs db.jobs
      → complete_job parse now retention o status message db ≡ ok db'
      → Reach parse db' db''
      → (complete_job parse now' retention o status' message' db'' ≡ err conflict)
        × ((beat now' o db'').0.valid ≡ false)
        × ((beat now' o db'').1 ≡ db'')
  completed_once db db' o now retention status message now' status' message' u h r =
      IsLost-refused o now' retention status' message'
        (AllEvolve-UniqueJobs _ _
          (complete_job-AllEvolve parse now retention o status message db u h) u)
        (complete_job-IsLost db db' o now retention status message u h) r

  expired-IsLostOn :
      (clock : ℕ) (o : Ownership) (j : JobRow)
      → IsOverOn clock o j
      → (has_expired clock j ≡ true → IsLostOn o (abort_job clock "job lease expired" j))
        × (has_expired clock j ≡ false → IsLostOn o j)
  unfolding abort_job
  expired-IsLostOn clock o j h = (
    (λ e key. ((h key).0, ground arith)),
    λ e key. ((h key).0, not_held key e (Bool-cases (has_lease o j))),
  )
    where
      not_held :
          is_job o.run_id o.job_name j ≡ true
          → has_expired clock j ≡ false
          → (has_lease o j ≡ true) ⊎ (has_lease o j ≡ false)
          → has_lease o j ≡ false
      not_held key e (inr free) = free
      not_held key e (inl held) =
          absurd (false≢true (sym e ∙ (rw ((has_lease-parts o j held).4, (h key).1 held))))

  -- If no two job rows have one key, the generation of the job that `o` names is not below that of
  -- `o`, and no row holds `o` under a lease that is still good at `clock`, then once ExpireJobLeases
  -- has run at `clock`, and after any further calls, CompleteJob refuses `o` with a conflict and a
  -- heartbeat finds it invalid and changes nothing.
  pub expired_refused :
      (db db' : Db) {db'' : Db} (visit : List ℕ → List ℕ) (clock : ℕ) (o : Ownership)
      (now retention : ℕ) (now' : ℕ) (status' : JobStatus) (message' : Option String)
      → UniqueJobs db.jobs
      → All (IsOverOn clock o) db.jobs
      → expire_job_leases visit clock now retention db ≡ ok db'
      → Reach parse db' db''
      → (complete_job parse now' retention o status' message' db'' ≡ err conflict)
        × ((beat now' o db'').0.valid ≡ false)
        × ((beat now' o db'').1 ≡ db'')
  expired_refused db db' visit clock o now retention now' status' message' u over h r =
      IsLost-refused o now' retention status' message'
        (AllEvolve-UniqueJobs _ _ (expire_job_leases-AllEvolve visit clock now retention db h) u)
        (AllEvolve-IsLost o _ _ (expire_job_leases-split visit clock now retention db h)
          (All-update _ _ (IsLostOn o) db.jobs (All-map (expired-IsLostOn clock o) db.jobs over)))
        r
