-- ===== src/Store/Settle/Blocking.antt =====
-- blockDependents ends, and leaves no pending job of the run below a job that did not pass.
use mathlib.Core.List.{Memᴰ}
use forgeci.Base.{
  Bool, Bool-cases, List, [], any, ap, arith, count_where, false, inl, inr, mem-cons, mem-nil, refl,
  rows_affected, str_eq_iff, subst, suc, sym, true, update_where, zero, ℕ, ◌&&◌, ◌+◌, ◌<◌, ◌==◌,
  ◌∷◌, ◌≡◌, ◌⊎◌,
}
use forgeci.Store.Settle.{
  block_dependents, block_loop, block_round, depends, has_upstream, is_blockable, mark_blocked,
  pending_jobs, upstream,
}
use forgeci.Store.Tables.{Db, DependencyRow, JobRow, JobStatus, did_not_pass, is_job, is_pending}

module _ {A : Type 0} where
  update_where-none :
      (p : A → Bool) (f : A → A) (xs : List A) → count_where p xs ≡ 0 → update_where p f xs ≡ xs
  unfolding count_where update_where
  update_where-none p f [] h = refl
  update_where-none p f (x ∷ xs) h = ground (arith, update_where-none p f xs)

  -- An UPDATE that takes its rows out of a count lowers the count by the rows that it meets.
  count_where-update :
      (q p : A → Bool) (f : A → A) (xs : List A)
      → ((x : A) → p x ≡ true → (q x ≡ true) × (q (f x) ≡ false))
      → count_where q (update_where p f xs) + count_where p xs ≡ count_where q xs
  unfolding count_where update_where
  count_where-update q p f [] h = omega arith
  count_where-update q p f (x ∷ xs) h = elim (Bool-cases (p x)) [
    | inl e ↦ rw (e, (h x e).0, (h x e).1) (omega (arith, count_where-update q p f xs h))
    | inr e ↦ rw e (omega (arith, count_where-update q p f xs h))
  ]

marks_pending :
    (now run : ℕ) (db : Db) (j : JobRow)
    → is_blockable db run j ≡ true
    → (is_pending j.status ≡ true) × (is_pending (mark_blocked now j).status ≡ false)
unfolding is_blockable mark_blocked
marks_pending now run db j h = ground arith

pending-block_round :
    (now run : ℕ) (db : Db)
    → pending_jobs (block_round now run db) + rows_affected (is_blockable db run) db.jobs
      ≡ pending_jobs db
unfolding block_round
pending-block_round now run db =
    count_where-update (λ j. is_pending j.status) (is_blockable db run) (mark_blocked now) db.jobs
      (marks_pending now run db)

block_round-idle :
    (now run : ℕ) (db : Db)
    → rows_affected (is_blockable db run) db.jobs ≡ 0
    → block_round now run db ≡ db
unfolding block_round
block_round-idle now run db h = ap (λ js. record db { jobs = js }) (update_where-none _ _ db.jobs h)

-- No job is left to block.
abbrev IsSettled : ℕ → Db → Type 0
IsSettled run db = count_where (is_blockable db run) db.jobs ≡ 0

block_loop-IsSettled :
    (fuel now run : ℕ) (db : Db)
    → pending_jobs db < fuel
    → IsSettled run (block_loop fuel now run db)
unfolding block_loop
block_loop-IsSettled zero now run db h = absurd (omega arith)
block_loop-IsSettled (suc fuel) now run db h =
    elim (Bool-cases (rows_affected (is_blockable db run) db.jobs == 0)) [
      | inl e ↦
          let z : rows_affected (is_blockable db run) db.jobs ≡ 0 = ground arith in
          rw e (subst (IsSettled run) (sym (block_round-idle now run db z)) z)
      | inr e ↦ rw e (
          block_loop-IsSettled fuel now run (block_round now run db)
            (ground (arith, pending-block_round now run db)))
    ]

block_dependents-idle : (now run : ℕ) (db : Db) → IsSettled run (block_dependents now run db)
unfolding block_dependents
block_dependents-idle now run db =
    block_loop-IsSettled (suc (pending_jobs db)) now run db (omega arith)

module _ {A : Type 0} (p : A → Bool) {x : A} where
  count_where-none : (xs : List A) → count_where p xs ≡ 0 → Memᴰ x xs → p x ≡ false
  unfolding count_where
  count_where-none [] h m = absurd (mem-nil m)
  count_where-none (y ∷ ys) h m = elim (mem-cons m) [
    | inl same ↦ subst (λ z. p z ≡ false) (sym same) (ground arith)
    | inr later ↦ count_where-none ys (ground arith) later
  ]

  any-none : (xs : List A) → any p xs ≡ false → Memᴰ x xs → p x ≡ false
  any-none [] h m = absurd (mem-nil m)
  any-none (y ∷ ys) h m = elim (mem-cons m) [
    | inl same ↦ subst (λ z. p z ≡ false) (sym same) (ground arith)
    | inr later ↦ any-none ys (ground arith) later
  ]

keeps_going :
    (s : JobStatus)
    → did_not_pass s ≡ false
    → (s ≡ JobStatus.pending) ⊎ ((s ≡ JobStatus.running) ⊎ (s ≡ JobStatus.passed))
keeps_going s h = ground arith

upstream-none :
    (run : ℕ) (db : Db) (j k : JobRow) (d : DependencyRow)
    → is_blockable db run j ≡ false
    → j.run_id ≡ run
    → j.status ≡ JobStatus.pending
    → Memᴰ d db.dependencies
    → d.run_id ≡ run
    → d.job_name ≡ j.job_name
    → Memᴰ k db.jobs
    → k.run_id ≡ run
    → k.job_name ≡ d.depends_on
    → did_not_pass k.status ≡ false
upstream-none run db j k d h jr js dm dr dn km kr kn =
    let none_up : has_upstream did_not_pass db j ≡ false = unfold is_blockable in ground arith in
    let free =
      any-none (λ d. depends j d && upstream did_not_pass db d) db.dependencies
        (unfold has_upstream in none_up) dm in
    let apart : upstream did_not_pass db d ≡ false =
      ground (arith, str_eq_iff d.job_name j.job_name) in
    let last =
      any-none (λ u. is_job d.run_id d.depends_on u && did_not_pass u.status) db.jobs apart km in
    ground (arith, str_eq_iff k.job_name d.depends_on)

-- After blockDependents the loop has ended by its own test, with the rounds given: if a job of the
-- run is still pending, then each job of the run that a dependency of it names is pending, running or
-- passed.
pub block_dependents-IsSettled :
    (now run : ℕ) (db : Db) (j k : JobRow) (d : DependencyRow)
    → Memᴰ j (block_dependents now run db).jobs
    → j.run_id ≡ run
    → j.status ≡ JobStatus.pending
    → Memᴰ d (block_dependents now run db).dependencies
    → d.run_id ≡ run
    → d.job_name ≡ j.job_name
    → Memᴰ k (block_dependents now run db).jobs
    → k.run_id ≡ run
    → k.job_name ≡ d.depends_on
    → (k.status ≡ JobStatus.pending)
      ⊎ ((k.status ≡ JobStatus.running) ⊎ (k.status ≡ JobStatus.passed))
block_dependents-IsSettled now run db j k d jm jr js dm dr dn km kr kn =
    let settled = block_dependents now run db in
    let idle =
      count_where-none (is_blockable settled run) settled.jobs (block_dependents-idle now run db)
        jm in
    keeps_going k.status (upstream-none run settled j k d idle jr js dm dr dn km kr kn)
