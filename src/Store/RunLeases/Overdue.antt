-- ===== src/Store/RunLeases/Overdue.antt =====
-- ExpireLeases leaves no overdue run.
use forgeci.Base.{
  All, Bool, Bool-cases, List, [], any, arith, false, false≢true, inl, inr, map, refl, select_where,
  subst, sym, true, update_where, ℕ, ◌==◌, ◌∙◌, ◌∷◌, ◌≡◌,
}
use forgeci.Store.Jobs.{abort_run, contains, lose_jobs_of}
use forgeci.Store.RunLeases.{expire_leases, expire_runs, is_overdue}
use forgeci.Store.Settle.{expire_artifacts_of}
use forgeci.Store.Tables.{Db, RunRow}

abbrev IsListed : ℕ → List ℕ → RunRow → Type 0
IsListed clock ids p = is_overdue clock p ≡ true → contains p.id ids ≡ true

IsListed-after :
    (clock now run : ℕ) (ids : List ℕ) (ps : List RunRow)
    → All (IsListed clock (run ∷ ids)) ps
    → All
        (IsListed clock ids)
        (update_where (λ p. p.id == run) (abort_run now "runner lease expired") ps)
unfolding update_where abort_run is_overdue contains
IsListed-after clock now run ids [] h = tt
IsListed-after clock now run ids (p ∷ ps) h =
    let rest = IsListed-after clock now run ids ps h.1 in
    elim (Bool-cases (p.id == run)) [
      | inl e ↦ rw e (λ f. absurd (false≢true f), rest)
      | inr e ↦ rw e (λ f. ground (arith, h.0, f, e), rest)
    ]

none_listed :
    (clock : ℕ) (ps : List RunRow) → All (IsListed clock []) ps → any (is_overdue clock) ps ≡ false
unfolding contains
none_listed clock [] h = refl
none_listed clock (p ∷ ps) h = ground (arith, h.0, none_listed clock ps h.1)

expire_runs-clears :
    (clock now retention : ℕ) (ids : List ℕ) (db : Db)
    → All (IsListed clock ids) db.runs
    → any (is_overdue clock) (expire_runs now retention ids db).runs ≡ false
unfolding expire_runs lose_jobs_of expire_artifacts_of
expire_runs-clears clock now retention [] db h = none_listed clock db.runs h
expire_runs-clears clock now retention (run ∷ ids) db h =
    expire_runs-clears clock now retention ids
      (lose_jobs_of now retention "runner lease expired" run (record db {
        runs = update_where (λ p. p.id == run) (abort_run now "runner lease expired") db.runs;
      }))
      (IsListed-after clock now run ids db.runs h)

IsListed-more :
    (clock n : ℕ) (ids : List ℕ) (ps : List RunRow)
    → All (IsListed clock ids) ps
    → All (IsListed clock (n ∷ ids)) ps
unfolding contains
IsListed-more clock n ids [] h = tt
IsListed-more clock n ids (p ∷ ps) h =
    (λ f. ground (arith, h.0 f), IsListed-more clock n ids ps h.1)

select_where-first :
    (q : RunRow → Bool) (p : RunRow) (ps : List RunRow)
    → q p ≡ true
    → select_where q (p ∷ ps) ≡ p ∷ select_where q ps
unfolding select_where
select_where-first q p ps e = rw e refl

select_where-later :
    (q : RunRow → Bool) (p : RunRow) (ps : List RunRow)
    → q p ≡ false
    → select_where q (p ∷ ps) ≡ select_where q ps
unfolding select_where
select_where-later q p ps e = rw e refl

All-IsListed :
    (clock : ℕ) (ps : List RunRow)
    → All (IsListed clock (map (λ p. p.id) (select_where (is_overdue clock) ps))) ps
unfolding contains
All-IsListed clock [] = tt
All-IsListed clock (p ∷ ps) =
    let later = All-IsListed clock ps in
    elim (Bool-cases (is_overdue clock p)) [
      | inl e ↦
          subst (λ rows. All (IsListed clock (map (λ r. r.id) rows)) (p ∷ ps))
            (sym (select_where-first (is_overdue clock) p ps e))
            (
              λ _. ground arith,
              IsListed-more clock p.id (map (λ r. r.id) (select_where (is_overdue clock) ps)) ps
                  later,
            )
      | inr e ↦
          subst (λ rows. All (IsListed clock (map (λ r. r.id) rows)) (p ∷ ps))
            (sym (select_where-later (is_overdue clock) p ps e))
            (λ f. absurd (false≢true (sym e ∙ f)), later)
    ]

-- After ExpireLeases at a time no run is RUNNING under a runner's lease that ended before that time.
expire_leases-clears :
    (clock now retention : ℕ) (db : Db)
    → any (is_overdue clock) (expire_leases clock now retention db).runs ≡ false
unfolding expire_leases
expire_leases-clears clock now retention db =
    expire_runs-clears clock now retention
      (map (λ p. p.id) (select_where (is_overdue clock) db.runs)) db (All-IsListed clock db.runs)
