-- ===== src/JobLog/Contiguity.antt =====
-- What the appends promise: the log of a job is numbered 1, 2, 3 without a gap, it only grows at
-- its end, and a batch that is sent again changes nothing.
use forgeci.Base.{
  >>=-eq-ok, Bool-cases, List, String, [], any, ap, append-nil, append_assoc, arith, guard,
  guard-true, inl, inr, length, none, not_found, ok, ok-injective, refl, refused, select_first,
  str_eq, subst, suc, sym, true, ℕ, ◌&&◌, ◌++◌, ◌+◌, ◌<◌, ◌==◌, ◌∙◌, ◌∷◌, ◌≡◌,
}
use forgeci.JobLog.Append.{
  All-put_chunks, IsContiguous, Numbered, is_chunk_of-eq, max_sequence-length, put_chunk-cases,
  put_chunks-All, rows_for, rows_of-other, rows_of-same,
}
use forgeci.JobLog.Table.{
  LogChunk, LogTable, append_job_log, append_job_logs, has_job_row, is_chunk_of, is_valid,
  is_valid_batch, max_sequence, put_chunk, put_chunks, rows_of, stamp,
}

Numbered-snoc :
    (n : ℕ) (rs : List LogChunk) (c : LogChunk)
    → Numbered n rs
    → c.sequence ≡ n + length rs + 1
    → Numbered n (rs ++ c ∷ [])
Numbered-snoc n [] c h e = (omega arith, tt)
Numbered-snoc n (r ∷ rs) c h e = (h.0, Numbered-snoc (suc n) rs c h.1 (omega arith))

Numbered-none :
    (n s : ℕ) (rs : List LogChunk)
    → Numbered n rs
    → n + length rs < s
    → select_first (λ r. r.sequence == s) rs ≡ none
unfolding select_first
Numbered-none n s [] h k = refl
Numbered-none n s (r ∷ rs) h k = ground (arith, Numbered-none (suc n) s rs h.1)

-- The logs of all jobs go on from what they were.
abbrev pub Extends : LogTable → LogTable → Type 0
Extends t t' =
    (run job : String)
    → (added : List LogChunk) × (rows_of run job t'.chunks ≡ rows_of run job t.chunks ++ added)

Extends-refl : (t : LogTable) → Extends t t
Extends-refl t run job = ([], sym (append-nil _))

Extends-trans : (t u v : LogTable) → Extends t u → Extends u v → Extends t v
Extends-trans t u v a b run job =
    let (xs, e) = a run job in
    let (ys, f) = b run job in (xs ++ ys, f ∙ ap (λ zs. zs ++ ys) e ∙ append_assoc _ xs ys)

added-Extends : (c : LogChunk) (t : LogTable) → Extends t (record t { chunks = t.chunks ++ c ∷ [] })
added-Extends c t run job = elim (Bool-cases (is_chunk_of run job c)) [
  | inl e ↦ (c ∷ [], rows_of-same run job t.chunks c e)
  | inr e ↦ ([], rows_of-other run job t.chunks c e ∙ sym (append-nil _))
]

pub added-IsContiguous :
    (c : LogChunk) (t : LogTable)
    → IsContiguous t
    → c.sequence ≡ max_sequence (rows_for c t) + 1
    → IsContiguous (record t { chunks = t.chunks ++ c ∷ [] })
added-IsContiguous c t h n run job = elim (Bool-cases (is_chunk_of run job c)) [
  | inl e ↦
      let (r, j) = is_chunk_of-eq run job c e in
      let next : c.sequence ≡ length (rows_of run job t.chunks) + 1 =
        rw (← r, ← j)
          (n
            ∙ ap (λ (m : ℕ). m + 1) (max_sequence-length (rows_for c t) (h c.run_id c.job_name))) in
      rw (rows_of-same run job t.chunks c e) (Numbered-snoc 0 _ c (h run job) (omega arith))
  | inr e ↦ rw (rows_of-other run job t.chunks c e) (h run job)
]

-- What a chunk and a batch leave: the same jobs, longer logs, no gap.
pub record IsGrown (t t' : LogTable) : Type 0 where
  pub same_jobs : t'.jobs ≡ t.jobs
  pub extended : Extends t t'
  pub contiguous : IsContiguous t'

put_chunk-IsGrown :
    (c : LogChunk) (t t' : LogTable) → IsContiguous t → put_chunk c t ≡ ok t' → IsGrown t t'
put_chunk-IsGrown c t t' h e = elim (put_chunk-cases c t t' e) [
  | inl (same, _) ↦ rw same (record { same_jobs = refl; extended = Extends-refl t; contiguous = h })
  | inr (_, n, same) ↦ rw same (record {
    same_jobs = refl;
    extended = added-Extends c t;
    contiguous = added-IsContiguous c t h n;
  })
]

put_chunks-IsGrown :
    (clock : ℕ) (cs : List LogChunk) (t t' : LogTable)
    → IsContiguous t
    → put_chunks clock cs t ≡ ok t'
    → IsGrown t t'
unfolding put_chunks
put_chunks-IsGrown clock [] t t' h e =
    subst (IsGrown t) (ok-injective e)
      (record { same_jobs = refl; extended = Extends-refl t; contiguous = h })
put_chunks-IsGrown clock (c ∷ cs) t t' h e =
    let (u, first, rest) = >>=-eq-ok (put_chunk (stamp clock c) t) _ e in
    let a = put_chunk-IsGrown (stamp clock c) t u h first in
    let b = put_chunks-IsGrown clock cs u t' a.contiguous rest in
    record {
      same_jobs = b.same_jobs ∙ a.same_jobs;
      extended = Extends-trans t u t' a.extended b.extended;
      contiguous = b.contiguous;
    }

append_job_logs-chunks :
    (clock : ℕ) (cs : List LogChunk) (t t' : LogTable)
    → append_job_logs clock cs t ≡ ok t'
    → put_chunks clock cs t ≡ ok t'
unfolding append_job_logs
append_job_logs-chunks clock [] t t' h = cc
append_job_logs-chunks clock (c ∷ cs) t t' h =
    let (_, _, h1) =
      >>=-eq-ok (guard (is_valid_batch c 0 (c ∷ cs)) (refused "invalid job log batch")) _ h in
    let (_, _, h2) = >>=-eq-ok (guard (has_job_row c.run_id c.job_name t) not_found) _ h1 in h2

-- If the log of every job is numbered 1, 2, 3 without a gap, then after a batch that AppendJobLogs
-- accepts it still is; the log of each job is what it was with some chunks added at the end, and the
-- jobs are the same.
pub append_job_logs-IsGrown :
    (clock : ℕ) (cs : List LogChunk) (t t' : LogTable)
    → IsContiguous t
    → append_job_logs clock cs t ≡ ok t'
    → IsGrown t t'
append_job_logs-IsGrown clock cs t t' h e =
    put_chunks-IsGrown clock cs t t' h (append_job_logs-chunks clock cs t t' e)

put_chunk-jobs : (c : LogChunk) (t t' : LogTable) → put_chunk c t ≡ ok t' → t'.jobs ≡ t.jobs
put_chunk-jobs c t t' h = elim (put_chunk-cases c t t' h) [
  | inl (same, _) ↦ rw same
  | inr (_, _, same) ↦ rw same
]

put_chunks-jobs :
    (clock : ℕ) (cs : List LogChunk) (t t' : LogTable)
    → put_chunks clock cs t ≡ ok t'
    → t'.jobs ≡ t.jobs
unfolding put_chunks
put_chunks-jobs clock [] t t' h = ap (λ (u : LogTable). u.jobs) (sym (ok-injective h))
put_chunks-jobs clock (c ∷ cs) t t' h =
    let (u, first, rest) = >>=-eq-ok (put_chunk (stamp clock c) t) _ h in
    put_chunks-jobs clock cs u t' rest ∙ put_chunk-jobs (stamp clock c) t u first

pub has_job_row-same :
    (run job : String) (t t' : LogTable)
    → t'.jobs ≡ t.jobs
    → has_job_row run job t' ≡ has_job_row run job t
unfolding has_job_row
has_job_row-same run job t t' h =
    ap (any (λ (k : String × String). str_eq k.0 run && str_eq k.1 job)) h

-- A batch that AppendJobLogs has accepted is accepted again, at any later time, and changes nothing.
pub append_job_logs-again :
    (clock clock' : ℕ) (cs : List LogChunk) (t t' : LogTable)
    → append_job_logs clock cs t ≡ ok t'
    → append_job_logs clock' cs t' ≡ ok t'
unfolding append_job_logs
append_job_logs-again clock clock' [] t t' h = cc
append_job_logs-again clock clock' (c ∷ cs) t t' h =
    let (_, valid, h1) =
      >>=-eq-ok (guard (is_valid_batch c 0 (c ∷ cs)) (refused "invalid job log batch")) _ h in
    let (_, exists, h2) = >>=-eq-ok (guard (has_job_row c.run_id c.job_name t) not_found) _ h1 in
    let jobs = put_chunks-jobs clock (c ∷ cs) t t' h2 in
    let still : has_job_row c.run_id c.job_name t' ≡ true =
      has_job_row-same c.run_id c.job_name t t' jobs ∙ guard-true _ _ exists in
    let again = All-put_chunks clock' (c ∷ cs) t' (put_chunks-All clock (c ∷ cs) t t' h2) in
    rw (guard-true _ _ valid, still) again

-- The chunk that a writer is to send next is accepted.
pub append_job_log-next :
    (clock : ℕ) (c : LogChunk) (t : LogTable)
    → IsContiguous t
    → is_valid c ≡ true
    → has_job_row c.run_id c.job_name t ≡ true
    → c.sequence ≡ length (rows_for c t) + 1
    → append_job_log clock c t ≡ ok (record t { chunks = t.chunks ++ stamp clock c ∷ [] })
unfolding append_job_log put_chunk stamp
append_job_log-next clock c t h valid exists n =
    let fresh = Numbered-none 0 c.sequence (rows_for c t) (h c.run_id c.job_name) (omega arith) in
    let last = max_sequence-length (rows_for c t) (h c.run_id c.job_name) in
    ground (arith, valid, exists, fresh, last)
