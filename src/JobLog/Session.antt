-- ===== src/JobLog/Session.antt =====
-- The writer and the table together: what a job prints is what its log says.
use forgeci.Base.{
  Error, List, Option, Result, [], ap, append-nil, append_assoc, arith, drop, false, length,
  length-append, length-drop, length-take, min, none, ok, refl, str_eq, subst, some, suc, sym, take,
  take-append-drop, true, zero, ℕ, ◌++◌, ◌+◌, ◌<◌, ◌∙◌, ◌∷◌, ◌≡◌,
}
use forgeci.JobLog.Append.{IsContiguous, is_chunk_of_self, max_sequence-length, rows_of-same}
use forgeci.JobLog.Contiguity.{added-IsContiguous, append_job_log-next, has_job_row-same}
use forgeci.JobLog.Table.{LogChunk, LogTable, append_job_log, has_job_row, is_valid, rows_of, stamp}
use forgeci.JobLog.Writer.{Writer, Written, max_chunk, next_chunk, write, write_loop}
use forgeci.LogQueue.{Stream, is_stream}

unfoldable pub payloads : List LogChunk → List ℕ
payloads [] = []
payloads (r ∷ rs) = r.payload ++ payloads rs

payloads-snoc :
    (rs : List LogChunk) (c : LogChunk) → payloads (rs ++ c ∷ []) ≡ payloads rs ++ c.payload
unfolding payloads
payloads-snoc [] c = append-nil c.payload
payloads-snoc (r ∷ rs) c =
    ap (◌++◌ r.payload) (payloads-snoc rs c) ∙ sym (append_assoc r.payload (payloads rs) c.payload)

-- The writer is in step with the table: its job is there, and its number is that of the last chunk.
pub record InStep (w : Writer) (t : LogTable) : Type 0 where
  pub contiguous : IsContiguous t
  pub named : (str_eq w.run_id "" ≡ false) × (str_eq w.job_name "" ≡ false)
  pub exists : has_job_row w.run_id w.job_name t ≡ true
  pub last : w.sequence ≡ length (rows_of w.run_id w.job_name t.chunks)

next_chunk-is_valid :
    (stream : Stream) (b : ℕ) (bs : List ℕ) (w : Writer)
    → is_stream stream ≡ true
    → (str_eq w.run_id "" ≡ false) × (str_eq w.job_name "" ≡ false)
    → is_valid (next_chunk stream (b ∷ bs) w) ≡ true
unfolding is_valid next_chunk
next_chunk-is_valid stream b bs w known named =
    let size = length-take (min (length (b ∷ bs)) max_chunk) (b ∷ bs) (omega arith) in
    ground (arith, size)

-- The round of the loop that appends a chunk.
round-InStep :
    (clock : ℕ) (stream : Stream) (b : ℕ) (bs : List ℕ) (w : Writer) (t : LogTable)
    → is_stream stream ≡ true
    → InStep w t
    → let c = next_chunk stream (b ∷ bs) w in
      let t' = record t { chunks = t.chunks ++ stamp clock c ∷ [] } in
      (append_job_log clock c t ≡ ok t')
      × InStep (record w { sequence = w.sequence + 1 }) t'
      × (payloads (rows_of w.run_id w.job_name t'.chunks)
          ≡ payloads (rows_of w.run_id w.job_name t.chunks) ++ c.payload)
unfolding next_chunk stamp
round-InStep clock stream b bs w t known s =
    let c = next_chunk stream (b ∷ bs) w in
    let rows = rows_of w.run_id w.job_name t.chunks in
    let grown =
      rows_of-same w.run_id w.job_name t.chunks (stamp clock c)
        (is_chunk_of_self (stamp clock c)) in
    let number = max_sequence-length rows (s.contiguous w.run_id w.job_name) in
    (
      append_job_log-next clock c t s.contiguous (next_chunk-is_valid stream b bs w known s.named)
          s.exists (omega (arith, s.last)),
      record {
        contiguous =
            added-IsContiguous (stamp clock c) t s.contiguous (omega (arith, s.last, number));
        named = s.named;
        exists =
            has_job_row-same w.run_id w.job_name t
              (record t { chunks = t.chunks ++ stamp clock c ∷ [] }) refl
            ∙ s.exists;
        last = omega (
          arith,
          s.last,
          ap (length {A = LogChunk}) grown,
          length-append rows (stamp clock c ∷ []),
        );
      },
      ap payloads grown ∙ payloads-snoc rows (stamp clock c),
    )

loop-next :
    {T : Type 0} (append : LogChunk → T → Result T) (fuel : ℕ) (stream : Stream) (b : ℕ)
    (bs : List ℕ) (offset : ℕ) (w : Writer) (s s' : T)
    → append (next_chunk stream (b ∷ bs) w) s ≡ ok s'
    → let n = min (length (b ∷ bs)) max_chunk in
      write_loop append (suc fuel) (λ _. false) stream (b ∷ bs) offset w s
      ≡ write_loop append fuel
          (λ _. false)
          stream
          (drop n (b ∷ bs))
          (offset + n)
          (record w { sequence = w.sequence + 1 })
          s'
unfolding write_loop
loop-next append fuel stream b bs offset w s s' h = rw h

-- All of `rest` has been written: it stands at the end of the log, and the writer is in step.
abbrev pub IsWritten : List ℕ → ℕ → Writer → LogTable → Written LogTable → Type 0
IsWritten rest offset w t r =
    (r.count ≡ offset + length rest)
    × (r.error ≡ none)
    × (InStep r.writer r.store)
    × (payloads (rows_of w.run_id w.job_name r.store.chunks)
        ≡ payloads (rows_of w.run_id w.job_name t.chunks) ++ rest)

-- A write that the context does not end.
loop-IsWritten :
    (clock fuel : ℕ) (stream : Stream) (rest : List ℕ) (offset : ℕ) (w : Writer) (t : LogTable)
    → is_stream stream ≡ true
    → length rest < fuel
    → InStep w t
    → IsWritten rest offset w t
        (write_loop (append_job_log clock) fuel (λ _. false) stream rest offset w t)
unfolding next_chunk
loop-IsWritten clock zero stream rest offset w t known h s = absurd (omega arith)
loop-IsWritten clock (suc fuel) stream [] offset w t known h s =
    unfold write_loop in (omega arith, refl, s, sym (append-nil _))
loop-IsWritten clock (suc fuel) stream (b ∷ bs) offset w t known h s =
    let (sent, s', grown) = round-InStep clock stream b bs w t known s in
    let n = min (length (b ∷ bs)) max_chunk in
    let left = length-drop n (b ∷ bs) in
    let (count, error, step, logged) =
      loop-IsWritten clock fuel stream (drop n (b ∷ bs)) (offset + n)
        (record w { sequence = w.sequence + 1 })
        (record t { chunks = t.chunks ++ stamp clock (next_chunk stream (b ∷ bs) w) ∷ [] }) known
        (omega (arith, left)) s' in
    subst (IsWritten (b ∷ bs) offset w t)
      (sym (loop-next (append_job_log clock) fuel stream b bs offset w t _ sent))
      (
        omega (arith, count, left),
        error,
        step,
        logged
            ∙ ap (λ zs. zs ++ drop n (b ∷ bs)) grown
            ∙ append_assoc (payloads (rows_of w.run_id w.job_name t.chunks)) (take n (b ∷ bs))
                (drop n (b ∷ bs))
            ∙ ap (◌++◌ (payloads (rows_of w.run_id w.job_name t.chunks)))
                (take-append-drop n (b ∷ bs)),
      )

write-starts :
    {T : Type 0} (append : LogChunk → T → Result T) (stream : Stream) (p : List ℕ) (w : Writer)
    (s : T)
    → w.first_err ≡ none
    → write append (λ _. false) stream p w s
      ≡ write_loop append (suc (length p)) (λ _. false) stream p 0 w s
unfolding write write_loop
write-starts append stream [] w s fine = refl
write-starts {T} append stream (b ∷ bs) w s fine =
    ap
      (λ (e : Option Error). elim e as (λ _. Written T) [
        | some e ↦ record { count = 0; error = some e; writer = w; store = s }
        | none ↦ write_loop append (suc (length (b ∷ bs))) (λ _. false) stream (b ∷ bs) 0 w s
      ])
      fine

-- If a writer with no error is in step with the table, then a Write on one of the two streams, while
-- the context is not done, takes all bytes and reports no error; the log of the job is what it was
-- with these bytes at its end, and the writer is in step again.
pub write-IsWritten :
    (clock : ℕ) (stream : Stream) (p : List ℕ) (w : Writer) (t : LogTable)
    → is_stream stream ≡ true
    → w.first_err ≡ none
    → InStep w t
    → IsWritten p 0 w t (write (append_job_log clock) (λ _. false) stream p w t)
write-IsWritten clock stream p w t known fine s =
    subst (IsWritten p 0 w t) (sym (write-starts (append_job_log clock) stream p w t fine))
      (loop-IsWritten clock (suc (length p)) stream p 0 w t known (omega arith) s)
