-- ===== src/JobLog/Writer.antt =====
-- internal/joblog/writer.go and session.go: a writer cuts what a job prints into chunks and appends
-- them to the durable log under one running number for both streams.
use forgeci.Base.{
  Bool, Error, List, Option, Result, String, [], drop, err, if◌then◌else◌, is_some, length, min,
  none, ok, refused, some, suc, take, zero, ℕ, ◌++◌, ◌+◌, ◌∷◌,
}
use forgeci.JobLog.Table.{LogChunk}
use forgeci.LogQueue.{Stream}

-- `append` is the AppendJobLog of the store, on a store of type T.
pub record Writer : Type 0 where
  pub run_id : String
  pub job_name : String
  pub sequence : ℕ
  pub first_err : Option Error

unfoldable pub new_writer : String → String → Writer
new_writer run job = record { run_id = run; job_name = job; sequence = 0; first_err = none }

abbrev pub max_chunk : ℕ
max_chunk = 65536

-- What a Write returns, and the writer and the store that it leaves.
pub record Written (T : Type 0) : Type 0 where
  pub count : ℕ
  pub error : Option Error
  pub writer : Writer
  pub store : T

unfoldable pub next_chunk : Stream → List ℕ → Writer → LogChunk
next_chunk stream rest w = record {
  run_id = w.run_id;
  job_name = w.job_name;
  sequence = w.sequence + 1;
  stream = stream;
  payload = take (min (length rest) max_chunk) rest;
  created_at = none;
}

abbrev pub context_canceled : Error
context_canceled = refused "context canceled"

module _ {T : Type 0} (append : LogChunk → T → Result T) where
  -- The loop of Write, with the bytes that are left; `ended` says at which offsets it finds the
  -- context done. Each round takes a byte at least, so one more than the length is enough fuel.
  unfoldable pub write_loop :
      ℕ → (ℕ → Bool) → Stream → List ℕ → (offset : ℕ) → Writer → T → Written T
  write_loop zero ended stream rest offset w s = record {
    count = offset;
    error = none;
    writer = w;
    store = s;
  }
  write_loop (suc fuel) ended stream [] offset w s = record {
    count = offset;
    error = none;
    writer = w;
    store = s;
  }
  write_loop (suc fuel) ended stream (b ∷ bs) offset w s =
      if ended offset
      then record { count = offset; error = some context_canceled; writer = w; store = s }
      else elim (append (next_chunk stream (b ∷ bs) w) s) [
        | err e ↦ record {
          count = offset;
          error = some e;
          writer = record w { first_err = some e };
          store = s;
        }
        | ok s' ↦
            write_loop fuel ended stream (drop (min (length (b ∷ bs)) max_chunk) (b ∷ bs))
              (offset + min (length (b ∷ bs)) max_chunk) (record w { sequence = w.sequence + 1 }) s'
      ]

  unfoldable pub write : (ℕ → Bool) → Stream → List ℕ → Writer → T → Written T
  write ended stream [] w s = record { count = 0; error = none; writer = w; store = s }
  write ended stream (b ∷ bs) w s = elim w.first_err [
    | some e ↦ record { count = 0; error = some e; writer = w; store = s }
    | none ↦ write_loop (suc (length (b ∷ bs))) ended stream (b ∷ bs) 0 w s
  ]

  -- The tee of a session: what the durable log has taken goes on to the live output, whose write
  -- cannot fail here; `none` is a nil destination.
  unfoldable pub tee_write :
      (ℕ → Bool) → Stream → List ℕ → Writer → T → Option (List ℕ) → Written T × Option (List ℕ)
  tee_write ended stream p w s none = (write ended stream p w s, none)
  tee_write ended stream p w s (some out) =
      let r = write ended stream p w s in
      (r, some (if is_some r.error then out else out ++ take r.count p))
