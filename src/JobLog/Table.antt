-- ===== src/JobLog/Table.antt =====
-- internal/store/postgres/job_logs.go: AppendJobLog, AppendJobLogs and ListJobLogs on the table
-- job_log_chunks, with the keys of the table job_runs.
use forgeci.Base.{
  Bool, List, Option, Result, String, [], any, conflict, err, false, guard, if◌then◌else◌, leb,
  length, ltb, max, min, none, not, not_found, ok, or_else, refused, select_first, select_where,
  some, str_eq, take, true, ℕ, ◌&&◌, ◌++◌, ◌+◌, ◌==◌, ◌>>=◌, ◌>>◌, ◌∷◌,
}
use forgeci.LogQueue.{Stream, is_stream, other, stderr, stdout}

pub record LogChunk : Type 0 where
  pub run_id : String
  pub job_name : String
  pub sequence : ℕ
  pub stream : Stream
  pub payload : List ℕ
  pub created_at : Option ℕ

pub record LogTable : Type 0 where
  pub jobs : List (String × String)
  pub chunks : List LogChunk

abbrev pub max_job_log_chunk : ℕ
max_job_log_chunk = 65536

unfoldable pub stream_eq : Stream → Stream → Bool
stream_eq stdout stdout = true
stream_eq stderr stderr = true
stream_eq (other a) (other b) = str_eq a b
stream_eq _ _ = false

unfoldable pub bytes_eq : List ℕ → List ℕ → Bool
bytes_eq [] [] = true
bytes_eq (x ∷ xs) (y ∷ ys) = (x == y) && bytes_eq xs ys
bytes_eq _ _ = false

unfoldable pub has_job_row : String → String → LogTable → Bool
has_job_row run job t = any (λ k. str_eq k.0 run && str_eq k.1 job) t.jobs

abbrev pub is_chunk_of : String → String → LogChunk → Bool
is_chunk_of run job r = str_eq r.run_id run && str_eq r.job_name job

-- The rows of one job, in the order in which they were inserted.
unfoldable pub rows_of : String → String → List LogChunk → List LogChunk
rows_of run job rows = select_where (is_chunk_of run job) rows

-- COALESCE(max(sequence),0).
unfoldable pub max_sequence : List LogChunk → ℕ
max_sequence [] = 0
max_sequence (r ∷ rs) = max r.sequence (max_sequence rs)

unfoldable pub is_valid : LogChunk → Bool
is_valid c =
    not (str_eq c.run_id "")
    && (not (str_eq c.job_name "")
        && (leb 1 c.sequence
            && (not (length c.payload == 0)
                && (leb (length c.payload) max_job_log_chunk && is_stream c.stream))))

unfoldable pub stamp : ℕ → LogChunk → LogChunk
stamp clock c = record c { created_at = or_else c.created_at clock }

-- The statements that AppendJobLog and each round of AppendJobLogs make for one chunk.
unfoldable pub put_chunk : LogChunk → LogTable → Result LogTable
put_chunk c t =
    elim (select_first (λ r. r.sequence == c.sequence) (rows_of c.run_id c.job_name t.chunks)) [
      | some r ↦
          if stream_eq r.stream c.stream && bytes_eq r.payload c.payload then ok t else err conflict
      | none ↦
          if c.sequence == max_sequence (rows_of c.run_id c.job_name t.chunks) + 1
          then ok (record t { chunks = t.chunks ++ c ∷ [] })
          else err conflict
    ]

unfoldable pub append_job_log : ℕ → LogChunk → LogTable → Result LogTable
append_job_log clock c t = do
  guard (is_valid c) (refused "invalid job log chunk")
  guard (has_job_row c.run_id c.job_name t) not_found
  put_chunk (stamp clock c) t

-- The check of a batch against its first chunk; `previous` is the number before.
unfoldable pub is_valid_batch : LogChunk → ℕ → List LogChunk → Bool
is_valid_batch first previous [] = true
is_valid_batch first previous (c ∷ cs) =
    (is_valid c
      && (str_eq c.run_id first.run_id
          && (str_eq c.job_name first.job_name && ltb previous c.sequence)))
    && is_valid_batch first c.sequence cs

unfoldable pub put_chunks : ℕ → List LogChunk → LogTable → Result LogTable
put_chunks clock [] t = ok t
put_chunks clock (c ∷ cs) t = do t' ← put_chunk (stamp clock c) t; put_chunks clock cs t'

unfoldable pub append_job_logs : ℕ → List LogChunk → LogTable → Result LogTable
append_job_logs clock [] t = err (refused "invalid job log batch")
append_job_logs clock (first ∷ rest) t = do
  guard (is_valid_batch first 0 (first ∷ rest)) (refused "invalid job log batch")
  guard (has_job_row first.run_id first.job_name t) not_found
  put_chunks clock (first ∷ rest) t

-- `limit` below 1 asks for the default.
abbrev pub clamp_limit : ℕ → ℕ
clamp_limit limit = min (if limit == 0 then 256 else limit) 1000

-- The rows stand in the table in the order of their numbers, so ORDER BY leaves them.
unfoldable pub list_job_logs :
    String → String → (after limit : ℕ) → LogTable → Result (List LogChunk)
list_job_logs run job after limit t = do
  guard (has_job_row run job t) not_found
  ok (
      take (clamp_limit limit)
        (select_where (λ r. ltb after r.sequence) (rows_of run job t.chunks)))
