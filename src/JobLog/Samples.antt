-- ===== src/JobLog/Samples.antt =====
-- A job with an empty log, and its writer: the theorems at it.
use forgeci.Base.{[], false, none, ok, refl, select_first, select_where, str_eq, ◌∷◌, ◌≡◌}
use forgeci.JobLog.Append.{IsContiguous}
use forgeci.JobLog.Contiguity.{IsGrown, append_job_logs-IsGrown, append_job_logs-again}
use forgeci.JobLog.Session.{InStep, IsWritten, write-IsWritten}
use forgeci.JobLog.Table.{
  LogChunk, LogTable, append_job_log, append_job_logs, has_job_row, is_valid, is_valid_batch,
  max_sequence, put_chunk, put_chunks, rows_of, stamp,
}
use forgeci.JobLog.Writer.{Writer, new_writer, write}
use forgeci.LogQueue.{stdout}

abbrev no_log : LogTable
no_log = record { jobs = ("r", "build") ∷ []; chunks = [] }

abbrev fresh_writer : Writer
fresh_writer = new_writer "r" "build"

abbrev first_chunk : LogChunk
first_chunk = record {
  run_id = "r";
  job_name = "build";
  sequence = 1;
  stream = stdout;
  payload = 5 ∷ [];
  created_at = none;
}

abbrev one_chunk : LogTable
one_chunk = record { jobs = ("r", "build") ∷ []; chunks = stamp 9 first_chunk ∷ [] }

no_log-IsContiguous : IsContiguous no_log
unfolding rows_of select_where
no_log-IsContiguous id job = tt

append_first : append_job_logs 9 (first_chunk ∷ []) no_log ≡ ok one_chunk
unfolding append_job_logs is_valid_batch is_valid str_eq has_job_row put_chunks put_chunk
    select_first rows_of select_where stamp max_sequence
append_first = refl

append_job_logs-IsGrown_example : IsGrown no_log one_chunk
append_job_logs-IsGrown_example =
    append_job_logs-IsGrown 9 (first_chunk ∷ []) no_log one_chunk no_log-IsContiguous append_first

append_job_logs-again_example : append_job_logs 12 (first_chunk ∷ []) one_chunk ≡ ok one_chunk
append_job_logs-again_example =
    append_job_logs-again 9 12 (first_chunk ∷ []) no_log one_chunk append_first

fresh_writer-InStep : InStep fresh_writer no_log
unfolding new_writer has_job_row rows_of str_eq select_where
fresh_writer-InStep = record {
  contiguous = no_log-IsContiguous;
  named = (refl, refl);
  exists = refl;
  last = refl;
}

write-IsWritten_example :
    IsWritten
      (104 ∷ 105 ∷ [])
      0
      fresh_writer
      no_log
      (write (append_job_log 9) (λ _. false) stdout (104 ∷ 105 ∷ []) fresh_writer no_log)
unfolding new_writer
write-IsWritten_example =
    write-IsWritten 9 stdout (104 ∷ 105 ∷ []) fresh_writer no_log refl refl fresh_writer-InStep
