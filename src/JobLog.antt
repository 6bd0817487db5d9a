-- ===== src/JobLog.antt =====
-- internal/store/postgres/job_logs.go: the durable log of each job, a table of numbered chunks. A
-- created_at of `none` is Go's zero time; `clock` is the time that the Go code reads.
pub mod Table
pub mod Append
pub mod Contiguity
pub mod Writer
pub mod Session
mod Samples
