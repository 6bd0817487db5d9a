-- ===== src/Store.antt =====
-- internal/store/store.go and the tables of internal/store/postgres: the rows that the operations
-- on runs, jobs, runners, artifacts and logs read and change. A uuid and a time are numbers, since
-- the code only compares them; a nullable column is an Option.
pub mod Tables
pub mod Settle
pub mod Ownership
pub mod Leasing
pub mod Jobs
pub mod Runs
pub mod RunLeases
pub mod Calls
pub mod Steps
pub mod Artifacts
pub mod Commits
pub mod Creation
pub mod Example
mod Samples
