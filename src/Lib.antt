-- ===== src/Lib.antt =====
-- forgeci is a CI system: a control plane keeps runs and their jobs in Postgres, remote runners
-- lease jobs from it, execute them, send their output and artifacts back and report how they
-- ended. This library models the parts that decide what happens to a run, a job, a lease and a
-- log line, and proves what the rest of the system relies on.
--
-- Base, with Base/Tests, Lists, Rows, Text and Results: shared helpers. Rows holds what the SQL
--   statements are made of (update_where for UPDATE .. WHERE, select_where, select_first and
--   select_least for SELECT, rows_affected), Results the error values.
--
-- Config: internal/config. Config has the records of config.go, Config/Paths the functions of
--   Go package path, Checks and Validation the checks of validation.go, Parser Parse over a
--   YAML decoder, Elements and SafePaths what a safe path is. A string is looked into as the
--   list of its code points (Base/CodePoints); an error is a constructor that names what the
--   message names.
--
-- Store: the tables of Postgres as a record of lists, and the operations of
--   internal/store/postgres/jobs.go and postgres.go as functions on it. One call is one
--   transaction, so an error leaves the database as it was. Store/Tables has the rows and
--   statuses, Store/Ownership the test of a lease and of the artifact set, Store/Settle
--   blockDependents and finalizeRun, Store/Leasing LeaseJob, Store/Jobs the other operations on
--   job leases, Store/Runs those on runs, Store/RunLeases the older protocol, which leases a
--   whole run to one runner, Store/Artifacts the reading and the expiry of artifacts,
--   Store/Commits CommitArtifacts and GetRun, with Store/Commits/Repeats for a commit that is
--   sent twice, Store/Creation CreateRun and ListRuns, Store/Example rows for tests.
--   Store/Calls has what one operation does to the job rows, Store/Steps the operations as
--   steps of a relation; UpdateJob and ReportJobEvent, which write a status without a lease of
--   the job, are not steps. Time is a natural number, an argument of each operation.
--
-- LogQueue: the queue of internal/runner/log_queue.go that holds a job's output until the
--   control plane has acknowledged it.
--
-- JobLog: internal/store/postgres/job_logs.go (Table) and the writer of internal/joblog
--   (Writer), which cuts a job's output into numbered chunks.
--
-- Runner: internal/runner/runner.go, the scheduler of a pipeline in one process. Run is a loop
--   whose turns meet a completion or the end of the context; Runner/Schedule and Rounds have
--   its invariant, Ending and Termination its end, Sweep what blocking leaves, Progressing that
--   no job is left waiting, Correctness the other theorems, Compiled the run of a graph that
--   Compile has made of an accepted pipeline, Attempt executeJob.
--
-- Compiler: internal/pipeline, the graph that Run executes and Compile, which makes it.
--   Compiler/Names counts names in lists, Balance and Order have the loop, Links the
--   dependents, Coverage the measure by which the loop ends with no job ready, Correctness the
--   order, Complete that it has every job, Validated that an accepted pipeline is what Compile
--   needs, and Downloads that its artifacts are made. The fuel of the loop is one more than the
--   jobs that are ready and all indegrees, of which each round takes away at least one. An
--   indegree is a natural number: Compile lowers it once for each need.
--
-- CacheTable: internal/store/postgres/cache.go, the table of build caches. Blobs and Eviction
--   bound what ExpireCache leaves, Entries says that an entry does not change, and Cleanup that
--   the removal of orphaned blobs takes nothing from an entry.
--
-- BlobStore: internal/artifact/store.go, the content-addressed files of artifacts and caches.
--
-- Scm: internal/store/postgres/scm_deliveries.go, the claims on webhook deliveries
--   (Scm/Claims), and the retries of internal/scmworker/worker.go (Scm/Backoff).
--
-- Control: internal/controlplane/manager.go. Submit makes a run of a pipeline file
--   (Control/Submission), Cancel cancels one, and execute runs one in the server itself
--   (Control/Running, with what it writes in Control/Execution): the events are the changes of
--   job states that the observer is told of, the faults what the preparation of the workspace
--   and of the executors meets.
--
-- Protocol: internal/runnerproto, the HTTP requests of remote runners, and the routes of
--   cmd/forge-server/main.go. Protocol has the state of the server, the answers, a monad of the
--   server's state for handlers that return early, in which a change made before an early
--   answer stays, AuthMiddleware and validArtifactLease; Protocol/Requests what is read from a
--   URL, Runners, Jobs, Files and Caches the handlers, Routes HandleLeaseRoute and the routes.
--   Refinement relates each handler to the calls of the store, History has the runs of the
--   server, Silence the answers of an error, Fencing the requests under a claim that is lost
--   and Authority what an accepted request shows. A body is what the JSON decoder has made of
--   it, and uuid.Parse is a parameter.
--
-- How the parts interact: a handler of Protocol checks a request, asks validArtifactLease where
-- it reads or writes under a lease, and makes one call of Store, JobLog, CacheTable or
-- BlobStore; the runner's queue hands batches to AppendJobLogs and drops them when they are
-- acknowledged, so a batch may be sent twice; LeaseJob starts a lease whose generation fences
-- every later call under it; CompleteJob, ExpireJobLeases and RecoverRemoteJobs end leases and
-- settle the run.
--
-- Bounds and fuel: the loop of Compile has as many rounds as there are jobs that are ready and
-- degrees to lower, and one more; the loop that doubles a delay has as many rounds as there
-- were attempts; the loop that starts jobs has one round more than jobs may run; a run of n
-- jobs needs at most n + 2 turns; the loop of blockDependents has one round more than there are
-- pending jobs as fuel, each round but the last blocks one; the loop of Write has one round
-- more than there are bytes. Sums of sizes stay below 2^63 in the code and are natural numbers
-- here.
--
-- A poll for work meets a list of rounds, and has no answer yet when they are used up.
--
-- Not modelled: processes and containers, archives and files, the parts of HTTP that net/http
-- does, the API of the control plane, Git and GitHub, the SQL migrations but for the
-- constraints of cache_entries and those that CreateRun meets (of job_runs above all
-- job_lease_consistent, which refuses a row that is not RUNNING and has a lease), the
-- connection pool, and the errors of the database driver, which abort a transaction.
pub mod Base
pub mod BlobStore
pub mod CacheTable
pub mod Compiler
pub mod Config
pub mod Control
pub mod JobLog
pub mod LogQueue
pub mod Protocol
pub mod Runner
pub mod Scm
pub mod Store
