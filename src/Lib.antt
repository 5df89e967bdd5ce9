-- ===== src/Lib.antt =====
-- SentraZero agent: a model of the parts of the Go agent that decide which jobs run, how often, in
-- which sandbox, and what becomes of the data that they leave.
--
-- The program. A backend offers jobs; the dispatcher (internal/dispatcher) takes them into a bounded
-- queue, keeps each job and each execution step from running twice, and runs them on a pool of
-- workers. A worker verifies the job's lease with the backend, starts a heartbeat, routes the job to
-- a handler or to the plugin executor, and reports the end. Plugins run under a seccomp filter
-- (internal/sandbox). The polling client (internal/realtime) fetches the jobs and submits them. The
-- executor of plugin code (cmd/agent/executor/v2) runs it in environments from a pool
-- (cmd/agent/runtime/v2). The chunks of a dataset are merged into one file (internal/dataset), under a
-- lock for each dataset: a chunk's handler takes its input from the storage (internal/storage), runs a
-- plugin on it, or the plugins of a compound job one after the other, and puts the result back, and
-- the merge's handler puts the results together. At shutdown the dispatcher reports the jobs that it
-- still holds and releases the merge locks.
--
-- Files and what they model:
--   Base: shared names; tests on numbers, lists with a native length, sets of names as lists without
--     repetition (Base/Names), Go maps as association lists (Base/Dict), signed integers (Base/Int),
--     decimal texts (Base/Decimal).
--   Dispatcher/Payload: a job's JSON payload as what decoding yields.
--   Dispatcher/Dedup: internal/dispatcher/job_dedup.go. `Store` is JobDeduplicationStore with the file
--     on disk; contains, add, remove, count, cleanup, load, save, snapshot_worker and close are the
--     methods of the same names, each with its reading of the clock as an argument.
--     Dedup/Window and Dedup/Cleanup hold the proofs.
--   Dispatcher/Pool: internal/dispatcher/worker_pool.go. `Pool` is the package's variables.
--     Pool/Submit is SubmitJobWithMeta, Pool/Execute is executeJobSafe, Pool/Workers is
--     InitWorkerPool, startWorker, SetMaxWorkers, StopWorkerPool, ReportInFlightFailures and the
--     metrics. Pool/Steps is the pool as a transition system. Proofs: Pool/Admission and
--     Pool/Rejection (submissions), Pool/Outcomes and Pool/Reports (executions), Pool/Resize,
--     Pool/Shutdown; Pool/Claims, Pool/Acceptance, Pool/Workforce and Pool/Exclusive (an invariant
--     over all histories).
--   Dispatcher/Routing: internal/dispatcher/execute.go, extractJobMeta and ExecuteJob. Proofs in
--     Routing/Routes.
--   Dispatcher/Handlers: internal/dispatcher/handlers_unix.go. Handlers/Merging is executeMergeDataset and
--     executeConcatMerge up to the call of StreamMerge, Merging/Whole the handler with this call, tree
--     merges and merges that compress being an argument. Handlers/Chunks is what the handlers of one chunk
--     share; Chunks/Process is executeProcessChunk with its choice, Chunks/Plain its own work,
--     Chunks/Ranges executeProcessChunkByteRange and Chunks/Lists executeProcessChunkFileList.
--     Handlers/Compound is executePluginStepEx and executeCompoundProcessChunk: Compound/Inputs finds the
--     input of a step, Compound/Loop runs the steps, Compound/Finish stores the result. Its loop is a
--     recursion on the list of the steps. Proofs in Compound/Progress, Compound/Results,
--     Compound/Places, Compound/Chain, Compound/Chained, Compound/Sourced, Compound/Stored,
--     Compound/Completion, Compound/Whole and, against plain jobs, Compound/Equivalence.
--     Handlers/Datasets puts the jobs and the merge of a dataset together. Proofs there and in
--     Merging/Stored, Merging/Ordered, Merging/Failures, Chunks/Results, Chunks/Pipeline, Chunks/Steps and
--     Chunks/Others.
--   Storage: internal/storage/config.go. Storage/Keys is GetRemotePathWithSlug, Storage/Backends the
--     interface StorageBackend with the laws that the handlers rely on and NewBackend, Storage/Mount
--     is SharedMountBackend, on the clean paths of Storage/Clean (filepath.Join, Clean and Rel), with
--     laws of its own, since two keys may stand for one file. Where each path leads is in Clean/Leads.
--   Sandbox/Seccomp: internal/sandbox/seccomp_linux.go. Seccomp/Syscalls is the two allowlists,
--     Seccomp/Filter is buildSeccompFilter, Seccomp/Exec is SeccompExec and NoNewPrivsExec. Proofs in
--     Filter/Verdict and, for system calls that the source names as excluded, Filter/Excluded.
--   Dataset/Lock: internal/dataset/lock.go. Lock/Backend is InMemoryMergeLockBackend, Lock/Manager is
--     MergeLockManager over any backend, with ReleaseAllMergeLocks of worker_pool.go. Proofs in
--     Lock/Exclusion, Lock/Keyed and Lock/Shutdown.
--   Dataset/Merge: internal/dataset/merge.go. Merge/Plan is calculateRequiredSpace, planTreeMerge and
--     computeDatasetChecksum up to the hash, Merge/Loop is StreamMerge and cleanupChunks. Proofs in
--     Merge/Stages, Merge/Output and Merge/Resume.
--   Dataset/Recovery: internal/dataset/recovery.go, with the directory of the states as a map from
--     dataset ids; Recovery/Resumption is ResumeMergeFromRecovery on top of StreamMerge. Proofs in
--     Recovery/Stores, Recovery/Stale and Recovery/Losses.
--   HttpClient: internal/httpclient/client.go, DoWithReq and MaskToken. Proofs in HttpClient/Retries
--     and HttpClient/Mask.
--   Realtime: internal/realtime/supabase_realtime.go. Realtime/Intervals is loadIntervalsFromEnv,
--     jittered and nextPollInterval, Realtime/Offers is the jobs of a response, Realtime/Client is
--     fetchNewJobs, which calls the model's SubmitJobWithMeta, with the set of sent jobs and
--     MarkJobProcessed of internal/redis/client.go; Realtime/Loops is the two loops, a round as a
--     function of its event. Proofs in Realtime/Environment, Realtime/Bounds, Realtime/Cadence,
--     Realtime/Dispatches and Realtime/Reoffer.
--   Executor: cmd/agent/executor/v2/executor.go. Executor is the runs and the retries,
--     Executor/Classify is classifyError, Executor/Jobs is ExecuteJob with the record of jobs. Proofs
--     in Executor/Runs and Jobs/Records.
--   Environments: cmd/agent/runtime/v2/manager.go. Pointers to environments are positions in a store.
--     Environments/Pool is AcquireEnvironment, ReleaseEnvironment, InvalidateEnvironment and Shutdown,
--     Environments/Eviction is runEviction with its goroutines, Environments/Manager is
--     ExecuteWithMetrics; Keys, Validity, Config and Metrics are the helpers. Proofs in
--     Environments/Sharing, Capacity, Histories, Accounting and Waiting.
--   Plugin: internal/plugin. Plugin/Keys and Plugin/Verify are verify.go and
--     verifyManifestSignatureFromEnv of manager.go, Plugin/Versions is isNewerVersion of update.go and
--     ShouldRunPlugin of db_sync.go. Proofs in Plugin/Trust and Plugin/Order.
--   Backend: internal/backend/execution_client.go. Backend/Relay is the buffer of relay events with its
--     flusher, Backend/Calls the answers of CompleteJob, VerifyJobLease, RequestJobAssignment and
--     GetAssignedJobs. Proofs in Backend/Delivery and Backend/Completion.
--   Tests: concrete states, and each theorem at one of them.
--
-- How the code is rendered. A handler or method is one function from its arguments, the outside's
-- answers and the state to the state and its result. Calls of the backend are events in the pool's
-- log; their answers, the clock, the file system and the handlers are arguments. Goroutines are
-- explicit steps. A call that blocks is two steps, up to the wait and from its end on. Go's `%v`
-- messages are constructors of an error type. The objects of a backend are a map of their own, apart
-- from the agent's local files: what the handlers write to a shared mount as plain files is among the
-- local files, not among the mount's objects. Every loop is structural recursion on the list that it
-- runs over, or on the number of its rounds, so there is no fuel.
-- Floating-point products of the polling intervals are exact, cut to whole nanoseconds at the end.
-- Numbers are natural numbers where the code's are not negative, without an upper bound, except the
-- jump distances of the filter, which are cut to eight bits, and the backoff of the HTTP client, which
-- wraps in 64 bits, as the code does.
--
-- What stands outside. The kernel's BPF machine is a record of the documented laws of the four
-- instructions that the filter uses (`Kernel`); Tests/Seccomp has a machine that meets them. The
-- merge takes what each path holds and what each system call answers. Base64, SHA-256 and Ed25519 are a
-- record of functions (`Crypto`). Plugins, and what the handlers ask of files and networks, are a record
-- too (`Machine`, `World`), and the S3 backends are any backend with the laws `IsStore`.
--
-- Not modelled: the interleavings inside one submission, one execution or one acquisition of an
-- environment; symbolic links; logging; payload fields of a wrong JSON type; the compressing branch of
-- the merge, StreamMergeTree and the merge's metrics; the scan and the ingestion of datasets; the
-- language runtimes, the remote cache and the measurements of a run; the download and installation of
-- plugins, the other calls of the backend, the S3 clients and the download of the storage
-- configuration, the sandboxes of other systems, and the start-up code. The routing takes the handlers
-- and the executor as arguments.
pub mod Base
pub mod Dispatcher
pub mod Realtime
pub mod Executor
pub mod Environments
pub mod Plugin
pub mod Backend
pub mod Sandbox
pub mod Storage
pub mod Dataset
pub mod HttpClient
pub mod Tests
