-- ===== src/Dispatcher.antt =====
-- internal/dispatcher: the worker pool, its persistent deduplication store and the routing of jobs.
pub mod Payload
pub mod Dedup
pub mod Pool
pub mod Routing
pub mod Handlers
