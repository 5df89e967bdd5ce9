-- ===== src/Tests.antt =====
-- Concrete pools, stores, locks, filters and merges, and the theorems at them.
mod Pool
mod Jobs
mod Seccomp
mod Locks
mod Merges
mod Recoveries
mod Http
mod Polls
mod Chunks
mod Compound
mod Executions
mod Environments
mod Plugins
mod Relay
