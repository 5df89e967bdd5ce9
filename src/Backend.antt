-- ===== src/Backend.antt =====
-- internal/backend/execution_client.go: the relay buffer and the calls whose answers decide about jobs.
pub mod Relay
pub mod Delivery
pub mod Calls
pub mod Completion
