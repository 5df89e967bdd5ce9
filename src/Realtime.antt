-- ===== src/Realtime.antt =====
-- internal/realtime/supabase_realtime.go: the client that polls the backend for jobs.
-- Times are nanoseconds. The environment, the clock, the random draws and the answers of the backend
-- are arguments.
pub mod Intervals
pub mod Offers
pub mod Client
pub mod Loops
pub mod Environment
pub mod Bounds
pub mod Cadence
pub mod Reoffer
pub mod Dispatches
