-- ===== src/Dispatcher/Handlers.antt =====
-- internal/dispatcher/handlers_unix.go: the handlers of the jobs that move the chunks of a dataset.
pub mod Paths
pub mod Merging
pub mod Chunks
pub mod Compound
pub mod Datasets
