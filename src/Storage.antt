-- ===== src/Storage.antt =====
-- internal/storage/config.go: where the objects of a dataset stand, and the backends that hold them.
pub mod Keys
pub mod Backends
pub mod Mount
pub mod Clean
