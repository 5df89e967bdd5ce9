-- ===== src/Plugin.antt =====
-- internal/plugin: the trust in plugins, their versions and their rollout.
pub mod Keys
pub mod Verify
pub mod Versions
pub mod Trust
pub mod Order
