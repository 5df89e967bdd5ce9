-- ===== src/Sandbox.antt =====
-- internal/sandbox: the system call filter that a plugin runs under, and the way into it.
pub mod Seccomp
