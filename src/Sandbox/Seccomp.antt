-- ===== src/Sandbox/Seccomp.antt =====
-- internal/sandbox/seccomp_linux.go: the allowlist filter, as a classic BPF program.
pub mod Syscalls
pub mod Filter
pub mod Exec
