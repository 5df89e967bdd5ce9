-- ===== src/Sandbox/Seccomp/Filter.antt =====
-- `buildSeccompFilter` of internal/sandbox/seccomp_linux.go, and the kernel that runs its result.
pub mod Verdict
pub mod Excluded
use Prim.Native.Nat.{bit_or}
use sentrazero.Base.{
  ℕ, zero, suc, ◌+◌, ◌-◌, ◌%◌, ◌≡◌, ◌≢◌, ◌<◌, String, Bool, true, false, List, [], ◌∷◌, ◌++◌,
  length, drop, nat_eq, if◌then◌else◌,
}
use sentrazero.Sandbox.Seccomp.Syscalls.{allowed_syscalls_x86_64, allowed_syscalls_arm64}

-- A uint16 and two uint8 and a uint32; the values that the builder puts in are in range.
pub record SockFilter : Type 0 where
  pub code : ℕ
  pub jt : ℕ
  pub jf : ℕ
  pub k : ℕ

abbrev pub seccomp_ret_kill : ℕ
seccomp_ret_kill = 0x00000000

abbrev pub seccomp_ret_allow : ℕ
seccomp_ret_allow = 0x7fff0000

abbrev pub seccomp_ret_errno : ℕ
seccomp_ret_errno = 0x00050000

abbrev pub seccomp_eperm : ℕ
seccomp_eperm = 1

-- The three instructions: `bpfLD|bpfABS|bpfK`, `bpfJMP|bpfJEQ|bpfK` and `bpfRET|bpfK`.
abbrev pub ld_abs : ℕ
ld_abs = bit_or 0x00 0x20

abbrev pub jmp_jeq : ℕ
jmp_jeq = bit_or 0x05 0x10

abbrev pub ret_k : ℕ
ret_k = bit_or 0x06 0x00

abbrev pub seccomp_data_arch : ℕ
seccomp_data_arch = 4

abbrev pub seccomp_data_syscall_nr : ℕ
seccomp_data_syscall_nr = 0

abbrev pub bpf_stmt : ℕ → ℕ → SockFilter
bpf_stmt code k = record { code = code; jt = 0; jf = 0; k = k }

abbrev pub bpf_jump : ℕ → ℕ → ℕ → ℕ → SockFilter
bpf_jump code k jt jf = record { code = code; jt = jt; jf = jf; k = k }

-- `runtime.GOARCH`
pub data GoArch : Type 0 where
  amd64 arm64 i386 other : GoArch

unfoldable pub seccomp_supported_arch : GoArch → Bool
seccomp_supported_arch amd64 = true
seccomp_supported_arch arm64 = true
seccomp_supported_arch _ = false

unfoldable pub syscalls_for_arch : GoArch → List ℕ
syscalls_for_arch arm64 = allowed_syscalls_arm64
syscalls_for_arch _ = allowed_syscalls_x86_64

unfoldable pub detect_audit_arch : GoArch → ℕ
detect_audit_arch amd64 = 0xC000003E
detect_audit_arch i386 = 0x40000003
detect_audit_arch arm64 = 0xC00000B7
detect_audit_arch other = 0xC000003E

-- The loop over the allowlist: `i` is its index, `filled` the length of the filter so far, and a
-- jump's distance is cut to a uint8.
unfoldable pub syscall_checks : ℕ → ℕ → ℕ → ℕ → List ℕ → List SockFilter
syscall_checks n allow_idx i filled [] = []
syscall_checks n allow_idx i filled (nr ∷ rest) =
    bpf_jump jmp_jeq nr (if nat_eq i (n - 1) then 1 else (allow_idx - filled - 1) % 256) 0
    ∷ syscall_checks n allow_idx (i + 1) (filled + 1) rest

unfoldable pub filter_for : ℕ → List ℕ → List SockFilter
filter_for arch allowed =
    let n = length allowed in
    bpf_stmt ld_abs seccomp_data_arch
    ∷ (bpf_jump jmp_jeq arch 1 0
        ∷ (bpf_stmt ret_k seccomp_ret_kill
            ∷ (bpf_stmt ld_abs seccomp_data_syscall_nr
                ∷ (syscall_checks n (4 + n + 1) 0 4 allowed
                    ++ bpf_stmt ret_k (bit_or seccomp_ret_errno seccomp_eperm)
                      ∷ (bpf_stmt ret_k seccomp_ret_allow ∷ [])))))

unfoldable pub build_seccomp_filter : GoArch → List SockFilter
build_seccomp_filter goarch = filter_for (detect_audit_arch goarch) (syscalls_for_arch goarch)

-- The part of `seccomp_data` that the filter reads.
pub record SeccompData : Type 0 where
  pub nr : ℕ
  pub arch : ℕ

-- What the kernel documents of classic BPF: `exec program data acc` is the value that the program
-- returns from its first instruction on with that accumulator. Jumps only go forward.
pub record Kernel : Type 0 where
  pub exec : List SockFilter → SeccompData → ℕ → ℕ
  pub exec-load-nr :
      (i : SockFilter) (rest : List SockFilter) (d : SeccompData) (acc : ℕ)
      → i.code ≡ ld_abs
      → i.k ≡ 0
      → exec (i ∷ rest) d acc ≡ exec rest d d.nr
  pub exec-load-arch :
      (i : SockFilter) (rest : List SockFilter) (d : SeccompData) (acc : ℕ)
      → i.code ≡ ld_abs
      → i.k ≡ 4
      → exec (i ∷ rest) d acc ≡ exec rest d d.arch
  pub exec-jump :
      (i : SockFilter) (rest : List SockFilter) (d : SeccompData) (acc : ℕ)
      → i.code ≡ jmp_jeq
      → exec (i ∷ rest) d acc ≡ exec (drop (if nat_eq acc i.k then i.jt else i.jf) rest) d acc
  pub exec-return :
      (i : SockFilter) (rest : List SockFilter) (d : SeccompData) (acc : ℕ)
      → i.code ≡ ret_k
      → exec (i ∷ rest) d acc ≡ i.k
