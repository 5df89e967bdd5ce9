-- ===== src/Tests/Seccomp.antt =====
-- A machine for classic BPF that has the documented behaviour, and runs of the filter on it.
use sentrazero.Base.{
  ℕ, zero, suc, ◌≡◌, refl, true, false, List, [], ◌∷◌, length, drop, nat_eq, if◌then◌else◌, arith,
}
use sentrazero.Sandbox.Seccomp.Filter.{
  SockFilter, ld_abs, jmp_jeq, ret_k, SeccompData, Kernel, amd64, build_seccomp_filter,
  seccomp_ret_kill, syscalls_for_arch, detect_audit_arch,
}
use sentrazero.Sandbox.Seccomp.Filter.Verdict.{listed, denial, exec-build_seccomp_filter}
use sentrazero.Sandbox.Seccomp.Exec.{Environment, installed}

-- The accumulator after an instruction, and how many instructions are jumped over.
acc_of : SockFilter → SeccompData → ℕ → ℕ
acc_of i d acc = if nat_eq i.code ld_abs then if nat_eq i.k 0 then d.nr else d.arch else acc

skip_of : SockFilter → ℕ → ℕ
skip_of i acc = if nat_eq i.code jmp_jeq then if nat_eq acc i.k then i.jt else i.jf else 0

run : ℕ → List SockFilter → SeccompData → ℕ → ℕ
unfolding acc_of skip_of
run skip [] d acc = seccomp_ret_kill
run (suc skip) (i ∷ rest) d acc = run skip rest d acc
run zero (i ∷ rest) d acc =
    let later = run (skip_of i acc) rest d (acc_of i d acc) in
    if nat_eq i.code ret_k then i.k else later

run-drop :
    (n : ℕ) (program : List SockFilter) (d : SeccompData) (acc : ℕ)
    → run n program d acc ≡ run 0 (drop n program) d acc
unfolding run
run-drop zero program d acc = refl
run-drop (suc n) [] d acc = refl
run-drop (suc n) (i ∷ rest) d acc = run-drop n rest d acc

run-load_nr :
    (i : SockFilter) (rest : List SockFilter) (d : SeccompData) (acc : ℕ)
    → i.code ≡ ld_abs
    → i.k ≡ 0
    → run 0 (i ∷ rest) d acc ≡ run 0 rest d d.nr
unfolding run acc_of skip_of
run-load_nr i rest d acc c k = rw (c, k) refl

run-load_arch :
    (i : SockFilter) (rest : List SockFilter) (d : SeccompData) (acc : ℕ)
    → i.code ≡ ld_abs
    → i.k ≡ 4
    → run 0 (i ∷ rest) d acc ≡ run 0 rest d d.arch
unfolding run acc_of skip_of
run-load_arch i rest d acc c k = rw (c, k) refl

run-jump :
    (i : SockFilter) (rest : List SockFilter) (d : SeccompData) (acc : ℕ)
    → i.code ≡ jmp_jeq
    → run 0 (i ∷ rest) d acc ≡ run 0 (drop (if nat_eq acc i.k then i.jt else i.jf) rest) d acc
unfolding run acc_of skip_of
run-jump i rest d acc c = rw c (run-drop (if nat_eq acc i.k then i.jt else i.jf) rest d acc)

run-return :
    (i : SockFilter) (rest : List SockFilter) (d : SeccompData) (acc : ℕ)
    → i.code ≡ ret_k
    → run 0 (i ∷ rest) d acc ≡ i.k
unfolding run acc_of skip_of
run-return i rest d acc c = rw c refl

abbrev machine : Kernel
machine = record {
  exec = run 0;
  exec-load-nr = run-load_nr;
  exec-load-arch = run-load_arch;
  exec-jump = run-jump;
  exec-return = run-return;
}

-- ptrace, number 101 on this architecture, is not on the list.
exec-build_seccomp_filter_example :
    machine.exec (build_seccomp_filter amd64) (record { nr = 101; arch = 0xC000003E }) 0 ≡ denial
unfolding listed syscalls_for_arch detect_audit_arch
exec-build_seccomp_filter_example =
    exec-build_seccomp_filter machine amd64 (record { nr = 101; arch = 0xC000003E })

repeat : ℕ → List ℕ
repeat zero = []
repeat (suc n) = 0 ∷ repeat n

length-repeat : (n : ℕ) → length (repeat n) ≡ n
unfolding repeat
length-repeat zero = refl
length-repeat (suc n) = omega (arith, length-repeat n)

unlisted : (n : ℕ) → listed 5 (repeat n) ≡ false
unfolding listed repeat
unlisted zero = refl
unlisted (suc n) = unlisted n

abbrev host : Environment
host = record {
  goarch = amd64;
  profile = "default";
  prctl = true;
  fallback_prctl = true;
  filter = installed;
  exec = true;
}
