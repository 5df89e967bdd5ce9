-- ===== src/Sandbox/Seccomp/Filter/Verdict.antt =====
-- The verdict of the filter on every system call.
use Prim.Native.Nat.{bit_or}
use sentrazero.Base.{
  ℕ, zero, suc, ◌+◌, ◌-◌, ◌%◌, ◌≤◌, ◌≡◌, refl, Bool, true, false, List, [], ◌∷◌, ◌++◌, length, drop,
  nat_eq, if◌then◌else◌, arith, ◌∙◌, Bool-cases, inl, inr, nat_eq_refl,
}
use sentrazero.Sandbox.Seccomp.Filter.{
  SockFilter, seccomp_ret_kill, seccomp_ret_allow, seccomp_ret_errno, seccomp_eperm, jmp_jeq, ret_k,
  bpf_stmt, bpf_jump, syscall_checks, filter_for, build_seccomp_filter, GoArch, detect_audit_arch,
  syscalls_for_arch, amd64, arm64, i386, other, SeccompData, Kernel,
}

-- Is the system call on the list?
unfoldable pub listed : ℕ → List ℕ → Bool
listed nr [] = false
listed nr (x ∷ xs) = if nat_eq nr x then true else listed nr xs

abbrev pub denial : ℕ
denial = bit_or seccomp_ret_errno seccomp_eperm

-- The two returns behind the list.
abbrev tail_of : List SockFilter
tail_of = bpf_stmt ret_k denial ∷ (bpf_stmt ret_k seccomp_ret_allow ∷ [])

drop-checks :
    (n allow_idx i filled : ℕ) (xs : List ℕ) (k : ℕ)
    → k ≡ length xs + 1
    → drop k (syscall_checks n allow_idx i filled xs ++ tail_of)
      ≡ bpf_stmt ret_k seccomp_ret_allow ∷ []
unfolding syscall_checks
drop-checks n allow_idx i filled [] k e = rw e
drop-checks n allow_idx i filled (x ∷ xs) zero e = absurd (omega arith)
drop-checks n allow_idx i filled (x ∷ xs) (suc k) e =
    drop-checks n allow_idx (i + 1) (filled + 1) xs k (omega arith)

-- The jump of entry `i` reaches the last instruction: the distance is not cut while 255 entries or
-- fewer are left.
distance :
    (n i filled len : ℕ)
    → i + suc len ≡ n
    → filled ≡ 4 + i
    → suc len ≤ 255
    → (if nat_eq i (n - 1) then 1 else (4 + n + 1 - filled - 1) % 256) ≡ len + 1
distance n i filled len e f h = ground arith

cut :
    (len : ℕ)
    → len ≡ 255
    → (if nat_eq 0 (suc len - 1) then 1 else (4 + suc len + 1 - 4 - 1) % 256) ≡ 0
cut len h = ground arith

module _ (machine : Kernel) where
  open machine use {exec, exec-load-nr, exec-load-arch, exec-jump, exec-return}

  exec-checks :
      (n i filled : ℕ) (xs : List ℕ) (d : SeccompData) (acc : ℕ)
      → i + length xs ≡ n
      → filled ≡ 4 + i
      → length xs ≤ 255
      → exec (syscall_checks n (4 + n + 1) i filled xs ++ tail_of) d acc
        ≡ (if listed acc xs then seccomp_ret_allow else denial)
  unfolding syscall_checks listed
  exec-checks n i filled [] d acc e f h = exec-return _ _ d acc refl
  exec-checks n i filled (x ∷ xs) d acc e f h =
      let rest = syscall_checks n (4 + n + 1) (i + 1) (filled + 1) xs ++ tail_of in
      let step =
        exec-jump
          (bpf_jump jmp_jeq x (if nat_eq i (n - 1) then 1 else (4 + n + 1 - filled - 1) % 256) 0)
          rest d acc refl in
      elim (Bool-cases (nat_eq acc x)) [
        | inl hit ↦
            rw (step, hit)
              (rw
                (drop-checks n (4 + n + 1) (i + 1) (filled + 1) xs _
                  (distance n i filled (length xs) e f h))
                (exec-return _ _ d acc refl))
        | inr miss ↦
            rw (step, miss)
              (exec-checks n (i + 1) (filled + 1) xs d acc (omega arith) (omega arith)
                (omega arith))
      ]

  -- The filter of an allowlist of up to 255 entries lets exactly the listed calls through, makes any
  -- other call of its own architecture fail with EPERM, and kills a call of another architecture.
  pub exec-filter_for :
      (arch : ℕ) (allowed : List ℕ) (d : SeccompData) (acc : ℕ)
      → length allowed ≤ 255
      → exec (filter_for arch allowed) d acc ≡ (
          if nat_eq d.arch arch
          then if listed d.nr allowed then seccomp_ret_allow else denial
          else seccomp_ret_kill)
  unfolding filter_for
  exec-filter_for arch allowed d acc h = elim (Bool-cases (nat_eq d.arch arch)) [
    | inl same ↦ rw same (
        exec-load-arch _ _ d acc refl refl
        ∙ (exec-jump _ _ d d.arch refl
            ∙ rw same (
                exec-load-nr _ _ d d.arch refl refl
                ∙ exec-checks (length allowed) 0 4 allowed d d.nr (omega arith) (omega arith) h)))
    | inr foreign ↦ rw foreign (
        exec-load-arch _ _ d acc refl refl
        ∙ (exec-jump _ _ d d.arch refl ∙ rw foreign (exec-return _ _ d d.arch refl)))
  ]

  -- On every architecture, the filter that is built for it lets a call of its audit architecture
  -- through exactly if its number is on the allowlist, makes any other such call fail with EPERM,
  -- and kills a call of another architecture.
  pub exec-build_seccomp_filter :
      (goarch : GoArch) (d : SeccompData)
      → exec (build_seccomp_filter goarch) d 0 ≡ (
          if nat_eq d.arch (detect_audit_arch goarch)
          then if listed d.nr (syscalls_for_arch goarch) then seccomp_ret_allow else denial
          else seccomp_ret_kill)
  unfolding build_seccomp_filter syscalls_for_arch
  exec-build_seccomp_filter goarch d =
      exec-filter_for (detect_audit_arch goarch) (syscalls_for_arch goarch) d 0 (short goarch)
    where
      short : (g : GoArch) → length (syscalls_for_arch g) ≤ 255
      short amd64 = omega arith
      short arm64 = omega arith
      short i386 = omega arith
      short other = omega arith

  -- The limit is sharp: the distance of the first of 256 entries is cut to 0, and its call is denied.
  pub filter_for_overflow :
      (arch x : ℕ) (xs : List ℕ)
      → length xs ≡ 255
      → listed x xs ≡ false
      → exec (filter_for arch (x ∷ xs)) (record { nr = x; arch = arch }) 0 ≡ denial
  unfolding filter_for syscall_checks
  filter_for_overflow arch x xs h absent =
      let d : SeccompData = record { nr = x; arch = arch } in
      let n = suc (length xs) in
      exec-load-arch _ _ d 0 refl refl
      ∙ (exec-jump _ _ d arch refl
          ∙ rw (nat_eq_refl arch) (
              exec-load-nr _ _ d arch refl refl
              ∙ (exec-jump _ _ d x refl
                  ∙ rw (nat_eq_refl x, cut (length xs) h)
                      (exec-checks n 1 5 xs d x (omega arith) (omega arith) (omega arith)
                        ∙ rw absent))))
