-- ===== src/Sandbox/Seccomp/Filter/Excluded.antt =====
-- System calls that the comment above the allowlists of internal/sandbox/seccomp_linux.go names as
-- excluded, by their numbers in the kernel's tables: mounts and namespaces, modules, tracing, kexec,
-- swap, keys, changes of identity, bpf, perf, io_uring, seccomp itself and their like. Of its list the
-- extended attributes, SysV IPC, message queues, memory policy, locked memory, I/O priorities,
-- fanotify, landlock and _sysctl are not here.
use sentrazero.Base.{ℕ, nat_eq_refl, ◌≡◌, refl, Bool, true, false, not, List, [], ◌∷◌, arith, ◌&&◌}
use sentrazero.Sandbox.Seccomp.Filter.{
  GoArch, amd64, arm64, i386, other, SeccompData, Kernel, detect_audit_arch, syscalls_for_arch,
  build_seccomp_filter,
}
use sentrazero.Sandbox.Seccomp.Filter.Verdict.{listed, denial, exec-build_seccomp_filter}

abbrev pub excluded_x86_64 : List ℕ
excluded_x86_64 =
    165 ∷ 166 ∷ 101 ∷ 169 ∷ 308 ∷ 272 ∷ 175 ∷ 313 ∷ 176 ∷ 174 ∷ 177 ∷ 178 ∷ 103 ∷ 246 ∷ 320 ∷ 167
    ∷ 168 ∷ 170 ∷ 171 ∷ 172 ∷ 173 ∷ 163 ∷ 161 ∷ 155 ∷ 179 ∷ 180 ∷ 321 ∷ 298 ∷ 310 ∷ 311 ∷ 323 ∷ 250
    ∷ 248 ∷ 249 ∷ 212 ∷ 105 ∷ 106 ∷ 113 ∷ 114 ∷ 117 ∷ 119 ∷ 122 ∷ 123 ∷ 116 ∷ 135 ∷ 159 ∷ 164 ∷ 187
    ∷ 153 ∷ 154 ∷ 317 ∷ 425 ∷ 426 ∷ 427 ∷ 428 ∷ 429 ∷ 430 ∷ 431 ∷ 432 ∷ 433 ∷ 442 ∷ 447 ∷ 440 ∷ 448
    ∷ []

abbrev pub excluded_arm64 : List ℕ
excluded_arm64 =
    40 ∷ 39 ∷ 117 ∷ 142 ∷ 268 ∷ 97 ∷ 105 ∷ 273 ∷ 106 ∷ 116 ∷ 104 ∷ 294 ∷ 224 ∷ 225 ∷ 161 ∷ 162 ∷ 89
    ∷ 51 ∷ 41 ∷ 60 ∷ 42 ∷ 280 ∷ 241 ∷ 270 ∷ 271 ∷ 282 ∷ 219 ∷ 217 ∷ 218 ∷ 18 ∷ 146 ∷ 144 ∷ 145 ∷ 143
    ∷ 147 ∷ 149 ∷ 151 ∷ 152 ∷ 159 ∷ 92 ∷ 171 ∷ 170 ∷ 213 ∷ 58 ∷ 277 ∷ 425 ∷ 426 ∷ 427 ∷ 428 ∷ 429
    ∷ 430 ∷ 431 ∷ 432 ∷ 433 ∷ 442 ∷ 447 ∷ 440 ∷ 448 ∷ []

-- None on the architectures without an audited table.
unfoldable pub excluded_for : GoArch → List ℕ
excluded_for amd64 = excluded_x86_64
excluded_for arm64 = excluded_arm64
excluded_for i386 = []
excluded_for other = []

abbrev none_listed : List ℕ → List ℕ → Bool
none_listed [] ys = true
none_listed (x ∷ xs) ys = not (listed x ys) && none_listed xs ys

apart :
    (n : ℕ) (xs ys : List ℕ) → none_listed xs ys ≡ true → listed n xs ≡ true → listed n ys ≡ false
unfolding listed
apart n [] ys h k = cc
apart n (x ∷ xs) ys h k = ground (arith, apart n xs ys)

disjoint : (g : GoArch) → none_listed (excluded_for g) (syscalls_for_arch g) ≡ true
unfolding excluded_for syscalls_for_arch listed
disjoint amd64 = refl
disjoint arm64 = refl
disjoint i386 = refl
disjoint other = refl

-- A call of the filter's own architecture that is on this list of excluded calls fails with EPERM, on
-- both audited architectures.
pub excluded-denied :
    (machine : Kernel) (goarch : GoArch) (nr : ℕ)
    → listed nr (excluded_for goarch) ≡ true
    → machine.exec
        (build_seccomp_filter goarch)
        (record { nr = nr; arch = detect_audit_arch goarch })
        0
      ≡ denial
excluded-denied machine goarch nr h =
    let absent = apart nr (excluded_for goarch) (syscalls_for_arch goarch) (disjoint goarch) h in
    let d : SeccompData = record { nr = nr; arch = detect_audit_arch goarch } in
    rw (exec-build_seccomp_filter machine goarch d, nat_eq_refl (detect_audit_arch goarch), absent)
      refl
