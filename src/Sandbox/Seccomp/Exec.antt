-- ===== src/Sandbox/Seccomp/Exec.antt =====
-- `SeccompExec` and `NoNewPrivsExec` of internal/sandbox/seccomp_linux.go. The system calls are
-- answered by the kernel; the end of a run is a new image or an exit.
use sentrazero.Base.{
  ℕ, ◌≡◌, String, Bool, true, false, not, Option, none, some, List, ◌∷◌, ◌||◌, ◌==◌, if◌then◌else◌,
  arith, ◌⊎◌,
}
use sentrazero.Sandbox.Seccomp.Filter.{
  SockFilter, GoArch, seccomp_supported_arch, build_seccomp_filter,
}

-- The answer of `seccomp(2)`: installed, EOPNOTSUPP or ENOSYS, or another error.
pub data FilterAnswer : Type 0 where
  installed unavailable refused : FilterAnswer

pub record Environment : Type 0 where
  pub goarch : GoArch
  -- SANDBOX_SECCOMP_PROFILE, "default" where it is not set
  pub profile : String
  -- the two calls of `prctl`, on the way of `SeccompExec` and of `NoNewPrivsExec`
  pub prctl : Bool
  pub fallback_prctl : Bool
  pub filter : FilterAnswer
  pub exec : Bool

pub record Process : Type 0 where
  pub no_new_privs : Bool
  pub filter : Option (List SockFilter)
  -- the program that replaced the process, with its argv
  pub image : Option (String × List String)
  pub exit_code : Option ℕ

unfoldable pub exec_target : Bool → String → List String → Process → Process
exec_target done target args p =
    if done
    then record p { image = some (target, target ∷ args) }
    else record p { exit_code = some 1 }

unfoldable pub no_new_privs_exec : Environment → String → List String → Process → Process
unfolding exec_target
no_new_privs_exec e target args p =
    if e.fallback_prctl
    then exec_target e.exec target args (record p { no_new_privs = true })
    else record p { exit_code = some 1 }

unfoldable pub apply_filter : Environment → String → List String → Process → Process
unfolding no_new_privs_exec exec_target
apply_filter e target args p = elim e.filter [
  | installed ↦
      exec_target e.exec target args (record p { filter = some (build_seccomp_filter e.goarch) })
  | unavailable ↦ no_new_privs_exec e target args p
  | refused ↦ record p { exit_code = some 1 }
]

unfoldable pub seccomp_exec : Environment → String → List String → Process → Process
unfolding no_new_privs_exec apply_filter
seccomp_exec e target args p =
    if not (seccomp_supported_arch e.goarch) || e.profile == "off"
    then no_new_privs_exec e target args p
    else if e.prctl
    then apply_filter e target args (record p { no_new_privs = true })
    else record p { exit_code = some 1 }

abbrev pub fresh : Process
fresh = record { no_new_privs = false; filter = none; image = none; exit_code = none }

-- The filter that the environment asks for and the kernel grants.
abbrev pub granted_filter : Environment → Option (List SockFilter)
granted_filter e =
    if not (seccomp_supported_arch e.goarch) || e.profile == "off" then none else elim e.filter [
      | installed ↦ some (build_seccomp_filter e.goarch)
      | unavailable ↦ none
      | refused ↦ none
    ]

-- A run ends with the target or with exit code 1. Where the target runs, it runs with itself as its
-- first argument, it cannot gain privileges, and it is under the filter exactly if its architecture
-- is audited, the operator has not switched the filter off and the kernel has it.
pub seccomp_exec_lem :
    (e : Environment) (target : String) (args : List String)
    → (((seccomp_exec e target args fresh).image ≡ some (target, target ∷ args))
        × ((seccomp_exec e target args fresh).no_new_privs ≡ true)
        × ((seccomp_exec e target args fresh).filter ≡ granted_filter e))
      ⊎ (((seccomp_exec e target args fresh).image ≡ none)
          × ((seccomp_exec e target args fresh).exit_code ≡ some 1))
unfolding seccomp_exec
seccomp_exec_lem e target args = ground arith

-- A kernel that refuses the filter for another reason than its absence stops the run: the target
-- does not start unfiltered.
pub refused_never_runs :
    (e : Environment) (target : String) (args : List String)
    → seccomp_supported_arch e.goarch ≡ true
    → (e.profile == "off") ≡ false
    → e.filter ≡ refused
    → (seccomp_exec e target args fresh).image ≡ none
unfolding seccomp_exec
refused_never_runs e target args h k r = ground arith
