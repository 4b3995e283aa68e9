-- ===== src/Seccomp/Filter.antt =====
-- src/seccomp.rs, the constants and the filter program that `install` builds. The kernel, which
-- evaluates it, is a parameter with the documented meaning of the three instructions used.
use hello_old.Base.{
  ℕ, ◌%◌, ◌^◌, ◌≡◌, Bool, false, List, [], ◌∷◌, ◌==◌, if◌then◌else◌, length, drop, Option, some,
}

abbrev pub audit_arch_x86_64 : ℕ
audit_arch_x86_64 = 0xc000003e

abbrev pub seccomp_ret_kill_process : ℕ
seccomp_ret_kill_process = 0x80000000

abbrev pub seccomp_ret_allow : ℕ
seccomp_ret_allow = 0x7fff0000

-- The system calls of the list, in the order of the source:
-- ptrace, execve, execveat, process_vm_readv, process_vm_writev, bpf, keyctl, add_key,
-- request_key, userfaultfd, perf_event_open, kcmp, open_by_handle_at, name_to_handle_at,
-- memfd_create, mount, umount2, reboot, init_module, delete_module, kexec_load, finit_module.
abbrev pub blacklist : List ℕ
blacklist =
    101 ∷ 59 ∷ 322 ∷ 310 ∷ 311 ∷ 321 ∷ 250 ∷ 248 ∷ 249 ∷ 323 ∷ 298 ∷ 312 ∷ 304 ∷ 303 ∷ 319 ∷ 165
    ∷ 166 ∷ 169 ∷ 175 ∷ 176 ∷ 246 ∷ 313 ∷ []

pub record SockFilter : Type 0 where
  pub code : ℕ
  pub jt : ℕ
  pub jf : ℕ
  pub k : ℕ

-- BPF_LD | BPF_W | BPF_ABS, BPF_JMP | BPF_JEQ | BPF_K and BPF_RET | BPF_K.
abbrev pub ld_abs : ℕ
ld_abs = 0x20

abbrev pub jeq_k : ℕ
jeq_k = 0x15

abbrev pub ret_k : ℕ
ret_k = 0x06

abbrev pub stmt : ℕ → ℕ → SockFilter
stmt code k = record { code = code; jt = 0; jf = 0; k = k }

abbrev pub jump : ℕ → ℕ → ℕ → ℕ → SockFilter
jump code k jt jf = record { code = code; jt = jt; jf = jf; k = k }

-- The loop over the list and the last statement.
unfoldable pub rules : List ℕ → List SockFilter
rules [] = stmt ret_k seccomp_ret_allow ∷ []
rules (nr ∷ list) = jump jeq_k nr 0 1 ∷ stmt ret_k seccomp_ret_kill_process ∷ rules list

unfoldable pub filter : List SockFilter
unfolding rules
filter =
    stmt ld_abs 4
    ∷ jump jeq_k audit_arch_x86_64 1 0
    ∷ stmt ret_k seccomp_ret_kill_process
    ∷ stmt ld_abs 0
    ∷ rules blacklist

-- The calls of prctl. `fprog` has a length of 16 bits beside the program.
pub data Prctl : Type 0 where
  set_no_new_privs : Prctl
  set_seccomp : ℕ → List SockFilter → Prctl

-- `succeeds` says of a call whether it returns 0.
unfoldable pub install : (Prctl → Bool) → List Prctl × Bool
install succeeds =
    let load = set_seccomp (length filter % 2 ^ 16) filter in
    if succeeds set_no_new_privs
    then (set_no_new_privs ∷ load ∷ [], succeeds load)
    else (set_no_new_privs ∷ [], false)

abbrev pub rule_count : ℕ
rule_count = length blacklist

-- The kernel's evaluator, on the words of `seccomp_data` by offset (0 is the number of the call, 4
-- the architecture) and the accumulator.
pub record Kernel : Type 0 where
  pub eval : List SockFilter → (ℕ → ℕ) → ℕ → Option ℕ
  pub eval-ld_abs :
      (k : ℕ) (rest : List SockFilter) (words : ℕ → ℕ) (acc : ℕ)
      → eval (stmt ld_abs k ∷ rest) words acc ≡ eval rest words (words k)
  pub eval-jeq_k :
      (k jt jf : ℕ) (rest : List SockFilter) (words : ℕ → ℕ) (acc : ℕ)
      → eval (jump jeq_k k jt jf ∷ rest) words acc
        ≡ eval (drop (if acc == k then jt else jf) rest) words acc
  pub eval-ret_k :
      (k : ℕ) (rest : List SockFilter) (words : ℕ → ℕ) (acc : ℕ)
      → eval (stmt ret_k k ∷ rest) words acc ≡ some k
