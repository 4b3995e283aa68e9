-- ===== src/Seccomp/Tests.antt =====
-- An evaluator of the three instructions, and an instance of the theorem about src/seccomp.rs.
use hello_old.Base.{
  ℕ, zero, suc, ◌+◌, ◌*◌, ◌≡◌, refl, true, false, List, [], ◌∷◌, ◌==◌, if◌then◌else◌, drop, Option,
  none, some,
}
use hello_old.Seccomp.Filter.{
  audit_arch_x86_64, seccomp_ret_kill_process, SockFilter, ld_abs, jeq_k, filter, rules,
  set_no_new_privs, set_seccomp, install, rule_count, Kernel,
}
use hello_old.Seccomp.Verdict.{eval-filter}

-- `n` instructions are passed over first.
unfoldable evaluate : ℕ → List SockFilter → (ℕ → ℕ) → ℕ → Option ℕ
evaluate n [] words acc = none
evaluate (suc n) (i ∷ rest) words acc = evaluate n rest words acc
evaluate zero (i ∷ rest) words acc =
    if i.code == ld_abs
    then evaluate 0 rest words (words i.k)
    else if i.code == jeq_k
    then evaluate (if acc == i.k then i.jt else i.jf) rest words acc
    else some i.k

evaluate-drop :
    (n : ℕ) (rest : List SockFilter) (words : ℕ → ℕ) (acc : ℕ)
    → evaluate n rest words acc ≡ evaluate 0 (drop n rest) words acc
unfolding evaluate
evaluate-drop zero rest words acc = refl
evaluate-drop (suc n) [] words acc = refl
evaluate-drop (suc n) (i ∷ rest) words acc = evaluate-drop n rest words acc

abbrev toy_kernel : Kernel
unfolding evaluate
toy_kernel = record {
  eval = λ prog words acc. evaluate 0 prog words acc;
  eval-ld_abs = λ k rest words acc. refl;
  eval-jeq_k = λ k jt jf rest words acc. evaluate-drop (if acc == k then jt else jf) rest words acc;
  eval-ret_k = λ k rest words acc. refl;
}

-- execve on x86-64.
abbrev execve_call : ℕ → ℕ
execve_call offset = if offset == 0 then 59 else audit_arch_x86_64

eval-filter_example : toy_kernel.eval filter execve_call 0 ≡ some seccomp_ret_kill_process
eval-filter_example = eval-filter toy_kernel execve_call 0

-- The length of the program fits its field.
installed :
    install (λ call. true) ≡ (set_no_new_privs ∷ set_seccomp (5 + 2 * rule_count) filter ∷ [], true)
unfolding install filter rules
installed = refl

no_filter : install (λ call. false) ≡ (set_no_new_privs ∷ [], false)
unfolding install
no_filter = refl
