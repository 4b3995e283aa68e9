-- ===== src/Seccomp/Verdict.antt =====
-- What the filter of src/seccomp.rs decides.
use hello_old.Base.{
  ℕ, ◌≡◌, ◌∙◌, Bool, false, not, ◌&&◌, ◌||◌, Bool-cases, inl, inr, List, [], ◌∷◌, ◌==◌,
  if◌then◌else◌, some,
}
use hello_old.Seccomp.Filter.{
  audit_arch_x86_64, seccomp_ret_kill_process, seccomp_ret_allow, blacklist, stmt, jump, ld_abs,
  jeq_k, ret_k, rules, filter, Kernel,
}

abbrev pub elem : ℕ → List ℕ → Bool
elem x [] = false
elem x (y ∷ list) = x == y || elem x list

abbrev pub verdict : Bool → ℕ
verdict allowed = if allowed then seccomp_ret_allow else seccomp_ret_kill_process

module _ (kernel : Kernel) where
  open kernel use {eval, eval-ld_abs, eval-jeq_k, eval-ret_k}

  eval-rules :
      (list : List ℕ) (words : ℕ → ℕ) (nr : ℕ)
      → eval (rules list) words nr ≡ some (verdict (not (elem nr list)))
  unfolding rules
  eval-rules [] words nr = eval-ret_k seccomp_ret_allow [] words nr
  eval-rules (x ∷ list) words nr =
      let rest = stmt ret_k seccomp_ret_kill_process ∷ rules list in
      eval-jeq_k x 0 1 rest words nr ∙ elim (Bool-cases (nr == x)) [
        | inl hit ↦ rw hit (eval-ret_k seccomp_ret_kill_process (rules list) words nr)
        | inr miss ↦ rw miss (eval-rules list words nr)
      ]

  -- For every system call, by its architecture and number: the filter lets it pass exactly if the
  -- architecture is x86-64 and the number is not in the list, and kills the process otherwise.
  pub eval-filter :
      (words : ℕ → ℕ) (acc : ℕ)
      → eval filter words acc
        ≡ some (verdict (words 4 == audit_arch_x86_64 && not (elem (words 0) blacklist)))
  unfolding filter
  eval-filter words acc =
      let rest = stmt ld_abs 0 ∷ rules blacklist in
      let kill = stmt ret_k seccomp_ret_kill_process in
      eval-ld_abs 4 (jump jeq_k audit_arch_x86_64 1 0 ∷ kill ∷ rest) words acc
      ∙ eval-jeq_k audit_arch_x86_64 1 0 (kill ∷ rest) words (words 4)
      ∙ elim (Bool-cases (words 4 == audit_arch_x86_64)) [
        | inl ours ↦
            rw ours (
              eval-ld_abs 0 (rules blacklist) words (words 4)
              ∙ eval-rules blacklist words (words 0))
        | inr other ↦ rw other (eval-ret_k seccomp_ret_kill_process rest words (words 4))
      ]
