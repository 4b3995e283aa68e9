-- ===== src/Archive/Checks.antt =====
-- src/main.rs, `main`: what each check of the host and of the network shows when it lets the run go on.
use hello_old.Base.{
  ℕ, ◌+◌, ◌*◌, ◌≤◌, ◌≡◌, refl, arith, ◌⊎◌, inl, inr, Bool, true, false, not, ◌&&◌, Bool-cases, List,
  Option, none, some, ltb, ltb→le, if◌then◌else◌,
}
use hello_old.Host.Status.{tracer_pid, anti_debug_checks}
use hello_old.Host.Harden.{is_set, maps_has_loader, maps_rwx_clean, check_injection}
use hello_old.Seccomp.Filter.{
  Prctl, set_no_new_privs, set_seccomp, filter, rules, rule_count, install,
}
use hello_old.Archive.Memory
use hello_old.Archive.Flow.{
  refused, exited, injection_detected, memory_lock_failed, clock_jump, seccomp_failed, passed, next,
  ensure,
}
use hello_old.Archive.Unlock.{
  Observed, CustomNtp, unreachable, drifted, agreed, start_up, check_host, network_time,
}
use hello_old.Archive.Gate.{bind_next, ensure-true}
use hello_old.Archive.Observe.{is_made}

pub anti_debug-untraced :
    (status : Option (List ℕ)) (nanos : ℕ)
    → anti_debug_checks status nanos ≡ true
    → tracer_pid status ≡ 0
unfolding anti_debug_checks
anti_debug-untraced status nanos h = elim (Bool-cases (ltb 0 (tracer_pid status))) [
  | inl t ↦ cc
  | inr f ↦ zero_of_le (ltb→le 0 (tracer_pid status) f)
]
  where
    zero_of_le : {n : ℕ} → n ≤ 0 → n ≡ 0
    zero_of_le h = omega arith

if-false : (b c : Bool) → (if b then false else c) ≡ true → (b ≡ false) × (c ≡ true)
if-false true c h = cc
if-false false c h = (refl, h)

pub check_injection-clean :
    (ld_preload ld_library_path maps : Option (List ℕ))
    → check_injection ld_preload ld_library_path maps ≡ true
    → (is_set ld_preload ≡ false) × (maps_rwx_clean maps ≡ true)
unfolding check_injection
check_injection-clean ld_preload ld_library_path maps h =
    let (unset, h) = if-false (is_set ld_preload) _ h in
    let (_, clean) = if-false (not (maps_has_loader maps) && is_set ld_library_path) _ h in
    (unset, clean)

pub new-is_made :
    (len : ℕ) (mapping : Option ℕ × Bool)
    → is_made (Memory.new len mapping.0 mapping.1).1 ≡ true
    → (base : ℕ) × (mapping ≡ (some base, true))
unfolding Memory.new
new-is_made len (none, locked) h = cc
new-is_made len (some base, false) h = cc
new-is_made len (some base, true) h = (base, refl)

both_calls :
    (b c : Bool) (xs ys : List Prctl)
    → (if◌then◌else◌ {A = List Prctl × Bool} b (xs, c) (ys, false)).1 ≡ true
    → (b ≡ true) × (c ≡ true)
both_calls true c xs ys h = (refl, h)
both_calls false c xs ys h = cc

pub install-both :
    (succeeds : Prctl → Bool)
    → (install succeeds).1 ≡ true
    → (succeeds set_no_new_privs ≡ true)
      × (succeeds (set_seccomp (5 + 2 * rule_count) filter) ≡ true)
unfolding install filter rules
install-both succeeds h = both_calls (succeeds set_no_new_privs) _ _ _ h

pub start_up-checks :
    (env : Observed)
    → start_up env ≡ next passed
    → (env.untraced ≡ true)
      × (env.uninjected ≡ true)
      × (env.key_buffer ≡ true)
      × (env.content_buffer ≡ true)
start_up-checks env h =
    let (x1, e1, h) = bind_next (ensure env.untraced exited) _ _ h in
    let (x2, e2, h) = bind_next (ensure env.uninjected (refused injection_detected)) _ _ h in
    let (x3, e3, h) = bind_next (ensure env.key_buffer (refused memory_lock_failed)) _ _ h in
    (
      ensure-true _ _ x1 e1,
      ensure-true _ _ x2 e2,
      ensure-true _ _ x3 e3,
      ensure-true env.content_buffer (refused memory_lock_failed) passed h,
    )

pub check_host-checks :
    (env : Observed)
    → check_host env ≡ next passed
    → (env.anchor_sane ≡ true) × (env.seccomp_installed ≡ true)
check_host-checks env h =
    let (x1, e1, h) = bind_next (ensure env.anchor_sane (refused clock_jump)) _ _ h in
    let (x2, e2, h) = bind_next (ensure env.seccomp_installed (refused seccomp_failed)) _ _ h in
    (ensure-true _ _ x1 e1, ensure-true _ _ x2 e2)

pub network_time-asked :
    (local : Option ℕ) (custom : CustomNtp) (now : ℕ)
    → network_time local custom ≡ next now
    → (local ≡ some now) ⊎ ((local ≡ none) × (custom ≡ agreed now))
network_time-asked (some t) custom now h = inl cc
network_time-asked none unreachable now h = cc
network_time-asked none drifted now h = cc
network_time-asked none (agreed t) now h = inr (refl, cc)
