-- ===== src/Archive/Checked.antt =====
-- What src/main.rs, `main`, has found of the host and of the network when it shows a text.
use hello_old.Base.{
  ℕ, ◌+◌, ◌*◌, ◌≤◌, ◌≡◌, refl, arith, subst, ◌⊎◌, inl, inr, true, false, Bool-cases, List, Option,
  none, some, All, length,
}
use mathlib.Core.List.{Memᴰ}
use hello_old.Crypto.Suite.{Suite}
use hello_old.Clock.Ntp.{F64, Answer, Exchange, query, queried}
use hello_old.Clock.Servers.{Sync, returned, called, Turns}
use hello_old.Clock.Servers.Answers.{results-queried}
use hello_old.Clock.Consensus.{is_good, consensus}
use hello_old.Clock.Sorting.{Orders}
use hello_old.Clock.Median.{consensus_lem}
use hello_old.Clock.Anchor.{sane}
use hello_old.Host.Status.{tracer_pid}
use hello_old.Host.Harden.{is_set, maps_rwx_clean}
use hello_old.Seccomp.Filter.{set_no_new_privs, set_seccomp, filter, rule_count}
use hello_old.Archive.Artifacts.{Artifacts, key_len, open_timestamp}
use hello_old.Archive.Flow.{revealed, next}
use hello_old.Archive.Unlock.{drifted, agreed, network_time, unlock}
use hello_old.Archive.Gate.{unlock-Stages}
use hello_old.Archive.Safety.{unlock-late}
use hello_old.Archive.Checks.{
  anti_debug-untraced, check_injection-clean, new-is_made, install-both, start_up-checks,
  check_host-checks, network_time-asked,
}
use hello_old.Archive.Observe.{Readings, anchor, whole_seconds, custom_answer, observe}

-- The time of `x` has come, and `x` is the answer of a server, or of the host that the user names if no
-- server has a good one.
pub record Opened (f : F64) (r : Readings f) (x : Answer f) : Type 0 where
  pub near : is_good f x ≡ true
  pub reached : open_timestamp ≤ F64.floor_u64 f x.now
  pub asked :
      ((e : Exchange f) × Memᴰ e r.servers × (query f e ≡ some x))
      ⊎ (All (λ a. is_good f a ≡ false) r.results × (query f r.custom_host ≡ some x))

pub record InOrder (f : F64) (r : Readings f) : Type 0 where
  pub untraced : tracer_pid r.status ≡ 0
  pub no_preload : is_set r.ld_preload ≡ false
  pub clean : maps_rwx_clean r.maps ≡ true
  pub key_locked : (base : ℕ) × (r.key_mapping ≡ (some base, true))
  pub content_locked : (base : ℕ) × (r.content_mapping ≡ (some base, true))
  pub steady_before : sane f (anchor f r) r.clocks_before.0 r.clocks_before.1 ≡ true
  pub steady_after : sane f (anchor f r) r.clocks_after.0 r.clocks_after.1 ≡ true
  pub no_new_privs : r.prctl set_no_new_privs ≡ true
  pub filtered : r.prctl (set_seccomp (5 + 2 * rule_count) filter) ≡ true
  pub opened : (x : Answer f) × Opened f r x

module _ (f : F64) (o : Orders f) where
  whole_seconds-some :
      (answer : Option (Answer f)) (now : ℕ)
      → whole_seconds f answer ≡ some now
      → (x : Answer f) × (answer ≡ some x) × (F64.floor_u64 f x.now ≡ now)
  whole_seconds-some none now h = cc
  whole_seconds-some (some x) now h = (x, refl, cc)

  whole_seconds-none : (answer : Option (Answer f)) → whole_seconds f answer ≡ none → answer ≡ none
  whole_seconds-none none h = refl
  whole_seconds-none (some x) h = cc

  custom_answer-agreed :
      (answer : Option (Answer f)) (now : ℕ)
      → custom_answer f answer ≡ agreed now
      → (x : Answer f) × (answer ≡ some x) × (is_good f x ≡ true) × (F64.floor_u64 f x.now ≡ now)
  custom_answer-agreed none now h = cc
  custom_answer-agreed (some x) now h = elim (Bool-cases (is_good f x)) [
    | inl t ↦ (x, refl, t, same (rw t at h))
    | inr t ↦ drifts (rw t at h)
  ]
    where
      same : {n : ℕ} → agreed n ≡ agreed now → n ≡ now
      same e = cc

      drifts : {A : Type 0} → drifted ≡ agreed now → A
      drifts e = cc

  -- The time that is taken is that of a good answer.
  taken :
      (r : Readings f) (start : ℕ) (w : Sync f) (now : ℕ)
      → Turns f (called f (queried f r.servers) start) w
      → w.stage ≡ returned r.results
      → open_timestamp ≤ now
      → network_time
          (whole_seconds f (consensus f r.results))
          (custom_answer f (query f r.custom_host))
        ≡ next now
      → (x : Answer f) × Opened f r x
  taken r start w now run end late h = elim (network_time-asked _ _ now h) [
    | inl local ↦
        let (x, e, at) = whole_seconds-some (consensus f r.results) now local in
        (x, from_servers x e at)
    | inr (no_local, custom) ↦
        let none_good = whole_seconds-none (consensus f r.results) no_local in
        let (x, e, near, at) = custom_answer-agreed (query f r.custom_host) now custom in
        (x, record { near = near; reached = omega (arith, at); asked = inr (all_bad none_good, e) })
  ]
    where
      from_servers :
          (x : Answer f)
          → consensus f r.results ≡ some x
          → F64.floor_u64 f x.now ≡ now
          → Opened f r x
      from_servers x e at = elim (consensus_lem f o r.results) [
        | inl (none_taken, bad) ↦ cc
        | inr (y, e', mem, near, fewer, more) ↦
            let same : y ≡ x = cc in
            record {
              near = subst (λ z. is_good f z ≡ true) same near;
              reached = omega (arith, at);
              asked = inl (
                  results-queried f r.servers start w r.results x run end
                    (subst (λ z. Memᴰ z r.results) same mem));
            }
      ]

      all_bad : consensus f r.results ≡ none → All (λ a. is_good f a ≡ false) r.results
      all_bad e = elim (consensus_lem f o r.results) [
        | inl (none_taken, bad) ↦ bad
        | inr (y, e', mem, near, fewer, more) ↦ cc
      ]

  -- A text is shown only on a host that was found to be in order, at a time that a server gave: a run
  -- that reveals one has found no tracer, no preloaded library and no memory that can be written and
  -- executed; has locked both of its buffers; has found the clocks in step twice; has installed the
  -- filter of system calls; and took the time, which is not before the opening time, from an answer
  -- with a small drift that the query of one of the servers gave or, when none that `sync_all` returned is
  -- good, of the host that the user names. `sync_all` has returned its results after some schedule of its
  -- threads, and the sizes of the drifts below the limit are ordered.
  pub unlock-InOrder :
      (c : Suite) (a : Artifacts) (r : Readings f) (start : ℕ) (w : Sync f) (meta text : List ℕ)
      → Turns f (called f (queried f r.servers) start) w
      → w.stage ≡ returned r.results
      → unlock c a (observe f a r) ≡ revealed meta text
      → InOrder f r
  unfolding observe
  unlock-InOrder c a r start w meta text run end h =
      let env = observe f a r in
      let s = unlock-Stages c a env meta text h in
      let (now, host, asked, late, still) = unlock-late c a env meta text h in
      let (untraced, uninjected, key, content) = start_up-checks env s.started in
      let (sane_once, installed) = check_host-checks env host in
      let (unset, clean) = check_injection-clean r.ld_preload r.ld_library_path r.maps uninjected in
      let (no_new, filtered) = install-both r.prctl installed in
      record {
        untraced = anti_debug-untraced r.status r.check_nanos untraced;
        no_preload = unset;
        clean = clean;
        key_locked = new-is_made key_len r.key_mapping key;
        content_locked = new-is_made (length a.payload) r.content_mapping content;
        steady_before = sane_once;
        steady_after = still;
        no_new_privs = no_new;
        filtered = filtered;
        opened = taken r start w now run end late asked;
      }
