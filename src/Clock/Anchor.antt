-- ===== src/Clock/Anchor.antt =====
-- src/harden.rs, `ClockAnchor`: the steady clock against the one that can be set. A reading of a clock
-- is its whole seconds and its nanoseconds.
use hello_old.Base.{ℕ, Bool}
use hello_old.Clock.Ntp.{F64}

module _ (f : F64) where
  pub record ClockAnchor : Type 0 where
    pub mono0 : F64.Number f
    pub wall0 : F64.Number f

  -- `mono` and `wall`.
  abbrev pub clock : ℕ → ℕ → F64.Number f
  clock tv_sec tv_nsec =
      F64.add f (F64.of_u64 f tv_sec) (F64.div f (F64.of_u64 f tv_nsec) (F64.of_u64 f 1000000000))

  abbrev pub new : ℕ × ℕ → ℕ × ℕ → ClockAnchor
  new mono wall = record { mono0 = clock mono.0 mono.1; wall0 = clock wall.0 wall.1 }

  unfoldable pub sane : ClockAnchor → ℕ × ℕ → ℕ × ℕ → Bool
  sane anchor mono wall =
      let expected = F64.add f anchor.wall0 (F64.sub f (clock mono.0 mono.1) anchor.mono0) in
      F64.lt f (F64.abs f (F64.sub f (clock wall.0 wall.1) expected)) (F64.of_u64 f 2)
