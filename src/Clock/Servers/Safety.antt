-- ===== src/Clock/Servers/Safety.antt =====
-- src/ntp.rs, `sync_all`: what it returns, whatever the threads are scheduled like.
use hello_old.Base.{
  ℕ, ◌+◌, ◌≤◌, ◌<◌, ◌≡◌, ◌⊎◌, inl, inr, arith, ◌||◌, Bool-cases, List, ◌++◌, Option, none, some,
  false, length, ◌==◌, leb,
}
use mathlib.Core.List.{Permᴰ}
use hello_old.Clock.Ntp.{F64, Answer}
use hello_old.Clock.Consensus.{consensus}
use hello_old.Clock.Sorting.{Orders, less}
use hello_old.Clock.Arrival.{consensus-Permᴰ}
use hello_old.Clock.Servers.{
  SyncAt, spawning, polling, counted, asleep, leaving, returned, Sync, answers_of, called, tested,
  Turn, passes, advances, starts, polls, tests, wakes, returns, Turns, here, next,
}
use hello_old.Clock.Servers.Invariant.{StageOk, Turns-Inv}

module _ (f : F64) (start : ℕ) where
  -- The deadline is four seconds after the call or later.
  unfoldable Timed : ℕ → ℕ → SyncAt f → Type 0
  Timed now deadline spawning = start ≤ now
  Timed now deadline polling = start + 4000 ≤ deadline
  Timed now deadline (counted n) = start + 4000 ≤ deadline
  Timed now deadline (asleep since) = start + 4000 ≤ deadline
  Timed now deadline leaving = start + 4000 ≤ deadline
  Timed now deadline (returned results) = start + 4000 ≤ deadline

  Timed-later :
      (now deadline ms : ℕ) (stage : SyncAt f)
      → Timed now deadline stage
      → Timed (now + ms) deadline stage
  unfolding Timed
  Timed-later now deadline ms spawning h = omega (arith, h)
  Timed-later now deadline ms polling h = h
  Timed-later now deadline ms (counted n) h = h
  Timed-later now deadline ms (asleep since) h = h
  Timed-later now deadline ms leaving h = h
  Timed-later now deadline ms (returned results) h = h

  Timed-tested :
      (n total deadline now : ℕ)
      → start + 4000 ≤ deadline
      → Timed now deadline (tested f n total deadline now)
  unfolding Timed tested
  Timed-tested n total deadline now h = elim (Bool-cases (n == total || leb deadline now)) [
    | inl t ↦ rw t h
    | inr t ↦ rw t h
  ]

  Turn-Timed :
      {v w : Sync f} → Turn f v w → Timed v.now v.deadline v.stage → Timed w.now w.deadline w.stage
  unfolding Timed
  Turn-Timed (passes w ms) h = Timed-later w.now w.deadline ms w.stage h
  Turn-Timed (advances w after new step) h = h
  Turn-Timed (starts w e) h = let called_then = rw e at h in omega arith
  Turn-Timed (polls w e) h = rw e at h
  Turn-Timed (tests w n e) h = Timed-tested n (length w.servers) w.deadline w.now (rw e at h)
  Turn-Timed (wakes w since e slept) h = rw e at h
  Turn-Timed (returns w e) h = rw e at h

  Turns-Timed :
      (outcomes : List (Option (Answer f))) {w : Sync f}
      → Turns f (called f outcomes start) w
      → Timed w.now w.deadline w.stage
  unfolding Timed
  Turns-Timed outcomes here = omega arith
  Turns-Timed outcomes (next r t) = Turn-Timed t (Turns-Timed outcomes r)

-- However the threads of `sync_all` and its loop are scheduled, when it has returned: `on_poll` was
-- called 41 times at most, and either what is returned are the answers of all the servers that give
-- one, in some order, or four seconds have passed since the call, and what is returned are some of
-- those answers, none of them twice.
pub sync_all-Permᴰ :
    (f : F64) (outcomes : List (Option (Answer f))) (start : ℕ) (w : Sync f)
    (results : List (Answer f))
    → Turns f (called f outcomes start) w
    → w.stage ≡ returned results
    → (length w.shown ≤ 41)
      × (Permᴰ results (answers_of f outcomes)
          ⊎ ((start + 4000 ≤ w.now)
              × ((late : List (Answer f)) × Permᴰ (results ++ late) (answers_of f outcomes))))
unfolding StageOk Timed
sync_all-Permᴰ f outcomes start w results run e =
    let ok = (Turns-Inv f outcomes start run).stage_ok in
    let (few, ends) = rw e at ok in
    let timed = Turns-Timed f start outcomes run in
    let far = rw e at timed in
    (few, elim ends [ inl same ↦ inl same | inr (over, some_left) ↦ inr (omega arith, some_left) ])

-- When `sync_all` has returned within four seconds of the call, `consensus` takes from what it returns
-- the drift that it takes from the answers in the order of the servers, for every schedule of the
-- threads: nothing is taken from both, or neither of what is taken has the smaller drift. The sizes
-- below the limit are ordered.
pub sync_all-agrees :
    (f : F64)
    → Orders f
    → (outcomes : List (Option (Answer f))) (start : ℕ) (w : Sync f) (results : List (Answer f))
    → Turns f (called f outcomes start) w
    → w.stage ≡ returned results
    → w.now < start + 4000
    → ((consensus f results ≡ none) × (consensus f (answers_of f outcomes) ≡ none))
      ⊎ ((x : Answer f) × (y : Answer f) × (consensus f results ≡ some x)
          × (consensus f (answers_of f outcomes) ≡ some y)
          × (less f x y ≡ false)
          × (less f y x ≡ false))
sync_all-agrees f o outcomes start w results run e soon =
    elim (sync_all-Permᴰ f outcomes start w results run e).1 [
      | inl same ↦ consensus-Permᴰ f o results (answers_of f outcomes) same
      | inr (over, some_left) ↦ absurd (omega arith)
    ]
