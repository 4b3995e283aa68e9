-- ===== src/Clock/Servers/Returns.antt =====
-- src/ntp.rs, `sync_all`: it can always return, whatever the servers do.
use hello_old.Base.{
  ℕ, ◌+◌, ◌≤◌, ◌≡◌, refl, inl, inr, arith, true, Bool-cases, List, ◌∷◌, Option, length, ◌==◌, leb,
}
use hello_old.Clock.Ntp.{F64, Answer}
use hello_old.Clock.Servers.{
  SyncAt, spawning, polling, counted, asleep, leaving, returned, Sync, answers_of, called, done,
  tested, passes, starts, polls, tests, wakes, returns, Turns, here, next,
}
use hello_old.Clock.Servers.Invariant.{StageOk, Turns-Inv}

module _ (f : F64) where
  Turns-trans : {t u v : Sync f} → Turns f t u → Turns f u v → Turns f t v
  Turns-trans r here = r
  Turns-trans r (next s t) = next (Turns-trans r s) t

  tested-late :
      (n total deadline now : ℕ) → deadline ≤ now → tested f n total deadline now ≡ leaving
  unfolding tested
  tested-late n total deadline now late = elim (Bool-cases (n == total)) [
    | inl every ↦ rw every refl
    | inr some_left ↦ rw (some_left, leb-true late) refl
  ]
    where
      leb-true : deadline ≤ now → leb deadline now ≡ true
      leb-true h = ground arith

  -- The loop returns within `ms`, and no thread of a server moves.
  unfoldable Ends : ℕ → Sync f → Type 0
  Ends ms w =
      (v : Sync f) × (results : List (Answer f)) × Turns f w v
      × (v.stage ≡ returned results)
      × (v.servers ≡ w.servers)
      × (v.now ≤ w.now + ms)

  -- The steps after `on_poll`, once the deadline has passed.
  Ends-counted : (w : Sync f) (n ms : ℕ) → w.stage ≡ counted n → w.deadline ≤ w.now + ms → Ends ms w
  unfolding Ends
  Ends-counted w n ms e soon =
      let late = record w { now = w.now + ms } in
      let left = tested-late n (length w.servers) w.deadline (w.now + ms) soon in
      (
        _,
        _,
        next (next (next here (passes w ms)) (tests late n e)) (returns _ left),
        refl,
        refl,
        omega arith,
      )

  -- Steps of the loop or of time before that.
  Ends-after :
      (w v : Sync f) (ms ms' n : ℕ)
      → Turns f w v
      → v.servers ≡ w.servers
      → v.now ≤ w.now + ms
      → ms + ms' ≤ n
      → Ends ms' v
      → Ends n w
  unfolding Ends
  Ends-after w v ms ms' n r same soon fits (u, results, r', e, same', soon') =
      (u, results, Turns-trans r r', e, cc, omega (arith, soon, soon', fits))

  Ends-polling : (w : Sync f) (ms : ℕ) → w.stage ≡ polling → w.deadline ≤ w.now + ms → Ends ms w
  Ends-polling w ms e soon =
      let called = record w {
        shown = done f w.servers ∷ w.shown;
        stage = counted (done f w.servers);
      } in
      Ends-after w called 0 ms ms (next here (polls w e)) refl (omega arith) (omega arith)
        (Ends-counted called (done f w.servers) ms refl soon)

  Ends-stage :
      (all : List (Answer f)) (w : Sync f) (stage : SyncAt f)
      → w.stage ≡ stage
      → StageOk f all w stage
      → Ends 4100 w
  unfolding StageOk Ends
  Ends-stage all w spawning e ok =
      let begun = record w { deadline = w.now + 4000; stage = polling } in
      Ends-after w begun 0 4000 4100 (next here (starts w e)) refl (omega arith) (omega arith)
        (Ends-polling begun 4000 refl (omega arith))
  Ends-stage all w polling e (soon, few) = Ends-polling w 4100 e (omega (arith, soon))
  Ends-stage all w (counted n) e (soon, few, seen) = Ends-counted w n 4100 e (omega (arith, soon))
  Ends-stage all w (asleep since) e (soon, before, past) =
      let rested = record w { now = w.now + 100 } in
      let awake = record rested { stage = polling } in
      Ends-after w awake 100 4000 4100
        (next (next here (passes w 100)) (wakes rested since e (omega (arith, past)))) refl
        (omega arith) (omega arith) (Ends-polling awake 4000 refl (omega (arith, soon, past)))
  Ends-stage all w leaving e ok = (
    record w { stage = returned w.results },
    w.results,
    next here (returns w e),
    refl,
    refl,
    omega arith,
  )
  Ends-stage all w (returned results) e ok = (w, results, here, e, refl, omega arith)

-- From every state that the loop and the threads of `sync_all` reach after the call, the loop can
-- return within 4.1 seconds without a step of any thread: a server that does not answer, or that is
-- slow, cannot hold it up.
pub sync_all-returns :
    (f : F64) (outcomes : List (Option (Answer f))) (start : ℕ) (w : Sync f)
    → Turns f (called f outcomes start) w
    → (v : Sync f) × (results : List (Answer f)) × Turns f w v
      × (v.stage ≡ returned results)
      × (v.servers ≡ w.servers)
      × (v.now ≤ w.now + 4100)
unfolding Ends
sync_all-returns f outcomes start w run =
    Ends-stage f (answers_of f outcomes) w w.stage refl (Turns-Inv f outcomes start run).stage_ok
