-- ===== src/Host/Threads/Safety.antt =====
-- What holds in every state that the watchdog and `main` of src/main.rs reach.
use hello_old.Base.{ℕ, ◌+◌, ◌-◌, ◌/◌, ◌≤◌, ◌≡◌, refl, arith, true, List, Option, ltb, lt→ltb}
use hello_old.Tui.Panel.{F32}
use hello_old.Tui.Burning.{burn_with_progress}
use hello_old.Tui.Pace.Sleeps.{slept_in, burn_with_progress-Sleeps}
use hello_old.Host.Threads.{
  DogAt, testing, asleep, reading, ended, killed, faulted, stale, World, started, woken, Reach,
  last_beat,
}
use hello_old.Host.Threads.Rounds.{DogSafe}
use hello_old.Host.Threads.Invariant.{Reach-Inv}

DogSafe-fewer :
    (n m last now : ℕ) (dog : DogAt) → m ≤ n → DogSafe n last now dog → DogSafe m last now dog
DogSafe-fewer n m last now testing fewer h = tt
DogSafe-fewer n m last now (asleep s) fewer h = tt
DogSafe-fewer n m last now (reading s) fewer h = tt
DogSafe-fewer n m last now ended fewer h = tt
DogSafe-fewer n m last now (killed cause) fewer h = h
DogSafe-fewer n m last now (faulted s at) fewer h = omega (arith, h)

-- A wake 61 seconds after the last heartbeat kills, whatever else it finds.
woken-late :
    (exe_sha : List ℕ) (fed_at last now pid : ℕ) (seen : Option (List ℕ)) (since : ℕ)
    → fed_at ≡ last
    → last + 61000 ≤ now
    → woken exe_sha fed_at now pid seen since ≡ killed (stale last now)
unfolding woken
woken-late exe_sha fed_at last now pid seen since fed late = rw (fed, over late) refl
  where
    over : last + 61000 ≤ now → ltb 60 ((now - last) / 1000) ≡ true
    over h = lt→ltb 60 ((now - last) / 1000) (omega arith)

-- However the watchdog and `main` are scheduled after `start`, for every run of the two: when the
-- watchdog has destroyed the process for a late heartbeat, the time that it took for the last one is
-- that of the last heartbeat of the run, or of the return of `start` if there was none, and it was 61
-- seconds old or older; and a watchdog that wakes when the last heartbeat is that old destroys the
-- process. It reads the key buffer when that may no longer be read only in a round that has lasted 4.7
-- seconds or longer, of which it means to sleep 0.4, because the burning comes between `stop` and the
-- lock.
pub threads-Safe :
    (f : F32) (width height seed now : ℕ) (exe_sha expected : List ℕ) (w : World)
    (run : Reach
      (slept_in (burn_with_progress f width height seed).0)
      exe_sha
      expected
      (started now)
      w)
    → DogSafe 4700 (last_beat _ exe_sha expected run) w.now w.dog
      × ((pid since : ℕ) (seen : Option (List ℕ))
          → last_beat _ exe_sha expected run + 61000 ≤ w.now
          → woken exe_sha w.fed_at w.now pid seen since
            ≡ killed (stale (last_beat _ exe_sha expected run) w.now))
threads-Safe f width height seed now exe_sha expected w run =
    let burn_ms = slept_in (burn_with_progress f width height seed).0 in
    let last = last_beat burn_ms exe_sha expected run in
    let inv = Reach-Inv burn_ms exe_sha expected now run in
    let long = (burn_with_progress-Sleeps f width height).lasts seed in
    (
      DogSafe-fewer burn_ms 4700 last w.now w.dog long inv.dog_safe,
      λ pid since seen late. woken-late exe_sha w.fed_at last w.now pid seen since inv.fed_ok late,
    )
