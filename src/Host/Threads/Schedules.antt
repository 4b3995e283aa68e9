-- ===== src/Host/Threads/Schedules.antt =====
-- Some runs of the watchdog and `main` of src/main.rs.
use hello_old.Base.{true, ℕ, ◌+◌, ◌≤◌, Option, List, ◌≡◌, refl, arith, [], none}
use hello_old.Archive.Memory.{prot_read_write}
use hello_old.Tui.Burning.{burn_with_progress}
use hello_old.Tui.Pace.Sleeps.{slept_in}
use hello_old.Host.Threads.{
  beats, last_beat, World, starting, stale, killed, faulted, started, woken, read_key, passes,
  locks_ro, stops, locks_none, sleeps, wakes, reads, Reach, here, next,
}
use hello_old.Host.Threads.Safety.{threads-Safe}
use hello_old.Tui.Toy.{thousandths}

-- `main` sends a heartbeat after a second, and hangs.
abbrev hung : World
hung = record {
  now = 62000;
  running = true;
  fed_at = 1000;
  key_prot = prot_read_write;
  main = starting;
  dog = killed (stale 1000 62000);
}

-- The watchdog finds that 61 seconds later.
unfoldable hung_main : (burn_ms : ℕ) → Reach burn_ms [] [] (started 0) hung
unfolding woken
hung_main burn_ms =
    next
      (next (next (next (next here (sleeps _ refl refl)) (passes _ 1000)) (beats _ refl))
        (passes _ 61000))
      (wakes _ 0 0 none refl (omega arith))

-- A round that hangs while all is burned reads what is locked.
slow_round : (w : World) × Reach 4700 [] [] (started 0) w × (w.dog ≡ faulted 0 4700)
unfolding woken read_key
slow_round = (
  _,
  next
      (next
        (next
          (next
            (next
              (next (next (next here (locks_ro _ refl refl)) (sleeps _ refl refl))
                (stops _ refl refl))
              (passes _ 400))
            (wakes _ 0 0 none refl (omega arith)))
          (passes _ 4300))
        (locks_none _ 0 refl refl (omega arith)))
      (reads _ 0 [] refl),
  refl,
)

threads-Safe_example :
    ((hung.fed_at ≡ 1000) × (1000 + 61000 ≤ 62000) × (62000 ≤ 62000))
    × ((pid since : ℕ) (seen : Option (List ℕ))
        → 1000 + 61000 ≤ 62000
        → woken [] 1000 62000 pid seen since ≡ killed (stale 1000 62000))
unfolding last_beat hung_main
threads-Safe_example =
    threads-Safe thousandths 40 12 1 0 [] [] hung
      (hung_main (slept_in (burn_with_progress thousandths 40 12 1).0))
