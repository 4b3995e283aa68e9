-- ===== src/Host/Threads/Invariant.antt =====
-- What every step of the watchdog and of `main` of src/main.rs keeps.
use hello_old.Base.{ℕ, ◌≡◌, refl, arith, List}
use hello_old.Host.Threads.{
  serving, burning, locked, World, started, Step, passes, locks_ro, beats, stops, locks_none,
  beat_of, last_beat, sleeps, leaves, wakes, reads, Reach, here, next,
}
use hello_old.Host.Threads.Rounds.{
  MainOk, RoundOk, DogSafe, MainOk-later, RoundOk-later, RoundOk-moved, Before-running, woken_lem,
  read_key_lem, DogSafe-later, DogSafe-alive,
}

pub record Inv (burn_ms last : ℕ) (w : World) : Type 0 where
  pub fed_ok : w.fed_at ≡ last
  pub main_ok : MainOk burn_ms w.main w.running w.key_prot w.now
  pub round_ok : RoundOk w.main w.dog w.now
  pub dog_safe : DogSafe burn_ms last w.now w.dog

module _ (burn_ms : ℕ) (exe_sha expected : List ℕ) where
  -- Every step of a thread keeps the invariant.
  Step-Inv :
      (last : ℕ) {v w : World} (st : Step burn_ms exe_sha expected v w)
      → Inv burn_ms last v
      → Inv burn_ms (beat_of burn_ms exe_sha expected st last) w
  Step-Inv last (passes w ms) inv = record {
    fed_ok = inv.fed_ok;
    main_ok = MainOk-later burn_ms w.main w.running w.key_prot w.now ms inv.main_ok;
    round_ok = RoundOk-later w.main w.dog w.now ms inv.round_ok;
    dog_safe = DogSafe-later burn_ms last w.now ms w.dog inv.dog_safe;
  }
  Step-Inv last (locks_ro w alive e) inv = record {
    fed_ok = inv.fed_ok;
    main_ok = let ok = inv.main_ok in ((rw e at ok).0, refl);
    round_ok = RoundOk-moved w.main serving w.dog w.now (λ s past b. tt) inv.round_ok;
    dog_safe = inv.dog_safe;
  }
  Step-Inv last (beats w alive) inv = record {
    fed_ok = refl;
    main_ok = inv.main_ok;
    round_ok = inv.round_ok;
    dog_safe = DogSafe-alive burn_ms w.now w.now w.dog alive;
  }
  Step-Inv last (stops w alive e) inv = record {
    fed_ok = inv.fed_ok;
    main_ok = let ok = inv.main_ok in (refl, ((rw e at ok).1, omega arith));
    round_ok = RoundOk-moved w.main (burning w.now) w.dog w.now (λ s past b. past) inv.round_ok;
    dog_safe = inv.dog_safe;
  }
  Step-Inv last (locks_none w since alive e over) inv = record {
    fed_ok = inv.fed_ok;
    main_ok = let ok = inv.main_ok in ((rw e at ok).0, over);
    round_ok = RoundOk-moved w.main (locked since) w.dog w.now (λ s past b. rw e at b) inv.round_ok;
    dog_safe = inv.dog_safe;
  }
  Step-Inv last (sleeps w e on) inv = record {
    fed_ok = inv.fed_ok;
    main_ok = inv.main_ok;
    round_ok =
        (omega arith, Before-running burn_ms w.main w.running w.key_prot w.now inv.main_ok on);
    dog_safe = tt;
  }
  Step-Inv last (leaves w e off) inv = record {
    fed_ok = inv.fed_ok;
    main_ok = inv.main_ok;
    round_ok = tt;
    dog_safe = tt;
  }
  Step-Inv last (wakes w since pid seen e slept) inv =
      let round = inv.round_ok in
      let (past, before) = rw e at round in
      let (ok, safe) =
        woken_lem burn_ms exe_sha w.main w.fed_at last w.now pid seen since inv.fed_ok past
          before in
      record { fed_ok = inv.fed_ok; main_ok = inv.main_ok; round_ok = ok; dog_safe = safe }
  Step-Inv last (reads w since key_sha e) inv =
      let round = inv.round_ok in
      let (past, before) = rw e at round in
      let (ok, safe) =
        read_key_lem burn_ms last expected w.main w.running w.key_prot key_sha since w.now
          inv.main_ok before in
      record { fed_ok = inv.fed_ok; main_ok = inv.main_ok; round_ok = ok; dog_safe = safe }

  started-Inv : (now : ℕ) → Inv burn_ms now (started now)
  started-Inv now = record { fed_ok = refl; main_ok = (refl, refl); round_ok = tt; dog_safe = tt }

  pub Reach-Inv :
      (now : ℕ) {w : World} (run : Reach burn_ms exe_sha expected (started now) w)
      → Inv burn_ms (last_beat burn_ms exe_sha expected run) w
  unfolding last_beat
  Reach-Inv now here = started-Inv now
  Reach-Inv now (next r st) = Step-Inv (last_beat burn_ms exe_sha expected r) st (Reach-Inv now r)
