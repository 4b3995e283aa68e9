-- ===== src/Host/Threads.antt =====
-- src/watchdog.rs, the thread of `start`, and what `main` of src/main.rs does beside it from then on:
-- the two threads as a step relation. Times are in milliseconds, of the one clock of the host. A sleep
-- lasts as long as it says or longer.
mod Rounds
mod Invariant
pub mod Safety
mod Schedules
use hello_old.Base.{ℕ, ◌+◌, ◌-◌, ◌/◌, ◌≤◌, ◌≡◌, Bool, true, false, List, Option, ltb, if◌then◌else◌}
use hello_old.Siv.Cipher.{eq_bytes}
use hello_old.Host.Watchdog.{exe_changed}
use hello_old.Archive.Memory.{Prot, prot_none, prot_read, prot_read_write}

-- Why `self_destruct` is called: the last heartbeat and the time, the tracer, or what has changed.
pub data Cause : Type 0 where
  stale : ℕ → ℕ → Cause
  traced : ℕ → Cause
  exe_differs : Cause
  key_differs : Cause

-- Where `main` is. `burning` and `locked` keep the time at which it called `stop`.
pub data MainAt : Type 0 where
  starting : MainAt
  serving : MainAt
  burning : ℕ → MainAt
  locked : ℕ → MainAt

-- Where the watchdog is. `asleep` and `reading` keep the time at which the round began; `faulted` has
-- read a key buffer that may not be read, and has that time and the time of the read.
pub data DogAt : Type 0 where
  testing : DogAt
  asleep : ℕ → DogAt
  reading : ℕ → DogAt
  ended : DogAt
  killed : Cause → DogAt
  faulted : ℕ → ℕ → DogAt

pub record World : Type 0 where
  pub now : ℕ
  pub running : Bool
  pub fed_at : ℕ
  pub key_prot : Prot
  pub main : MainAt
  pub dog : DogAt

-- When `start` has returned.
abbrev pub started : ℕ → World
started now = record {
  now = now;
  running = true;
  fed_at = now;
  key_prot = prot_read_write;
  main = starting;
  dog = testing;
}

-- The checks after the sleep, for the tracer and the hash of the executable that are found.
unfoldable pub woken : List ℕ → ℕ → ℕ → ℕ → Option (List ℕ) → ℕ → DogAt
woken exe_sha fed_at now tracer_pid seen since =
    if ltb 60 ((now - fed_at) / 1000)
    then killed (stale fed_at now)
    else if ltb 0 tracer_pid
    then killed (traced tracer_pid)
    else if exe_changed exe_sha seen
    then killed exe_differs
    else reading since

-- The copy of the key buffer, and the comparison of its hash.
unfoldable pub read_key : List ℕ → Prot → List ℕ → ℕ → ℕ → DogAt
read_key expected prot_none key_sha since now = faulted since now
read_key expected prot_read key_sha since now =
    if eq_bytes key_sha expected then testing else killed key_differs
read_key expected prot_read_write key_sha since now =
    if eq_bytes key_sha expected then testing else killed key_differs

-- The process is there until the watchdog kills it or a read of the key buffer faults.
abbrev pub is_alive : DogAt → Bool
is_alive testing = true
is_alive (asleep since) = true
is_alive (reading since) = true
is_alive ended = true
is_alive (killed cause) = false
is_alive (faulted since now) = false

module _ (burn_ms : ℕ) (exe_sha expected : List ℕ) where
  -- One of the threads moves, or time passes. `burn_ms` is how long `burn_with_progress` sleeps.
  pub data Step : World → World → Type 0 where
    passes : (w : World) (ms : ℕ) → Step w (record w { now = w.now + ms })
    locks_ro :
        (w : World)
        → is_alive w.dog ≡ true
        → w.main ≡ starting
        → Step w (record w { key_prot = prot_read; main = serving })
    beats : (w : World) → is_alive w.dog ≡ true → Step w (record w { fed_at = w.now })
    stops :
        (w : World)
        → is_alive w.dog ≡ true
        → w.main ≡ serving
        → Step w (record w { running = false; main = burning w.now })
    locks_none :
        (w : World) (since : ℕ)
        → is_alive w.dog ≡ true
        → w.main ≡ burning since
        → since + burn_ms ≤ w.now
        → Step w (record w { key_prot = prot_none; main = locked since })
    sleeps :
        (w : World) → w.dog ≡ testing → w.running ≡ true → Step w (record w { dog = asleep w.now })
    leaves : (w : World) → w.dog ≡ testing → w.running ≡ false → Step w (record w { dog = ended })
    wakes :
        (w : World) (since tracer_pid : ℕ) (seen : Option (List ℕ))
        → w.dog ≡ asleep since
        → since + 400 ≤ w.now
        → Step w (record w { dog = woken exe_sha w.fed_at w.now tracer_pid seen since })
    reads :
        (w : World) (since : ℕ) (key_sha : List ℕ)
        → w.dog ≡ reading since
        → Step w (record w { dog = read_key expected w.key_prot key_sha since w.now })

  pub data Reach (s : World) : World → Type 0 where
    here : Reach s s
    next : {t u : World} → Reach s t → Step t u → Reach s u

  -- When the last heartbeat of a run was, or `start` returned, whichever was later: the time of the
  -- last step of the run at which `main` sent one.
  abbrev pub beat_of : {v w : World} → Step v w → ℕ → ℕ
  beat_of (passes w ms) last = last
  beat_of (locks_ro w alive e) last = last
  beat_of (beats w alive) last = w.now
  beat_of (stops w alive e) last = last
  beat_of (locks_none w since alive e over) last = last
  beat_of (sleeps w e on) last = last
  beat_of (leaves w e off) last = last
  beat_of (wakes w since pid seen e slept) last = last
  beat_of (reads w since key_sha e) last = last

  unfoldable pub last_beat : {s w : World} → Reach s w → ℕ
  last_beat {s} here = s.now
  last_beat (next r st) = beat_of st (last_beat r)
