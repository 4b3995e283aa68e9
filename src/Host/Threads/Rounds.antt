-- ===== src/Host/Threads/Rounds.antt =====
-- What is true of `main` and of a round of the watchdog, and what the checks of a round keep.
use hello_old.Base.{
  ℕ, ◌+◌, ◌-◌, ◌/◌, ◌≤◌, ◌<◌, ◌≡◌, arith, Bool, true, false, Bool-cases, inl, inr, List, Option,
  ltb, ltb→lt, if◌then◌else◌,
}
use hello_old.Siv.Cipher.{eq_bytes}
use hello_old.Host.Watchdog.{exe_changed}
use hello_old.Archive.Memory.{Prot, prot_none, prot_read, prot_read_write}
use hello_old.Host.Threads.{
  Cause, stale, traced, exe_differs, key_differs, MainAt, starting, serving, burning, locked, DogAt,
  testing, asleep, reading, ended, killed, faulted, woken, read_key, is_alive,
}

-- `stop` has been called exactly if `main` has come to it, not in the future, and the key buffer cannot
-- be read only when the burning is over.
abbrev pub MainOk : ℕ → MainAt → Bool → Prot → ℕ → Type 0
MainOk burn_ms starting running prot now = (running ≡ true) × (prot ≡ prot_read_write)
MainOk burn_ms serving running prot now = (running ≡ true) × (prot ≡ prot_read)
MainOk burn_ms (burning s) running prot now = (running ≡ false) × ((prot ≡ prot_read) × (s ≤ now))
MainOk burn_ms (locked s) running prot now = (running ≡ false) × (s + burn_ms ≤ now)

-- A round that is under way began before `stop`.
abbrev pub Before : MainAt → ℕ → Type 0
Before starting s = Unit
Before serving s = Unit
Before (burning stop) s = s ≤ stop
Before (locked stop) s = s ≤ stop

-- A late heartbeat is the last one that was sent, and 61 seconds old or older.
abbrev pub CauseOk : ℕ → ℕ → Cause → Type 0
CauseOk last now (stale fed_at at) = (fed_at ≡ last) × (last + 61000 ≤ at) × (at ≤ now)
CauseOk last now (traced pid) = Unit
CauseOk last now exe_differs = Unit
CauseOk last now key_differs = Unit

abbrev pub DogSafe : ℕ → ℕ → ℕ → DogAt → Type 0
DogSafe burn_ms last now testing = Unit
DogSafe burn_ms last now (asleep s) = Unit
DogSafe burn_ms last now (reading s) = Unit
DogSafe burn_ms last now ended = Unit
DogSafe burn_ms last now (killed cause) = CauseOk last now cause
DogSafe burn_ms last now (faulted s at) = s + burn_ms ≤ at

abbrev pub RoundOk : MainAt → DogAt → ℕ → Type 0
RoundOk main testing now = Unit
RoundOk main (asleep s) now = (s ≤ now) × Before main s
RoundOk main (reading s) now = (s ≤ now) × Before main s
RoundOk main ended now = Unit
RoundOk main (killed cause) now = Unit
RoundOk main (faulted s t) now = Unit

pub MainOk-later :
    (burn_ms : ℕ) (main : MainAt) (running : Bool) (prot : Prot) (now ms : ℕ)
    → MainOk burn_ms main running prot now
    → MainOk burn_ms main running prot (now + ms)
MainOk-later burn_ms starting running prot now ms h = h
MainOk-later burn_ms serving running prot now ms h = h
MainOk-later burn_ms (burning s) running prot now ms h = (h.0, (h.1.0, omega (arith, h.1.1)))
MainOk-later burn_ms (locked s) running prot now ms h = (h.0, omega (arith, h.1))

pub RoundOk-later :
    (main : MainAt) (dog : DogAt) (now ms : ℕ) → RoundOk main dog now → RoundOk main dog (now + ms)
RoundOk-later main testing now ms h = h
RoundOk-later main (asleep s) now ms h = (omega (arith, h.0), h.1)
RoundOk-later main (reading s) now ms h = (omega (arith, h.0), h.1)
RoundOk-later main ended now ms h = h
RoundOk-later main (killed cause) now ms h = h
RoundOk-later main (faulted s t) now ms h = h

-- What `main` does to a round that is under way.
pub RoundOk-moved :
    (main main' : MainAt) (dog : DogAt) (now : ℕ)
    → ((s : ℕ) → s ≤ now → Before main s → Before main' s)
    → RoundOk main dog now
    → RoundOk main' dog now
RoundOk-moved main main' testing now f h = h
RoundOk-moved main main' (asleep s) now f h = (h.0, f s h.0 h.1)
RoundOk-moved main main' (reading s) now f h = (h.0, f s h.0 h.1)
RoundOk-moved main main' ended now f h = h
RoundOk-moved main main' (killed cause) now f h = h
RoundOk-moved main main' (faulted s t) now f h = h

-- A round begins only while `stop` has not been called.
pub Before-running :
    (burn_ms : ℕ) (main : MainAt) (running : Bool) (prot : Prot) (now : ℕ)
    → MainOk burn_ms main running prot now
    → running ≡ true
    → Before main now
Before-running burn_ms starting running prot now h e = tt
Before-running burn_ms serving running prot now h e = tt
Before-running burn_ms (burning s) running prot now h e = cc
Before-running burn_ms (locked s) running prot now h e = cc

pub DogSafe-later :
    (burn_ms last now ms : ℕ) (dog : DogAt)
    → DogSafe burn_ms last now dog
    → DogSafe burn_ms last (now + ms) dog
DogSafe-later burn_ms last now ms testing h = h
DogSafe-later burn_ms last now ms (asleep s) h = h
DogSafe-later burn_ms last now ms (reading s) h = h
DogSafe-later burn_ms last now ms ended h = h
DogSafe-later burn_ms last now ms (killed (stale fed_at at)) (fed, late, past) =
    (fed, late, omega (arith, past))
DogSafe-later burn_ms last now ms (killed (traced pid)) h = h
DogSafe-later burn_ms last now ms (killed exe_differs) h = h
DogSafe-later burn_ms last now ms (killed key_differs) h = h
DogSafe-later burn_ms last now ms (faulted s at) h = h

-- A heartbeat comes only while the process is there.
pub DogSafe-alive :
    (burn_ms last now : ℕ) (dog : DogAt) → is_alive dog ≡ true → DogSafe burn_ms last now dog
DogSafe-alive burn_ms last now testing e = tt
DogSafe-alive burn_ms last now (asleep s) e = tt
DogSafe-alive burn_ms last now (reading s) e = tt
DogSafe-alive burn_ms last now ended e = tt
DogSafe-alive burn_ms last now (killed cause) e = cc
DogSafe-alive burn_ms last now (faulted s at) e = cc

pub woken_lem :
    (burn_ms : ℕ) (exe_sha : List ℕ) (main : MainAt) (fed_at last now pid : ℕ)
    (seen : Option (List ℕ)) (since : ℕ)
    → fed_at ≡ last
    → since ≤ now
    → Before main since
    → RoundOk main (woken exe_sha fed_at now pid seen since) now
      × DogSafe burn_ms last now (woken exe_sha fed_at now pid seen since)
unfolding woken
woken_lem burn_ms exe_sha main fed_at last now pid seen since fed past before =
    elim (Bool-cases (ltb 60 ((now - fed_at) / 1000))) [
      | inl t ↦ rw t (tt, (fed, late (ltb→lt 60 ((now - fed_at) / 1000) t), omega arith))
      | inr f ↦ elim (Bool-cases (ltb 0 pid)) [
        | inl t ↦ rw (f, t) (tt, tt)
        | inr f' ↦ elim (Bool-cases (exe_changed exe_sha seen)) [
          | inl t ↦ rw (f, f', t) (tt, tt)
          | inr f'' ↦ rw (f, f', f'') ((past, before), tt)
        ]
      ]
    ]
  where
    late : 60 < (now - fed_at) / 1000 → last + 61000 ≤ now
    late h = omega (arith, fed)

compared :
    (burn_ms last : ℕ) (main : MainAt) (now : ℕ) (same : Bool)
    → RoundOk main (if same then testing else killed key_differs) now
      × DogSafe burn_ms last now (if same then testing else killed key_differs)
compared burn_ms last main now true = (tt, tt)
compared burn_ms last main now false = (tt, tt)

-- Only a buffer that may not be read is a fault, and then the burning is over.
pub read_key_lem :
    (burn_ms last : ℕ) (expected : List ℕ) (main : MainAt) (running : Bool) (prot : Prot)
    (key_sha : List ℕ) (since now : ℕ)
    → MainOk burn_ms main running prot now
    → Before main since
    → RoundOk main (read_key expected prot key_sha since now) now
      × DogSafe burn_ms last now (read_key expected prot key_sha since now)
unfolding read_key
read_key_lem burn_ms last expected main running prot_none key_sha since now h before =
    (tt, over main h before)
  where
    over :
        (main : MainAt)
        → MainOk burn_ms main running prot_none now
        → Before main since
        → since + burn_ms ≤ now
    over starting h b = cc
    over serving h b = cc
    over (burning s) h b = cc
    over (locked s) h b = omega (arith, h.1)
read_key_lem burn_ms last expected main running prot_read key_sha since now h before =
    compared burn_ms last main now (eq_bytes key_sha expected)
read_key_lem burn_ms last expected main running prot_read_write key_sha since now h before =
    compared burn_ms last main now (eq_bytes key_sha expected)
