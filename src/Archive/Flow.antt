-- ===== src/Archive/Flow.antt =====
-- src/main.rs, `main`: how a run of the binary ends, and steps that may end it.
use hello_old.Base.{
  ℕ, Bool, true, false, List, Option, none, some, ltb, if◌then◌else◌, length, take,
}

-- The reasons for which `refuse` is called.
pub data Refusal : Type 0 where
  injection_detected : Refusal
  memory_lock_failed : Refusal
  clock_jump : Refusal
  seccomp_failed : Refusal
  clock_suspicious : Refusal
  custom_ntp_drift : Refusal
  custom_ntp_failed : Refusal
  door_locked : ℕ → Refusal

-- A run that shows no text: `destroyed` is `self_destruct`, `exited` the exit of the debugger check,
-- `waiting` a prompt that nobody answers; `unfinished` is the model's own.
pub data Ending : Type 0 where
  refused : Refusal → Ending
  destroyed : Ending
  panicked : Ending
  exited : Ending
  waiting : Ending
  unfinished : Ending

-- `revealed` has the bytes of the metadata and of the text.
pub data Outcome : Type 0 where
  revealed : List ℕ → List ℕ → Outcome
  ended : Ending → Outcome

pub data Flow {ℓ} (A : Type ℓ) : Type ℓ where
  stop : Ending → Flow A
  next : A → Flow A

infixl 5 ◌>>=◌
abbrev pub ◌>>=◌ {ℓ κ} : {A : Type ℓ} {B : Type κ} → Flow A → (A → Flow B) → Flow B
stop o >>= f = stop o
next a >>= f = f a

-- A check that lets the run go on.
pub data Passed : Type 0 where
  passed : Passed

-- `if !test { … }` with a call that does not return.
abbrev pub ensure : Bool → Ending → Flow Passed
ensure true o = next passed
ensure false o = stop o

-- `None => self_destruct()`, and `expect`.
abbrev pub or_destroy {ℓ} : {A : Type ℓ} → Option A → Flow A
or_destroy none = stop destroyed
or_destroy (some x) = next x

abbrev pub expect {ℓ} : {A : Type ℓ} → Option A → Flow A
expect none = stop panicked
expect (some x) = next x

-- `&xs[..n]`.
abbrev pub prefix : ℕ → List ℕ → Flow (List ℕ)
prefix n xs = if ltb (length xs) n then stop panicked else next (take n xs)
