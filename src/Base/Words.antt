-- ===== src/Base/Words.antt =====
-- Machine words as native numbers: a `u8` is below 256 and a `u64` below 2 ^ 64. What wraps in the
-- source is written out.
use Prim.Native.Nat.{ℕ, zero, suc, ◌+◌, ◌-◌, ◌*◌, ◌/◌, ◌%◌, ◌^◌, ◌<◌}
use mathlib.Core.Bool.{Bool, true, false}
use mathlib.Core.List.{List, [], ◌∷◌}

abbrev pub u64_mod : ℕ
u64_mod = 2 ^ 64

abbrev pub IsByte : ℕ → Type 0
IsByte x = x < 256

abbrev pub IsU64 : ℕ → Type 0
IsU64 x = x < 2 ^ 64

-- `x as u8` and `x as u64`.
abbrev pub u8 : ℕ → ℕ
u8 x = x % 256

abbrev pub u64 : ℕ → ℕ
u64 x = x % 2 ^ 64

-- `b as u64`.
abbrev pub of_bool : Bool → ℕ
of_bool true = 1
of_bool false = 0

-- The wrapping operations of `u64`; `-` on ℕ stops at 0, so the modulus is added first.
abbrev pub wrapping_add : ℕ → ℕ → ℕ
wrapping_add a b = (a + b) % 2 ^ 64

abbrev pub wrapping_sub : ℕ → ℕ → ℕ
wrapping_sub a b = (a + 2 ^ 64 - b) % 2 ^ 64

abbrev pub wrapping_mul : ℕ → ℕ → ℕ
wrapping_mul a b = a * b % 2 ^ 64

abbrev pub wrapping_neg : ℕ → ℕ
wrapping_neg a = (2 ^ 64 - a) % 2 ^ 64

-- `!a` on a `u64`.
abbrev pub complement : ℕ → ℕ
complement a = 2 ^ 64 - 1 - a

-- `u64::from_le_bytes` of a slice.
abbrev pub from_le_bytes : List ℕ → ℕ
from_le_bytes [] = 0
from_le_bytes (b ∷ bs) = b + 256 * from_le_bytes bs

-- `to_le_bytes`, in `n` bytes.
abbrev pub to_le_bytes : ℕ → ℕ → List ℕ
to_le_bytes zero x = []
to_le_bytes (suc n) x = x % 256 ∷ to_le_bytes n (x / 256)
