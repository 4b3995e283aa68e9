-- ===== src/Vm/Bounds.antt =====
-- What the operations of src/rustyvm.rs give stays a word, and the output write against a plain
-- write at an index.
use hello_old.Base.{
  ℕ, zero, suc, ◌+◌, ◌-◌, ◌^◌, ◌<◌, ◌≡◌, refl, ap₂, arith, Bool, true, false, List, [], ◌∷◌,
  if◌then◌else◌, set, take, drop, All, IsU64, IsByte, u8, from_le_bytes, bit_and, bit_xor, or-lt,
  xor-lt, and_ones, and-zero, xor-zero, xor_comm, xor_cancel, ◌==◌, of_bool, wrapping_neg,
}
use native.Mathlib.Nat.{mod-eq_of_lt, div-le_self, one-le-pow, pow-suc}
use hello_old.Vm.Select.{hit, miss}
use hello_old.Vm.Machine.{write_from, rotate_left, rotate_right}

pub byte-IsU64 : (x : ℕ) → IsByte x → IsU64 x
byte-IsU64 x h = omega arith

pub rotate_left-IsU64 : (a n : ℕ) → IsU64 a → IsU64 (rotate_left a n)
rotate_left-IsU64 a n h = or-lt 64 _ _ (omega arith) (omega (arith, div-le_self a (2 ^ (64 - n))))

pub rotate_right-IsU64 : (a n : ℕ) → IsU64 a → IsU64 (rotate_right a n)
rotate_right-IsU64 a n h = or-lt 64 _ _ (omega (arith, div-le_self a (2 ^ n))) (omega arith)

module _ (P : ℕ → Type 0) where
  pub All-take : (n : ℕ) (xs : List ℕ) → All P xs → All P (take n xs)
  All-take zero xs h = tt
  All-take (suc n) [] h = tt
  All-take (suc n) (x ∷ xs) h = (h.0, All-take n xs h.1)

  pub All-drop : (n : ℕ) (xs : List ℕ) → All P xs → All P (drop n xs)
  All-drop zero xs h = h
  All-drop (suc n) [] h = tt
  All-drop (suc n) (x ∷ xs) h = All-drop n xs h.1

-- Eight bytes fill a word.
pub from_le_bytes-lt : (n : ℕ) (bs : List ℕ) → All IsByte bs → from_le_bytes (take n bs) < 256 ^ n
from_le_bytes-lt zero bs h = omega arith
from_le_bytes-lt (suc n) [] h = omega (arith, one-le-pow (suc n) 256)
from_le_bytes-lt (suc n) (b ∷ bs) (small, rest) =
    omega (arith, pow-suc 256 n, from_le_bytes-lt n bs rest)

-- The masks of the output write: at the index of a valid write the byte is replaced, and nothing
-- else changes.
keep_byte : (byte x : ℕ) → bit_xor byte (bit_and x 0) ≡ byte
keep_byte byte x = rw (and-zero x) (xor-zero byte)

swap_byte : (byte v : ℕ) → IsByte byte → IsByte v → bit_xor byte (bit_and (bit_xor v byte) 255) ≡ v
swap_byte byte v hb hv =
    rw
      (
        and_ones 8 (bit_xor v byte),
        mod-eq_of_lt (xor-lt 8 v byte hv hb),
        xor_comm byte (bit_xor v byte),
      )
      (xor_cancel v byte)

write_from-invalid : (out : List ℕ) (i idx val : ℕ) → write_from i idx false val out ≡ out
unfolding write_from
write_from-invalid [] i idx val = refl
write_from-invalid (byte ∷ out) i idx val =
    ap₂ ◌∷◌
      (rw (and-zero (wrapping_neg (of_bool (bit_xor i idx == 0))))
        (keep_byte byte (bit_xor (u8 val) byte)))
      (write_from-invalid out (i + 1) idx val)

write_from-past : (out : List ℕ) (i idx val : ℕ) → idx < i → write_from i idx true val out ≡ out
unfolding write_from
write_from-past [] i idx val h = refl
write_from-past (byte ∷ out) i idx val h =
    ap₂ ◌∷◌ (rw (miss i idx (omega arith)) (keep_byte byte (bit_xor (u8 val) byte)))
      (write_from-past out (i + 1) idx val (omega arith))

write_from-valid :
    (out : List ℕ) (i k idx val : ℕ)
    → i + k ≡ idx
    → All IsByte out
    → write_from i idx true val out ≡ set out k (u8 val)
unfolding write_from
write_from-valid [] i k idx val e h = refl
write_from-valid (byte ∷ out) i zero idx val e (small, _) =
    let here : idx ≡ i = omega arith in
    rw here (
      ap₂ ◌∷◌ (rw (hit i) (swap_byte byte (u8 val) small (omega arith)))
        (write_from-past out (i + 1) i val (omega arith)))
write_from-valid (byte ∷ out) i (suc k) idx val e (_, small) =
    ap₂ ◌∷◌ (rw (miss i idx (omega arith)) (keep_byte byte (bit_xor (u8 val) byte)))
      (write_from-valid out (i + 1) k idx val (omega arith) small)

-- The masked loop writes the low byte at the index when the write is valid.
pub write_from_lem :
    (valid : Bool) (idx val : ℕ) (out : List ℕ)
    → All IsByte out
    → write_from 0 idx valid val out ≡ (if valid then set out idx (u8 val) else out)
write_from_lem true idx val out h = write_from-valid out 0 idx idx val (omega arith) h
write_from_lem false idx val out h = write_from-invalid out 0 idx val
