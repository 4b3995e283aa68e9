-- ===== src/Siv/Counter.antt =====
-- src/serpent_siv.rs, `inc128`, as arithmetic.
use hello_old.Base.{
  ℕ, ◌+◌, ◌%◌, ◌^◌, ◌<◌, ◌≡◌, refl, sym, ◌∙◌, ◌⊎◌, inl, inr, arith, Bool-cases, List, [], ◌∷◌, ltb,
  ltb→lt, ltb→le, length, All, IsByte, from_le_bytes,
}
use native.Mathlib.Nat.{mod-eq_of_lt, mod_self, pow-suc}
use hello_old.Siv.Blocks.{inc128}

pub from_le_bytes-bound : (c : List ℕ) → All IsByte c → from_le_bytes c < 256 ^ length c
from_le_bytes-bound [] h = omega arith
from_le_bytes-bound (v ∷ c) (small, h) =
    omega (arith, pow-suc 256 (length c), from_le_bytes-bound c h)

-- The counter goes up by one, and from the last value to zero.
inc128-steps :
    (c : List ℕ)
    → All IsByte c
    → (from_le_bytes c + 1 ≡ 256 ^ length c → from_le_bytes (inc128 c) ≡ 0)
      × (from_le_bytes c + 1 < 256 ^ length c → from_le_bytes (inc128 c) ≡ from_le_bytes c + 1)
unfolding inc128
inc128-steps [] h = (λ e. refl, λ e. absurd (omega arith))
inc128-steps (v ∷ c) (small, h) =
    let (wraps, counts) = inc128-steps c h in
    let size = pow-suc 256 (length c) in
    let bound = from_le_bytes-bound c h in
    elim (Bool-cases (ltb 255 (v + 1))) [
      | inl carry ↦
          let top : v ≡ 255 = omega (arith, ltb→lt 255 (v + 1) carry) in
          (
            λ e. rw (inc128, carry) (omega (arith, top, wraps (omega (arith, e, size, top)))),
            λ e. rw (inc128, carry) (omega (arith, top, counts (omega (arith, e, size, top)))),
          )
      | inr still ↦
          let room = ltb→le 255 (v + 1) still in
          (
            λ e. absurd (omega (arith, e, size, bound, room)),
            λ e. rw (inc128, still) (omega (arith, room)),
          )
    ]

at_most : (x m : ℕ) → x < m → (x + 1 ≡ m) ⊎ (x + 1 < m)
at_most x m h = ground arith

-- `inc128` adds one to the counter read as a little-endian number, modulo its range: 2 ^ 128 for a
-- block of 16 bytes.
pub from_le_bytes-inc128 :
    (c : List ℕ) → All IsByte c → from_le_bytes (inc128 c) ≡ (from_le_bytes c + 1) % 256 ^ length c
from_le_bytes-inc128 c h =
    let (wraps, counts) = inc128-steps c h in
    elim (at_most (from_le_bytes c) (256 ^ length c) (from_le_bytes-bound c h)) [
      | inl last ↦ wraps last ∙ sym (rw last (mod_self (256 ^ length c)))
      | inr room ↦ counts room ∙ sym (mod-eq_of_lt room)
    ]
