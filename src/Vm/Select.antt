-- ===== src/Vm/Select.antt =====
-- src/rustyvm.rs, `ct_select`, `ct_select_usize` and `ct_load`: selection and indexed access
-- without branches. A `usize` has 64 bits.
use hello_old.Base.{
  ℕ, zero, suc, ◌+◌, ◌-◌, ◌<◌, ◌^◌, ◌≡◌, refl, ◌∙◌, arith, Bool, true, false, Bool-cases, List, [],
  ◌∷◌, ◌==◌, if◌then◌else◌, bit_and, bit_or, bit_xor, wrapping_neg, complement, of_bool, IsU64,
  IsByte, All, get_or, and_ones, and-zero, or-zero, zero-or, xor-zero, zero-xor, xor_self,
  eq_of_xor, u64, ==_iff, ◌≢◌, inl, inr, ◌+◌,
}
use native.Mathlib.Nat.{mod-eq_of_lt}

unfoldable pub ct_select : Bool → ℕ → ℕ → ℕ
ct_select cond a b =
    let mask = wrapping_neg (of_bool cond) in bit_or (bit_and a mask) (bit_and b (complement mask))

unfoldable pub ct_select_usize : Bool → ℕ → ℕ → ℕ
unfolding ct_select
ct_select_usize cond a b = ct_select cond (u64 a) (u64 b)

-- The loop of `ct_load` from index `i` on.
unfoldable pub ct_load_from : ℕ → List ℕ → ℕ → ℕ → ℕ
ct_load_from i [] idx result = result
ct_load_from i (byte ∷ material) idx result =
    let eq = of_bool (bit_xor i idx == 0) in
    let mask = wrapping_neg eq in
    ct_load_from (i + 1) material idx (bit_xor result (bit_and byte mask))

unfoldable pub ct_load : List ℕ → ℕ → ℕ
unfolding ct_load_from
ct_load material idx = ct_load_from 0 material idx 0

-- A full mask keeps a word, and an empty one clears it.
pub and_full : (a : ℕ) → IsU64 a → bit_and a (2 ^ 64 - 1) ≡ a
and_full a h = and_ones 64 a ∙ mod-eq_of_lt h

-- `ct_select` is `if cond { a } else { b }` on words.
pub ct_select_lem :
    (cond : Bool) (a b : ℕ) → IsU64 a → IsU64 b → ct_select cond a b ≡ (if cond then a else b)
unfolding ct_select
ct_select_lem true a b ha hb = rw (and_full a ha, and-zero b) (or-zero a)
ct_select_lem false a b ha hb = rw (and_full b hb, and-zero a) (zero-or b)

pub ct_select_usize_lem :
    (cond : Bool) (a b : ℕ) → IsU64 a → IsU64 b → ct_select_usize cond a b ≡ (if cond then a else b)
unfolding ct_select_usize
ct_select_usize_lem cond a b ha hb =
    rw (mod-eq_of_lt ha, mod-eq_of_lt hb) (ct_select_lem cond a b ha hb)

-- The mask of `ct_load` and of the output write is full exactly at the index.
pub hit : (i : ℕ) → (bit_xor i i == 0) ≡ true
hit i = rw (xor_self i)

pub miss : (i j : ℕ) → i ≢ j → (bit_xor i j == 0) ≡ false
miss i j ne = elim (Bool-cases (bit_xor i j == 0)) [
  | inl e ↦ absurd (ne (eq_of_xor i j ((==_iff _ 0).0 e)))
  | inr e ↦ e
]

-- Past the index the loop adds nothing.
ct_load_past :
    (material : List ℕ) (i idx result : ℕ) → idx < i → ct_load_from i material idx result ≡ result
unfolding ct_load_from
ct_load_past [] i idx result h = refl
ct_load_past (byte ∷ material) i idx result h =
    rw (miss i idx (omega arith), and-zero byte, xor-zero result)
      (ct_load_past material (i + 1) idx result (omega arith))

ct_load_ahead :
    (material : List ℕ) (i k idx : ℕ)
    → i + k ≡ idx
    → All IsByte material
    → ct_load_from i material idx 0 ≡ get_or material k 0
unfolding ct_load_from
ct_load_ahead [] i k idx e h = refl
ct_load_ahead (byte ∷ material) i zero idx e (small, _) =
    let here : idx ≡ i = omega arith in
    rw (here, hit i, zero-xor, and_full byte (omega arith))
      (ct_load_past material (i + 1) i byte (omega arith))
ct_load_ahead (byte ∷ material) i (suc k) idx e (_, small) =
    rw (miss i idx (omega arith), and-zero byte, xor-zero 0)
      (ct_load_ahead material (i + 1) k idx (omega arith) small)

-- `ct_load` reads the byte at the index, and 0 out of range.
pub ct_load_lem :
    (material : List ℕ) (idx : ℕ)
    → All IsByte material
    → ct_load material idx ≡ get_or material idx 0
unfolding ct_load
ct_load_lem material idx h = ct_load_ahead material 0 idx idx (omega arith) h
