-- ===== src/Vm/Refinement.antt =====
-- Each block of src/rustyvm.rs does to the slots what Vm.Reference does to the stack.
pub mod Swap
pub mod Wrmem
use hello_old.Base.{
  ℕ, zero, suc, ◌+◌, ◌^◌, ◌<◌, ◌≡◌, refl, ap, ap₂, sym, ◌∙◌, arith, Bool, true, false, List, ◌∷◌,
  ◌&&◌, ltb, leb, le→leb, lt→ltb, if◌then◌else◌, length, get_or, set, take, drop, All, IsU64,
  IsByte, value, length-set, wrapping_sub, u8, from_le_bytes, bit_and,
}
use hello_old.Vm.Select.{ct_select_lem, ct_select_usize_lem, ct_load_lem}
use hello_old.Vm.Machine.{
  Vm, note, advance, operand, dup, swap, drop_top, wrmem, rotate, skip, push1, push8, pushkey,
  rotate_left, rotate_right,
}
use hello_old.Vm.Reference.{
  duplicate, exchange, discard, take_byte, take_word, take_key, turn, turn_left, turn_right,
  write_byte, ignore, is_filled,
}
use hello_old.Vm.View.{
  top_first, view, IsValid, Refines, both_value, Refines-of_value, Refines-of_panic, All-get_or,
  All-set, top_first-set, get_or-set_ne, get_or-set_self, load_slot, load_outside, store_slot,
}
use hello_old.Vm.Slots.{with_sp, push-Refines, unary-Refines}
use hello_old.Vm.Bounds.{
  byte-IsU64, rotate_left-IsU64, rotate_right-IsU64, All-drop, from_le_bytes-lt, write_from_lem,
}

pub advance-IsValid : (k : ℕ) (s : Vm) → IsValid s → IsValid (advance k s)
advance-IsValid k s ok = record {
  slots = ok.slots;
  within = ok.within;
  words = ok.words;
  bytes = ok.bytes;
}

pub note-IsValid : (b : Bool) (s : Vm) → IsValid s → IsValid (note b s)
note-IsValid b s ok = record {
  slots = ok.slots;
  within = ok.within;
  words = ok.words;
  bytes = ok.bytes;
}

pub note-Refines :
    (b : Bool) (s : Vm) → IsValid s → Refines (value (note b s)) (value (view (note b s)))
note-Refines b s ok = both_value (note b s) (note-IsValid b s ok)

module _ (prog material : List ℕ) (bytes : All IsByte prog) (keys : All IsByte material) where
  operand-IsByte : (s : Vm) → IsByte (operand prog s)
  operand-IsByte s = All-get_or IsByte prog s.ip (omega arith) bytes

  pub push1-Refines :
      (s : Vm) → IsValid s → Refines (push1 prog material s) (take_byte prog material (view s))
  unfolding push1
  push1-Refines s ok =
      push-Refines (ltb s.ip (length prog)) (operand prog s) (advance 1 s) (advance-IsValid 1 s ok)
        (byte-IsU64 _ (operand-IsByte s))

  pub push8-Refines :
      (s : Vm) → IsValid s → Refines (push8 prog material s) (take_word prog material (view s))
  unfolding push8
  push8-Refines s ok =
      push-Refines (leb (s.ip + 8) (length prog)) _ (advance 8 s) (advance-IsValid 8 s ok)
        (either (leb (s.ip + 8) (length prog)))
    where
      word : from_le_bytes (take 8 (drop s.ip prog)) < 2 ^ 64
      word = from_le_bytes-lt 8 (drop s.ip prog) (All-drop IsByte s.ip prog bytes)

      either : (b : Bool) → IsU64 (if b then from_le_bytes (take 8 (drop s.ip prog)) else 0)
      either true = word
      either false = omega arith

  pub pushkey-Refines :
      (s : Vm) → IsValid s → Refines (pushkey prog material s) (take_key prog material (view s))
  unfolding pushkey
  pushkey-Refines s ok = rw (ct_load_lem material (operand prog s) keys) (
      push-Refines _ (get_or material (operand prog s) 0) (advance 1 s) (advance-IsValid 1 s ok)
        (byte-IsU64 _ (All-get_or IsByte material (operand prog s) (omega arith) keys)))

  dup_at :
      (n : ℕ) (s : Vm)
      → IsValid (with_sp s n)
      → Refines
          (dup prog material (with_sp s n))
          (duplicate (top_first n s.stack) (view (with_sp s n)))
  unfolding dup
  dup_at zero s ok =
      Refines-of_panic (rw (load_outside s.stack ok.slots (wrapping_sub 0 1) (omega arith))) refl
  dup_at (suc n) s ok =
      let less : wrapping_sub (suc n) 1 ≡ n = omega (arith, ok.within) in
      rw
        (
          less,
          load_slot s.stack ok.slots n (omega (arith, ok.within)),
          lt→ltb 0 (suc n) (omega arith),
        )
        (push-Refines true (get_or s.stack n 0) (with_sp s (suc n)) ok
          (All-get_or IsU64 s.stack n (omega arith) ok.words))

  pub dup-Refines :
      (s : Vm) → IsValid s → Refines (dup prog material s) (duplicate (view s).stack (view s))
  dup-Refines s ok = dup_at s.sp s ok

  drop_at :
      (n : ℕ) (s : Vm)
      → IsValid (with_sp s n)
      → Refines
          (drop_top prog material (with_sp s n))
          (discard (top_first n s.stack) (view (with_sp s n)))
  unfolding drop_top
  drop_at zero s ok =
      rw (ct_select_usize_lem false (wrapping_sub 0 1) 0 (omega arith) (omega arith))
        (note-Refines false (with_sp s 0) ok)
  drop_at (suc n) s ok =
      let less : wrapping_sub (suc n) 1 ≡ n = omega (arith, ok.within) in
      rw
        (
          lt→ltb 0 (suc n) (omega arith),
          less,
          ct_select_usize_lem true n (suc n) (omega (arith, ok.within)) (omega (arith, ok.within)),
        )
        (note-Refines true (with_sp s n) (record {
          slots = ok.slots;
          within = omega (arith, ok.within);
          words = ok.words;
          bytes = ok.bytes;
        }))

  pub drop-Refines :
      (s : Vm) → IsValid s → Refines (drop_top prog material s) (discard (view s).stack (view s))
  drop-Refines s ok = drop_at s.sp s ok

  pub skip-Refines :
      (k : ℕ) (s : Vm)
      → IsValid s
      → Refines (skip prog material k s) (ignore prog material k (view s))
  unfolding skip
  skip-Refines k s ok = note-Refines _ (advance k s) (advance-IsValid k s ok)

  is_filled_lem : (n : ℕ) (slots : List ℕ) → ltb 0 n ≡ is_filled (top_first n slots)
  is_filled_lem zero slots = refl
  is_filled_lem (suc n) slots = lt→ltb 0 (suc n) (omega arith)

  pub rotate_left-Refines :
      (s : Vm)
      → IsValid s
      → Refines (rotate prog material rotate_left s) (turn prog material turn_left (view s))
  unfolding rotate
  rotate_left-Refines s ok = rw (is_filled_lem s.sp s.stack) (
      unary-Refines _ (λ a. rotate_left a (bit_and (operand prog s) 63)) (advance 1 s)
        (advance-IsValid 1 s ok) (λ a h. rotate_left-IsU64 a _ h))

  pub rotate_right-Refines :
      (s : Vm)
      → IsValid s
      → Refines (rotate prog material rotate_right s) (turn prog material turn_right (view s))
  unfolding rotate
  rotate_right-Refines s ok = rw (is_filled_lem s.sp s.stack) (
      unary-Refines _ (λ a. rotate_right a (bit_and (operand prog s) 63)) (advance 1 s)
        (advance-IsValid 1 s ok) (λ a h. rotate_right-IsU64 a _ h))
