-- ===== src/Vm/Refinement/Wrmem.antt =====
-- The write to the output in src/rustyvm.rs.
use hello_old.Base.{
  ℕ, zero, suc, ◌+◌, ◌≡◌, arith, Bool, true, false, List, ◌&&◌, ltb, lt→ltb, if◌then◌else◌, length,
  get_or, set, IsByte, value, wrapping_sub, u8,
}
use hello_old.Vm.Select.{ct_select_usize_lem}
use hello_old.Vm.Machine.{Vm, note, operand, wrmem}
use hello_old.Vm.Reference.{write_byte}
use hello_old.Vm.View.{view, IsValid, Refines, both_value, All-set, load_slot}
use hello_old.Vm.Slots.{with_sp}
use hello_old.Vm.Bounds.{write_from_lem}

module _ (prog material : List ℕ) where
  -- What an output write leaves, with `n` slots in use after it.
  wrote : (valid : Bool) (val n : ℕ) → Vm → Vm
  wrote valid val n s = note valid (record s {
    ip = s.ip + 1;
    out = if valid then set s.out (operand prog s) (u8 val) else s.out;
    sp = n;
  })

  wrote-Refines :
      (valid : Bool) (val n : ℕ) (s : Vm)
      → IsValid (with_sp s n)
      → Refines (value (wrote valid val n s)) (value (view (wrote valid val n s)))
  unfolding wrote
  wrote-Refines true val n s ok = both_value _ (record {
    slots = ok.slots;
    within = ok.within;
    words = ok.words;
    bytes = All-set IsByte s.out (operand prog s) (u8 val) (omega arith) ok.bytes;
  })
  wrote-Refines false val n s ok =
      both_value _
        (record { slots = ok.slots; within = ok.within; words = ok.words; bytes = ok.bytes })

  wrmem_at :
      (n : ℕ) (s : Vm)
      → IsValid (with_sp s n)
      → Refines (wrmem prog material (with_sp s n)) (write_byte prog material (view (with_sp s n)))
  unfolding wrmem wrote
  wrmem_at zero s ok =
      let valid = ltb s.ip (length prog) && false && ltb (operand prog s) (length s.out) in
      rw
        (
          ct_select_usize_lem false (wrapping_sub 0 1) 0 (omega arith) (omega arith),
          write_from_lem valid (operand prog s) 0 s.out ok.bytes,
        )
        (wrote-Refines valid 0 0 s ok)
  wrmem_at (suc n) s ok =
      let valid = ltb s.ip (length prog) && true && ltb (operand prog s) (length s.out) in
      let less : wrapping_sub (suc n) 1 ≡ n = omega (arith, ok.within) in
      rw
        (
          lt→ltb 0 (suc n) (omega arith),
          less,
          load_slot s.stack ok.slots n (omega (arith, ok.within)),
          ct_select_usize_lem true n (suc n) (omega (arith, ok.within)) (omega (arith, ok.within)),
          write_from_lem valid (operand prog s) (get_or s.stack n 0) s.out ok.bytes,
        )
        (wrote-Refines valid (get_or s.stack n 0) n s (record {
          slots = ok.slots;
          within = omega (arith, ok.within);
          words = ok.words;
          bytes = ok.bytes;
        }))

  pub wrmem-Refines :
      (s : Vm) → IsValid s → Refines (wrmem prog material s) (write_byte prog material (view s))
  wrmem-Refines s ok = wrmem_at s.sp s ok
