-- ===== src/Vm/Refinement/Swap.antt =====
-- The exchange of the two upper slots in src/rustyvm.rs.
use hello_old.Base.{
  ℕ, zero, suc, ◌<◌, ◌≡◌, refl, ap, ap₂, sym, ◌∙◌, arith, true, List, ◌∷◌, ◌&&◌, le→leb, length,
  get_or, set, IsU64, value, length-set, wrapping_sub,
}
use hello_old.Vm.Select.{ct_select_lem}
use hello_old.Vm.Machine.{Vm, swap}
use hello_old.Vm.Reference.{exchange}
use hello_old.Vm.View.{
  top_first, view, IsValid, Refines, Refines-of_value, Refines-of_panic, All-get_or, All-set,
  top_first-set, get_or-set_ne, get_or-set_self, load_slot, load_outside, store_slot,
}
use hello_old.Vm.Slots.{with_sp}

module _ (prog material : List ℕ) where
  -- Two writes: the upper word to the lower slot and the lower word to the upper slot.
  swapped : ℕ → Vm → Vm
  swapped n s = record s {
    stack = set (set s.stack (suc n) (get_or s.stack n 0)) n (get_or s.stack (suc n) 0);
    sp = suc (suc n);
    ok = s.ok && true;
  }

  swap_lem :
      (n : ℕ) (s : Vm)
      → IsValid (with_sp s (suc (suc n)))
      → swap prog material (with_sp s (suc (suc n))) ≡ value (swapped n s)
  unfolding swap swapped
  swap_lem n s ok =
      let one : wrapping_sub (suc (suc n)) 1 ≡ suc n = omega (arith, ok.within) in
      let two : wrapping_sub (suc (suc n)) 2 ≡ n = omega (arith, ok.within) in
      let upper : IsU64 (get_or s.stack (suc n) 0) =
        All-get_or IsU64 s.stack (suc n) (omega arith) ok.words in
      let lower : IsU64 (get_or s.stack n 0) = All-get_or IsU64 s.stack n (omega arith) ok.words in
      rw (
        one,
        two,
        load_slot s.stack ok.slots (suc n) ok.within,
        load_slot s.stack ok.slots n (omega (arith, ok.within)),
        le→leb 2 (suc (suc n)) (omega arith),
        ct_select_lem true (get_or s.stack n 0) (get_or s.stack (suc n) 0) lower upper,
        ct_select_lem true (get_or s.stack (suc n) 0) (get_or s.stack n 0) upper lower,
        store_slot s.stack ok.slots (suc n) ok.within,
        length-set s.stack (suc n) (get_or s.stack n 0),
        two,
        store_slot s.stack ok.slots n (omega (arith, ok.within)),
      )

  view-swapped :
      (n : ℕ) (s : Vm)
      → IsValid (with_sp s (suc (suc n)))
      → exchange (top_first (suc (suc n)) s.stack) (view (with_sp s (suc (suc n))))
        ≡ value (view (swapped n s))
  unfolding swapped
  view-swapped n s ok =
      let room : suc n < length s.stack = omega (arith, ok.slots, ok.within) in
      let upper = get_or s.stack (suc n) 0 in
      let lower = get_or s.stack n 0 in
      ap (λ t. value (record { stack = t; ip = s.ip; ok = s.ok && true; out = s.out }))
        (sym (
          ap₂ ◌∷◌
            (get_or-set_ne (set s.stack (suc n) lower) n (suc n) upper (omega arith)
              ∙ get_or-set_self s.stack (suc n) lower room)
            (ap₂ ◌∷◌
              (get_or-set_self (set s.stack (suc n) lower) n upper
                (omega (arith, length-set s.stack (suc n) lower)))
              (top_first-set n n upper (set s.stack (suc n) lower) (omega arith)
                ∙ top_first-set n (suc n) lower s.stack (omega arith)))))

  swapped-IsValid : (n : ℕ) (s : Vm) → IsValid (with_sp s (suc (suc n))) → IsValid (swapped n s)
  unfolding swapped
  swapped-IsValid n s ok = record {
    slots =
        length-set (set s.stack (suc n) (get_or s.stack n 0)) n _
        ∙ (length-set s.stack (suc n) _ ∙ ok.slots);
    within = ok.within;
    words = All-set IsU64 _ n _ (All-get_or IsU64 s.stack (suc n) (omega arith) ok.words) (
        All-set IsU64 s.stack (suc n) _ (All-get_or IsU64 s.stack n (omega arith) ok.words)
          ok.words);
    bytes = ok.bytes;
  }

  swap_at :
      (n : ℕ) (s : Vm)
      → IsValid (with_sp s n)
      → Refines
          (swap prog material (with_sp s n))
          (exchange (top_first n s.stack) (view (with_sp s n)))
  unfolding swap
  swap_at zero s ok =
      Refines-of_panic (rw (load_outside s.stack ok.slots (wrapping_sub 0 1) (omega arith))) refl
  swap_at (suc zero) s ok =
      Refines-of_panic
        (rw (
          load_slot s.stack ok.slots 0 (omega arith),
          load_outside s.stack ok.slots (wrapping_sub 1 2) (omega arith),
        ))
        refl
  swap_at (suc (suc n)) s ok =
      Refines-of_value (swapped n s) (swap_lem n s ok) (swapped-IsValid n s ok)
        (view-swapped n s ok)

  pub swap-Refines :
      (s : Vm) → IsValid s → Refines (swap prog material s) (exchange (view s).stack (view s))
  swap-Refines s ok = swap_at s.sp s ok
