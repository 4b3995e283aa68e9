-- ===== src/Vm/Slots.antt =====
-- The shared bodies of the blocks of src/rustyvm.rs against the stack of Vm.Reference.
use hello_old.Base.{
  ℕ, zero, suc, ◌<◌, ◌≡◌, refl, ap, sym, ◌∙◌, arith, Bool, true, false, ◌&&◌, ltb, if◌then◌else◌,
  get_or, set, IsU64, value, length-set, lt→ltb, wrapping_sub, wrapping_add, Bool-cases, le→leb,
  inl, inr, ltb→lt, ltb→le,
}
use hello_old.Vm.Select.{ct_select_lem, ct_select_usize_lem}
use hello_old.Vm.Machine.{Vm, push, binary, unary, note}
use hello_old.Vm.Reference.{push_word, on_two, on_top}
use hello_old.Vm.View.{
  top_first, view, IsValid, Refines, Refines-of_value, Refines-of_panic, length-top_first,
  All-get_or, All-set, top_first-set, top_first-set_top, load_slot, load_outside, store_slot,
}

-- What `push` leaves where a slot is free.
abbrev pushed : Bool → ℕ → Vm → Vm
pushed valid v s = note valid (record s {
  stack = set s.stack s.sp (if valid then v else get_or s.stack s.sp 0);
  sp = if valid then suc s.sp else s.sp;
})

push_room :
    (valid : Bool) (v : ℕ) (s : Vm)
    → IsValid s
    → IsU64 v
    → s.sp < 16
    → push valid v s ≡ value (pushed valid v s)
unfolding push
push_room valid v s ok small room =
    rw
      (
        load_slot s.stack ok.slots s.sp room,
        store_slot s.stack ok.slots s.sp room,
        ct_select_lem valid v (get_or s.stack s.sp 0) small
            (All-get_or IsU64 s.stack s.sp (omega arith) ok.words),
        ct_select_usize_lem valid (wrapping_add s.sp 1) s.sp (omega arith) (omega arith),
      )
      (ap
        (λ t. value (record s {
          stack = set s.stack s.sp (if valid then v else get_or s.stack s.sp 0);
          sp = t;
          ok = s.ok && valid;
        }))
        (next valid))
  where
    next : (b : Bool) → (if b then wrapping_add s.sp 1 else s.sp) ≡ (if b then suc s.sp else s.sp)
    next true = omega arith
    next false = refl

pushed-IsValid :
    (valid : Bool) (v : ℕ) (s : Vm) → IsValid s → IsU64 v → s.sp < 16 → IsValid (pushed valid v s)
pushed-IsValid true v s ok small room = record {
  slots = length-set s.stack s.sp v ∙ ok.slots;
  within = room;
  words = All-set IsU64 s.stack s.sp v small ok.words;
  bytes = ok.bytes;
}
pushed-IsValid false v s ok small room = record {
  slots = length-set s.stack s.sp (get_or s.stack s.sp 0) ∙ ok.slots;
  within = ok.within;
  words =
      All-set IsU64 s.stack s.sp _ (All-get_or IsU64 s.stack s.sp (omega arith) ok.words) ok.words;
  bytes = ok.bytes;
}

view-pushed :
    (valid : Bool) (v : ℕ) (s : Vm)
    → IsValid s
    → s.sp < 16
    → push_word valid v (view s) ≡ value (view (pushed valid v s))
view-pushed true v s ok room =
    rw (length-top_first s.sp s.stack, lt→ltb s.sp 16 room)
      (ap (λ t. value (record { stack = t; ip = s.ip; ok = s.ok && true; out = s.out }))
        (sym (top_first-set_top s.sp v s.stack (omega (arith, ok.slots)))))
view-pushed false v s ok room =
    rw (length-top_first s.sp s.stack, lt→ltb s.sp 16 room)
      (ap (λ t. value (record { stack = t; ip = s.ip; ok = s.ok && false; out = s.out }))
        (sym (top_first-set s.sp s.sp _ s.stack (omega arith))))

-- Pushing a word, with or without room.
pub push-Refines :
    (valid : Bool) (v : ℕ) (s : Vm)
    → IsValid s
    → IsU64 v
    → Refines (push valid v s) (push_word valid v (view s))
unfolding push
push-Refines valid v s ok small = elim (Bool-cases (ltb s.sp 16)) [
  | inl room ↦
      let free : s.sp < 16 = ltb→lt s.sp 16 room in
      Refines-of_value (pushed valid v s) (push_room valid v s ok small free)
        (pushed-IsValid valid v s ok small free) (view-pushed valid v s ok free)
  | inr full ↦
      Refines-of_panic (rw (load_outside s.stack ok.slots s.sp (ltb→le s.sp 16 full)))
        (rw (length-top_first s.sp s.stack, full))
]

-- A machine with `n` slots in use, to split on `n`.
abbrev pub with_sp : Vm → ℕ → Vm
with_sp s n = record s { sp = n }

binary_lem :
    (f : ℕ → ℕ → ℕ) (n : ℕ) (s : Vm)
    → IsValid (with_sp s (suc (suc n)))
    → IsU64 (f (get_or s.stack (suc n) 0) (get_or s.stack n 0))
    → binary f (with_sp s (suc (suc n)))
      ≡ value (
          note true (record s {
            stack = set s.stack n (f (get_or s.stack (suc n) 0) (get_or s.stack n 0));
            sp = suc n;
          }))
unfolding binary
binary_lem f n s ok closed =
    let one : wrapping_sub (suc (suc n)) 1 ≡ suc n = omega (arith, ok.within) in
    let two : wrapping_sub (suc (suc n)) 2 ≡ n = omega (arith, ok.within) in
    let less : wrapping_sub (suc n) 1 ≡ n = omega (arith, ok.within) in
    rw (
      one,
      two,
      load_slot s.stack ok.slots (suc n) ok.within,
      load_slot s.stack ok.slots n (omega (arith, ok.within)),
      le→leb 2 (suc (suc n)) (omega arith),
      ct_select_usize_lem true (suc n) (suc (suc n)) (omega (arith, ok.within))
          (omega (arith, ok.within)),
      less,
      store_slot s.stack ok.slots n (omega (arith, ok.within)),
      ct_select_lem true _ (get_or s.stack (suc n) 0) closed
          (All-get_or IsU64 s.stack (suc n) (omega arith) ok.words),
    )

binary_at :
    (f : ℕ → ℕ → ℕ) (n : ℕ) (s : Vm)
    → IsValid (with_sp s n)
    → ((a b : ℕ) → IsU64 a → IsU64 b → IsU64 (f a b))
    → Refines (binary f (with_sp s n)) (on_two f (top_first n s.stack) (view (with_sp s n)))
unfolding binary
binary_at f zero s ok closed =
    Refines-of_panic (rw (load_outside s.stack ok.slots (wrapping_sub 0 1) (omega arith))) refl
binary_at f (suc zero) s ok closed =
    let empty = wrapping_sub 1 2 in
    Refines-of_panic
      (rw (
        load_slot s.stack ok.slots 0 (omega arith),
        load_outside s.stack ok.slots (wrapping_sub 1 2) (omega arith),
      ))
      refl
binary_at f (suc (suc n)) s ok closed =
    let v = f (get_or s.stack (suc n) 0) (get_or s.stack n 0) in
    let fits : IsU64 v =
      closed _ _ (All-get_or IsU64 s.stack (suc n) (omega arith) ok.words)
        (All-get_or IsU64 s.stack n (omega arith) ok.words) in
    Refines-of_value (note true (record s { stack = set s.stack n v; sp = suc n }))
      (binary_lem f n s ok fits)
      (record {
        slots = length-set s.stack n v ∙ ok.slots;
        within = omega (arith, ok.within);
        words = All-set IsU64 s.stack n v fits ok.words;
        bytes = ok.bytes;
      })
      (ap (λ t. value (record { stack = t; ip = s.ip; ok = s.ok && true; out = s.out }))
        (sym (top_first-set_top n v s.stack (omega (arith, ok.slots, ok.within)))))

-- The blocks for two operands replace the two upper words, or panic with fewer.
pub binary-Refines :
    (f : ℕ → ℕ → ℕ) (s : Vm)
    → IsValid s
    → ((a b : ℕ) → IsU64 a → IsU64 b → IsU64 (f a b))
    → Refines (binary f s) (on_two f (view s).stack (view s))
binary-Refines f s ok closed = binary_at f s.sp s ok closed

unary_at :
    (valid : Bool) (f : ℕ → ℕ) (n : ℕ) (s : Vm)
    → IsValid (with_sp s n)
    → ((a : ℕ) → IsU64 a → IsU64 (f a))
    → Refines
        (unary valid f (with_sp s n))
        (on_top valid f (top_first n s.stack) (view (with_sp s n)))
unfolding unary
unary_at valid f zero s ok closed =
    Refines-of_panic (rw (load_outside s.stack ok.slots (wrapping_sub 0 1) (omega arith))) refl
unary_at valid f (suc n) s ok closed =
    let a = get_or s.stack n 0 in
    let v = if valid then f a else a in
    let word : IsU64 a = All-get_or IsU64 s.stack n (omega arith) ok.words in
    let less : wrapping_sub (suc n) 1 ≡ n = omega (arith, ok.within) in
    let fits : IsU64 v = either valid word (closed a word) in
    Refines-of_value (note valid (record s { stack = set s.stack n v; sp = suc n }))
      (rw (
        less,
        load_slot s.stack ok.slots n (omega (arith, ok.within)),
        store_slot s.stack ok.slots n (omega (arith, ok.within)),
        ct_select_lem valid (f a) a (closed a word) word,
      ))
      (record {
        slots = length-set s.stack n v ∙ ok.slots;
        within = ok.within;
        words = All-set IsU64 s.stack n v fits ok.words;
        bytes = ok.bytes;
      })
      (ap (λ t. value (record { stack = t; ip = s.ip; ok = s.ok && valid; out = s.out }))
        (sym (top_first-set_top n v s.stack (omega (arith, ok.slots, ok.within)))))
  where
    either : (b : Bool) {x y : ℕ} → IsU64 x → IsU64 y → IsU64 (if b then y else x)
    either true p q = q
    either false p q = p

-- The blocks for one operand replace the top word, or panic without one.
pub unary-Refines :
    (valid : Bool) (f : ℕ → ℕ) (s : Vm)
    → IsValid s
    → ((a : ℕ) → IsU64 a → IsU64 (f a))
    → Refines (unary valid f s) (on_top valid f (view s).stack (view s))
unary-Refines valid f s ok closed = unary_at valid f s.sp s ok closed
