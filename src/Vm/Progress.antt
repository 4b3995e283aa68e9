-- ===== src/Vm/Progress.antt =====
-- src/rustyvm.rs, `run`: every instruction moves on in the program and keeps the output's length.
use hello_old.Base.{
  ℕ, zero, suc, ◌+◌, ◌-◌, ◌≤◌, ◌<◌, ◌≡◌, ◌⊎◌, refl, ◌∙◌, arith, Bool, true, false, List, [], ◌∷◌,
  ltb, leb, ltb→lt, length, get_or, length-set, if◌then◌else◌, All, IsByte, Bool-cases, inl, inr,
  ◌==◌, ◌&&◌, Checked, panic, value, ◌>>=◌, u8, from_le_bytes, take, drop, bit_xor, bit_and, bit_or,
  wrapping_add, wrapping_sub, complement,
}
use hello_old.Vm.Opcodes.{
  op_push1, op_push8, op_pushkey, op_dup, op_swap, op_drop, op_xor, op_add, op_sub, op_and, op_or,
  op_not, op_rotl, op_rotr, op_wrmem, op_opaque_label, op_halt, is_ppred, is_cf,
}
use hello_old.Vm.Reference.{
  Exit, finished, panicked, StackVm, fetch, pass, perform, settle, interpret, meaning, empty,
  push_word, on_two, on_top, exchange, duplicate, discard, write_byte, ignore, top_or_zero,
  is_filled, turn, turn_left, turn_right,
}
use hello_old.Vm.Run.{run}
use hello_old.Vm.Equivalence.{run-meaning}

record Grows (s s' : StackVm) : Type 0 where
  forward : s.ip ≤ s'.ip
  same_length : length s'.out ≡ length s.out

-- What holds of the state that a step leaves, if it leaves one.
data Leaves (P : StackVm → Type 0) : Checked StackVm → Type 0 where
  nothing : Leaves P panic
  leaves : (s : StackVm) → P s → Leaves P (value s)

if_both {ℓ κ} :
    {A : Type ℓ} (P : A → Type κ) (b : Bool) {x y : A} → P x → P y → P (if b then x else y)
if_both P true p q = p
if_both P false p q = q

module _ (s : StackVm) where
  abbrev Keeps : Checked StackVm → Type 0
  Keeps = Leaves (Grows s)

  keep : (s' : StackVm) → s.ip ≤ s'.ip → length s'.out ≡ length s.out → Keeps (value s')
  keep s' p q = leaves s' (record { forward = p; same_length = q })

  push_word-Keeps : (valid : Bool) (v k : ℕ) → Keeps (push_word valid v (pass k s))
  push_word-Keeps valid v k =
      if_both Keeps (ltb (length s.stack) 16) (keep _ (omega arith) refl) nothing

  on_two-Keeps : (f : ℕ → ℕ → ℕ) (stack : List ℕ) → Keeps (on_two f stack s)
  on_two-Keeps f [] = nothing
  on_two-Keeps f (a ∷ []) = nothing
  on_two-Keeps f (a ∷ b ∷ rest) = keep _ (omega arith) refl

  on_top-Keeps :
      (valid : Bool) (f : ℕ → ℕ) (stack : List ℕ) (k : ℕ) → Keeps (on_top valid f stack (pass k s))
  on_top-Keeps valid f [] k = nothing
  on_top-Keeps valid f (a ∷ rest) k = keep _ (omega arith) refl

  on_top-Keeps_here : (valid : Bool) (f : ℕ → ℕ) (stack : List ℕ) → Keeps (on_top valid f stack s)
  on_top-Keeps_here valid f [] = nothing
  on_top-Keeps_here valid f (a ∷ rest) = keep _ (omega arith) refl

  exchange-Keeps : (stack : List ℕ) → Keeps (exchange stack s)
  exchange-Keeps [] = nothing
  exchange-Keeps (a ∷ []) = nothing
  exchange-Keeps (a ∷ b ∷ rest) = keep _ (omega arith) refl

  duplicate-Keeps : (stack : List ℕ) → Keeps (duplicate stack s)
  duplicate-Keeps [] = nothing
  duplicate-Keeps (a ∷ rest) =
      if_both Keeps (ltb (length s.stack) 16) (keep _ (omega arith) refl) nothing

  discard-Keeps : (stack : List ℕ) → Keeps (discard stack s)
  discard-Keeps [] = keep _ (omega arith) refl
  discard-Keeps (a ∷ rest) = keep _ (omega arith) refl

  module _ (prog material : List ℕ) where
    write_byte-Keeps : Keeps (write_byte prog material s)
    write_byte-Keeps = keep _ (omega arith) (
        if_both (λ o. length o ≡ length s.out)
          (ltb s.ip (length prog) && is_filled s.stack && ltb (fetch prog s) (length s.out))
          (length-set s.out (fetch prog s) (u8 (top_or_zero s.stack))) refl)

    turn-Keeps : (f : ℕ → ℕ → ℕ) → Keeps (turn prog material f s)
    turn-Keeps f =
        on_top-Keeps (ltb s.ip (length prog) && is_filled s.stack)
          (λ a. f a (bit_and (fetch prog s) 63)) s.stack 1

    ignore-Keeps : (k : ℕ) → Keeps (ignore prog material k s)
    ignore-Keeps k = keep _ (omega arith) refl

    perform-Keeps : (op : ℕ) → Keeps (perform prog material op s)
    unfolding perform
    perform-Keeps op =
        if_both Keeps (op == op_push1) (push_word-Keeps (ltb s.ip (length prog)) (fetch prog s) 1) (
          if_both Keeps (op == op_push8)
            (push_word-Keeps (leb (s.ip + 8) (length prog))
              (if leb (s.ip + 8) (length prog) then from_le_bytes (take 8 (drop s.ip prog)) else 0)
              8)
            (if_both Keeps (op == op_pushkey)
              (push_word-Keeps (ltb s.ip (length prog) && ltb (fetch prog s) (length material))
                (get_or material (fetch prog s) 0) 1)
              (if_both Keeps (op == op_dup) (duplicate-Keeps s.stack) (
                if_both Keeps (op == op_swap) (exchange-Keeps s.stack) (
                  if_both Keeps (op == op_drop) (discard-Keeps s.stack) (
                    if_both Keeps (op == op_xor) (on_two-Keeps (λ a b. bit_xor a b) s.stack) (
                      if_both Keeps (op == op_add) (on_two-Keeps (λ a b. wrapping_add a b) s.stack)
                        (if_both Keeps (op == op_sub)
                          (on_two-Keeps (λ a b. wrapping_sub b a) s.stack)
                          (if_both Keeps (op == op_and) (on_two-Keeps (λ a b. bit_and a b) s.stack)
                            (if_both Keeps (op == op_or) (on_two-Keeps (λ a b. bit_or a b) s.stack)
                              (if_both Keeps (op == op_not)
                                (on_top-Keeps_here true complement s.stack)
                                (if_both Keeps (op == op_rotl) (turn-Keeps turn_left) (
                                  if_both Keeps (op == op_rotr) (turn-Keeps turn_right) (
                                    if_both Keeps (op == op_wrmem) write_byte-Keeps (
                                      if_both Keeps (op == op_opaque_label) (ignore-Keeps 2)
                                        (keep s (omega arith) refl))))))))))))))))

Leaves-bind :
    {P Q : StackVm → Type 0} {m : Checked StackVm} (f : StackVm → Checked StackVm)
    → Leaves P m
    → ((s : StackVm) → P s → Leaves Q (f s))
    → Leaves Q (m >>= f)
Leaves-bind f nothing k = nothing
Leaves-bind f (leaves s p) k = k s p

Leaves-cases :
    {P : StackVm → Type 0} {m : Checked StackVm}
    → Leaves P m
    → (m ≡ panic) ⊎ ((s : StackVm) × (m ≡ value s) × P s)
Leaves-cases nothing = inl refl
Leaves-cases (leaves s p) = inr (s, refl, p)

Grows-trans : {s t u : StackVm} → Grows s t → Grows t u → Grows s u
Grows-trans p q = record {
  forward = omega (arith, p.forward, q.forward);
  same_length = q.same_length ∙ p.same_length;
}

-- How a run with enough fuel ends: it panics, or it returns with an output of the same length.
abbrev pub Ends : List ℕ → Exit → Type 0
Ends out r =
    (r ≡ panicked)
    ⊎ ((ok : Bool) × (out' : List ℕ) × (r ≡ finished ok out') × (length out' ≡ length out))

module _ (prog material : List ℕ) where
  ignore_if-Keeps :
      (b : Bool) (k : ℕ) (s : StackVm) → Keeps s (if b then ignore prog material k s else value s)
  ignore_if-Keeps b k s =
      if_both (Keeps s) b (ignore-Keeps s prog material k) (keep s s (omega arith) refl)

  settle-Keeps : (op : ℕ) (s : StackVm) → Keeps s (settle prog material op s)
  unfolding settle
  settle-Keeps op s = Leaves-bind _ (ignore_if-Keeps (is_ppred op) 1 s) λ s₁ g₁.
      Leaves-bind _ (ignore_if-Keeps (is_cf op) 2 s₁) λ s₂ g₂.
        leaves _
          (Grows-trans g₁ (Grows-trans g₂ (record { forward = omega arith; same_length = refl })))

  Ends-of_length : (out mid : List ℕ) (r : Exit) → length mid ≡ length out → Ends mid r → Ends out r
  Ends-of_length out mid r e (inl p) = inl p
  Ends-of_length out mid r e (inr (ok, out', p, q)) = inr (ok, out', p, q ∙ e)

  interpret-Ends :
      (fuel : ℕ) (s : StackVm)
      → length prog - s.ip < fuel
      → Ends s.out (interpret prog material fuel s)
  unfolding interpret
  interpret-Ends zero s h = absurd (omega arith)
  interpret-Ends (suc fuel) s h = elim (Bool-cases (ltb s.ip (length prog))) [
    | inr done ↦ rw (done, interpret) (inr (s.ok, s.out, refl, refl))
    | inl more ↦ elim (Leaves-cases (perform-Keeps (pass 1 s) prog material (fetch prog s))) [
      | inl p ↦ rw (interpret, more, p) (inl refl)
      | inr (s', p, g) ↦ elim (Bool-cases (fetch prog s == op_halt)) [
        | inl halt ↦ rw (interpret, more, p, halt) (inr (s'.ok, s'.out, refl, g.same_length))
        | inr on ↦ elim (Leaves-cases (settle-Keeps (fetch prog s) s')) [
          | inl q ↦ rw (interpret, more, p, on, q) (inl refl)
          | inr (s'', q, g') ↦
              rw (interpret, more, p, on, q)
                (Ends-of_length s.out s''.out (interpret prog material fuel s'')
                  (g'.same_length ∙ g.same_length)
                  (interpret-Ends fuel s''
                    (omega (arith, ltb→lt s.ip (length prog) more, g.forward, g'.forward))))
        ]
      ]
    ]
  ]

-- Every run of the machine on bytes ends: it panics on an index outside its stack, or it returns a
-- flag with an output as long as the one that it was given. One iteration more than the program has
-- bytes is enough.
pub run-Ends :
    (prog material out : List ℕ)
    → All IsByte prog
    → All IsByte material
    → All IsByte out
    → Ends out (run prog material out)
unfolding meaning
run-Ends prog material out bytes keys clean =
    rw (run-meaning prog material bytes keys out clean)
      (interpret-Ends prog material (length prog + 1) (empty out) (omega arith))
