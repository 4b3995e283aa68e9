-- ===== src/Vm/View.antt =====
-- How a machine of slots shows a stack, and what the slot accesses do in terms of it.
use hello_old.Base.{
  ℕ, zero, suc, ◌+◌, ◌≤◌, ◌<◌, ◌≡◌, ◌≢◌, ◌⊎◌, inl, inr, refl, ap, ap₂, arith, true, List, [], ◌∷◌,
  ltb, length, get_elem?, get_or, set, All, IsU64, IsByte, Checked, panic, value, checked, ◌>>=◌,
  get_elem?-eq-get_or, get_elem?-none, lt→ltb, wrapping_sub,
}
use hello_old.Vm.Machine.{Vm}
use hello_old.Vm.Reference.{StackVm}

-- The first `n` slots, the last of them first.
abbrev pub top_first : ℕ → List ℕ → List ℕ
top_first zero slots = []
top_first (suc n) slots = get_or slots n 0 ∷ top_first n slots

abbrev pub view : Vm → StackVm
view s = record { stack = top_first s.sp s.stack; ip = s.ip; ok = s.ok; out = s.out }

-- The invariant of the machine: 16 slots of words, at most 16 in use, and bytes as output.
pub record IsValid (s : Vm) : Type 0 where
  pub slots : length s.stack ≡ 16
  pub within : s.sp ≤ 16
  pub words : All IsU64 s.stack
  pub bytes : All IsByte s.out

pub data Refines : Checked Vm → Checked StackVm → Type 0 where
  both_panic : Refines panic panic
  both_value : (s : Vm) → IsValid s → Refines (value s) (value (view s))

pub Refines-bind :
    {m : Checked Vm} {n : Checked StackVm} (f : Vm → Checked Vm) (g : StackVm → Checked StackVm)
    → Refines m n
    → ((s : Vm) → IsValid s → Refines (f s) (g (view s)))
    → Refines (m >>= f) (n >>= g)
Refines-bind f g both_panic k = both_panic
Refines-bind f g (both_value s v) k = k s v

pub Refines-of_value :
    {m : Checked Vm} {n : Checked StackVm} (s : Vm)
    → m ≡ value s
    → IsValid s
    → n ≡ value (view s)
    → Refines m n
Refines-of_value s p v q = rw (p, q) (both_value s v)

pub Refines-of_panic : {m : Checked Vm} {n : Checked StackVm} → m ≡ panic → n ≡ panic → Refines m n
Refines-of_panic p q = rw (p, q) both_panic

pub length-top_first : (n : ℕ) (slots : List ℕ) → length (top_first n slots) ≡ n
length-top_first zero slots = refl
length-top_first (suc n) slots = ap suc (length-top_first n slots)

module _ (P : ℕ → Type 0) where
  pub All-get_or : (xs : List ℕ) (i : ℕ) → P 0 → All P xs → P (get_or xs i 0)
  All-get_or [] i z h = z
  All-get_or (x ∷ xs) zero z h = h.0
  All-get_or (x ∷ xs) (suc i) z h = All-get_or xs i z h.1

  pub All-set : (xs : List ℕ) (i v : ℕ) → P v → All P xs → All P (set xs i v)
  All-set [] i v p h = tt
  All-set (x ∷ xs) zero v p h = (p, h.1)
  All-set (x ∷ xs) (suc i) v p h = (h.0, All-set xs i v p h.1)

pub get_or-set_self : (xs : List ℕ) (i v : ℕ) → i < length xs → get_or (set xs i v) i 0 ≡ v
get_or-set_self [] i v h = absurd (omega arith)
get_or-set_self (x ∷ xs) zero v h = refl
get_or-set_self (x ∷ xs) (suc i) v h = get_or-set_self xs i v (omega arith)

pub get_or-set_below : (xs : List ℕ) (i j v : ℕ) → j < i → get_or (set xs i v) j 0 ≡ get_or xs j 0
get_or-set_below [] i j v h = refl
get_or-set_below (x ∷ xs) zero j v h = absurd (omega arith)
get_or-set_below (x ∷ xs) (suc i) zero v h = refl
get_or-set_below (x ∷ xs) (suc i) (suc j) v h = get_or-set_below xs i j v (omega arith)

-- A write to a slot that is not in use is not seen.
pub top_first-set :
    (n i v : ℕ) (slots : List ℕ) → n ≤ i → top_first n (set slots i v) ≡ top_first n slots
top_first-set zero i v slots h = refl
top_first-set (suc n) i v slots h =
    ap₂ ◌∷◌ (get_or-set_below slots i n v (omega arith)) (top_first-set n i v slots (omega arith))

-- A write to the slot behind `n` slots in use shows as the top of one more.
pub top_first-set_top :
    (n v : ℕ) (slots : List ℕ)
    → n < length slots
    → top_first (suc n) (set slots n v) ≡ v ∷ top_first n slots
top_first-set_top n v slots h =
    ap₂ ◌∷◌ (get_or-set_self slots n v h) (top_first-set n n v slots (omega arith))

module _ (slots : List ℕ) (full : length slots ≡ 16) where
  pub load_slot : (n : ℕ) → n < 16 → checked (get_elem? slots n) ≡ value (get_or slots n 0)
  load_slot n h = ap checked (get_elem?-eq-get_or slots n 0 (omega arith))

  pub load_outside : (n : ℕ) → 16 ≤ n → checked (get_elem? slots n) ≡ panic
  load_outside n h = ap checked (get_elem?-none slots n (omega arith))

  pub store_slot : (n : ℕ) → n < 16 → ltb n (length slots) ≡ true
  store_slot n h = lt→ltb n (length slots) (omega arith)

-- `sp.wrapping_sub(k)` with `k` slots in use and with fewer.
pub wrapping_sub_lem : (n k : ℕ) → n + k ≤ 16 → wrapping_sub (n + k) k ≡ n
wrapping_sub_lem n k h = omega arith

pub wrapping_sub_short : (n k : ℕ) → n < k → k ≤ 16 → 16 ≤ wrapping_sub n k
wrapping_sub_short n k h small = omega arith

pub get_or-set_ne : (xs : List ℕ) (i j v : ℕ) → i ≢ j → get_or (set xs i v) j 0 ≡ get_or xs j 0
get_or-set_ne [] i j v h = refl
get_or-set_ne (x ∷ xs) zero zero v h = absurd (h refl)
get_or-set_ne (x ∷ xs) zero (suc j) v h = refl
get_or-set_ne (x ∷ xs) (suc i) zero v h = refl
get_or-set_ne (x ∷ xs) (suc i) (suc j) v h = get_or-set_ne xs i j v (λ e. h (ap suc e))

-- Either both panic, or both end with the slots showing the stack.
pub Refines-cases :
    {m : Checked Vm} {n : Checked StackVm}
    → Refines m n
    → ((m ≡ panic) × (n ≡ panic)) ⊎ ((s : Vm) × (m ≡ value s) × (n ≡ value (view s)) × IsValid s)
Refines-cases both_panic = inl (refl, refl)
Refines-cases (both_value s ok) = inr (s, refl, refl, ok)
