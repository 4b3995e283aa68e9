-- ===== src/Siv/Double.antt =====
-- src/serpent_siv.rs, `dbl`, as arithmetic: the doubling of a polynomial over the field of two elements.
use hello_old.Base.{
  ℕ, zero, suc, ◌+◌, ◌*◌, ◌/◌, ◌%◌, ◌^◌, ◌<◌, ◌≡◌, refl, sym, ap, ◌∙◌, arith, Bool, true, false,
  Bool-cases, inl, inr, List, [], ◌∷◌, ◌==◌, leb, le→leb, ==_iff, if◌then◌else◌, length, All,
  IsByte, u8, bit_or, bit_xor, xor_step, xor-zero, or-fields, or-lt, from_le_bytes, set, get_or,
}
use native.Mathlib.Nat.{pow-suc}
use hello_old.Siv.Counter.{from_le_bytes-bound}
use hello_old.Siv.Blocks.{dbl_loop, dbl}

-- x ^ 128 is x ^ 7 + x ^ 2 + x + 1.
unfoldable pub gf_double : ℕ → ℕ
gf_double v = let d = 2 * v % 2 ^ 128 in if leb (2 ^ 127) v then bit_xor d 0x87 else d

-- A claim of every list of `n` numbers, with the numbers as arguments.
abbrev Each : ℕ → (List ℕ → Type 0) → Type 0
Each zero P = P []
Each (suc n) P = (x : ℕ) → Each n (λ t. P (x ∷ t))

of_length : (n : ℕ) (P : List ℕ → Type 0) (s : List ℕ) → length s ≡ n → Each n P → P s
of_length zero P [] h each = each
of_length zero P (x ∷ s) h each = absurd (omega arith)
of_length (suc n) P [] h each = absurd (omega arith)
of_length (suc n) P (x ∷ s) h each = of_length n (λ t. P (x ∷ t)) s (omega arith) (each x)

-- Every byte takes the top bit of the one before it.
abbrev shift : ℕ → List ℕ → List ℕ
shift carry [] = []
shift carry (v ∷ c) = bit_or (u8 (v * 2)) (carry / 128) ∷ shift v c

abbrev last_of : ℕ → List ℕ → ℕ
last_of v [] = v
last_of v (w ∷ c) = last_of w c

abbrev doubled : List ℕ → List ℕ
doubled [] = []
doubled (v ∷ c) =
    if last_of v c / 128 == 1 then bit_xor (u8 (v * 2)) 0x87 ∷ shift v c else u8 (v * 2) ∷ shift v c

either_head :
    (test : Bool) (v : ℕ) (c : List ℕ)
    → (if test then set (v ∷ c) 0 (bit_xor (get_or (v ∷ c) 0 0) 0x87) else v ∷ c)
      ≡ (if test then bit_xor v 0x87 ∷ c else v ∷ c)
either_head true v c = refl
either_head false v c = refl

dbl-doubled : (s : List ℕ) → length s ≡ 16 → dbl s ≡ doubled s
unfolding dbl dbl_loop
dbl-doubled s h =
    of_length 16 (λ s. dbl s ≡ doubled s) s h
      (λ a b c d e f g h i j k l m n o p.
        either_head (p / 128 == 1) (u8 (a * 2))
          (shift a (b ∷ c ∷ d ∷ e ∷ f ∷ g ∷ h ∷ i ∷ j ∷ k ∷ l ∷ m ∷ n ∷ o ∷ p ∷ [])))

mul_assoc_left : (a b x : ℕ) → a * b * x ≡ b * (a * x)
mul_assoc_left a b x = omega arith

-- The carries of the bytes are those of the number.
shift-sum :
    (v : ℕ) (c : List ℕ)
    → IsByte v
    → All IsByte c
    → from_le_bytes (shift v c) + 256 ^ length c * (last_of v c / 128)
      ≡ 2 * from_le_bytes c + v / 128
shift-sum v [] small h = omega arith
shift-sum v (w ∷ c) small (byte, h) =
    let rest = shift-sum w c byte h in
    let out = last_of w c / 128 in
    let field = or-fields 1 (w % 128) (v / 128) (omega arith) in
    let even : u8 (w * 2) ≡ w % 128 * 2 ^ 1 = omega arith in
    rw (even, field, grow (length c) out) (omega (arith, rest))
  where
    grow : (n x : ℕ) → 256 ^ suc n * x ≡ 256 * (256 ^ n * x)
    grow n x = ap (λ (t : ℕ). t * x) (pow-suc 256 n) ∙ mul_assoc_left (256 ^ n) 256 x

-- The lowest byte of a number is the one that takes 0x87.
xor-low :
    (k h t m : ℕ) → h < 2 ^ k → m < 2 ^ k → bit_xor (h + 2 ^ k * t) m ≡ bit_xor h m + 2 ^ k * t
xor-low zero zero t zero p q = xor-zero (0 + 1 * t) ∙ omega arith
xor-low zero zero t (suc m) p q = absurd (omega arith)
xor-low zero (suc h) t m p q = absurd (omega arith)
xor-low (suc k) h t m p q =
    let split : 2 ^ suc k * t ≡ 2 * (2 ^ k * t) =
      ap (λ (x : ℕ). x * t) (pow-suc 2 k) ∙ mul_assoc_left (2 ^ k) 2 t in
    let half : (h + 2 ^ suc k * t) / 2 ≡ h / 2 + 2 ^ k * t = omega (arith, split) in
    rw (xor_step (h + 2 ^ suc k * t) m, half)
      (omega (
        arith,
        split,
        xor_step h m,
        xor-low k (h / 2) t (m / 2) (omega (arith, pow-suc 2 k)) (omega (arith, pow-suc 2 k)),
      ))

shift-IsByte : (v : ℕ) (c : List ℕ) → IsByte v → All IsByte c → All IsByte (shift v c)
shift-IsByte v [] small h = tt
shift-IsByte v (w ∷ c) small (byte, h) =
    (or-lt 8 (u8 (w * 2)) (v / 128) (omega arith) (omega arith), shift-IsByte w c byte h)

last_of-IsByte : (v : ℕ) (c : List ℕ) → IsByte v → All IsByte c → IsByte (last_of v c)
last_of-IsByte v [] small h = small
last_of-IsByte v (w ∷ c) small (byte, h) = last_of-IsByte w c byte h

length-shift : (v : ℕ) (c : List ℕ) → length (shift v c) ≡ length c
length-shift v [] = refl
length-shift v (w ∷ c) = omega (arith, length-shift w c)

doubled_lem :
    (v : ℕ) (c : List ℕ)
    → length c ≡ 15
    → IsByte v
    → All IsByte c
    → from_le_bytes (doubled (v ∷ c)) ≡ gf_double (from_le_bytes (v ∷ c))
unfolding gf_double
doubled_lem v c size small h =
    let low = u8 (v * 2) in
    let rest = from_le_bytes (shift v c) in
    let number = from_le_bytes (v ∷ c) in
    let sum = shift-sum v c small h in
    let sum : rest + 256 ^ 15 * (last_of v c / 128) ≡ 2 * from_le_bytes c + v / 128 =
      rw size at sum in
    let bound = from_le_bytes-bound (shift v c) (shift-IsByte v c small h) in
    let fits : rest < 256 ^ 15 = rw (length-shift v c ∙ size) at bound in
    let byte = last_of-IsByte v c small h in
    elim (Bool-cases (last_of v c / 128 == 1)) [
      | inl out ↦
          let one = (==_iff (last_of v c / 128) 1).0 out in
          let over = le→leb (2 ^ 127) number (omega (arith, sum, one)) in
          let rem : 2 * number % 2 ^ 128 ≡ low + 2 ^ 8 * rest = omega (arith, sum, one, fits) in
          rw (out, over, rem) (sym (xor-low 8 low rest 0x87 (omega arith) (omega arith)))
      | inr still ↦
          let none : last_of v c / 128 ≡ 0 = not_one (last_of v c) byte still in
          let under : leb (2 ^ 127) number ≡ false =
            gt→leb (2 ^ 127) number (omega (arith, sum, none, fits)) in
          let rem : 2 * number % 2 ^ 128 ≡ low + 2 ^ 8 * rest = omega (arith, sum, none, fits) in
          rw (still, under, rem) refl
    ]
  where
    not_one : (x : ℕ) → x < 256 → (x / 128 == 1) ≡ false → x / 128 ≡ 0
    not_one x small h = ground arith

    gt→leb : (a b : ℕ) → b < a → leb a b ≡ false
    gt→leb a b h = ground arith

-- `dbl` doubles a block of 16 bytes, read as a little-endian number whose bits are the coefficients of a
-- polynomial, modulo x ^ 128 + x ^ 7 + x ^ 2 + x + 1: a shift by one bit, and an exclusive or with 0x87
-- if a bit leaves the number.
pub from_le_bytes-dbl :
    (s : List ℕ)
    → length s ≡ 16
    → All IsByte s
    → from_le_bytes (dbl s) ≡ gf_double (from_le_bytes s)
from_le_bytes-dbl [] size h = absurd (omega arith)
from_le_bytes-dbl (v ∷ c) size (small, h) =
    ap from_le_bytes (dbl-doubled (v ∷ c) size) ∙ doubled_lem v c (omega arith) small h
