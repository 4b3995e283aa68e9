-- ===== src/Base/Bits.antt =====
-- Laws of the bit operations at variables, for every width, by recursion on the binary digits.
mod Digits
pub use Digits.{xor_step, or_step, and_step}
use Prim.Native.Nat.{ℕ, zero, suc, ◌+◌, ◌-◌, ◌*◌, ◌/◌, ◌%◌, ◌^◌, ◌≤◌, ◌<◌, bit_and, bit_or, bit_xor}
use mathlib.Core.Path.{◌≡◌, refl, ap, ◌∙◌}
use mathlib.Core.Logic.{◌↔◌}
use native.Mathlib.Nat.{
  pow-suc, one-le-pow, mod-lt, mod-add-div', add-mul-mod_self_right, mod-eq_of_lt,
}
use native.Mathlib.Omega.{arith}

-- The upper digits of an exclusive or, and its lowest one.
xor-half : (a b : ℕ) → bit_xor a b / 2 ≡ bit_xor (a / 2) (b / 2)
xor-half a b = omega (arith, xor_step a b)

xor-mod : (a b : ℕ) → bit_xor a b % 2 ≡ (a + b) % 2
xor-mod a b = omega (arith, xor_step a b)

-- Each law holds of numbers up to `n`, by induction on `n`.
xor_comm_upto : (n a b : ℕ) → a ≤ n → b ≤ n → bit_xor a b ≡ bit_xor b a
xor_comm_upto zero zero zero p q = refl
xor_comm_upto zero zero (suc b) p q = absurd (omega arith)
xor_comm_upto zero (suc a) b p q = absurd (omega arith)
xor_comm_upto (suc n) a b p q =
    omega (
      arith,
      xor_step a b,
      xor_step b a,
      xor_comm_upto n (a / 2) (b / 2) (omega arith) (omega arith),
    )

pub xor_comm : (a b : ℕ) → bit_xor a b ≡ bit_xor b a
xor_comm a b = xor_comm_upto (a + b) a b (omega arith) (omega arith)

pub zero-xor : (a : ℕ) → bit_xor 0 a ≡ a
zero-xor zero = refl
zero-xor (suc a) = zero_upto (suc a) (suc a) (omega arith)
  where
    zero_upto : (n b : ℕ) → b ≤ n → bit_xor 0 b ≡ b
    zero_upto zero zero p = refl
    zero_upto zero (suc b) p = absurd (omega arith)
    zero_upto (suc n) b p = omega (arith, xor_step 0 b, zero_upto n (b / 2) (omega arith))

pub xor-zero : (a : ℕ) → bit_xor a 0 ≡ a
xor-zero a = xor_comm a 0 ∙ zero-xor a

xor_self_upto : (n a : ℕ) → a ≤ n → bit_xor a a ≡ 0
xor_self_upto zero zero p = refl
xor_self_upto zero (suc a) p = absurd (omega arith)
xor_self_upto (suc n) a p = omega (arith, xor_step a a, xor_self_upto n (a / 2) (omega arith))

pub xor_self : (a : ℕ) → bit_xor a a ≡ 0
xor_self a = xor_self_upto a a (omega arith)

xor_assoc_upto :
    (n a b c : ℕ) → a ≤ n → b ≤ n → c ≤ n → bit_xor (bit_xor a b) c ≡ bit_xor a (bit_xor b c)
xor_assoc_upto zero zero zero zero p q r = refl
xor_assoc_upto zero zero zero (suc c) p q r = absurd (omega arith)
xor_assoc_upto zero zero (suc b) c p q r = absurd (omega arith)
xor_assoc_upto zero (suc a) b c p q r = absurd (omega arith)
xor_assoc_upto (suc n) a b c p q r =
    rw (xor_step (bit_xor a b) c, xor_step a (bit_xor b c), xor-half a b, xor-half b c)
      (omega (
        arith,
        xor-mod a b,
        xor-mod b c,
        xor_assoc_upto n (a / 2) (b / 2) (c / 2) (omega arith) (omega arith) (omega arith),
      ))

pub xor_assoc : (a b c : ℕ) → bit_xor (bit_xor a b) c ≡ bit_xor a (bit_xor b c)
xor_assoc a b c = xor_assoc_upto (a + b + c) a b c (omega arith) (omega arith) (omega arith)

-- An exclusive or with the same number twice undoes itself.
pub xor_cancel : (a b : ℕ) → bit_xor (bit_xor a b) b ≡ a
xor_cancel a b = xor_assoc a b b ∙ ap (λ t. bit_xor a t) (xor_self b) ∙ xor-zero a

pub xor_cancel_left : (a b : ℕ) → bit_xor a (bit_xor a b) ≡ b
xor_cancel_left a b =
    xor_comm a (bit_xor a b) ∙ ap (λ t. bit_xor t a) (xor_comm a b) ∙ xor_cancel b a

-- Two numbers with exclusive or 0 are equal.
pub eq_of_xor : (a b : ℕ) → bit_xor a b ≡ 0 → a ≡ b
eq_of_xor a b h = rw (← xor_cancel a b, h) (zero-xor b)

-- Operations on numbers of `k` digits give at most `k` digits.
pub xor-lt : (k a b : ℕ) → a < 2 ^ k → b < 2 ^ k → bit_xor a b < 2 ^ k
xor-lt zero zero zero p q = omega arith
xor-lt zero zero (suc b) p q = absurd (omega arith)
xor-lt zero (suc a) b p q = absurd (omega arith)
xor-lt (suc k) a b p q = omega (
  arith,
  pow-suc 2 k,
  xor_step a b,
  xor-lt k (a / 2) (b / 2) (omega (arith, pow-suc 2 k)) (omega (arith, pow-suc 2 k)),
)

pub or-lt : (k a b : ℕ) → a < 2 ^ k → b < 2 ^ k → bit_or a b < 2 ^ k
or-lt zero zero zero p q = omega arith
or-lt zero zero (suc b) p q = absurd (omega arith)
or-lt zero (suc a) b p q = absurd (omega arith)
or-lt (suc k) a b p q = omega (
  arith,
  pow-suc 2 k,
  or_step a b,
  or-lt k (a / 2) (b / 2) (omega (arith, pow-suc 2 k)) (omega (arith, pow-suc 2 k)),
)

pub and-lt : (k a b : ℕ) → a < 2 ^ k → b < 2 ^ k → bit_and a b < 2 ^ k
and-lt zero zero zero p q = omega arith
and-lt zero zero (suc b) p q = absurd (omega arith)
and-lt zero (suc a) b p q = absurd (omega arith)
and-lt (suc k) a b p q = omega (
  arith,
  pow-suc 2 k,
  and_step a b,
  and-lt k (a / 2) (b / 2) (omega (arith, pow-suc 2 k)) (omega (arith, pow-suc 2 k)),
)

pow-double : (k q : ℕ) → q * 2 ^ suc k ≡ 2 * (q * 2 ^ k)
pow-double k q = omega (arith, ap (λ (t : ℕ). q * t) (pow-suc 2 k))

twice-half : (x : ℕ) → 2 * x / 2 ≡ x
twice-half x = omega arith

ones-half : (k : ℕ) → (2 ^ suc k - 1) / 2 ≡ 2 ^ k - 1
ones-half k = omega (arith, one-le-pow k 2, pow-suc 2 k)

-- The remainder by a power of two, one digit at a time.
mod-pow-suc : (k a : ℕ) → a % 2 ^ suc k ≡ a / 2 % 2 ^ k * 2 + a % 2
mod-pow-suc k a =
    let q = a / 2 / 2 ^ k in
    let r = a / 2 % 2 ^ k * 2 + a % 2 in
    let small : r < 2 ^ suc k =
      omega (arith, pow-suc 2 k, mod-lt (a / 2) (one-le-pow k 2 (omega arith))) in
    let whole : a ≡ r + q * 2 ^ suc k =
      omega (arith, mod-add-div' (a / 2) (2 ^ k), pow-double k q) in
    ap (λ t. t % 2 ^ suc k) whole ∙ add-mul-mod_self_right r q (2 ^ suc k) ∙ mod-eq_of_lt small

-- A mask of `k` ones keeps the low `k` digits, and a mask of zeros keeps nothing.
pub and_ones : (k a : ℕ) → bit_and a (2 ^ k - 1) ≡ a % 2 ^ k
and_ones zero a = and-zero a
  where
    zero_upto : (n b : ℕ) → b ≤ n → bit_and b 0 ≡ 0
    zero_upto zero zero p = refl
    zero_upto zero (suc b) p = absurd (omega arith)
    zero_upto (suc n) b p = omega (arith, and_step b 0, zero_upto n (b / 2) (omega arith))

    and-zero : (b : ℕ) → bit_and b 0 ≡ b % 1
    and-zero b = omega (arith, zero_upto b b (omega arith))
and_ones (suc k) a =
    rw (and_step a (2 ^ suc k - 1), ones-half k, and_ones k (a / 2), mod-pow-suc k a)
      (omega (arith, one-le-pow k 2, pow-suc 2 k))

pub and-zero : (a : ℕ) → bit_and a 0 ≡ 0
and-zero a = omega (arith, and_ones 0 a)

pub or-zero : (a : ℕ) → bit_or a 0 ≡ a
or-zero a = or_upto a a (omega arith)
  where
    or_upto : (n b : ℕ) → b ≤ n → bit_or b 0 ≡ b
    or_upto zero zero p = refl
    or_upto zero (suc b) p = absurd (omega arith)
    or_upto (suc n) b p = omega (arith, or_step b 0, or_upto n (b / 2) (omega arith))

pub zero-or : (a : ℕ) → bit_or 0 a ≡ a
zero-or a = or_upto a a (omega arith)
  where
    or_upto : (n b : ℕ) → b ≤ n → bit_or 0 b ≡ b
    or_upto zero zero p = refl
    or_upto zero (suc b) p = absurd (omega arith)
    or_upto (suc n) b p = omega (arith, or_step 0 b, or_upto n (b / 2) (omega arith))

-- `(q << k) | r` is a sum when `r` has `k` digits.
pub or-fields : (k q r : ℕ) → r < 2 ^ k → bit_or (q * 2 ^ k) r ≡ q * 2 ^ k + r
or-fields zero q zero h = or-zero (q * 1) ∙ omega arith
or-fields zero q (suc r) h = absurd (omega arith)
or-fields (suc k) q r h =
    rw (pow-double k q, or_step (2 * (q * 2 ^ k)) r, twice-half (q * 2 ^ k))
      (omega (arith, or-fields k q (r / 2) (omega (arith, pow-suc 2 k))))
