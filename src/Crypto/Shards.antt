-- ===== src/Crypto/Shards.antt =====
-- build.rs, `xor32`, and src/main.rs, `xor6`: the data key from its six shards.
use hello_old.Base.{
  ℕ, zero, suc, ◌+◌, ◌≤◌, ◌<◌, ◌≡◌, refl, ap, ap₂, arith, List, [], ◌∷◌, bit_xor, length, get_or,
  replicate, xor-zero,
}

-- The loops, with `n` bytes to go from index `i` on.
unfoldable pub xor32_from : ℕ → ℕ → List ℕ → List ℕ → List ℕ → List ℕ
xor32_from zero i a b c = []
xor32_from (suc n) i a b c =
    bit_xor (bit_xor (get_or a i 0) (get_or b i 0)) (get_or c i 0) ∷ xor32_from n (i + 1) a b c

unfoldable pub xor32 : List ℕ → List ℕ → List ℕ → List ℕ
unfolding xor32_from
xor32 a b c = xor32_from 32 0 a b c

unfoldable pub xor6_from : ℕ → ℕ → List ℕ → List ℕ → List ℕ → List ℕ → List ℕ → List ℕ → List ℕ
xor6_from zero i a b c d e f = []
xor6_from (suc n) i a b c d e f =
    bit_xor
      (bit_xor
        (bit_xor (bit_xor (bit_xor (get_or a i 0) (get_or b i 0)) (get_or c i 0)) (get_or d i 0))
        (get_or e i 0))
      (get_or f i 0)
    ∷ xor6_from n (i + 1) a b c d e f

unfoldable pub xor6 : List ℕ → List ℕ → List ℕ → List ℕ → List ℕ → List ℕ → List ℕ
unfolding xor6_from
xor6 a b c d e f = xor6_from 32 0 a b c d e f

-- build.rs, `main`: the three steps that combine the shards.
abbrev pub combine : List ℕ → List ℕ → List ℕ → List ℕ → List ℕ → List ℕ → List ℕ
combine s_rsa s_ky s_mce s_frodo s_dilithium s_sm3 =
    xor32 (xor32 (xor32 s_rsa s_ky s_mce) s_frodo s_dilithium) s_sm3 (replicate 32 0)

length-xor6_from : (n i : ℕ) (a b c d e f : List ℕ) → length (xor6_from n i a b c d e f) ≡ n
unfolding xor6_from
length-xor6_from zero i a b c d e f = refl
length-xor6_from (suc n) i a b c d e f = ap suc (length-xor6_from n (i + 1) a b c d e f)

pub length-xor6 : (a b c d e f : List ℕ) → length (xor6 a b c d e f) ≡ 32
unfolding xor6
length-xor6 a b c d e f = length-xor6_from 32 0 a b c d e f

get_or-xor32_from :
    (n i k j : ℕ) (a b c : List ℕ)
    → k < n
    → i + k ≡ j
    → get_or (xor32_from n i a b c) k 0
      ≡ bit_xor (bit_xor (get_or a j 0) (get_or b j 0)) (get_or c j 0)
unfolding xor32_from
get_or-xor32_from zero i k j a b c h e = absurd (omega arith)
get_or-xor32_from (suc n) i zero j a b c h e = let here : j ≡ i = omega arith in rw here refl
get_or-xor32_from (suc n) i (suc k) j a b c h e =
    get_or-xor32_from n (i + 1) k j a b c (omega arith) (omega arith)

get_or-xor32 :
    (a b c : List ℕ) (k : ℕ)
    → k < 32
    → get_or (xor32 a b c) k 0 ≡ bit_xor (bit_xor (get_or a k 0) (get_or b k 0)) (get_or c k 0)
unfolding xor32
get_or-xor32 a b c k h = get_or-xor32_from 32 0 k k a b c h (omega arith)

get_or-zeros : (n k : ℕ) → get_or (replicate {A = ℕ} n 0) k 0 ≡ 0
get_or-zeros zero k = refl
get_or-zeros (suc n) zero = refl
get_or-zeros (suc n) (suc k) = get_or-zeros n k

combine-xor6_from :
    (n i : ℕ) (a b c d e f : List ℕ)
    → i + n ≤ 32
    → xor32_from n i (xor32 (xor32 a b c) d e) f (replicate 32 0) ≡ xor6_from n i a b c d e f
unfolding xor32_from xor6_from
combine-xor6_from zero i a b c d e f h = refl
combine-xor6_from (suc n) i a b c d e f h =
    let here : i < 32 = omega arith in
    ap₂ (λ x l. x ∷ l)
      (rw (get_or-xor32 (xor32 a b c) d e i here, get_or-xor32 a b c i here, get_or-zeros 32 i)
        (xor-zero _))
      (combine-xor6_from n (i + 1) a b c d e f (omega arith))

-- The build combines the six shards in three steps of three operands, the last with zeros, and the
-- binary in one step of six: both get the same key.
pub combine-eq-xor6 : (a b c d e f : List ℕ) → combine a b c d e f ≡ xor6 a b c d e f
unfolding xor6 xor32
combine-eq-xor6 a b c d e f = combine-xor6_from 32 0 a b c d e f (omega arith)
