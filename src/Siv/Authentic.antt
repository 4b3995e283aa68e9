-- ===== src/Siv/Authentic.antt =====
-- src/serpent_siv.rs: what `siv_decrypt` accepts is what `siv_encrypt` makes.
use hello_old.Base.{
  ℕ, ◌≡◌, ◌↔◌, refl, ap, sym, ◌∙◌, arith, Bool, true, false, List, [], ◌∷◌, ◌++◌, ==_iff, ltb, leb,
  if◌then◌else◌, length, take, drop, Option, none, some, Checked, value, length-append, length-take,
  take-append, drop-append, take-append-drop, Bool-cases, inl, inr, ltb→le, le→ltb,
}
use hello_old.Siv.Blocks.{block_size}
use hello_old.Siv.Stream.{ctr_cancel}
use hello_old.Siv.Cipher.{Primitives, eq_bytes, s2v, ctr, siv_encrypt, siv_decrypt}

pub eq_bytes_self : (xs : List ℕ) → eq_bytes xs xs ≡ true
unfolding eq_bytes
eq_bytes_self [] = refl
eq_bytes_self (x ∷ xs) = rw ((==_iff x x).1 refl) (eq_bytes_self xs)

pub eq_of_eq_bytes : (xs ys : List ℕ) → eq_bytes xs ys ≡ true → xs ≡ ys
unfolding eq_bytes
eq_of_eq_bytes [] [] h = refl
eq_of_eq_bytes [] (y ∷ ys) h = cc
eq_of_eq_bytes (x ∷ xs) [] h = cc
eq_of_eq_bytes (x ∷ xs) (y ∷ ys) h = ground (arith, ==_iff x y, eq_of_eq_bytes xs ys)

value-injective : {x y : List ℕ} → value x ≡ value y → x ≡ y
value-injective e = cc

some-ne-none : (x : List ℕ) → ¬ (◌≡◌ {A = Checked (Option (List ℕ))} (value none) (value (some x)))
some-ne-none x e = cc

-- A checked answer that is something passed its check.
passed :
    (b : Bool) (x y : List ℕ)
    → (if b then value (some x) else value none) ≡ value (some y)
    → (b ≡ true) × (x ≡ y)
passed true x y e = (refl, cc)
passed false x y e = absurd (some-ne-none y e)

module _ (p : Primitives) where
  open p use {length-cmac}

  length-s2v : (k1 : List ℕ) (ads : List (List ℕ)) (last : List ℕ) → length (s2v p k1 ads last) ≡ 16
  unfolding s2v
  length-s2v k1 ads last = elim (Bool-cases (leb block_size (length last))) [
    | inl e ↦ rw e (length-cmac k1 _)
    | inr e ↦ rw e (length-cmac k1 _)
  ]

  abbrev iv : List ℕ → List ℕ → List ℕ → List ℕ
  iv key32 ad plaintext = s2v p (take 16 key32) (ad ∷ []) plaintext

  abbrev body : List ℕ → List ℕ → List ℕ → List ℕ
  body key32 v text = ctr p (take 16 (drop 16 key32)) v text

  siv_encrypt_lem :
      (key32 ad plaintext : List ℕ)
      → length key32 ≡ 32
      → siv_encrypt p key32 ad plaintext
        ≡ value (iv key32 ad plaintext ++ body key32 (iv key32 ad plaintext) plaintext)
  unfolding siv_encrypt
  siv_encrypt_lem key32 ad plaintext size = rw size

  -- What decryption does behind its two guards.
  siv_decrypt_lem :
      (key32 ad v text : List ℕ)
      → length key32 ≡ 32
      → length v ≡ 16
      → siv_decrypt p key32 ad (v ++ text) ≡ (
          if eq_bytes (iv key32 ad (body key32 v text)) v
          then value (some (body key32 v text))
          else value none)
  unfolding siv_decrypt
  siv_decrypt_lem key32 ad v text size sv = rw (
    le→ltb (length (v ++ text)) 16 (omega (arith, length-append v text)),
    size,
    take-append v text 16 (sym sv),
    drop-append v text 16 (sym sv),
  )

  accepts :
      (key32 ad plaintext ciphertext : List ℕ)
      → length key32 ≡ 32
      → siv_encrypt p key32 ad plaintext ≡ value ciphertext
      → siv_decrypt p key32 ad ciphertext ≡ value (some plaintext)
  accepts key32 ad plaintext ciphertext size e =
      let v = iv key32 ad plaintext in
      let text = body key32 v plaintext in
      let made : v ++ text ≡ ciphertext =
        value-injective (sym (siv_encrypt_lem key32 ad plaintext size) ∙ e) in
      rw (
        ← made,
        siv_decrypt_lem key32 ad v text size (length-s2v (take 16 key32) (ad ∷ []) plaintext),
        ctr_cancel p (take 16 (drop 16 key32)) v plaintext,
        eq_bytes_self v,
      )

  too_short :
      (key32 ad ciphertext : List ℕ)
      → ltb (length ciphertext) 16 ≡ true
      → siv_decrypt p key32 ad ciphertext ≡ value none
  unfolding siv_decrypt
  too_short key32 ad ciphertext short = rw short

  only_accepts :
      (key32 ad plaintext ciphertext : List ℕ)
      → length key32 ≡ 32
      → siv_decrypt p key32 ad ciphertext ≡ value (some plaintext)
      → siv_encrypt p key32 ad plaintext ≡ value ciphertext
  only_accepts key32 ad plaintext ciphertext size e =
      elim (Bool-cases (ltb (length ciphertext) 16)) [
        | inl short ↦
            absurd (some-ne-none plaintext (sym (too_short key32 ad ciphertext short) ∙ e))
        | inr long ↦
            let v = take 16 ciphertext in
            let text = drop 16 ciphertext in
            let sv : length v ≡ 16 =
              omega (arith, length-take 16 ciphertext, ltb→le (length ciphertext) 16 long) in
            let parted = take-append-drop 16 ciphertext in
            let (same, out) =
              passed (eq_bytes (iv key32 ad (body key32 v text)) v) (body key32 v text) plaintext (
                sym (siv_decrypt_lem key32 ad v text size sv)
                ∙ ap (siv_decrypt p key32 ad) parted
                ∙ e) in
            let checked : iv key32 ad plaintext ≡ v =
              ap (iv key32 ad) (sym out) ∙ eq_of_eq_bytes _ v same in
            let back : body key32 v plaintext ≡ text =
              ap (body key32 v) (sym out) ∙ ctr_cancel p (take 16 (drop 16 key32)) v text in
            siv_encrypt_lem key32 ad plaintext size
            ∙ ap value
                (ap (λ w. w ++ body key32 w plaintext) checked ∙ ap (λ t. v ++ t) back ∙ parted)
      ]

-- With a 32-byte key, and whatever the block cipher and the CMAC compute on 16-byte blocks,
-- decryption returns a plaintext exactly for the ciphertext that encryption makes of it: every
-- encryption decrypts to its plaintext, and no other ciphertext is accepted.
pub siv_decrypt-siv_encrypt :
    (p : Primitives) (key32 ad plaintext ciphertext : List ℕ)
    → length key32 ≡ 32
    → (siv_decrypt p key32 ad ciphertext ≡ value (some plaintext))
      ↔ (siv_encrypt p key32 ad plaintext ≡ value ciphertext)
siv_decrypt-siv_encrypt p key32 ad plaintext ciphertext size = (
  only_accepts p key32 ad plaintext ciphertext size,
  accepts p key32 ad plaintext ciphertext size,
)
