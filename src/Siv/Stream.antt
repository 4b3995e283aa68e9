-- ===== src/Siv/Stream.antt =====
-- src/serpent_siv.rs, `ctr`: it undoes itself.
use hello_old.Base.{
  ℕ, zero, suc, ◌-◌, ◌≤◌, ◌<◌, ◌≡◌, ◌⊎◌, refl, ap, ap₂, ◌∙◌, arith, List, [], ◌∷◌, ◌++◌, ltb,
  length, take, drop, xor_cancel, min, length-append, length-take, length-drop, take-append,
  drop-append, take-append-drop, take_all, Bool-cases, inl, inr, ltb→le, ltb→lt,
}
use mathlib.Core.List.{append-nil}
use hello_old.Siv.Blocks.{xor_block, inc128, ctr_mask}
use hello_old.Siv.Cipher.{Primitives, ctr_loop, ctr}

xor_block_cancel : (a b : List ℕ) → length a ≤ length b → xor_block (xor_block a b) b ≡ a
unfolding xor_block
xor_block_cancel [] b h = refl
xor_block_cancel (x ∷ a) [] h = absurd (omega arith)
xor_block_cancel (x ∷ a) (y ∷ b) h = ap₂ ◌∷◌ (xor_cancel x y) (xor_block_cancel a b (omega arith))

length-xor_block : (a b : List ℕ) → length a ≤ length b → length (xor_block a b) ≡ length a
unfolding xor_block
length-xor_block [] b h = refl
length-xor_block (x ∷ a) [] h = absurd (omega arith)
length-xor_block (x ∷ a) (y ∷ b) h = ap suc (length-xor_block a b (omega arith))

nil_of_length : (xs : List ℕ) → length xs ≡ 0 → xs ≡ []
nil_of_length [] h = refl
nil_of_length (x ∷ xs) h = absurd (omega arith)

-- A first chunk of 16 bytes, or of the last few, is what `take` finds again.
chunk-append :
    (m rest : List ℕ)
    → length m ≤ 16
    → (16 ≤ length m) ⊎ (rest ≡ [])
    → (take 16 (m ++ rest) ≡ m) × (drop 16 (m ++ rest) ≡ rest)
chunk-append m rest h (inl full) =
    (take-append m rest 16 (omega arith), drop-append m rest 16 (omega arith))
chunk-append m rest h (inr none_left) =
    rw (none_left, append-nil m)
      (take_all 16 m h, nil_of_length _ (omega (arith, length-drop 16 m)))

module _ (p : Primitives) where
  open p use {enc_block, length-enc_block}

  abbrev chunk : List ℕ → List ℕ → List ℕ → List ℕ
  chunk k2 counter text = xor_block (take 16 text) (enc_block k2 counter)

  length-chunk : (k2 counter text : List ℕ) → length (chunk k2 counter text) ≡ min 16 (length text)
  length-chunk k2 counter text =
      length-xor_block (take 16 text) (enc_block k2 counter)
        (omega (arith, length-take 16 text, length-enc_block k2 counter))
      ∙ length-take 16 text

  ctr_loop-suc :
      (k2 : List ℕ) (fuel : ℕ) (counter text : List ℕ)
      → 0 < length text
      → ctr_loop p k2 (suc fuel) counter text
        ≡ chunk k2 counter text ++ ctr_loop p k2 fuel (inc128 counter) (drop 16 text)
  unfolding ctr_loop
  ctr_loop-suc k2 fuel counter [] h = absurd (omega arith)
  ctr_loop-suc k2 fuel counter (x ∷ text) h = refl

  ctr_loop-nil : (k2 : List ℕ) (fuel : ℕ) (counter : List ℕ) → ctr_loop p k2 fuel counter [] ≡ []
  unfolding ctr_loop
  ctr_loop-nil k2 zero counter = refl
  ctr_loop-nil k2 (suc fuel) counter = refl

  pub length-ctr_loop :
      (k2 : List ℕ) (fuel : ℕ) (counter text : List ℕ)
      → length text ≤ fuel
      → length (ctr_loop p k2 fuel counter text) ≡ length text
  length-ctr_loop k2 fuel counter [] h = ap length (ctr_loop-nil k2 fuel counter)
  length-ctr_loop k2 zero counter (x ∷ text) h = absurd (omega arith)
  length-ctr_loop k2 (suc fuel) counter (x ∷ text) h =
      let rest = drop 16 (x ∷ text) in
      let left : length rest ≡ length (x ∷ text) - 16 = length-drop 16 (x ∷ text) in
      rw (ctr_loop-suc k2 fuel counter (x ∷ text) (omega arith)) (
        omega (
          arith,
          length-append (chunk k2 counter (x ∷ text)) (ctr_loop p k2 fuel (inc128 counter) rest),
          length-chunk k2 counter (x ∷ text),
          length-ctr_loop k2 fuel (inc128 counter) rest (omega arith),
          left,
        ))

  -- The counter loop undoes itself.
  ctr_loop_cancel :
      (k2 : List ℕ) (fuel : ℕ) (counter text : List ℕ)
      → length text ≤ fuel
      → ctr_loop p k2 fuel counter (ctr_loop p k2 fuel counter text) ≡ text
  ctr_loop_cancel k2 fuel counter [] h =
      ap (ctr_loop p k2 fuel counter) (ctr_loop-nil k2 fuel counter) ∙ ctr_loop-nil k2 fuel counter
  ctr_loop_cancel k2 zero counter (x ∷ text) h = absurd (omega arith)
  ctr_loop_cancel k2 (suc fuel) counter (x ∷ text) h =
      let whole = x ∷ text in
      let left : length (drop 16 whole) ≡ length whole - 16 = length-drop 16 whole in
      let m = chunk k2 counter whole in
      let next = inc128 counter in
      let rest = ctr_loop p k2 fuel next (drop 16 whole) in
      let size : length m ≡ min 16 (length whole) = length-chunk k2 counter whole in
      let same : length rest ≡ length (drop 16 whole) =
        length-ctr_loop k2 fuel next (drop 16 whole) (omega arith) in
      let (front, back) =
        chunk-append m rest (omega arith) (full_or_last m rest (length whole) size (same ∙ left)) in
      rw
        (
          ctr_loop-suc k2 fuel counter whole (omega arith),
          ctr_loop-suc k2 fuel counter (m ++ rest) (omega (arith, length-append m rest)),
          front,
          back,
          xor_block_cancel (take 16 whole) (enc_block k2 counter)
              (omega (arith, length-take 16 whole, length-enc_block k2 counter)),
          ctr_loop_cancel k2 fuel next (drop 16 whole) (omega arith),
        )
        (take-append-drop 16 whole)
    where
      full_or_last :
          (m rest : List ℕ) (n : ℕ)
          → length m ≡ min 16 n
          → length rest ≡ n - 16
          → (16 ≤ length m) ⊎ (rest ≡ [])
      full_or_last m rest n e e' = elim (Bool-cases (ltb n 16)) [
        | inl short ↦ inr (nil_of_length rest (omega (arith, ltb→lt n 16 short)))
        | inr long ↦ inl (omega (arith, ltb→le n 16 long))
      ]

  pub ctr_cancel : (k2 v text : List ℕ) → ctr p k2 v (ctr p k2 v text) ≡ text
  unfolding ctr
  ctr_cancel k2 v text =
      rw (length-ctr_loop k2 (length text) (ctr_mask v) text (omega arith))
        (ctr_loop_cancel k2 (length text) (ctr_mask v) text (omega arith))
