-- ===== src/Siv/Cipher.antt =====
-- src/serpent_siv.rs, `s2v`, `siv_encrypt` and `siv_decrypt`. The Serpent cipher and its CMAC are
-- crates; both give 16 bytes, whatever they compute.
use hello_old.Base.{
  ℕ, zero, suc, ◌-◌, ◌≡◌, Bool, true, false, ◌&&◌, List, [], ◌∷◌, ◌++◌, ◌==◌, ltb, leb,
  if◌then◌else◌, length, take, drop, replicate, Option, none, some, Checked, panic, value,
}
use hello_old.Siv.Blocks.{block_size, xor_block, dbl, pad16, inc128, ctr_mask}

-- `serpent_enc_block` and `cmac_serpent`, by key and data.
pub record Primitives : Type 0 where
  pub enc_block : List ℕ → List ℕ → List ℕ
  pub cmac : List ℕ → List ℕ → List ℕ
  pub length-enc_block : (key block : List ℕ) → length (enc_block key block) ≡ 16
  pub length-cmac : (key message : List ℕ) → length (cmac key message) ≡ 16

-- `==` of two arrays of bytes.
unfoldable pub eq_bytes : List ℕ → List ℕ → Bool
eq_bytes [] [] = true
eq_bytes [] (y ∷ ys) = false
eq_bytes (x ∷ xs) [] = false
eq_bytes (x ∷ xs) (y ∷ ys) = x == y && eq_bytes xs ys

module _ (p : Primitives) where
  open p use {enc_block, cmac}

  -- The loop of `s2v` over the associated data.
  unfoldable pub absorb : List ℕ → List (List ℕ) → List ℕ → List ℕ
  absorb k1 [] d = d
  absorb k1 (a ∷ ads) d = absorb k1 ads (dbl (xor_block d (cmac k1 a)))

  unfoldable pub s2v : List ℕ → List (List ℕ) → List ℕ → List ℕ
  unfolding absorb
  s2v k1 ads last =
      let d = absorb k1 ads (cmac k1 (replicate block_size 0)) in
      let end = length last - block_size in
      if leb block_size (length last)
      then cmac k1 (take end last ++ xor_block (drop end last) d)
      else cmac k1 (xor_block (dbl d) (pad16 last))

  -- The counter loop that both directions share, over the bytes that are left: up to 16 of them
  -- are masked with an encrypted counter. Each round takes at least one byte off.
  unfoldable pub ctr_loop : List ℕ → ℕ → List ℕ → List ℕ → List ℕ
  ctr_loop k2 zero counter text = []
  ctr_loop k2 (suc fuel) counter [] = []
  ctr_loop k2 (suc fuel) counter (x ∷ text) =
      xor_block (take block_size (x ∷ text)) (enc_block k2 counter)
      ++ ctr_loop k2 fuel (inc128 counter) (drop block_size (x ∷ text))

  unfoldable pub ctr : List ℕ → List ℕ → List ℕ → List ℕ
  unfolding ctr_loop
  ctr k2 v text = ctr_loop k2 (length text) (ctr_mask v) text

  -- `&key32[..16]` and `&key32[16..32]` panic on a shorter key.
  unfoldable pub siv_encrypt : List ℕ → List ℕ → List ℕ → Checked (List ℕ)
  siv_encrypt key32 ad plaintext =
      let k1 = take 16 key32 in
      let k2 = take 16 (drop 16 key32) in
      let v = s2v k1 (ad ∷ []) plaintext in
      if ltb (length key32) 32 then panic else value (v ++ ctr k2 v plaintext)

  unfoldable pub siv_decrypt : List ℕ → List ℕ → List ℕ → Checked (Option (List ℕ))
  siv_decrypt key32 ad ciphertext =
      let k1 = take 16 key32 in
      let k2 = take 16 (drop 16 key32) in
      let v = take block_size ciphertext in
      let out = ctr k2 v (drop block_size ciphertext) in
      let v_check = s2v k1 (ad ∷ []) out in
      if ltb (length ciphertext) block_size
      then value none
      else if ltb (length key32) 32
      then panic
      else if eq_bytes v_check v
      then value (some out)
      else value none
