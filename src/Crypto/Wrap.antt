-- ===== src/Crypto/Wrap.antt =====
-- build.rs, `nonce_for` and `wrap_key`, and src/crypto.rs, `decrypt`: a wrapped key is its nonce
-- followed by the ciphertext and its tag.
use hello_old.Base.{
  ℕ, ◌+◌, ◌≤◌, ◌≡◌, arith, false, List, ◌++◌, ltb, le→ltb, if◌then◌else◌, length, take, drop,
  Option, none, some, length-take, length-append, take-append, drop-append,
}
use hello_old.Crypto.Suite.{Suite}

module _ (c : Suite) where
  open c use {
    sha3_256, aead_encrypt, aead_decrypt, length-sha3_256, length-aead_encrypt,
    aead_decrypt-aead_encrypt,
  }

  unfoldable pub nonce_for : List ℕ → List ℕ → List ℕ
  nonce_for key label = take 12 (sha3_256 (key ++ label))

  unfoldable pub wrap_key : List ℕ → List ℕ → List ℕ → List ℕ
  wrap_key key label plain =
      let nonce = nonce_for key label in nonce ++ aead_encrypt key nonce plain

  unfoldable pub decrypt : List ℕ → List ℕ → Option (List ℕ)
  decrypt key blob =
      if ltb (length blob) (12 + 16) then none else aead_decrypt key (take 12 blob) (drop 12 blob)

  length-nonce_for : (key label : List ℕ) → 12 ≡ length (nonce_for key label)
  unfolding nonce_for
  length-nonce_for key label =
      omega (arith, length-take 12 (sha3_256 (key ++ label)), length-sha3_256 (key ++ label))

  -- A wrapped key is 28 bytes longer than what it wraps.
  pub length-wrap_key :
      (key label plain : List ℕ) → length (wrap_key key label plain) ≡ length plain + 28
  unfolding wrap_key
  length-wrap_key key label plain =
      let nonce = nonce_for key label in
      omega (
        arith,
        length-append nonce (aead_encrypt key nonce plain),
        length-nonce_for key label,
        length-aead_encrypt key nonce plain,
      )

  open_wrapped :
      (nonce ct key plain : List ℕ)
      → 12 ≡ length nonce
      → 16 ≤ length ct
      → aead_decrypt key nonce ct ≡ some plain
      → decrypt key (nonce ++ ct) ≡ some plain
  unfolding decrypt
  open_wrapped nonce ct key plain size long e =
      let enough : ltb (length (nonce ++ ct)) 28 ≡ false =
        le→ltb _ 28 (omega (arith, length-append nonce ct)) in
      rw (enough, take-append nonce ct 12 size, drop-append nonce ct 12 size) e

  -- `decrypt` undoes `wrap_key` under the same key, whatever the label.
  pub decrypt-wrap_key :
      (key label plain : List ℕ) → decrypt key (wrap_key key label plain) ≡ some plain
  unfolding wrap_key
  decrypt-wrap_key key label plain =
      let nonce = nonce_for key label in
      open_wrapped nonce (aead_encrypt key nonce plain) key plain (length-nonce_for key label)
        (omega (arith, length-aead_encrypt key nonce plain))
        (aead_decrypt-aead_encrypt key nonce plain)
