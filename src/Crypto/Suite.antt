-- ===== src/Crypto/Suite.antt =====
-- The crates that build.rs and src/main.rs call. A key pair is made from the coins of its
-- generation, so that a law can speak of keys that were generated. The decapsulations of Kyber and
-- FrodoKEM are taken to succeed, which they do but for a negligible share of the coins.
use hello_old.Base.{ℕ, ◌+◌, ◌≡◌, ◌↔◌, Bool, true, List, Option, some, length}
use hello_old.Siv.Cipher.{Primitives}

pub record Suite : Type 0 where
  -- `argon2id_hash`, by password and salt, and the hashes.
  pub argon2id_hash : List ℕ → List ℕ → List ℕ
  pub sha3_256 : List ℕ → List ℕ
  pub sha256 : List ℕ → List ℕ
  pub blake3_256 : List ℕ → List ℕ
  pub sm3_256 : List ℕ → List ℕ
  pub hmac : List ℕ → List ℕ → List ℕ
  pub ct_eq : List ℕ → List ℕ → Bool
  -- ChaCha20Poly1305, by key, nonce and text.
  pub aead_encrypt : List ℕ → List ℕ → List ℕ → List ℕ
  pub aead_decrypt : List ℕ → List ℕ → List ℕ → Option (List ℕ)
  pub serpent : Primitives
  -- RSA-OAEP: the PKCS#8 bytes of a private key, encryption by its public half.
  pub rsa_generate : List ℕ → List ℕ
  pub rsa_encrypt : List ℕ → List ℕ → List ℕ → List ℕ
  pub rsa_decrypt : List ℕ → List ℕ → Option (List ℕ)
  -- Kyber and McEliece: encapsulation makes a ciphertext and a shared secret.
  pub ky_generate : List ℕ → List ℕ
  pub ky_encapsulate : List ℕ → List ℕ → List ℕ × List ℕ
  pub ky_decapsulate : List ℕ → List ℕ → Option (List ℕ)
  pub mce_generate : List ℕ → List ℕ
  pub mce_encapsulate : List ℕ → List ℕ → List ℕ × List ℕ
  pub mce_decapsulate : List ℕ → List ℕ → Option (List ℕ)
  -- FrodoKEM encapsulates a message that its caller chooses, under a salt.
  pub frodo_generate : List ℕ → List ℕ
  pub frodo_encapsulate : List ℕ → List ℕ → List ℕ → List ℕ
  pub frodo_decapsulate : List ℕ → List ℕ → Option (List ℕ)
  -- Dilithium and Ed448: the verifying key of a signing key, and whether its bytes parse.
  pub dilithium_generate : List ℕ → List ℕ
  pub dilithium_public : List ℕ → List ℕ
  pub dilithium_parses : List ℕ → Bool
  pub dilithium_sign : List ℕ → List ℕ → List ℕ → List ℕ
  pub dilithium_verify : List ℕ → List ℕ → List ℕ → Bool
  pub ed_generate : List ℕ → List ℕ
  pub ed_public : List ℕ → List ℕ
  pub ed_parses : List ℕ → List ℕ → Bool
  pub ed_sign : List ℕ → List ℕ → List ℕ
  pub ed_verify : List ℕ → List ℕ → List ℕ → Bool
  -- What the crates document.
  pub length-sha3_256 : (bytes : List ℕ) → length (sha3_256 bytes) ≡ 32
  pub length-hmac : (key bytes : List ℕ) → length (hmac key bytes) ≡ 32
  pub ct_eq_iff : (a b : List ℕ) → (ct_eq a b ≡ true) ↔ (a ≡ b)
  pub length-aead_encrypt :
      (key nonce text : List ℕ) → length (aead_encrypt key nonce text) ≡ length text + 16
  pub aead_decrypt-aead_encrypt :
      (key nonce text : List ℕ) → aead_decrypt key nonce (aead_encrypt key nonce text) ≡ some text
  pub rsa_decrypt-rsa_encrypt :
      (coins pad message : List ℕ)
      → length message ≡ 32
      → rsa_decrypt (rsa_generate coins) (rsa_encrypt (rsa_generate coins) pad message)
        ≡ some message
  pub length-ky_generate : (coins : List ℕ) → length (ky_generate coins) ≡ 64
  pub length-ky_encapsulate :
      (coins seed : List ℕ) → length (ky_encapsulate (ky_generate coins) seed).1 ≡ 32
  pub ky_decapsulate-ky_encapsulate :
      (coins seed : List ℕ)
      → ky_decapsulate (ky_generate coins) (ky_encapsulate (ky_generate coins) seed).0
        ≡ some (ky_encapsulate (ky_generate coins) seed).1
  pub length-mce_encapsulate :
      (coins seed : List ℕ) → length (mce_encapsulate (mce_generate coins) seed).1 ≡ 32
  pub mce_decapsulate-mce_encapsulate :
      (coins seed : List ℕ)
      → mce_decapsulate (mce_generate coins) (mce_encapsulate (mce_generate coins) seed).0
        ≡ some (mce_encapsulate (mce_generate coins) seed).1
  pub frodo_decapsulate-frodo_encapsulate :
      (coins message salt : List ℕ)
      → length message ≡ 32
      → frodo_decapsulate
          (frodo_generate coins)
          (frodo_encapsulate (frodo_generate coins) message salt)
        ≡ some message
  pub dilithium_parses-dilithium_public :
      (coins : List ℕ) → dilithium_parses (dilithium_public (dilithium_generate coins)) ≡ true
  pub dilithium_verify-dilithium_sign :
      (coins message hedge : List ℕ)
      → dilithium_verify
          (dilithium_public (dilithium_generate coins))
          message
          (dilithium_sign (dilithium_generate coins) message hedge)
        ≡ true
  pub ed_parses-ed_public :
      (coins message : List ℕ)
      → ed_parses (ed_public (ed_generate coins)) (ed_sign (ed_generate coins) message) ≡ true
  pub ed_verify-ed_sign :
      (coins message : List ℕ)
      → ed_verify (ed_public (ed_generate coins)) message (ed_sign (ed_generate coins) message)
        ≡ true
