-- ===== src/Archive/Toy.antt =====
-- A suite of crates that is easy to follow, for the tests.
use hello_old.Base.{
  ℕ, ◌-◌, ◌≡◌, refl, ap, arith, true, List, ◌++◌, length, replicate, take, length-append,
  length-replicate, take-append, Option, some,
}
use hello_old.Siv.Cipher.{Primitives}
use hello_old.Crypto.Suite.{Suite}
use hello_old.Siv.Cipher.{eq_bytes}
use hello_old.Siv.Authentic.{eq_bytes_self, eq_of_eq_bytes}

abbrev pub toy_serpent : Primitives
toy_serpent = record {
  enc_block = λ key block. replicate 16 (length key);
  cmac = λ key message. replicate 16 (length message);
  length-enc_block = λ key block. length-replicate 16 (length key);
  length-cmac = λ key message. length-replicate 16 (length message);
}

-- The tag is 16 zeros after the text.
abbrev pub strip_tag : List ℕ → Option (List ℕ)
strip_tag ct = some (take (length ct - 16) ct)

pub strip_tag_lem : (text : List ℕ) → strip_tag (text ++ replicate 16 0) ≡ some text
strip_tag_lem text =
    let size = length-append text (replicate 16 0) in
    ap some (
      take-append text (replicate 16 0) (length (text ++ replicate 16 0) - 16)
        (omega (arith, size)))

abbrev pub toy : Suite
toy = record {
  argon2id_hash = λ password salt. password ++ salt;
  sha3_256 = λ bytes. replicate 32 (length bytes);
  sha256 = λ bytes. replicate 32 (length bytes);
  blake3_256 = λ bytes. replicate 32 3;
  sm3_256 = λ bytes. replicate 32 4;
  hmac = λ key bytes. replicate 32 (length bytes);
  ct_eq = λ a b. eq_bytes a b;
  aead_encrypt = λ key nonce text. text ++ replicate 16 0;
  aead_decrypt = λ key nonce ct. strip_tag ct;
  serpent = toy_serpent;
  rsa_generate = λ coins. coins;
  rsa_encrypt = λ sk pad message. message;
  rsa_decrypt = λ sk ct. some ct;
  ky_generate = λ coins. replicate 64 1;
  ky_encapsulate = λ sk seed. (seed, replicate 32 7);
  ky_decapsulate = λ sk ct. some (replicate 32 7);
  mce_generate = λ coins. coins;
  mce_encapsulate = λ sk seed. (seed, replicate 32 9);
  mce_decapsulate = λ sk ct. some (replicate 32 9);
  frodo_generate = λ coins. coins;
  frodo_encapsulate = λ sk message salt. message;
  frodo_decapsulate = λ sk ct. some ct;
  dilithium_generate = λ coins. coins;
  dilithium_public = λ sk. sk;
  dilithium_parses = λ vk. true;
  dilithium_sign = λ sk message hedge. message;
  dilithium_verify = λ vk message sig. eq_bytes message sig;
  ed_generate = λ coins. coins;
  ed_public = λ sk. sk;
  ed_parses = λ vk sig. true;
  ed_sign = λ sk message. message;
  ed_verify = λ vk message sig. eq_bytes message sig;
  length-sha3_256 = λ bytes. length-replicate 32 (length bytes);
  length-hmac = λ key bytes. length-replicate 32 (length bytes);
  ct_eq_iff = λ a b. (eq_of_eq_bytes a b, λ e. rw e (eq_bytes_self b));
  length-aead_encrypt = λ key nonce text. length-append text (replicate 16 0);
  aead_decrypt-aead_encrypt = λ key nonce text. strip_tag_lem text;
  rsa_decrypt-rsa_encrypt = λ coins pad message size. refl;
  length-ky_generate = λ coins. length-replicate {A = ℕ} 64 1;
  length-ky_encapsulate = λ coins seed. length-replicate {A = ℕ} 32 7;
  ky_decapsulate-ky_encapsulate = λ coins seed. refl;
  length-mce_encapsulate = λ coins seed. length-replicate {A = ℕ} 32 9;
  mce_decapsulate-mce_encapsulate = λ coins seed. refl;
  frodo_decapsulate-frodo_encapsulate = λ coins message salt size. refl;
  dilithium_parses-dilithium_public = λ coins. refl;
  dilithium_verify-dilithium_sign = λ coins message hedge. eq_bytes_self message;
  ed_parses-ed_public = λ coins message. refl;
  ed_verify-ed_sign = λ coins message. eq_bytes_self message;
}
