-- ===== src/Archive/Honest.antt =====
-- What each stage of src/main.rs, `main`, does with files that build.rs, `main`, wrote.
use hello_old.Base.{
  ℕ, ◌<◌, ◌^◌, ◌≡◌, refl, arith, Bool, true, List, [], ◌∷◌, ◌++◌, le→ltb, length, take, drop,
  take_all, Option, some, value, to_le_bytes,
}
use hello_old.Siv.Cipher.{s2v, ctr, siv_encrypt}
use hello_old.Siv.Authentic.{siv_decrypt-siv_encrypt}
use hello_old.Crypto.Suite.{Suite}
use hello_old.Crypto.Wrap.{decrypt}
use hello_old.Crypto.Hkdf.{derive_wrapping_keys}
use hello_old.Crypto.Shards.{xor6}
use hello_old.Archive.Frame.{frame, unframe-frame}
use hello_old.Archive.Artifacts.{Artifacts, boot_key, open_timestamp, ts_bytes, wrapping_key}
use hello_old.Archive.Flow.{passed, next, prefix}
use hello_old.Archive.Unlock.{
  nonempty, read_program, opening_time, recover_shards, recover_dek, verify, unseal,
}

-- A prefix of the full length is everything.
pub prefix_all : (n : ℕ) (xs : List ℕ) → length xs ≡ n → prefix n xs ≡ next xs
prefix_all n xs e = rw (le→ltb (length xs) n (omega arith), take_all n xs (omega arith)) refl

pub siv_encrypt-value :
    (c : Suite) (key ad plaintext : List ℕ)
    → length key ≡ 32
    → (siv : List ℕ) × (siv_encrypt c.serpent key ad plaintext ≡ value siv)
unfolding siv_encrypt
siv_encrypt-value c key ad plaintext size =
    let v = s2v c.serpent (take 16 key) (ad ∷ []) plaintext in
    (
      v ++ ctr c.serpent (take 16 (drop 16 key)) v plaintext,
      rw (le→ltb (length key) 32 (omega arith)) refl,
    )

module _ (c : Suite) (a : Artifacts) where
  open c use {
    ct_eq, ct_eq_iff, sha256, blake3_256, sm3_256, serpent, rsa_decrypt, ky_decapsulate,
    mce_decapsulate, frodo_decapsulate, dilithium_parses, dilithium_verify, ed_parses, ed_verify,
  }

  ct_eq_self : (x : List ℕ) → ct_eq x x ≡ true
  ct_eq_self x = (ct_eq_iff x x).1 refl

  -- The first entry that opens the program ends the loop.
  pub read_program-opens :
      (tty : Bool) (password prog : List ℕ) (rest : List (Option (List ℕ)))
      → nonempty (some password) ≡ some password
      → decrypt c (boot_key c password a.salt) a.vmprog ≡ some prog
      → read_program c a tty (some password ∷ rest) ≡ next prog
  unfolding read_program
  read_program-opens tty password prog rest h e = rw (read_program, h, e) refl

  pub opening_time-honest :
      (k1 : List ℕ)
      → decrypt c k1 a.ts ≡ some ts_bytes
      → a.ts_plain ≡ ts_bytes
      → opening_time c a k1 ≡ next open_timestamp
  unfolding opening_time
  opening_time-honest k1 e p = rw (e, p, ct_eq_self ts_bytes) refl

  pub recover_dek-honest :
      (k1 rsa_sk ky_sk mce_sk frodo_sk s_rsa s_ky s_mce s_frodo dek : List ℕ)
      → decrypt c (wrapping_key (derive_wrapping_keys c k1) 0) a.rsa_sk_wrap ≡ some rsa_sk
      → decrypt c (wrapping_key (derive_wrapping_keys c k1) 1) a.ky_sk_wrap ≡ some ky_sk
      → decrypt c (wrapping_key (derive_wrapping_keys c k1) 2) a.mce_sk_wrap ≡ some mce_sk
      → decrypt c (wrapping_key (derive_wrapping_keys c k1) 3) a.frodo_sk_wrap ≡ some frodo_sk
      → decrypt c (wrapping_key (derive_wrapping_keys c k1) 5) a.dek_wrap ≡ some dek
      → rsa_decrypt rsa_sk a.ct_rsa ≡ some s_rsa
      → ky_decapsulate ky_sk a.ct_ky ≡ some s_ky
      → mce_decapsulate mce_sk a.ct_mce ≡ some s_mce
      → frodo_decapsulate frodo_sk a.ct_frodo ≡ some s_frodo
      → dilithium_parses a.dilithium_vk ≡ true
      → length ky_sk ≡ 64
      → length s_rsa ≡ 32
      → length s_mce ≡ 32
      → length s_frodo ≡ 32
      → length dek ≡ 32
      → xor6 s_rsa s_ky s_mce s_frodo (blake3_256 a.dilithium_vk) (sm3_256 a.dilithium_vk) ≡ dek
      → recover_dek c a k1 ≡ next dek
  unfolding recover_dek recover_shards
  recover_dek-honest k1 rsa_sk ky_sk mce_sk frodo_sk s_rsa s_ky s_mce s_frodo dek r1 r2 r3 r4 r5 d1
        d2 d3 d4 parses l1 l2 l3 l4 l5 x =
      rw
        (
          r1,
          d1,
          prefix_all 32 s_rsa l2,
          r2,
          prefix_all 64 ky_sk l1,
          d2,
          r3,
          d3,
          prefix_all 32 s_mce l3,
          r4,
          d4,
          prefix_all 32 s_frodo l4,
          parses,
          r5,
          prefix_all 32 dek l5,
          x,
          ct_eq_self dek,
        )
        refl

  pub verify-honest :
      (open_ts : ℕ) (dek msg : List ℕ)
      → to_le_bytes 8 open_ts ++ (dek ++ sha256 a.serpent_siv) ≡ msg
      → dilithium_verify a.dilithium_vk msg a.dilithium_sig ≡ true
      → ed_parses a.ed_vk a.ed_sig ≡ true
      → ed_verify a.ed_vk msg a.ed_sig ≡ true
      → verify c a open_ts dek ≡ next passed
  unfolding verify
  verify-honest open_ts dek msg m v1 p v2 = rw (m, v1, p, v2) refl

  pub unseal-honest :
      (open_ts : ℕ) (dek meta content : List ℕ)
      → length dek ≡ 32
      → length meta < 2 ^ 32
      → siv_encrypt serpent dek (to_le_bytes 8 open_ts) (frame meta content) ≡ value a.serpent_siv
      → unseal c a open_ts dek ≡ next (meta, content)
  unfolding unseal
  unseal-honest open_ts dek meta content size small e =
      rw
        (
          (siv_decrypt-siv_encrypt serpent dek (to_le_bytes 8 open_ts) (frame meta content)
                a.serpent_siv size).1
              e,
          unframe-frame meta content small,
        )
        refl
