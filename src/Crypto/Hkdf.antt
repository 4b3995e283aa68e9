-- ===== src/Crypto/Hkdf.antt =====
-- src/crypto.rs, `hkdf_sha256` and `derive_wrapping_keys`; build.rs has the same functions.
use hello_old.Base.{
  ℕ, zero, suc, ◌+◌, ◌-◌, ◌≤◌, ◌≡◌, sym, arith, true, false, Bool-cases, inl, inr, List, [], ◌∷◌,
  ◌++◌, map, ◌==◌, ==_iff, min, u8, length, take, length-take, length-append,
}
use hello_old.Crypto.Suite.{Suite}

-- The salt "hello-old-v1" and the six labels.
abbrev pub salt_v1 : List ℕ
salt_v1 = 104 ∷ 101 ∷ 108 ∷ 108 ∷ 111 ∷ 45 ∷ 111 ∷ 108 ∷ 100 ∷ 45 ∷ 118 ∷ 49 ∷ []

-- "wrap-rsa", "wrap-kyber", "wrap-mceliece", "wrap-frodokem", "wrap-dilithium", "wrap-serpent-dek".
abbrev pub labels : List (List ℕ)
labels =
    (119 ∷ 114 ∷ 97 ∷ 112 ∷ 45 ∷ 114 ∷ 115 ∷ 97 ∷ [])
    ∷ (119 ∷ 114 ∷ 97 ∷ 112 ∷ 45 ∷ 107 ∷ 121 ∷ 98 ∷ 101 ∷ 114 ∷ [])
    ∷ (119 ∷ 114 ∷ 97 ∷ 112 ∷ 45 ∷ 109 ∷ 99 ∷ 101 ∷ 108 ∷ 105 ∷ 101 ∷ 99 ∷ 101 ∷ [])
    ∷ (119 ∷ 114 ∷ 97 ∷ 112 ∷ 45 ∷ 102 ∷ 114 ∷ 111 ∷ 100 ∷ 111 ∷ 107 ∷ 101 ∷ 109 ∷ [])
    ∷ (119 ∷ 114 ∷ 97 ∷ 112 ∷ 45 ∷ 100 ∷ 105 ∷ 108 ∷ 105 ∷ 116 ∷ 104 ∷ 105 ∷ 117 ∷ 109 ∷ [])
    ∷ (119 ∷ 114 ∷ 97 ∷ 112 ∷ 45 ∷ 115 ∷ 101 ∷ 114 ∷ 112 ∷ 101 ∷ 110 ∷ 116 ∷ 45 ∷ 100 ∷ 101 ∷ 107
        ∷ [])
    ∷ []

module _ (c : Suite) where
  open c use {hmac, length-hmac}

  -- The expansion with `left` bytes to go; each round writes at least one.
  unfoldable pub hkdf_loop : ℕ → ℕ → List ℕ → ℕ → List ℕ → List ℕ → List ℕ
  hkdf_loop zero left t counter prk info = []
  hkdf_loop (suc fuel) left t counter prk info = elim (left == 0) [
    | true ↦ []
    | false ↦
        let t' = hmac prk (t ++ (info ++ (counter ∷ []))) in
        let n = min left 32 in take n t' ++ hkdf_loop fuel (left - n) t' (u8 (counter + 1)) prk info
  ]

  unfoldable pub hkdf_sha256 : List ℕ → List ℕ → List ℕ → ℕ → List ℕ
  unfolding hkdf_loop
  hkdf_sha256 ikm salt info out_len = hkdf_loop out_len out_len [] 1 (hmac salt ikm) info

  unfoldable pub derive_wrapping_keys : List ℕ → List (List ℕ)
  derive_wrapping_keys master_key = map (λ label. hkdf_sha256 master_key salt_v1 label 32) labels

  length-hkdf_loop :
      (fuel left : ℕ) (t : List ℕ) (counter : ℕ) (prk info : List ℕ)
      → left ≤ fuel
      → length (hkdf_loop fuel left t counter prk info) ≡ left
  unfolding hkdf_loop
  length-hkdf_loop zero left t counter prk info h = omega arith
  length-hkdf_loop (suc fuel) left t counter prk info h = elim (Bool-cases (left == 0)) [
    | inl done ↦ let empty = (==_iff left 0).0 done in rw (length, hkdf_loop, done) (sym empty)
    | inr more ↦
        let t' = hmac prk (t ++ (info ++ (counter ∷ []))) in
        let n = min left 32 in
        let rest = hkdf_loop fuel (left - n) t' (u8 (counter + 1)) prk info in
        rw (hkdf_loop, more)
          (omega (
            arith,
            length-append (take n t') rest,
            length-take n t',
            length-hmac prk (t ++ (info ++ (counter ∷ []))),
            length-hkdf_loop fuel (left - n) t' (u8 (counter + 1)) prk info
                (round left fuel h more),
          ))
  ]
    where
      round : (left fuel : ℕ) → left ≤ suc fuel → (left == 0) ≡ false → left - min left 32 ≤ fuel
      round left fuel h more = ground arith

  -- HKDF gives as many bytes as it is asked for: the loop ends with all of them written.
  pub length-hkdf_sha256 :
      (ikm salt info : List ℕ) (out_len : ℕ) → length (hkdf_sha256 ikm salt info out_len) ≡ out_len
  unfolding hkdf_sha256
  length-hkdf_sha256 ikm salt info out_len =
      length-hkdf_loop out_len out_len [] 1 (hmac salt ikm) info (omega arith)
