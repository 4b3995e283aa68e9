-- ===== src/Archive/Roundtrip.antt =====
-- The files that build.rs writes open in src/main.rs, and show what was sealed.
use hello_old.Base.{
  ℕ, ◌<◌, ◌≤◌, ◌^◌, ◌≡◌, refl, sym, ap, ◌∙◌, arith, Bool, true, false, List, ◌∷◌, ◌++◌, ltb, le→ltb,
  length, take, bit_xor, replicate, take-append, Option, some, value,
}
use hello_old.Vm.Reference.{finished}
use hello_old.Vm.Run.{run}
use hello_old.Siv.Cipher.{siv_encrypt}
use hello_old.Build.Rng.{new}
use hello_old.Build.Fill.{length-fill, fill-IsByte}
use hello_old.Build.Program.{gen_vm_program}
use hello_old.Build.Roundtrip.{run-gen_vm_program}
use hello_old.Crypto.Suite.{Suite}
use hello_old.Crypto.Wrap.{decrypt-wrap_key}
use hello_old.Crypto.Hkdf.{derive_wrapping_keys}
use hello_old.Crypto.Shards.{combine-eq-xor6, length-xor6}
use hello_old.Archive.Frame.{frame}
use hello_old.Archive.Artifacts.{
  Draws, Artifacts, boot_key, key_len, open_timestamp, ts_bytes, wrapping_key, signed_message,
  k1_of, k2_of, km_of, dek_of, label_timestamp, label_vmprog, label_rsa_sk, label_ky_sk,
  label_mce_sk, label_frodo_sk, label_serpent_dek, files, build,
}
use hello_old.Archive.Flow.{revealed, passed, next}
use hello_old.Archive.Unlock.{
  Observed, nonempty, start_up, check_host, network_time, read_program, opening_time, recover_dek,
  verify, unseal, unlock,
}
use hello_old.Archive.Honest.{
  siv_encrypt-value, read_program-opens, opening_time-honest, recover_dek-honest, verify-honest,
  unseal-honest,
}

-- The stages of `main`, one after the other.
unlock-stages :
    (c : Suite) (a : Artifacts) (env : Observed) (prog keys dek meta text : List ℕ)
    (now open_ts : ℕ)
    → start_up env ≡ next passed
    → read_program c a env.is_terminal env.passwords ≡ next prog
    → run prog a.km (replicate 64 0) ≡ finished true keys
    → check_host env ≡ next passed
    → network_time env.consensus env.custom ≡ next now
    → env.anchor_still_sane ≡ true
    → opening_time c a (take 32 keys) ≡ next open_ts
    → open_ts ≤ now
    → recover_dek c a (take 32 keys) ≡ next dek
    → verify c a open_ts dek ≡ next passed
    → unseal c a open_ts dek ≡ next (meta, text)
    → unlock c a env ≡ revealed meta text
unfolding unlock
unlock-stages c a env prog keys dek meta text now open_ts e1 e2 e3 e4 e5 e6 e7 late e8 e9 e10 =
    let opened : ltb now open_ts ≡ false = le→ltb now open_ts late in
    rw (e1, e2, e3, e4, e5, e6, e7, opened, e8, e9, e10) refl

module _ (c : Suite) (d : Draws) (password meta content : List ℕ) where
  half_size : 32 ≡ length (k1_of d)
  half_size = sym (length-fill 32 (new (bit_xor d.seed_k1 0xa5a5)))

  runs :
      run
        (gen_vm_program (k1_of d) (k2_of d) (km_of d) (bit_xor d.seed_vm 0xdead))
        (km_of d)
        (replicate 64 0)
      ≡ finished true (k1_of d ++ k2_of d)
  runs =
      run-gen_vm_program (k1_of d) (k2_of d) (km_of d) (replicate 64 0) (bit_xor d.seed_vm 0xdead)
        (length-fill 32 (new (bit_xor d.seed_k1 0xa5a5)))
        (length-fill 32 (new (bit_xor d.seed_k2 0x5a5a)))
        (length-fill key_len (new (bit_xor d.seed_km 0x3c3c))) refl
        (fill-IsByte 32 (new (bit_xor d.seed_k1 0xa5a5)))
        (fill-IsByte 32 (new (bit_xor d.seed_k2 0x5a5a)))
        (fill-IsByte key_len (new (bit_xor d.seed_km 0x3c3c))) (omega arith)

  kept : take 32 (k1_of d ++ k2_of d) ≡ k1_of d
  kept = take-append (k1_of d) (k2_of d) 32 half_size

  length-dek_of : length (dek_of c d) ≡ 32
  length-dek_of =
      ap length (combine-eq-xor6 d.s_rsa _ _ d.s_frodo _ _) ∙ length-xor6 d.s_rsa _ _ d.s_frodo _ _

  module _ (siv : List ℕ) where
    -- The six shards come back from the files, and make the key that the build made.
    recovers :
        length d.s_rsa ≡ 32
        → length d.s_frodo ≡ 32
        → recover_dek c (files c d password meta content siv) (take 32 (k1_of d ++ k2_of d))
          ≡ next (dek_of c d)
    unfolding files
    recovers size_rsa size_frodo =
        let keys = derive_wrapping_keys c (take 32 (k1_of d ++ k2_of d)) in
        let rsa_sk = c.rsa_generate d.rsa_coins in
        let ky_sk = c.ky_generate d.ky_coins in
        let mce_sk = c.mce_generate d.mce_coins in
        let frodo_sk = c.frodo_generate d.frodo_coins in
        let vk = c.dilithium_public (c.dilithium_generate d.dilithium_coins) in
        let s_ky = (c.ky_encapsulate ky_sk d.ky_seed).1 in
        let s_mce = (c.mce_encapsulate mce_sk d.mce_seed).1 in
        recover_dek-honest c (files c d password meta content siv) (take 32 (k1_of d ++ k2_of d))
          rsa_sk ky_sk mce_sk frodo_sk d.s_rsa s_ky s_mce d.s_frodo (dek_of c d)
          (decrypt-wrap_key c (wrapping_key keys 0) label_rsa_sk rsa_sk)
          (decrypt-wrap_key c (wrapping_key keys 1) label_ky_sk ky_sk)
          (decrypt-wrap_key c (wrapping_key keys 2) label_mce_sk mce_sk)
          (decrypt-wrap_key c (wrapping_key keys 3) label_frodo_sk frodo_sk)
          (decrypt-wrap_key c (wrapping_key keys 5) label_serpent_dek (dek_of c d))
          (c.rsa_decrypt-rsa_encrypt d.rsa_coins d.rsa_pad d.s_rsa size_rsa)
          (c.ky_decapsulate-ky_encapsulate d.ky_coins d.ky_seed)
          (c.mce_decapsulate-mce_encapsulate d.mce_coins d.mce_seed)
          (c.frodo_decapsulate-frodo_encapsulate d.frodo_coins d.s_frodo d.frodo_salt size_frodo)
          (c.dilithium_parses-dilithium_public d.dilithium_coins) (c.length-ky_generate d.ky_coins)
          size_rsa (c.length-mce_encapsulate d.mce_coins d.mce_seed) size_frodo length-dek_of
          (sym (combine-eq-xor6 d.s_rsa s_ky s_mce d.s_frodo (c.blake3_256 vk) (c.sm3_256 vk)))

    opens_time :
        opening_time c (files c d password meta content siv) (take 32 (k1_of d ++ k2_of d))
        ≡ next open_timestamp
    unfolding files
    opens_time =
        ap (λ k. opening_time c (files c d password meta content siv) k) kept
        ∙ opening_time-honest c (files c d password meta content siv) (k1_of d)
            (decrypt-wrap_key c (k1_of d) label_timestamp ts_bytes) refl

    verifies :
        verify c (files c d password meta content siv) open_timestamp (dek_of c d) ≡ next passed
    unfolding files
    verifies =
        let msg = signed_message c (dek_of c d) siv in
        verify-honest c (files c d password meta content siv) open_timestamp (dek_of c d) msg refl
          (c.dilithium_verify-dilithium_sign d.dilithium_coins msg d.hedge)
          (c.ed_parses-ed_public d.ed_coins msg) (c.ed_verify-ed_sign d.ed_coins msg)

    opens_program :
        (tty : Bool) (rest : List (Option (List ℕ)))
        → nonempty (some password) ≡ some password
        → read_program c (files c d password meta content siv) tty (some password ∷ rest)
          ≡ next (gen_vm_program (k1_of d) (k2_of d) (km_of d) (bit_xor d.seed_vm 0xdead))
    unfolding files
    opens_program tty rest typed =
        let prog = gen_vm_program (k1_of d) (k2_of d) (km_of d) (bit_xor d.seed_vm 0xdead) in
        read_program-opens c (files c d password meta content siv) tty password prog rest typed
          (decrypt-wrap_key c (boot_key c password d.salt) label_vmprog prog)

    unlock-files :
        (env : Observed) (rest : List (Option (List ℕ))) (now : ℕ)
        → length d.s_rsa ≡ 32
        → length d.s_frodo ≡ 32
        → length meta < 2 ^ 32
        → start_up env ≡ next passed
        → env.passwords ≡ some password ∷ rest
        → nonempty (some password) ≡ some password
        → check_host env ≡ next passed
        → network_time env.consensus env.custom ≡ next now
        → env.anchor_still_sane ≡ true
        → open_timestamp ≤ now
        → siv_encrypt c.serpent (dek_of c d) ts_bytes (frame meta content) ≡ value siv
        → unlock c (files c d password meta content siv) env ≡ revealed meta content
    unfolding files
    unlock-files env rest now size_rsa size_frodo small e1 p typed e2 e3 e4 late e =
        unlock-stages c (files c d password meta content siv) env
          (gen_vm_program (k1_of d) (k2_of d) (km_of d) (bit_xor d.seed_vm 0xdead))
          (k1_of d ++ k2_of d) (dek_of c d) meta content now open_timestamp e1
          (rw p (opens_program env.is_terminal rest typed)) runs e2 e3 e4 opens_time late
          (recovers size_rsa size_frodo) verifies
          (unseal-honest c (files c d password meta content siv) open_timestamp (dek_of c d) meta
            content length-dek_of small e)

-- For every suite of crates that keeps what it documents, and whatever is drawn at random, with
-- shards of 32 bytes: the build makes its files from a password that is not empty, metadata shorter
-- than 4 GiB and a text. A run on a host that passes the checks, whose first entry is that password and
-- whose network time has reached the opening time, reveals exactly that metadata and that text.
pub unlock-build :
    (c : Suite) (d : Draws) (password meta content : List ℕ) (env : Observed)
    (rest : List (Option (List ℕ))) (now : ℕ)
    → length d.s_rsa ≡ 32
    → length d.s_frodo ≡ 32
    → length meta < 2 ^ 32
    → start_up env ≡ next passed
    → env.passwords ≡ some password ∷ rest
    → nonempty (some password) ≡ some password
    → check_host env ≡ next passed
    → network_time env.consensus env.custom ≡ next now
    → env.anchor_still_sane ≡ true
    → open_timestamp ≤ now
    → (a : Artifacts) × (build c d password meta content ≡ value a)
      × (unlock c a env ≡ revealed meta content)
unfolding build
unlock-build c d password meta content env rest now size_rsa size_frodo small e1 p typed e2 e3 e4
      late =
    let (siv, e) =
      siv_encrypt-value c (dek_of c d) ts_bytes (frame meta content)
        (length-dek_of c d password meta content) in
    (
      files c d password meta content siv,
      rw e refl,
      unlock-files c d password meta content siv env rest now size_rsa size_frodo small e1 p typed
          e2 e3 e4 late e,
    )
