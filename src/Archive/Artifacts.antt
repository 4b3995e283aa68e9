-- ===== src/Archive/Artifacts.antt =====
-- build.rs, `main`: what the build draws at random and the files that it writes. The printing, the
-- progress bar and the clearing of buffers at the end have no part in the files.
use hello_old.Base.{
  ℕ, List, [], ◌∷◌, ◌++◌, bit_xor, get_or, take, Checked, value, ◌>>=◌, to_le_bytes,
}
use hello_old.Siv.Cipher.{siv_encrypt}
use hello_old.Build.Rng.{new, fill}
use hello_old.Build.Program.{gen_vm_program}
use hello_old.Crypto.Suite.{Suite}
use hello_old.Crypto.Wrap.{wrap_key}
use hello_old.Crypto.Hkdf.{derive_wrapping_keys}
use hello_old.Crypto.Shards.{combine}
use hello_old.Archive.Frame.{frame}

-- shared.rs.
abbrev pub key_len : ℕ
key_len = 64

abbrev pub open_timestamp : ℕ
open_timestamp = 1755000000

-- b"bootstrap" and the labels of the wrapped files.
abbrev pub bootstrap : List ℕ
bootstrap = 98 ∷ 111 ∷ 111 ∷ 116 ∷ 115 ∷ 116 ∷ 114 ∷ 97 ∷ 112 ∷ []

abbrev pub label_payload : List ℕ
label_payload = 112 ∷ 97 ∷ 121 ∷ 108 ∷ 111 ∷ 97 ∷ 100 ∷ []

abbrev pub label_inner : List ℕ
label_inner = 105 ∷ 110 ∷ 110 ∷ 101 ∷ 114 ∷ []

abbrev pub label_timestamp : List ℕ
label_timestamp = 116 ∷ 105 ∷ 109 ∷ 101 ∷ 115 ∷ 116 ∷ 97 ∷ 109 ∷ 112 ∷ []

abbrev pub label_vmprog : List ℕ
label_vmprog = 118 ∷ 109 ∷ 112 ∷ 114 ∷ 111 ∷ 103 ∷ []

abbrev pub label_rsa_sk : List ℕ
label_rsa_sk = 114 ∷ 115 ∷ 97 ∷ 45 ∷ 115 ∷ 107 ∷ []

abbrev pub label_ky_sk : List ℕ
label_ky_sk = 107 ∷ 121 ∷ 45 ∷ 115 ∷ 107 ∷ []

abbrev pub label_mce_sk : List ℕ
label_mce_sk = 109 ∷ 99 ∷ 101 ∷ 45 ∷ 115 ∷ 107 ∷ []

abbrev pub label_frodo_sk : List ℕ
label_frodo_sk = 102 ∷ 114 ∷ 111 ∷ 100 ∷ 111 ∷ 45 ∷ 115 ∷ 107 ∷ []

abbrev pub label_dilithium_sk : List ℕ
label_dilithium_sk = 100 ∷ 105 ∷ 108 ∷ 105 ∷ 116 ∷ 104 ∷ 105 ∷ 117 ∷ 109 ∷ 45 ∷ 115 ∷ 107 ∷ []

abbrev pub label_serpent_dek : List ℕ
label_serpent_dek = 115 ∷ 101 ∷ 114 ∷ 112 ∷ 101 ∷ 110 ∷ 116 ∷ 45 ∷ 100 ∷ 101 ∷ 107 ∷ []

-- `getrandom`, the four calls of `build_seed`, and the coins of the crates.
pub record Draws : Type 0 where
  pub salt : List ℕ
  pub seed_k1 : ℕ
  pub seed_k2 : ℕ
  pub seed_km : ℕ
  pub seed_vm : ℕ
  pub rsa_coins : List ℕ
  pub s_rsa : List ℕ
  pub rsa_pad : List ℕ
  pub ky_coins : List ℕ
  pub ky_seed : List ℕ
  pub mce_coins : List ℕ
  pub mce_seed : List ℕ
  pub frodo_coins : List ℕ
  pub s_frodo : List ℕ
  pub frodo_salt : List ℕ
  pub dilithium_coins : List ℕ
  pub hedge : List ℕ
  pub ed_coins : List ℕ

-- The files of OUT_DIR that the binary includes.
pub record Artifacts : Type 0 where
  pub salt : List ℕ
  pub payload : List ℕ
  pub ts : List ℕ
  pub ts_plain : List ℕ
  pub vmprog : List ℕ
  pub km : List ℕ
  pub rsa_sk_wrap : List ℕ
  pub ct_rsa : List ℕ
  pub ky_sk_wrap : List ℕ
  pub ct_ky : List ℕ
  pub mce_sk_wrap : List ℕ
  pub ct_mce : List ℕ
  pub frodo_sk_wrap : List ℕ
  pub ct_frodo : List ℕ
  pub dilithium_sk_wrap : List ℕ
  pub dilithium_vk : List ℕ
  pub dilithium_sig : List ℕ
  pub serpent_siv : List ℕ
  pub dek_wrap : List ℕ
  pub ed_vk : List ℕ
  pub ed_sig : List ℕ

-- The halves of the key and the key material.
abbrev pub k1_of : Draws → List ℕ
k1_of d = (fill 32 (new (bit_xor d.seed_k1 0xa5a5))).0

abbrev pub k2_of : Draws → List ℕ
k2_of d = (fill 32 (new (bit_xor d.seed_k2 0x5a5a))).0

abbrev pub km_of : Draws → List ℕ
km_of d = (fill key_len (new (bit_xor d.seed_km 0x3c3c))).0

abbrev pub ts_bytes : List ℕ
ts_bytes = to_le_bytes 8 open_timestamp

abbrev pub wrapping_key : List (List ℕ) → ℕ → List ℕ
wrapping_key keys i = get_or keys i []

module _ (c : Suite) where
  open c use {
    argon2id_hash, sha3_256, sha256, blake3_256, sm3_256, serpent, rsa_generate, rsa_encrypt,
    ky_generate, ky_encapsulate, mce_generate, mce_encapsulate, frodo_generate, frodo_encapsulate,
    dilithium_generate, dilithium_public, dilithium_sign, ed_generate, ed_public, ed_sign,
  }

  -- The key that opens the machine's program, from a password and the salt.
  abbrev pub boot_key : List ℕ → List ℕ → List ℕ
  boot_key password salt = sha3_256 (argon2id_hash password salt ++ bootstrap)

  -- The data key.
  abbrev pub dek_of : Draws → List ℕ
  dek_of d =
      let dilithium_vk = dilithium_public (dilithium_generate d.dilithium_coins) in
      combine d.s_rsa (ky_encapsulate (ky_generate d.ky_coins) d.ky_seed).1
        (mce_encapsulate (mce_generate d.mce_coins) d.mce_seed).1 d.s_frodo
        (blake3_256 dilithium_vk) (sm3_256 dilithium_vk)

  -- What both signatures cover.
  abbrev pub signed_message : List ℕ → List ℕ → List ℕ
  signed_message dek siv = ts_bytes ++ (dek ++ sha256 siv)

  -- The files, for the ciphertext `siv` of the framed text.
  unfoldable pub files : Draws → List ℕ → List ℕ → List ℕ → List ℕ → Artifacts
  files d password meta content siv =
      let k1 = k1_of d in
      let k2 = k2_of d in
      let km = km_of d in
      let keys = derive_wrapping_keys c (take 32 (k1 ++ k2)) in
      let rsa_sk = rsa_generate d.rsa_coins in
      let ky_sk = ky_generate d.ky_coins in
      let mce_sk = mce_generate d.mce_coins in
      let frodo_sk = frodo_generate d.frodo_coins in
      let dilithium_sk = dilithium_generate d.dilithium_coins in
      let ed_sk = ed_generate d.ed_coins in
      let dek = dek_of d in
      let msg = signed_message dek siv in
      let prog = gen_vm_program k1 k2 km (bit_xor d.seed_vm 0xdead) in
      record {
        salt = d.salt;
        payload = wrap_key c k2 label_payload (wrap_key c k1 label_inner (frame meta content));
        ts = wrap_key c k1 label_timestamp ts_bytes;
        ts_plain = ts_bytes;
        vmprog = wrap_key c (boot_key password d.salt) label_vmprog prog;
        km = km;
        rsa_sk_wrap = wrap_key c (wrapping_key keys 0) label_rsa_sk rsa_sk;
        ct_rsa = rsa_encrypt rsa_sk d.rsa_pad d.s_rsa;
        ky_sk_wrap = wrap_key c (wrapping_key keys 1) label_ky_sk ky_sk;
        ct_ky = (ky_encapsulate ky_sk d.ky_seed).0;
        mce_sk_wrap = wrap_key c (wrapping_key keys 2) label_mce_sk mce_sk;
        ct_mce = (mce_encapsulate mce_sk d.mce_seed).0;
        frodo_sk_wrap = wrap_key c (wrapping_key keys 3) label_frodo_sk frodo_sk;
        ct_frodo = frodo_encapsulate frodo_sk d.s_frodo d.frodo_salt;
        dilithium_sk_wrap = wrap_key c (wrapping_key keys 4) label_dilithium_sk dilithium_sk;
        dilithium_vk = dilithium_public dilithium_sk;
        dilithium_sig = dilithium_sign dilithium_sk msg d.hedge;
        serpent_siv = siv;
        dek_wrap = wrap_key c (wrapping_key keys 5) label_serpent_dek dek;
        ed_vk = ed_public ed_sk;
        ed_sig = ed_sign ed_sk msg;
      }

  -- The build for a password, the metadata and the text.
  unfoldable pub build : Draws → List ℕ → List ℕ → List ℕ → Checked Artifacts
  unfolding files
  build d password meta content = do
    siv ← siv_encrypt serpent (dek_of d) ts_bytes (frame meta content)
    value (files d password meta content siv)
