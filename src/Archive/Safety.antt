-- ===== src/Archive/Safety.antt =====
-- What src/main.rs, `main`, guarantees of every text that it shows, for any files and any host.
use hello_old.Base.{
  ℕ, ◌≤◌, ◌≡◌, refl, sym, ap, ◌∙◌, arith, Bool, true, false, not, ◌&&◌, List, ◌++◌, ◌==◌, ==_iff,
  ltb→le, length, take, some, value, from_le_bytes, to_le_bytes,
}
use mathlib.Core.Path.{subst}
use hello_old.Siv.Cipher.{siv_encrypt, siv_decrypt}
use hello_old.Siv.Authentic.{siv_decrypt-siv_encrypt}
use hello_old.Crypto.Suite.{Suite}
use hello_old.Crypto.Wrap.{decrypt}
use hello_old.Crypto.Hkdf.{derive_wrapping_keys}
use hello_old.Crypto.Shards.{xor6, length-xor6}
use hello_old.Archive.Frame.{unframe}
use hello_old.Archive.Artifacts.{Artifacts, open_timestamp, ts_bytes, wrapping_key, signed_message}
use hello_old.Archive.Flow.{revealed, destroyed, panicked, passed, next, ensure, or_destroy, prefix}
use hello_old.Archive.Unlock.{
  Observed, network_time, check_host, opening_time, recover_shards, recover_dek, verify, unseal,
  unlock, expect_text,
}
use hello_old.Archive.Gate.{bind_next, ensure-true, both, expect_text-some, unlock-Stages}

next_injective : {A : Type 0} (x y : A) → next x ≡ next y → x ≡ y
next_injective x y h = cc

not-true : (b : Bool) → not b ≡ true → b ≡ false
not-true true h = cc
not-true false h = refl

module _ (c : Suite) (a : Artifacts) where
  open c use {ct_eq, sha256, serpent, dilithium_verify, dilithium_parses, ed_verify, ed_parses}

  -- The time from the files is the compiled-in one, or the run ends.
  opening_time-fixed : (k1 : List ℕ) (ts : ℕ) → opening_time c a k1 ≡ next ts → ts ≡ open_timestamp
  unfolding opening_time
  opening_time-fixed k1 ts h =
      let (blob, _, h) = bind_next (or_destroy (decrypt c k1 a.ts)) _ _ h in
      let (arr, _, h) = bind_next (prefix 8 blob) _ _ h in
      let (_, _, h) =
        bind_next
          (ensure (ct_eq (to_le_bytes 8 (from_le_bytes arr)) (to_le_bytes 8 open_timestamp))
            destroyed)
          _ _ h in
      let (plain, _, h) = bind_next (prefix 8 a.ts_plain) _ _ h in
      let plain_ts = from_le_bytes plain in
      let (x, e, h) =
        bind_next (ensure (plain_ts == open_timestamp && plain_ts == from_le_bytes arr) destroyed) _
          _ h in
      let (same, equal) = both _ _ (ensure-true _ _ x e) in
      sym (next_injective (from_le_bytes arr) ts h)
      ∙ sym ((==_iff plain_ts (from_le_bytes arr)).0 equal)
      ∙ (==_iff plain_ts open_timestamp).0 same

  -- What `recover_dek` gives is what `xor6` made, and so has 32 bytes.
  length-recover_dek : (k1 dek : List ℕ) → recover_dek c a k1 ≡ next dek → length dek ≡ 32
  unfolding recover_dek
  length-recover_dek k1 dek h =
      let keys = derive_wrapping_keys c k1 in
      let (s, _, h) = bind_next (recover_shards c a keys) _ _ h in
      let (_, _, h) = bind_next (ensure (dilithium_parses a.dilithium_vk) panicked) _ _ h in
      let (wrapped, _, h) =
        bind_next (or_destroy (decrypt c (wrapping_key keys 5) a.dek_wrap)) _ _ h in
      let (copy, _, h) = bind_next (prefix 32 wrapped) _ _ h in
      let blake3 = c.blake3_256 a.dilithium_vk in
      let sm3 = c.sm3_256 a.dilithium_vk in
      let made = xor6 s.s_rsa s.s_ky s.s_mce s.s_frodo blake3 sm3 in
      let (_, _, h) = bind_next (ensure (ct_eq made copy) destroyed) _ _ h in
      ap length (sym (next_injective made dek h))
      ∙ length-xor6 s.s_rsa s.s_ky s.s_mce s.s_frodo blake3 sm3

  verify-signed :
      (ts : ℕ) (dek : List ℕ)
      → verify c a ts dek ≡ next passed
      → (dilithium_verify a.dilithium_vk
            (to_le_bytes 8 ts ++ (dek ++ sha256 a.serpent_siv))
            a.dilithium_sig
          ≡ true)
        × (ed_verify a.ed_vk (to_le_bytes 8 ts ++ (dek ++ sha256 a.serpent_siv)) a.ed_sig ≡ true)
  unfolding verify
  verify-signed ts dek h =
      let msg = to_le_bytes 8 ts ++ (dek ++ sha256 a.serpent_siv) in
      let (x, e1, h) =
        bind_next (ensure (dilithium_verify a.dilithium_vk msg a.dilithium_sig) destroyed) _ _ h in
      let (_, _, h) = bind_next (ensure (ed_parses a.ed_vk a.ed_sig) panicked) _ _ h in
      (ensure-true _ _ x e1, ensure-true (ed_verify a.ed_vk msg a.ed_sig) destroyed passed h)

  unseal-decrypts :
      (ts : ℕ) (dek meta text : List ℕ)
      → unseal c a ts dek ≡ next (meta, text)
      → (content : List ℕ) × (siv_decrypt serpent dek (to_le_bytes 8 ts) a.serpent_siv
          ≡ value (some content))
        × (unframe content ≡ (meta, text))
  unfolding unseal
  unseal-decrypts ts dek meta text h =
      let (content, e, h) =
        bind_next (expect_text (siv_decrypt serpent dek (to_le_bytes 8 ts) a.serpent_siv)) _ _ h in
      (content, expect_text-some _ content e, next_injective (unframe content) (meta, text) h)

  abbrev At : List ℕ → List ℕ → List ℕ → ℕ → Type 0
  At dek meta text ts = (verify c a ts dek ≡ next passed) × (unseal c a ts dek ≡ next (meta, text))

  -- No text is shown before its time, whatever the files and the host: a run that reveals one passed
  -- the checks of the host (a steady clock, the system call filter, a plausible year), got a time from
  -- the network that is not before the compiled-in opening time, and found the clock steady after
  -- that too.
  pub unlock-late :
      (env : Observed) (meta text : List ℕ)
      → unlock c a env ≡ revealed meta text
      → (now : ℕ) × (check_host env ≡ next passed)
        × (network_time env.consensus env.custom ≡ next now)
        × (open_timestamp ≤ now)
        × (env.anchor_still_sane ≡ true)
  unlock-late env meta text h =
      let s = unlock-Stages c a env meta text h in
      let ts = opening_time-fixed (take 32 s.keys) s.open_ts s.read_time in
      let opened = ltb→le s.now s.open_ts (not-true _ (ensure-true _ _ passed s.late)) in
      (s.now, s.checked_host, s.asked, omega (arith, ts, opened), s.still_sane)

  -- A text that is shown is authentic: for some key, both signatures of the files verify over the
  -- opening time, the key and the hash of the ciphertext, and the ciphertext is exactly the SIV
  -- encryption, under that key and with the opening time, of the frame that was taken apart.
  pub unlock-authentic :
      (env : Observed) (meta text : List ℕ)
      → unlock c a env ≡ revealed meta text
      → (dek : List ℕ) × (content : List ℕ) × (dilithium_verify a.dilithium_vk
            (signed_message c dek a.serpent_siv)
            a.dilithium_sig
          ≡ true)
        × (ed_verify a.ed_vk (signed_message c dek a.serpent_siv) a.ed_sig ≡ true)
        × (siv_encrypt serpent dek ts_bytes content ≡ value a.serpent_siv)
        × (unframe content ≡ (meta, text))
  unlock-authentic env meta text h =
      let s = unlock-Stages c a env meta text h in
      let ts = opening_time-fixed (take 32 s.keys) s.open_ts s.read_time in
      let (verified, unsealed) = subst (At s.dek meta text) ts (s.verified, s.unsealed) in
      let (d, e) = verify-signed open_timestamp s.dek verified in
      let (content, decrypted, parts) = unseal-decrypts open_timestamp s.dek meta text unsealed in
      let size = length-recover_dek (take 32 s.keys) s.dek s.recovered in
      (
        s.dek,
        content,
        d,
        e,
        (siv_decrypt-siv_encrypt serpent s.dek ts_bytes content a.serpent_siv size).0 decrypted,
        parts,
      )
