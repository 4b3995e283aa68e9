-- ===== src/Archive/Unlock.antt =====
-- src/main.rs, `main`: from the checks at the start to the text. What the host and the network show
-- is an argument. Drawing, the watchdog's heartbeat and the clearing of buffers leave the outcome
-- as it is.
use hello_old.Base.{
  ℕ, ◌/◌, Bool, true, false, ◌&&◌, not, List, [], ◌∷◌, ◌==◌, ltb, leb, if◌then◌else◌, take,
  replicate, Option, none, some, Checked, panic, value, from_le_bytes, to_le_bytes, ◌++◌,
}
use hello_old.Vm.Reference.{Exit, finished, no_fuel}
use hello_old.Vm.Run.{run}
use hello_old.Siv.Cipher.{siv_decrypt}
use hello_old.Clock.Calendar.{civil_from_days}
use hello_old.Crypto.Suite.{Suite}
use hello_old.Crypto.Wrap.{decrypt}
use hello_old.Crypto.Hkdf.{derive_wrapping_keys}
use hello_old.Crypto.Shards.{xor6}
use hello_old.Archive.Frame.{unframe}
use hello_old.Archive.Artifacts.{Artifacts, boot_key, key_len, open_timestamp, wrapping_key}
use hello_old.Archive.Flow.{
  injection_detected, memory_lock_failed, clock_jump, seccomp_failed, clock_suspicious,
  custom_ntp_drift, custom_ntp_failed, door_locked, Outcome, revealed, ended, refused, destroyed,
  panicked, exited, waiting, unfinished, Passed, Flow, stop, next, ◌>>=◌, ensure, or_destroy,
  expect, prefix,
}

-- `ntp::query` of the host that the user names: no answer, one that drifts too far, or the time.
pub data CustomNtp : Type 0 where
  unreachable : CustomNtp
  drifted : CustomNtp
  agreed : ℕ → CustomNtp

-- What a run observes, in the order in which it does. Times are in seconds, `ntp_now` rounded down;
-- `consensus` is the answer that `consensus` picks.
pub record Observed : Type 0 where
  pub untraced : Bool
  pub uninjected : Bool
  pub key_buffer : Bool
  pub content_buffer : Bool
  pub is_terminal : Bool
  pub passwords : List (Option (List ℕ))
  pub anchor_sane : Bool
  pub seccomp_installed : Bool
  pub local_now : ℕ
  pub consensus : Option ℕ
  pub custom : CustomNtp
  pub anchor_still_sane : Bool

-- The shards that the four key encapsulations give.
pub record KemShards : Type 0 where
  pub s_rsa : List ℕ
  pub s_ky : List ℕ
  pub s_mce : List ℕ
  pub s_frodo : List ℕ

-- `Some(p) if !p.is_empty()`.
abbrev pub nonempty : Option (List ℕ) → Option (List ℕ)
nonempty none = none
nonempty (some []) = none
nonempty (some (x ∷ p)) = some (x ∷ p)

-- `(2020..=2100).contains(&local_year)`.
abbrev pub plausible_year : ℕ → Bool
plausible_year now = let y = (civil_from_days (now / 86400)).0 in leb 2020 y && leb y 2100

-- Up to the password prompt.
abbrev pub start_up : Observed → Flow Passed
start_up env = do
  _ ← ensure env.untraced exited
  _ ← ensure env.uninjected (refused injection_detected)
  _ ← ensure env.key_buffer (refused memory_lock_failed)
  ensure env.content_buffer (refused memory_lock_failed)

-- The machine ends with success or without; `no_fuel` cannot be.
abbrev pub keys_or_destroy : Exit → Flow (List ℕ)
keys_or_destroy (finished true keys) = next keys
keys_or_destroy (finished false keys) = stop destroyed
keys_or_destroy Exit.panicked = stop panicked
keys_or_destroy no_fuel = stop unfinished

abbrev pub check_host : Observed → Flow Passed
check_host env = do
  _ ← ensure env.anchor_sane (refused clock_jump)
  _ ← ensure env.seccomp_installed (refused seccomp_failed)
  ensure (plausible_year env.local_now) (refused clock_suspicious)

abbrev pub custom_time : CustomNtp → Flow ℕ
custom_time unreachable = stop (refused custom_ntp_failed)
custom_time drifted = stop (refused custom_ntp_drift)
custom_time (agreed now) = next now

abbrev pub network_time : Option ℕ → CustomNtp → Flow ℕ
network_time (some now) custom = next now
network_time none custom = custom_time custom

-- `if now_u64 < open_ts { … refuse(…) }`.
abbrev pub gate : ℕ → ℕ → Flow Passed
gate now open_ts = ensure (not (ltb now open_ts)) (refused (door_locked open_ts))

abbrev pub reveal : Flow (List ℕ × List ℕ) → Outcome
reveal (stop e) = ended e
reveal (next (meta, text)) = revealed meta text

abbrev pub accept_or : Flow (List ℕ) → Option (List ℕ) → Flow (List ℕ)
accept_or again none = again
accept_or again (some prog) = next prog

abbrev pub expect_text : Checked (Option (List ℕ)) → Flow (List ℕ)
expect_text panic = stop panicked
expect_text (value text) = expect text

module _ (c : Suite) (a : Artifacts) where
  open c use {
    ct_eq, sha256, blake3_256, sm3_256, serpent, rsa_decrypt, ky_decapsulate, mce_decapsulate,
    frodo_decapsulate, dilithium_parses, dilithium_verify, ed_parses, ed_verify,
  }

  -- The program that an entry opens: an empty one is not tried.
  abbrev pub opened_by : Option (List ℕ) → Option (List ℕ)
  opened_by none = none
  opened_by (some p) = decrypt c (boot_key c p a.salt) a.vmprog

  -- The password loop: a wrong or empty entry is asked again at a terminal, and ends the run
  -- elsewhere.
  unfoldable pub read_program : Bool → List (Option (List ℕ)) → Flow (List ℕ)
  read_program tty [] = stop waiting
  read_program tty (entry ∷ rest) =
      accept_or (if tty then read_program tty rest else stop destroyed) (opened_by (nonempty entry))

  unfoldable pub opening_time : List ℕ → Flow ℕ
  opening_time k1 = do
    blob ← or_destroy (decrypt c k1 a.ts)
    arr ← prefix 8 blob
    let ts = from_le_bytes arr
    _ ← ensure (ct_eq (to_le_bytes 8 ts) (to_le_bytes 8 open_timestamp)) destroyed
    plain ← prefix 8 a.ts_plain
    let plain_ts = from_le_bytes plain
    _ ← ensure (plain_ts == open_timestamp && plain_ts == ts) destroyed
    next ts

  -- The layers 2 to 5.
  unfoldable pub recover_shards : List (List ℕ) → Flow KemShards
  recover_shards keys = do
    rsa_sk ← or_destroy (decrypt c (wrapping_key keys 0) a.rsa_sk_wrap)
    m ← expect (rsa_decrypt rsa_sk a.ct_rsa)
    s_rsa ← prefix 32 m
    ky_sk ← or_destroy (decrypt c (wrapping_key keys 1) a.ky_sk_wrap)
    ky_seed ← prefix 64 ky_sk
    s_ky ← expect (ky_decapsulate ky_seed a.ct_ky)
    mce_sk ← or_destroy (decrypt c (wrapping_key keys 2) a.mce_sk_wrap)
    sh_mce ← expect (mce_decapsulate mce_sk a.ct_mce)
    s_mce ← prefix 32 sh_mce
    frodo_sk ← or_destroy (decrypt c (wrapping_key keys 3) a.frodo_sk_wrap)
    frodo_msg ← expect (frodo_decapsulate frodo_sk a.ct_frodo)
    s_frodo ← prefix 32 frodo_msg
    next (record { s_rsa = s_rsa; s_ky = s_ky; s_mce = s_mce; s_frodo = s_frodo })

  -- The key that the six shards make, compared with its wrapped copy.
  unfoldable pub recover_dek : List ℕ → Flow (List ℕ)
  recover_dek k1 = do
    let keys = derive_wrapping_keys c k1
    s ← recover_shards keys
    _ ← ensure (dilithium_parses a.dilithium_vk) panicked
    dek_wrapped ← or_destroy (decrypt c (wrapping_key keys 5) a.dek_wrap)
    dek ← prefix 32 dek_wrapped
    let combined_dek =
        xor6 s.s_rsa s.s_ky s.s_mce s.s_frodo (blake3_256 a.dilithium_vk) (sm3_256 a.dilithium_vk)
    _ ← ensure (ct_eq combined_dek dek) destroyed
    next combined_dek

  -- Both signatures over the time, the key and the hash of the ciphertext.
  unfoldable pub verify : ℕ → List ℕ → Flow Passed
  verify open_ts dek = do
    let msg = to_le_bytes 8 open_ts ++ (dek ++ sha256 a.serpent_siv)
    _ ← ensure (dilithium_verify a.dilithium_vk msg a.dilithium_sig) destroyed
    _ ← ensure (ed_parses a.ed_vk a.ed_sig) panicked
    ensure (ed_verify a.ed_vk msg a.ed_sig) destroyed

  unfoldable pub unseal : ℕ → List ℕ → Flow (List ℕ × List ℕ)
  unseal open_ts dek = do
    content ← expect_text (siv_decrypt serpent dek (to_le_bytes 8 open_ts) a.serpent_siv)
    next (unframe content)

  -- The whole of `main` up to the display of the text.
  unfoldable pub unlock : Observed → Outcome
  unlock env = reveal (do
    _ ← start_up env
    prog ← read_program env.is_terminal env.passwords
    keys ← keys_or_destroy (run prog a.km (replicate key_len 0))
    _ ← check_host env
    now ← network_time env.consensus env.custom
    _ ← ensure env.anchor_still_sane (refused clock_jump)
    let k1 = take 32 keys
    open_ts ← opening_time k1
    _ ← gate now open_ts
    dek ← recover_dek k1
    _ ← verify open_ts dek
    unseal open_ts dek)
