-- ===== src/Archive/Tests.antt =====
-- A build with the suite of Archive.Toy, and instances of the theorems.
use hello_old.Base.{
  ℕ, ◌≤◌, ◌≡◌, ◌⊎◌, get_elem?, refl, arith, true, false, List, [], ◌∷◌, length, replicate, Option,
  none, some, value,
}
use hello_old.Clock.Calendar.{civil_from_days}
use hello_old.Siv.Cipher.{siv_encrypt}
use hello_old.Crypto.Wrap.{decrypt, wrap_key, decrypt-wrap_key}
use hello_old.Crypto.Shards.{combine, xor6, combine-eq-xor6}
use hello_old.Archive.Toy.{toy}
use hello_old.Archive.Frame.{frame, unframe, unframe-frame}
use hello_old.Archive.Artifacts.{
  Draws, Artifacts, files, build, open_timestamp, boot_key, ts_bytes, signed_message,
}
use hello_old.Archive.Buffer.{usable, length-payload, text-fits}
use hello_old.Archive.Flow.{revealed, destroyed, passed, stop}
use hello_old.Archive.Flow
use hello_old.Archive.Unlock.{Observed, unreachable, network_time, check_host, read_program, unlock}
use hello_old.Archive.Roundtrip.{unlock-build}
use hello_old.Archive.Safety.{unlock-late, unlock-authentic}
use hello_old.Archive.Passwords.{read_program-next, read_program-wrong}

-- "114514".
abbrev pub pin : List ℕ
pin = 49 ∷ 49 ∷ 52 ∷ 53 ∷ 49 ∷ 52 ∷ []

abbrev draws : Draws
draws = record {
  salt = replicate 32 1;
  seed_k1 = 11;
  seed_k2 = 12;
  seed_km = 13;
  seed_vm = 14;
  rsa_coins = 1 ∷ [];
  s_rsa = replicate 32 2;
  rsa_pad = [];
  ky_coins = [];
  ky_seed = 5 ∷ [];
  mce_coins = 6 ∷ [];
  mce_seed = 7 ∷ [];
  frodo_coins = 8 ∷ [];
  s_frodo = replicate 32 8;
  frodo_salt = [];
  dilithium_coins = 9 ∷ [];
  hedge = [];
  ed_coins = 10 ∷ [];
}

-- A host that passes the checks, a day after the opening.
abbrev open_host : Observed
open_host = record {
  untraced = true;
  uninjected = true;
  key_buffer = true;
  content_buffer = true;
  is_terminal = true;
  passwords = some pin ∷ [];
  anchor_sane = true;
  seccomp_installed = true;
  local_now = 1755086400;
  consensus = some 1755086400;
  custom = unreachable;
  anchor_still_sane = true;
}

unlock-build_example :
    (a : Artifacts) × (build toy draws pin (123 ∷ 125 ∷ []) (104 ∷ 105 ∷ []) ≡ value a)
    × (unlock toy a open_host ≡ revealed (123 ∷ 125 ∷ []) (104 ∷ 105 ∷ []))
unfolding civil_from_days
unlock-build_example =
    unlock-build toy draws pin (123 ∷ 125 ∷ []) (104 ∷ 105 ∷ []) open_host [] 1755086400 refl refl
      (omega arith) refl refl refl refl refl refl (omega arith)

-- The files that are made, and the run that opens them.
pub opens :
    (a : Artifacts) × (build toy draws pin (123 ∷ 125 ∷ []) (104 ∷ 105 ∷ []) ≡ value a)
    × (unlock toy a open_host ≡ revealed (123 ∷ 125 ∷ []) (104 ∷ 105 ∷ []))
unfolding civil_from_days
opens =
    unlock-build toy draws pin (123 ∷ 125 ∷ []) (104 ∷ 105 ∷ []) open_host [] 1755086400 refl refl
      (omega arith) refl refl refl refl refl refl (omega arith)

unlock-late_example :
    (now : ℕ) × (check_host open_host ≡ Flow.next passed)
    × (network_time (some 1755086400) unreachable ≡ Flow.next now)
    × (open_timestamp ≤ now)
    × (true ≡ true)
unlock-late_example = unlock-late toy opens.0 open_host (123 ∷ 125 ∷ []) (104 ∷ 105 ∷ []) opens.2

unlock-authentic_example :
    (dek : List ℕ) × (content : List ℕ) × (toy.dilithium_verify opens.0.dilithium_vk
        (signed_message toy dek opens.0.serpent_siv)
        opens.0.dilithium_sig
      ≡ true)
    × (toy.ed_verify opens.0.ed_vk (signed_message toy dek opens.0.serpent_siv) opens.0.ed_sig
        ≡ true)
    × (siv_encrypt toy.serpent dek ts_bytes content ≡ value opens.0.serpent_siv)
    × (unframe content ≡ (123 ∷ 125 ∷ [], 104 ∷ 105 ∷ []))
unlock-authentic_example =
    unlock-authentic toy opens.0 open_host (123 ∷ 125 ∷ []) (104 ∷ 105 ∷ []) opens.2

-- Files of which only the wrapped program matters: an empty one.
abbrev bare : Artifacts
bare = record {
  salt = [];
  payload = [];
  ts = [];
  ts_plain = [];
  vmprog = replicate 28 9;
  km = [];
  rsa_sk_wrap = [];
  ct_rsa = [];
  ky_sk_wrap = [];
  ct_ky = [];
  mce_sk_wrap = [];
  ct_mce = [];
  frodo_sk_wrap = [];
  ct_frodo = [];
  dilithium_sk_wrap = [];
  dilithium_vk = [];
  dilithium_sig = [];
  serpent_siv = [];
  dek_wrap = [];
  ed_vk = [];
  ed_sig = [];
}

read_program-next_example :
    (i : ℕ) × (p : List ℕ) × (get_elem? (none ∷ some pin ∷ []) i ≡ some (some p))
    × (decrypt toy (boot_key toy p []) (replicate 28 9) ≡ some [])
    × ((true ≡ true) ⊎ (i ≡ 0))
unfolding read_program decrypt
read_program-next_example = read_program-next toy bare true (none ∷ some pin ∷ []) [] refl

abbrev two_wrong : List (Option (List ℕ))
two_wrong = none ∷ some [] ∷ []

read_program-wrong_example :
    (read_program toy bare true (none ∷ some [] ∷ some pin ∷ [])
      ≡ read_program toy bare true (some pin ∷ []))
    × ((two_wrong ≡ [])
        ⊎ (read_program toy bare false (none ∷ some [] ∷ some pin ∷ []) ≡ stop destroyed))
read_program-wrong_example =
    read_program-wrong toy bare two_wrong (some pin ∷ []) (refl, (refl, tt))

unframe-frame_example : unframe (frame (1 ∷ 2 ∷ []) (3 ∷ [])) ≡ (1 ∷ 2 ∷ [], 3 ∷ [])
unframe-frame_example = unframe-frame (1 ∷ 2 ∷ []) (3 ∷ []) (omega arith)

decrypt-wrap_key_example :
    decrypt toy (replicate 32 1) (wrap_key toy (replicate 32 1) (7 ∷ []) (8 ∷ 9 ∷ []))
    ≡ some (8 ∷ 9 ∷ [])
decrypt-wrap_key_example = decrypt-wrap_key toy (replicate 32 1) (7 ∷ []) (8 ∷ 9 ∷ [])

combine-eq-xor6_example :
    combine
      (replicate 32 1)
      (replicate 32 2)
      (replicate 32 4)
      (replicate 32 8)
      (replicate 32 16)
      (replicate 32 32)
    ≡ xor6
        (replicate 32 1)
        (replicate 32 2)
        (replicate 32 4)
        (replicate 32 8)
        (replicate 32 16)
        (replicate 32 32)
combine-eq-xor6_example =
    combine-eq-xor6 (replicate 32 1) (replicate 32 2) (replicate 32 4) (replicate 32 8)
      (replicate 32 16) (replicate 32 32)

text-fits_example :
    2 ≤ usable (length (files toy draws pin (123 ∷ 125 ∷ []) (104 ∷ 105 ∷ []) []).payload)
text-fits_example =
    text-fits toy draws pin (123 ∷ 125 ∷ []) (104 ∷ 105 ∷ []) []
      (omega (arith, length-payload toy draws pin (123 ∷ 125 ∷ []) (104 ∷ 105 ∷ []) []))
