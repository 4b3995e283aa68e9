-- ===== src/Siv/Tests.antt =====
-- Instances of the theorems about src/serpent_siv.rs, with a cipher and a CMAC that are easy to
-- follow.
use hello_old.Base.{
  ℕ, List, ◌++◌, from_le_bytes, ◌*◌, arith, ◌≡◌, ◌↔◌, refl, [], ◌∷◌, length, some, value, replicate,
  length-replicate,
}
use hello_old.Siv.Blocks.{inc128, dbl}
use hello_old.Siv.Double.{gf_double, from_le_bytes-dbl}
use hello_old.Siv.Counter.{from_le_bytes-inc128}
use hello_old.Siv.Cipher.{Primitives, siv_encrypt, siv_decrypt}
use hello_old.Siv.Authentic.{siv_decrypt-siv_encrypt}

abbrev toy : Primitives
toy = record {
  enc_block = λ key block. replicate 16 (length key);
  cmac = λ key message. replicate 16 (length message);
  length-enc_block = λ key block. length-replicate 16 (length key);
  length-cmac = λ key message. length-replicate 16 (length message);
}

siv_decrypt-siv_encrypt_example :
    (siv_decrypt toy (replicate 32 1) (5 ∷ []) (replicate 19 16) ≡ value (some (1 ∷ 2 ∷ 3 ∷ [])))
    ↔ (siv_encrypt toy (replicate 32 1) (5 ∷ []) (1 ∷ 2 ∷ 3 ∷ []) ≡ value (replicate 19 16))
siv_decrypt-siv_encrypt_example =
    siv_decrypt-siv_encrypt toy (replicate 32 1) (5 ∷ []) (1 ∷ 2 ∷ 3 ∷ []) (replicate 19 16) refl

from_le_bytes-inc128_example : from_le_bytes (inc128 (255 ∷ 255 ∷ 7 ∷ [])) ≡ 8 * 65536
from_le_bytes-inc128_example = from_le_bytes-inc128 (255 ∷ 255 ∷ 7 ∷ []) (omega arith)

-- The bit 127 leaves, and 1 is doubled.
abbrev top_and_one : List ℕ
top_and_one = 1 ∷ replicate 14 0 ++ 0x80 ∷ []

from_le_bytes-dbl_example : from_le_bytes (dbl top_and_one) ≡ 0x85
unfolding gf_double
from_le_bytes-dbl_example = from_le_bytes-dbl top_and_one refl (omega arith)
