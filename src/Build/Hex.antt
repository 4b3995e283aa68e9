-- ===== src/Build/Hex.antt =====
-- build.rs, `hex`, in which the build prints the hash of the text.
use hello_old.Base.{
  ℕ, ◌+◌, ◌-◌, ◌*◌, ◌/◌, ◌%◌, ◌<◌, ◌≡◌, refl, ap₂, arith, List, [], ◌∷◌, ltb, if◌then◌else◌, All,
  IsByte,
}

-- A digit of `{:02x}`, which are in lower case.
unfoldable pub hex_digit : ℕ → ℕ
hex_digit d = if ltb d 10 then 48 + d else 87 + d

unfoldable pub hex : List ℕ → List ℕ
hex [] = []
hex (x ∷ b) = hex_digit (x / 16) ∷ hex_digit (x % 16) ∷ hex b

-- A reader of such digits.
unfoldable pub digit_value : ℕ → ℕ
digit_value c = if ltb c 58 then c - 48 else c - 87

unfoldable pub unhex : List ℕ → List ℕ
unhex [] = []
unhex (c ∷ []) = []
unhex (c ∷ c' ∷ text) = (digit_value c * 16 + digit_value c') ∷ unhex text

digit_value-hex_digit : (d : ℕ) → d < 16 → digit_value (hex_digit d) ≡ d
unfolding digit_value hex_digit
digit_value-hex_digit d small = ground arith

-- Reading what is printed gives the bytes back, so that two values of the hash never print alike.
pub unhex-hex : (b : List ℕ) → All IsByte b → unhex (hex b) ≡ b
unfolding unhex hex
unhex-hex [] h = refl
unhex-hex (x ∷ b) (byte, h) =
    let high = digit_value-hex_digit (x / 16) (omega (arith, byte)) in
    let low = digit_value-hex_digit (x % 16) (omega arith) in
    ap₂ ◌∷◌ (omega (arith, high, low)) (unhex-hex b h)
