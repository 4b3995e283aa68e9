-- ===== src/Base/Text.antt =====
-- Text as a list of code points: literals, the number of bytes in UTF-8, and numbers in decimal.
use Prim.Native.Char.{code}
use Prim.Native.String.{String}
use Prim.Native.Nat.{ℕ, zero, suc, ◌+◌, ◌-◌, ◌/◌, ◌%◌}
use mathlib.Core.List.{List, [], ◌∷◌, ◌++◌}
use hello_old.Base.Lists.{replicate, length}
use hello_old.Base.Tests.{ltb, if◌then◌else◌}

abbrev pub codes : String → List ℕ
codes String.[] = []
codes (String.◌∷◌ c s) = code c ∷ codes s

unfoldable pub utf8_len : List ℕ → ℕ
utf8_len [] = 0
utf8_len (c ∷ chars) =
    (if ltb c 0x80 then 1 else if ltb c 0x800 then 2 else if ltb c 0x10000 then 3 else 4)
    + utf8_len chars

-- The decimal digits of `n`, on fuel; `n` is enough.
unfoldable pub decimal_from : ℕ → ℕ → List ℕ
decimal_from zero n = (b'0' + n % 10) ∷ []
decimal_from (suc fuel) n =
    let rest = decimal_from fuel (n / 10) in
    if ltb n 10 then (b'0' + n) ∷ [] else rest ++ ((b'0' + n % 10) ∷ [])

unfoldable pub decimal : ℕ → List ℕ
unfolding decimal_from
decimal n = decimal_from n n

-- `{:0n}` and `{:>n}`.
abbrev pub pad_left : ℕ → ℕ → List ℕ → List ℕ
pad_left c n text = replicate (n - length text) c ++ text
