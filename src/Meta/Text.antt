-- ===== src/Meta/Text.antt =====
-- The functions of Rust's `str` that main.rs calls on the metadata, on lists of code points.
use hello_old.Base.{
  ℕ, ◌+◌, ◌-◌, ◌*◌, ◌^◌, Bool, true, false, List, [], ◌∷◌, Option, none, some, ◌&&◌, ◌||◌, ◌==◌,
  leb, ltb, if◌then◌else◌,
}

-- The code points with the property White_Space.
unfoldable pub is_whitespace : ℕ → Bool
is_whitespace c =
    (leb 9 c && leb c 13)
    || (c == 0x20
        || (c == 0x85
            || (c == 0xa0
                || (c == 0x1680
                    || ((leb 0x2000 c && leb c 0x200a)
                        || (c == 0x2028
                            || (c == 0x2029 || (c == 0x202f || (c == 0x205f || c == 0x3000)))))))))

unfoldable pub trim_start : (ℕ → Bool) → List ℕ → List ℕ
trim_start p [] = []
trim_start p (c ∷ s) = let rest = trim_start p s in if p c then rest else c ∷ s

-- A character goes if it matches and nothing is left after it.
abbrev pub unless_last : Bool → ℕ → List ℕ → List ℕ
unless_last true c [] = []
unless_last false c [] = c ∷ []
unless_last b c (x ∷ rest) = c ∷ x ∷ rest

unfoldable pub trim_end : (ℕ → Bool) → List ℕ → List ℕ
trim_end p [] = []
trim_end p (c ∷ s) = unless_last (p c) c (trim_end p s)

-- `trim`.
unfoldable pub trim : List ℕ → List ℕ
trim s = trim_end is_whitespace (trim_start is_whitespace s)

abbrev pub onto_first : ℕ → List (List ℕ) → List (List ℕ)
onto_first c [] = (c ∷ []) ∷ []
onto_first c (part ∷ parts) = (c ∷ part) ∷ parts

-- `split`, which gives at least one part.
unfoldable pub split : ℕ → List ℕ → List (List ℕ)
split sep [] = [] ∷ []
split sep (c ∷ s) = let parts = split sep s in if c == sep then [] ∷ parts else onto_first c parts

unfoldable pub strip_prefix : List ℕ → List ℕ → Option (List ℕ)
strip_prefix [] s = some s
strip_prefix (c ∷ pre) [] = none
strip_prefix (c ∷ pre) (x ∷ s) = let rest = strip_prefix pre s in if x == c then rest else none

abbrev pub is_digit : ℕ → Bool
is_digit c = leb b'0' c && leb c b'9'

-- The digits of a `u64`, after those that make `acc`; an overflow is an error.
unfoldable pub digits_from : ℕ → List ℕ → Option ℕ
digits_from acc [] = some acc
digits_from acc (c ∷ s) =
    let acc' = acc * 10 + (c - b'0') in
    let rest = digits_from acc' s in if is_digit c && ltb acc' (2 ^ 64) then rest else none

abbrev pub some_digits : List ℕ → Option ℕ
some_digits [] = none
some_digits (c ∷ s) = digits_from 0 (c ∷ s)

-- `parse::<u64>().ok()`: a sign `+` is allowed.
unfoldable pub parse_u64 : List ℕ → Option ℕ
parse_u64 [] = none
parse_u64 (c ∷ s) = if c == b'+' then some_digits s else some_digits (c ∷ s)
