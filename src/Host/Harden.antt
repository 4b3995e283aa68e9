-- ===== src/Host/Harden.antt =====
-- src/harden.rs, `check_injection`. The environment and the memory map are arguments; a map that cannot
-- be read is `none`.
use hello_old.Base.{
  ℕ, Bool, true, false, not, List, [], ◌∷◌, Option, none, some, ◌&&◌, ◌||◌, codes, if◌then◌else◌,
}
use hello_old.Meta.Text.{trim}
use hello_old.Host.Lines.{lines, split_whitespace, contains, contains_char}

abbrev pub loader_line : List ℕ → Bool
loader_line l = contains (codes "ld-musl") l || contains (codes "-linux-gnu.so") l

unfoldable pub any_loader : List (List ℕ) → Bool
any_loader [] = false
any_loader (l ∷ rest) = loader_line l || any_loader rest

unfoldable pub maps_has_loader : Option (List ℕ) → Bool
maps_has_loader none = false
maps_has_loader (some maps) = any_loader (lines maps)

-- Whether the words of a line are those of memory that can be written and executed.
abbrev pub rwx_words : List (List ℕ) → Bool
rwx_words [] = false
rwx_words (range ∷ []) = false
rwx_words (range ∷ perms ∷ toks) = contains_char b'w' perms && contains_char b'x' perms

unfoldable pub lines_clean : List (List ℕ) → Bool
lines_clean [] = true
lines_clean (line ∷ rest) =
    let clean = lines_clean rest in if rwx_words (split_whitespace line) then false else clean

unfoldable pub maps_rwx_clean : Option (List ℕ) → Bool
maps_rwx_clean none = true
maps_rwx_clean (some maps) = lines_clean (lines maps)

abbrev pub has_text : List ℕ → Bool
has_text [] = false
has_text (c ∷ s) = true

-- A variable that is set to more than white space.
abbrev pub is_set : Option (List ℕ) → Bool
is_set none = false
is_set (some v) = has_text (trim v)

unfoldable pub check_injection : Option (List ℕ) → Option (List ℕ) → Option (List ℕ) → Bool
check_injection ld_preload ld_library_path maps =
    if is_set ld_preload
    then false
    else if not (maps_has_loader maps) && is_set ld_library_path
    then false
    else maps_rwx_clean maps
