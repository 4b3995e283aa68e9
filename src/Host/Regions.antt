-- ===== src/Host/Regions.antt =====
-- src/harden.rs, `maps_rwx_clean`, on the text that the kernel writes for a list of regions.
use hello_old.Base.{
  ℕ, ◌≡◌, ◌≢◌, refl, ap, ◌∙◌, arith, Bool, true, false, not, List, [], ◌∷◌, ◌++◌, some, ◌==◌, ◌&&◌,
  if◌then◌else◌, All,
}
use hello_old.Meta.Text.{is_whitespace, split}
use hello_old.Meta.Parts.{Free, Free-append}
use hello_old.Host.Lines.{
  lines, strip_cr, strip_cr-append, lines-append, split_whitespace, words_from, words_from-word,
  contains_char, ended,
}
use hello_old.Host.Harden.{rwx_words, lines_clean, maps_rwx_clean}

-- A region: its addresses, its permissions, and the rest of its line.
pub record Region : Type 0 where
  pub addresses : List ℕ
  pub perms : List ℕ
  pub rest : List ℕ

abbrev pub region_line : Region → List ℕ
region_line g = g.addresses ++ b' ' ∷ (g.perms ++ b' ' ∷ g.rest)

unfoldable pub maps_text : List Region → List ℕ
maps_text [] = []
maps_text (g ∷ regions) = region_line g ++ 10 ∷ maps_text regions

-- The addresses and the permissions are words, and the rest has no line feed.
pub record IsRegion (g : Region) : Type 0 where
  pub addresses_word : Free is_whitespace g.addresses
  pub addresses_some : g.addresses ≢ []
  pub perms_word : Free is_whitespace g.perms
  pub perms_some : g.perms ≢ []
  pub rest_line : Free (λ c. c == 10) g.rest

unfoldable pub is_rwx : Region → Bool
is_rwx g = contains_char b'w' g.perms && contains_char b'x' g.perms

unfoldable pub none_rwx : List Region → Bool
none_rwx [] = true
none_rwx (g ∷ regions) = not (is_rwx g) && none_rwx regions

ended-some : (word : List ℕ) (l : List (List ℕ)) → word ≢ [] → ended word l ≡ word ∷ l
ended-some [] l h = absurd (h refl)
ended-some (c ∷ word) l h = refl

word_char : (c : ℕ) → is_whitespace c ≡ false → (c == 10) ≡ false
unfolding is_whitespace
word_char c h = ground arith

word-Free : (s : List ℕ) → Free is_whitespace s → Free (λ c. c == 10) s
word-Free [] h = tt
word-Free (c ∷ s) h = (word_char c h.0, word-Free s h.1)

region_line-Free : (g : Region) → IsRegion g → Free (λ c. c == 10) (region_line g)
region_line-Free g h =
    Free-append (λ c. c == 10) g.addresses _ (word-Free g.addresses h.addresses_word)
      (
        refl,
        Free-append (λ c. c == 10) g.perms _ (word-Free g.perms h.perms_word) (refl, h.rest_line),
      )

region-words :
    (g : Region)
    → IsRegion g
    → split_whitespace (strip_cr (region_line g))
      ≡ g.addresses ∷ g.perms ∷ words_from [] (strip_cr g.rest)
unfolding split_whitespace
region-words g h =
    ap (words_from []) (
      strip_cr-append g.addresses (g.perms ++ b' ' ∷ g.rest)
      ∙ ap (λ l. g.addresses ++ b' ' ∷ l) (strip_cr-append g.perms g.rest))
    ∙ words_from-word [] g.addresses _ h.addresses_word
    ∙ ended-some g.addresses _ h.addresses_some
    ∙ ap (λ l. g.addresses ∷ l)
        (words_from-word [] g.perms _ h.perms_word ∙ ended-some g.perms _ h.perms_some)

line_test : (rwx clean : Bool) → (if rwx then false else clean) ≡ (not rwx && clean)
line_test true clean = refl
line_test false clean = refl

lines_clean-maps_text :
    (regions : List Region)
    → All IsRegion regions
    → lines_clean (lines (maps_text regions)) ≡ none_rwx regions
unfolding maps_text none_rwx lines_clean is_rwx lines split
lines_clean-maps_text [] h = refl
lines_clean-maps_text (g ∷ regions) h =
    ap lines_clean (lines-append (region_line g) (maps_text regions) (region_line-Free g h.0))
    ∙ ap (λ w. if rwx_words w then false else lines_clean (lines (maps_text regions)))
        (region-words g h.0)
    ∙ line_test (is_rwx g) (lines_clean (lines (maps_text regions)))
    ∙ ap (λ b. not (is_rwx g) && b) (lines_clean-maps_text regions h.1)

-- The check of the memory map passes exactly if no region can be both written and executed, when the
-- map has a line for each region, with its addresses, its permissions and a rest.
pub maps_rwx_clean-maps_text :
    (regions : List Region)
    → All IsRegion regions
    → maps_rwx_clean (some (maps_text regions)) ≡ none_rwx regions
unfolding maps_rwx_clean
maps_rwx_clean-maps_text regions h = lines_clean-maps_text regions h
