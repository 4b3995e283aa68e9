-- ===== src/Host/Lines.antt =====
-- The functions of Rust's `str` on the files of /proc: lines, words and parts of a text.
use hello_old.Base.{
  ℕ, ◌≡◌, refl, sym, ap, ◌∙◌, Bool, true, false, List, [], ◌∷◌, ◌++◌, ◌==◌, ◌||◌, ◌&&◌,
  if◌then◌else◌, append_assoc, append_nil,
}
use hello_old.Meta.Text.{is_whitespace, split}
use hello_old.Meta.Parts.{Free, split-append, split-some}

-- A carriage return at the end of a line is no part of it.
unfoldable pub strip_cr : List ℕ → List ℕ
strip_cr [] = []
strip_cr (c ∷ []) = if c == 13 then [] else c ∷ []
strip_cr (c ∷ x ∷ s) = c ∷ strip_cr (x ∷ s)

abbrev pub last_line : List ℕ → List (List ℕ)
last_line [] = []
last_line (c ∷ line) = (c ∷ line) ∷ []

-- What stands after the last line feed is a line only if it is not empty.
abbrev pub lines_of : List (List ℕ) → List (List ℕ)
lines_of [] = []
lines_of (part ∷ []) = last_line part
lines_of (part ∷ next ∷ parts) = strip_cr part ∷ lines_of (next ∷ parts)

-- `lines`.
unfoldable pub lines : List ℕ → List (List ℕ)
lines s = lines_of (split 10 s)

abbrev pub ended : List ℕ → List (List ℕ) → List (List ℕ)
ended [] words = words
ended (c ∷ cur) words = (c ∷ cur) ∷ words

-- `split_whitespace`, with the word `cur` begun.
unfoldable pub words_from : List ℕ → List ℕ → List (List ℕ)
words_from cur [] = ended cur []
words_from cur (c ∷ s) =
    let over = words_from [] s in
    let on = words_from (cur ++ c ∷ []) s in if is_whitespace c then ended cur over else on

unfoldable pub split_whitespace : List ℕ → List (List ℕ)
split_whitespace s = words_from [] s

abbrev pub starts_with : List ℕ → List ℕ → Bool
starts_with [] s = true
starts_with (c ∷ pre) [] = false
starts_with (c ∷ pre) (x ∷ s) = c == x && starts_with pre s

-- `contains`, of a text and of a character.
unfoldable pub contains : List ℕ → List ℕ → Bool
contains part [] = starts_with part []
contains part (c ∷ s) = starts_with part (c ∷ s) || contains part s

unfoldable pub contains_char : ℕ → List ℕ → Bool
contains_char c [] = false
contains_char c (x ∷ s) = x == c || contains_char c s

-- A word that ends at a space is the next word.
pub words_from-word :
    (cur word s : List ℕ)
    → Free is_whitespace word
    → words_from cur (word ++ b' ' ∷ s) ≡ ended (cur ++ word) (words_from [] s)
unfolding words_from is_whitespace
words_from-word cur [] s h = ap (λ l. ended l (words_from [] s)) (sym (append_nil cur))
words_from-word cur (c ∷ word) s h = rw h.0 (
    words_from-word (cur ++ c ∷ []) word s h.1
    ∙ ap (λ l. ended l (words_from [] s)) (append_assoc cur (c ∷ []) word))

-- The lines of a text that begins with a whole line.
pub lines-append :
    (line s : List ℕ) → Free (λ c. c == 10) line → lines (line ++ 10 ∷ s) ≡ strip_cr line ∷ lines s
unfolding lines
lines-append line s h =
    let (first, rest, e) = split-some 10 s in
    ap lines_of (split-append 10 line s h ∙ ap (λ l. line ∷ l) e)
    ∙ ap (λ l. strip_cr line ∷ lines_of l) (sym e)

-- Only what follows a space can lose a carriage return.
pub strip_cr-append : (s u : List ℕ) → strip_cr (s ++ b' ' ∷ u) ≡ s ++ b' ' ∷ strip_cr u
unfolding strip_cr
strip_cr-append [] [] = refl
strip_cr-append [] (x ∷ u) = refl
strip_cr-append (c ∷ []) u = ap (λ l. c ∷ l) (strip_cr-append [] u)
strip_cr-append (c ∷ x ∷ s) u = ap (λ l. c ∷ l) (strip_cr-append (x ∷ s) u)
