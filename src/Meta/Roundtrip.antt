-- ===== src/Meta/Roundtrip.antt =====
-- What build.rs writes of the metadata, main.rs reads.
use hello_old.Base.{
  append_assoc, ℕ, ◌<◌, ◌^◌, ◌≡◌, refl, sym, ap, ◌∙◌, List, [], ◌∷◌, ◌++◌, some, none, ◌==◌, codes,
  decimal,
}
use hello_old.Meta.Text.{is_whitespace, trim_start, trim_end, trim, split, strip_prefix, parse_u64}
use hello_old.Meta.Record.{
  meta_json, Parsed, created_key, modified_key, author_key, is_quote, take_part, take_parts,
  without_braces, meta_lines, parse_meta,
}
use hello_old.Meta.Numbers.{decimal-digits, parse_u64-decimal}
use hello_old.Meta.Parts.{
  Free, none_is-Free, Free-append, digits-Free, digit-is_whitespace, digit-comma, trim_start-keep,
  trim_start-drop, trim_end-keep, trim_end-drop, trim-Free, trim-ends, split-Free, split-append,
  strip_prefix-append,
}

abbrev created_part : ℕ → List ℕ
created_part created = created_key ++ decimal created

abbrev modified_part : ℕ → List ℕ
modified_part modified = modified_key ++ decimal modified

abbrev author_part : List ℕ → List ℕ
author_part author = author_key ++ (author ++ b'"' ∷ [])

abbrev parts : ℕ → ℕ → List ℕ → List ℕ
parts created modified author =
    created_part created ++ b',' ∷ (modified_part modified ++ b',' ∷ author_part author)

module _ (created modified : ℕ) (author : List ℕ) where
  -- What stands between the braces, without the last quote.
  abbrev inside : List ℕ
  inside = created_part created ++ b',' ∷ (modified_part modified ++ b',' ∷ (author_key ++ author))

  inside-quote : inside ++ b'"' ∷ [] ≡ parts created modified author
  inside-quote = simp append_assoc

  json-braces :
      meta_json created modified author ≡ b'{' ∷ (parts created modified author ++ b'}' ∷ [])
  unfolding meta_json
  json-braces = simp append_assoc

  -- The outer braces go, and no others.
  unbraced :
      trim_end
        (λ c. c == b'}')
        (trim_start (λ c. c == b'{') (b'{' ∷ (parts created modified author ++ b'}' ∷ [])))
      ≡ parts created modified author
  unbraced =
      ap (λ l. trim_end (λ c. c == b'}') l)
        (trim_start-drop (λ c. c == b'{') b'{' (parts created modified author ++ b'}' ∷ []) refl
          ∙ trim_start-keep (λ c. c == b'{') b'"' _ refl)
      ∙ trim_end-drop (λ c. c == b'}') (parts created modified author) b'}' refl
      ∙ ap (λ l. trim_end (λ c. c == b'}') l) (sym inside-quote)
      ∙ trim_end-keep (λ c. c == b'}') inside b'"' refl
      ∙ inside-quote

  without_braces-meta_json :
      without_braces (meta_json created modified author) ≡ parts created modified author
  unfolding without_braces is_whitespace
  without_braces-meta_json =
      ap without_braces json-braces
      ∙ ap (λ l. trim_end (λ c. c == b'}') (trim_start (λ c. c == b'{') l))
          (trim-ends b'{' (parts created modified author) b'}' refl refl)
      ∙ unbraced

  split-parts :
      Free (λ c. c == b',') author
      → split b',' (parts created modified author)
        ≡ created_part created ∷ modified_part modified ∷ author_part author ∷ []
  split-parts h =
      split-append b',' (created_part created) _ (
        Free-append (λ c. c == b',') created_key (decimal created)
          (none_is-Free (λ c. c == b',') created_key refl)
          (digits-Free (λ c. c == b',') _ digit-comma (decimal-digits created)))
      ∙ ap (λ l. created_part created ∷ l)
          (split-append b',' (modified_part modified) _ (
              Free-append (λ c. c == b',') modified_key (decimal modified)
                (none_is-Free (λ c. c == b',') modified_key refl)
                (digits-Free (λ c. c == b',') _ digit-comma (decimal-digits modified)))
            ∙ ap (λ l. modified_part modified ∷ l)
                (split-Free b',' (author_part author) (
                  Free-append (λ c. c == b',') author_key _
                    (none_is-Free (λ c. c == b',') author_key refl)
                    (Free-append (λ c. c == b',') author (b'"' ∷ []) h (refl, tt)))))

trim-number : (n : ℕ) → trim (decimal n) ≡ decimal n
trim-number n =
    trim-Free (decimal n)
      (digits-Free is_whitespace (decimal n) digit-is_whitespace (decimal-digits n))

trim-key_number :
    (key : List ℕ) (n : ℕ) → Free is_whitespace key → trim (key ++ decimal n) ≡ key ++ decimal n
trim-key_number key n h = trim-Free (key ++ decimal n) (
    Free-append is_whitespace key (decimal n) h
      (digits-Free is_whitespace (decimal n) digit-is_whitespace (decimal-digits n)))

number-read : (n : ℕ) → n < 2 ^ 64 → parse_u64 (trim (decimal n)) ≡ some n
number-read n fits = ap parse_u64 (trim-number n) ∙ parse_u64-decimal n fits

-- The keys are told apart.
created-modified : (s : List ℕ) → strip_prefix created_key (modified_key ++ s) ≡ none
unfolding strip_prefix
created-modified s = refl

created-author : (s : List ℕ) → strip_prefix created_key (author_key ++ s) ≡ none
unfolding strip_prefix
created-author s = refl

modified-author : (s : List ℕ) → strip_prefix modified_key (author_key ++ s) ≡ none
unfolding strip_prefix
modified-author s = refl

take-created :
    (p : Parsed) (created : ℕ)
    → created < 2 ^ 64
    → take_part p (created_part created) ≡ record p { created = some created }
unfolding take_part is_whitespace
take-created p created fits =
    rw
      (
        trim-key_number created_key created (none_is-Free is_whitespace created_key refl),
        strip_prefix-append created_key (decimal created),
        number-read created fits,
      )
      refl

take-modified :
    (p : Parsed) (modified : ℕ)
    → modified < 2 ^ 64
    → take_part p (modified_part modified) ≡ record p { modified = some modified }
unfolding take_part is_whitespace
take-modified p modified fits =
    rw
      (
        trim-key_number modified_key modified (none_is-Free is_whitespace modified_key refl),
        created-modified (decimal modified),
        strip_prefix-append modified_key (decimal modified),
        number-read modified fits,
      )
      refl

trim-author_part : (author : List ℕ) → trim (author_part author) ≡ author_part author
unfolding is_whitespace
trim-author_part author =
    ap trim (sym (append_assoc author_key author (b'"' ∷ [])))
    ∙ trim-ends b'"' (codes "author\":\"" ++ author) b'"' refl refl
    ∙ append_assoc author_key author (b'"' ∷ [])

take-author :
    (p : Parsed) (author : List ℕ)
    → trim author ≡ author
    → trim_end is_quote author ≡ author
    → take_part p (author_part author) ≡ record p { author = author }
unfolding take_part
take-author p author trimmed unquoted =
    rw
      (
        trim-author_part author,
        created-author (author ++ b'"' ∷ []),
        modified-author (author ++ b'"' ∷ []),
        strip_prefix-append author_key (author ++ b'"' ∷ []),
        trim_end-drop is_quote author b'"' refl,
        unquoted,
        trimmed,
      )
      refl

-- The metadata that the build writes is read back: the two times, if they are of 64 bits, and the
-- author, if the name has no comma, no white space at its ends and no quote at its end. The lines that
-- are shown are those of these values.
pub parse_meta-meta_json :
    (created modified : ℕ) (author : List ℕ)
    → created < 2 ^ 64
    → modified < 2 ^ 64
    → Free (λ c. c == b',') author
    → trim author ≡ author
    → trim_end is_quote author ≡ author
    → parse_meta (meta_json created modified author)
      ≡ meta_lines (record { created = some created; modified = some modified; author = author })
unfolding parse_meta take_parts
parse_meta-meta_json created modified author fits fits' no_comma trimmed unquoted =
    let nothing : Parsed = record { created = none; modified = none; author = [] } in
    ap (λ s. meta_lines (take_parts nothing s))
      (ap (split b',') (without_braces-meta_json created modified author)
        ∙ split-parts created modified author no_comma)
    ∙ ap meta_lines (
        rw
          (
            take-created nothing created fits,
            take-modified _ modified fits',
            take-author _ author trimmed unquoted,
          )
          refl)
