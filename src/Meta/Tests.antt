-- ===== src/Meta/Tests.antt =====
-- Metadata of the build, read by main.rs, and instances of the theorems.
use hello_old.Base.{ℕ, ◌≡◌, refl, arith, ◌==◌, List, some, codes, decimal}
use hello_old.Clock.Calendar.{civil_from_days}
use hello_old.Meta.Text.{is_whitespace, trim_start, trim_end, trim, split, strip_prefix}
use hello_old.Meta.Record.{
  take_part, take_parts, without_braces, meta_json, meta_lines, parse_meta, format_unix,
}
use hello_old.Meta.Roundtrip.{parse_meta-meta_json}
use hello_old.Meta.Parts.{none_is-Free}
use hello_old.Meta.Dates.{read_unix, read_unix-format_unix}

abbrev author : List ℕ
author = codes "hui in"

new_year : format_unix 1893456000 ≡ codes "2030-01-01 00:00:00 UTC"
unfolding format_unix civil_from_days decimal
new_year = refl

-- A comma ends the author.
comma : parse_meta (meta_json 5 6 (codes "a,b")) ≡ parse_meta (meta_json 5 6 (codes "a"))
unfolding parse_meta meta_json format_unix civil_from_days decimal without_braces trim trim_start
    is_whitespace trim_end split take_parts take_part meta_lines strip_prefix
comma = refl

parse_meta-meta_json_example :
    parse_meta (meta_json 1700000000 1700000001 author)
    ≡ meta_lines (record { created = some 1700000000; modified = some 1700000001; author = author })
unfolding trim trim_start trim_end is_whitespace
parse_meta-meta_json_example =
    parse_meta-meta_json 1700000000 1700000001 author (omega arith) (omega arith)
      (none_is-Free (λ c. c == b',') author refl) refl refl

read_unix-format_unix_example : read_unix (format_unix 1893456000) ≡ 1893456000
unfolding civil_from_days
read_unix-format_unix_example = read_unix-format_unix 1893456000 (omega arith)
