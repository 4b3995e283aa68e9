-- ===== src/Meta/Record.antt =====
-- build.rs, the text of the metadata, and src/main.rs, `format_unix`, `open_date_string` and
-- `parse_meta`. A text is a list of code points: its bytes are taken for valid UTF-8.
use hello_old.Base.{
  ℕ, ◌/◌, ◌%◌, ◌==◌, List, [], ◌∷◌, ◌++◌, Bool, Option, none, some, codes, decimal, pad_left,
}
use hello_old.Clock.Calendar.{civil_from_days}
use hello_old.Archive.Artifacts.{open_timestamp}
use hello_old.Meta.Text.{trim_start, trim_end, trim, split, strip_prefix, parse_u64}

unfoldable pub meta_json : ℕ → ℕ → List ℕ → List ℕ
meta_json created modified author =
    codes "{\"created\":"
    ++ decimal created
    ++ codes ",\"modified\":"
    ++ decimal modified
    ++ codes ",\"author\":\""
    ++ author
    ++ codes "\"}"

-- `{:0n}`.
abbrev pub padded : ℕ → ℕ → List ℕ
padded n x = pad_left b'0' n (decimal x)

abbrev pub date_of : ℕ → List ℕ
date_of days =
    let (y, mo, d) = civil_from_days days in
    padded 4 y ++ codes "-" ++ padded 2 mo ++ codes "-" ++ padded 2 d

unfoldable pub format_unix : ℕ → List ℕ
format_unix ts =
    let sod = ts % 86400 in
    date_of (ts / 86400)
    ++ codes " "
    ++ padded 2 (sod / 3600)
    ++ codes ":"
    ++ padded 2 (sod % 3600 / 60)
    ++ codes ":"
    ++ padded 2 (sod % 60)
    ++ codes " UTC"

unfoldable pub open_date_string : List ℕ
open_date_string = date_of (open_timestamp / 86400)

-- What the loop of `parse_meta` collects.
pub record Parsed : Type 0 where
  pub created : Option ℕ
  pub modified : Option ℕ
  pub author : List ℕ

abbrev pub is_quote : ℕ → Bool
is_quote c = c == b'"'

abbrev pub created_key : List ℕ
created_key = codes "\"created\":"

abbrev pub modified_key : List ℕ
modified_key = codes "\"modified\":"

abbrev pub author_key : List ℕ
author_key = codes "\"author\":\""

abbrev pub with_author : Parsed → Option (List ℕ) → Parsed
with_author p none = p
with_author p (some v) = record p { author = trim (trim_end is_quote v) }

abbrev pub with_modified : Parsed → Option (List ℕ) → Parsed → Parsed
with_modified p none other = other
with_modified p (some v) other = record p { modified = parse_u64 (trim v) }

abbrev pub with_created : Parsed → Option (List ℕ) → Parsed → Parsed
with_created p none other = other
with_created p (some v) other = record p { created = parse_u64 (trim v) }

-- One round of the loop.
unfoldable pub take_part : Parsed → List ℕ → Parsed
take_part p raw =
    let part = trim raw in
    with_created p (strip_prefix created_key part) (
      with_modified p (strip_prefix modified_key part)
        (with_author p (strip_prefix author_key part)))

unfoldable pub take_parts : Parsed → List (List ℕ) → Parsed
take_parts p [] = p
take_parts p (part ∷ parts) = take_parts (take_part p part) parts

-- The braces are taken off.
unfoldable pub without_braces : List ℕ → List ℕ
without_braces meta = trim_end (λ c. c == b'}') (trim_start (λ c. c == b'{') (trim meta))

abbrev pub date_line : List ℕ → Option ℕ → List (List ℕ) → List (List ℕ)
date_line label none lines = lines
date_line label (some ts) lines = (label ++ format_unix ts) ∷ lines

abbrev pub author_line : List ℕ → List (List ℕ)
author_line [] = []
author_line (c ∷ author) = (codes "作者 / Author    " ++ c ∷ author) ∷ []

unfoldable pub meta_lines : Parsed → List (List ℕ)
meta_lines p =
    codes "── 档案信息 · SEALED RECORD ──"
    ∷ date_line (codes "创建 / Created   ") p.created
        (date_line (codes "修改 / Modified  ") p.modified (author_line p.author))

unfoldable pub parse_meta : List ℕ → List (List ℕ)
parse_meta meta = meta_lines (
    take_parts (record { created = none; modified = none; author = [] })
      (split b',' (without_braces meta)))
