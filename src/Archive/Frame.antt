-- ===== src/Archive/Frame.antt =====
-- The sealed payload: build.rs, `main`, puts the length of the metadata, the metadata and the text
-- in one vector, and src/main.rs, `main`, takes them apart.
use hello_old.Base.{
  append_assoc, ℕ, ◌+◌, ◌%◌, ◌^◌, ◌<◌, ◌≡◌, refl, sym, ◌∙◌, arith, true, List, [], ◌++◌, leb,
  le→leb, if◌then◌else◌, length, take, drop, length-append, take-append, drop-append, from_le_bytes,
  to_le_bytes,
}
use native.Mathlib.Nat.{mod-eq_of_lt}
use hello_old.Build.Fill.{length-to_le_bytes}

-- `as u32` keeps the low 32 bits of the length.
unfoldable pub frame : List ℕ → List ℕ → List ℕ
frame meta content = to_le_bytes 4 (length meta % 2 ^ 32) ++ (meta ++ content)

-- The bytes that `parse_meta` reads, and the text. Without a whole frame there are none to read.
unfoldable pub unframe : List ℕ → List ℕ × List ℕ
unframe content =
    let meta_len = from_le_bytes (take 4 content) in
    if leb 4 (length content)
    then (if leb (4 + meta_len) (length content)
        then (take meta_len (drop 4 content), drop (4 + meta_len) content)
        else ([], drop 4 content))
    else ([], content)

-- Four bytes hold a number below 2 ^ 32.
pub from_le_bytes-to_le_bytes : (x : ℕ) → x < 2 ^ 32 → from_le_bytes (to_le_bytes 4 x) ≡ x
from_le_bytes-to_le_bytes x h = omega arith

unframe-parts :
    (head meta content : List ℕ)
    → length head ≡ 4
    → from_le_bytes head ≡ length meta
    → unframe (head ++ (meta ++ content)) ≡ (meta, content)
unfolding unframe
unframe-parts head meta content size e =
    let total = length-append head (meta ++ content) in
    let inner = length-append meta content in
    let whole : leb 4 (length (head ++ (meta ++ content))) ≡ true =
      le→leb 4 _ (omega (arith, total, size)) in
    let fits : leb (4 + length meta) (length (head ++ (meta ++ content))) ≡ true =
      le→leb _ _ (omega (arith, total, inner, size)) in
    let head_size : 4 ≡ length head = sym size in
    let cut : drop (4 + length meta) (head ++ (meta ++ content)) ≡ content =
      rw (sym (append_assoc head meta content)) (
        drop-append (head ++ meta) content (4 + length meta)
          (omega (arith, length-append head meta, size))) in
    rw
      (
        take-append head (meta ++ content) 4 head_size,
        e,
        whole,
        fits,
        cut,
        drop-append head (meta ++ content) 4 head_size,
        take-append meta content (length meta) refl,
      )
      refl

-- What the build frames, the binary takes apart: any metadata shorter than 4 GiB and any text come
-- back.
pub unframe-frame :
    (meta content : List ℕ) → length meta < 2 ^ 32 → unframe (frame meta content) ≡ (meta, content)
unfolding frame
unframe-frame meta content small =
    unframe-parts (to_le_bytes 4 (length meta % 2 ^ 32)) meta content
      (length-to_le_bytes 4 (length meta % 2 ^ 32))
      (from_le_bytes-to_le_bytes (length meta % 2 ^ 32) (omega arith) ∙ mod-eq_of_lt small)
