-- ===== src/Archive/Buffer.antt =====
-- src/main.rs, `SecBuf::new`: the sizes of the locked buffers, and that the text fits the one that it
-- is copied to without a check.
use hello_old.Base.{
  ℕ, ◌+◌, ◌-◌, ◌*◌, ◌/◌, ◌%◌, ◌^◌, ◌<◌, ◌≤◌, ◌≡◌, refl, sym, ap, ◌∙◌, arith, false, Bool-cases, inl,
  inr, List, leb, leb→le, if◌then◌else◌, length, bit_and, and_step, and_ones, complement,
  length-append, ◌++◌, to_le_bytes,
}
use hello_old.Crypto.Suite.{Suite}
use hello_old.Crypto.Wrap.{wrap_key, length-wrap_key}
use hello_old.Archive.Frame.{frame}
use hello_old.Archive.Artifacts.{Draws, k1_of, k2_of, label_inner, label_payload, files}

abbrev pub page : ℕ
page = 4096

-- `(len + page - 1) & !(page - 1)` for a length that does not wrap.
unfoldable pub usable : ℕ → ℕ
usable len = if leb len page then page else bit_and (len + page - 1) (complement (page - 1))

-- With a guard page on each side.
unfoldable pub total : ℕ → ℕ
unfolding usable
total len = usable len + 2 * page

and_double : (a b m n : ℕ) → n ≡ m * 2 → b ≡ a / 2 → bit_and a n ≡ bit_and b m * 2
and_double a b m n e f =
    let half : n / 2 ≡ m = omega (arith, e) in
    let even : n % 2 ≡ 0 = omega (arith, e) in and_step a n ∙ rw (half, even, sym f) (omega arith)

and_sixteen : (a m : ℕ) → bit_and a (m * 16) ≡ bit_and (a / 16) m * 16
and_sixteen a m = omega (
  arith,
  and_double a (a / 2) (m * 8) (m * 16) (omega arith) refl,
  and_double (a / 2) (a / 4) (m * 4) (m * 8) (omega arith) (omega arith),
  and_double (a / 4) (a / 8) (m * 2) (m * 4) (omega arith) (omega arith),
  and_double (a / 8) (a / 16) m (m * 2) (omega arith) (omega arith),
)

-- The mask clears the twelve low bits.
and-mask : (x : ℕ) → x < 2 ^ 64 → bit_and x (complement (page - 1)) ≡ x / 4096 * 4096
and-mask x h =
    and_sixteen x (2 ^ 60 - 256)
    ∙ ap (λ y. y * 16) (and_sixteen (x / 16) (2 ^ 56 - 16))
    ∙ ap (λ y. y * 16 * 16) (and_sixteen (x / 16 / 16) (2 ^ 52 - 1))
    ∙ ap (λ y. y * 16 * 16 * 16) (and_ones 52 (x / 16 / 16 / 16))
    ∙ omega arith

-- The usable part of a buffer is a whole number of pages and one at least, holds the length that was
-- asked for and is at most a page longer. This is so for lengths that leave room below 2 ^ 64.
usable_lem :
    (len : ℕ)
    → len + page < 2 ^ 64
    → (len ≤ usable len) × (usable len % page ≡ 0) × (page ≤ usable len) × (usable len ≤ len + page)
unfolding usable
usable_lem len small = elim (Bool-cases (leb len page)) [
  | inl short ↦
      let bound = leb→le len page short in rw short (bound, refl, omega arith, omega arith)
  | inr long ↦
      let mask = and-mask (len + page - 1) (omega arith) in
      rw (long, mask) (omega arith, omega arith, past_page len long, omega arith)
]
  where
    past_page : (len : ℕ) → leb len page ≡ false → page ≤ (len + page - 1) / 4096 * 4096
    past_page len long = ground arith

-- The payload is the frame, wrapped twice.
pub length-payload :
    (c : Suite) (d : Draws) (password meta content siv : List ℕ)
    → length (files c d password meta content siv).payload ≡ length meta + length content + 60
unfolding files frame
length-payload c d password meta content siv =
    let framed = frame meta content in
    omega (
      arith,
      length-wrap_key c (k2_of d) label_payload (wrap_key c (k1_of d) label_inner framed),
      length-wrap_key c (k1_of d) label_inner framed,
      length-append (to_le_bytes 4 (length meta % 2 ^ 32)) (meta ++ content),
      length-append meta content,
    )

-- The text that the build seals fits the buffer that the binary takes for it by the length of
-- payload.bin, so that the unchecked copy stays inside. This is so for files that leave room below
-- 2 ^ 64.
pub text-fits :
    (c : Suite) (d : Draws) (password meta content siv : List ℕ)
    → length (files c d password meta content siv).payload + page < 2 ^ 64
    → length content ≤ usable (length (files c d password meta content siv).payload)
text-fits c d password meta content siv small = omega (
  arith,
  (usable_lem (length (files c d password meta content siv).payload) small).0,
  length-payload c d password meta content siv,
)
