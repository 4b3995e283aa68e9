-- ===== src/Archive/Memory/Guards.antt =====
-- src/main.rs, `SecBuf`: the protection of a buffer from when it is made until it is dropped.
use hello_old.Base.{
  ℕ, ◌+◌, ◌*◌, ◌≡◌, inl, inr, refl, ap, ◌∙◌, arith, Bool, true, false, Bool-cases, List, ◌++◌, none,
  some, ltb, ltb→lt, ltb→le, if◌then◌else◌,
}
use hello_old.Archive.Buffer.{page, usable, total}
use hello_old.Archive.Memory.{Prot, prot_none, prot_read_write, SecBuf, new, drop, Use, uses_of}
use hello_old.Archive.Memory.Trace.{
  Byte, unmapped, clean, secret, inside, give_back, byte_after, prot_of, last_lock, layout,
  byte_after-append, uses-outside, uses-inside, inside-within, inside-before, inside-past,
}

module _ (len base a : ℕ) (uses : List Use) where
  abbrev buffer : SecBuf
  buffer = record { base = base; ptr = base + page; usable = usable len; total = total len }

  abbrev opened : Byte
  opened = byte_after a (new len (some base) true).0 unmapped

  abbrev in_use : Byte
  in_use = byte_after a (uses_of buffer uses) opened

  abbrev whole : Bool
  whole = inside a base (total len)

  abbrev low : Bool
  low = inside a base page

  abbrev mid : Bool
  mid = inside a (base + page) (usable len)

  abbrev high : Bool
  high = inside a (base + page + usable len) page

  opened-outside : whole ≡ false → low ≡ false → high ≡ false → opened ≡ unmapped
  unfolding new
  opened-outside w l h = rw (w, l, h) refl

  opened-low : whole ≡ true → low ≡ true → high ≡ false → opened ≡ clean prot_none
  unfolding new
  opened-low w l h = rw (w, l, h) refl

  opened-high : whole ≡ true → low ≡ false → high ≡ true → opened ≡ clean prot_none
  unfolding new
  opened-high w l h = rw (w, l, h) refl

  opened-mid : whole ≡ true → low ≡ false → high ≡ false → opened ≡ clean prot_read_write
  unfolding new
  opened-mid w l h = rw (w, l, h) refl

  dropped-outside : whole ≡ false → mid ≡ false → (s : Byte) → byte_after a (drop buffer) s ≡ s
  unfolding drop
  dropped-outside w m s = rw (w, m) refl

  dropped-guard :
      whole ≡ true → mid ≡ false → byte_after a (drop buffer) (clean prot_none) ≡ unmapped
  unfolding drop
  dropped-guard w m = rw (w, m) refl

  dropped-clean :
      (p : Prot) → whole ≡ true → mid ≡ true → byte_after a (drop buffer) (clean p) ≡ unmapped
  unfolding drop
  dropped-clean p w m = rw (w, m) refl

  dropped-secret :
      (p : Prot) → whole ≡ true → mid ≡ true → byte_after a (drop buffer) (secret p) ≡ unmapped
  unfolding drop
  dropped-secret p w m = rw (w, m) refl

  abbrev At : Prot → Type 0
  At p =
      (prot_of in_use ≡ layout base (usable len) p a)
      × (byte_after a (drop buffer) in_use ≡ unmapped)

  outside :
      whole ≡ false
      → low ≡ false
      → mid ≡ false
      → high ≡ false
      → (in_use ≡ unmapped) × (byte_after a (drop buffer) in_use ≡ unmapped)
  outside w l m h =
      let out = opened-outside w l h in
      let still = uses-outside a buffer uses opened m (rw out refl) ∙ out in
      (still, dropped-outside w m in_use ∙ still)

  guarded :
      whole ≡ true
      → mid ≡ false
      → opened ≡ clean prot_none
      → (in_use ≡ clean prot_none) × (byte_after a (drop buffer) in_use ≡ unmapped)
  guarded w m closed =
      let still = uses-outside a buffer uses opened m (rw closed refl) ∙ closed in
      (still, ap (byte_after a (drop buffer)) still ∙ dropped-guard w m)

  held :
      whole ≡ true
      → mid ≡ true
      → opened ≡ clean prot_read_write
      → (prot_of in_use ≡ some (last_lock uses prot_read_write))
        × (byte_after a (drop buffer) in_use ≡ unmapped)
  held w m fresh = elim (uses-inside a buffer uses prot_read_write opened m (inl fresh)) [
    | inl e ↦ (ap prot_of e, ap (byte_after a (drop buffer)) e ∙ dropped-clean _ w m)
    | inr e ↦ (ap prot_of e, ap (byte_after a (drop buffer)) e ∙ dropped-secret _ w m)
  ]

  -- The regions, one after the other.
  before : ltb a base ≡ true → At (last_lock uses prot_read_write)
  unfolding total
  before t =
      let less = ltb→lt a base t in
      let (is, end) =
        outside (inside-before a base (usable len + 2 * page) less) (inside-before a base page less)
          (inside-before a (base + page) (usable len) (omega arith))
          (inside-before a (base + page + usable len) page (omega arith)) in
      (rw (t, is) refl, end)

  first_guard :
      ltb a base ≡ false → ltb a (base + 4096) ≡ true → At (last_lock uses prot_read_write)
  unfolding total
  first_guard f₀ t =
      let start = ltb→le a base f₀ in
      let less = ltb→lt a (base + 4096) t in
      let w = inside-within a base (usable len + 2 * page) start (omega arith) in
      let (is, end) = guarded w (inside-before a (base + page) (usable len) less) (
        opened-low w (inside-within a base page start less)
          (inside-before a (base + page + usable len) page (omega arith))) in
      (rw (f₀, t, is) refl, end)

  usable_part :
      ltb a base ≡ false
      → ltb a (base + 4096) ≡ false
      → ltb a (base + 4096 + usable len) ≡ true
      → At (last_lock uses prot_read_write)
  unfolding total
  usable_part f₀ f₁ t =
      let start = ltb→le a base f₀ in
      let from = ltb→le a (base + 4096) f₁ in
      let less = ltb→lt a (base + 4096 + usable len) t in
      let w = inside-within a base (usable len + 2 * page) start (omega arith) in
      let (is, end) = held w (inside-within a (base + page) (usable len) from less) (
        opened-mid w (inside-past a base page from)
          (inside-before a (base + page + usable len) page less)) in
      (rw (f₀, f₁, t, is) refl, end)

  second_guard :
      ltb a base ≡ false
      → ltb a (base + 4096) ≡ false
      → ltb a (base + 4096 + usable len) ≡ false
      → ltb a (base + 8192 + usable len) ≡ true
      → At (last_lock uses prot_read_write)
  unfolding total
  second_guard f₀ f₁ f₂ t =
      let start = ltb→le a base f₀ in
      let from = ltb→le a (base + 4096 + usable len) f₂ in
      let less = ltb→lt a (base + 8192 + usable len) t in
      let w = inside-within a base (usable len + 2 * page) start (omega arith) in
      let (is, end) = guarded w (inside-past a (base + page) (usable len) from) (
        opened-high w (inside-past a base page (omega arith))
          (inside-within a (base + page + usable len) page from (omega arith))) in
      (rw (f₀, f₁, f₂, t, is) refl, end)

  past :
      ltb a base ≡ false
      → ltb a (base + 4096) ≡ false
      → ltb a (base + 4096 + usable len) ≡ false
      → ltb a (base + 8192 + usable len) ≡ false
      → At (last_lock uses prot_read_write)
  unfolding total
  past f₀ f₁ f₂ f₃ =
      let from = ltb→le a (base + 8192 + usable len) f₃ in
      let (is, end) =
        outside (inside-past a base (usable len + 2 * page) (omega arith))
          (inside-past a base page (omega arith))
          (inside-past a (base + page) (usable len) (omega arith))
          (inside-past a (base + page + usable len) page (omega arith)) in
      (rw (f₀, f₁, f₂, f₃, is) refl, end)

  every_byte : At (last_lock uses prot_read_write)
  every_byte = elim (Bool-cases (ltb a base)) [
    | inl t ↦ before t
    | inr f₀ ↦ elim (Bool-cases (ltb a (base + 4096))) [
      | inl t ↦ first_guard f₀ t
      | inr f₁ ↦ elim (Bool-cases (ltb a (base + 4096 + usable len))) [
        | inl t ↦ usable_part f₀ f₁ t
        | inr f₂ ↦ elim (Bool-cases (ltb a (base + 8192 + usable len))) [
          | inl t ↦ second_guard f₀ f₁ f₂ t
          | inr f₃ ↦ past f₀ f₁ f₂ f₃
        ]
      ]
    ]
  ]

  refused_byte : byte_after a (new len (some base) false).0 unmapped ≡ unmapped
  unfolding new
  refused_byte = given_back whole
    where
      given_back :
          (b : Bool)
          → (if b
              then give_back (if b then clean prot_read_write else unmapped)
              else (if b then clean prot_read_write else unmapped))
            ≡ unmapped
      given_back true = refl
      given_back false = refl

made :
    (len base : ℕ)
    → (new len (some base) true).1
      ≡ some (record { base = base; ptr = base + page; usable = usable len; total = total len })
unfolding new
made len base = refl

not_made : (len base : ℕ) → (new len (some base) false).1 ≡ none
unfolding new
not_made len base = refl

-- A buffer that is made has a guard page on each side that no lock opens, and its usable part is
-- protected as the last lock asks, or can be written if there was none. When it is dropped, every page
-- is given back, and no byte with something that was copied to it still there. When it cannot be locked
-- in memory, there is no buffer, and its pages are given back. This is so at every address, whatever is
-- copied and locked.
pub new-drop :
    (len base a : ℕ) (uses : List Use)
    → (b : SecBuf) × ((new len (some base) true).1 ≡ some b)
      × (prot_of (byte_after a ((new len (some base) true).0 ++ uses_of b uses) unmapped)
          ≡ layout base (usable len) (last_lock uses prot_read_write) a)
      × (byte_after a ((new len (some base) true).0 ++ (uses_of b uses ++ drop b)) unmapped
          ≡ unmapped)
      × ((new len (some base) false).1 ≡ none)
      × (byte_after a (new len (some base) false).0 unmapped ≡ unmapped)
new-drop len base a uses =
    let b = buffer len base a uses in
    let opening = (new len (some base) true).0 in
    let (is, end) = every_byte len base a uses in
    (
      b,
      made len base,
      ap prot_of (byte_after-append a opening (uses_of b uses) unmapped) ∙ is,
      byte_after-append a opening (uses_of b uses ++ drop b) unmapped
          ∙ byte_after-append a (uses_of b uses) (drop b) (byte_after a opening unmapped)
          ∙ end,
      not_made len base,
      refused_byte len base a uses,
    )
