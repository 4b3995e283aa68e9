-- ===== src/Archive/Memory/Trace.antt =====
-- src/main.rs, `SecBuf`: what its calls on memory ask for, byte by byte.
use hello_old.Base.{
  ℕ, ◌+◌, ◌≤◌, ◌<◌, ◌≡◌, ◌⊎◌, inl, inr, refl, ap, ◌∙◌, arith, Bool, true, false, ◌&&◌, List, [],
  ◌∷◌, ◌++◌, Option, none, some, ltb, leb, if◌then◌else◌,
}
use hello_old.Archive.Memory.{
  Prot, prot_none, prot_read, prot_read_write, MemoryCall, mmap, mlock, mprotect, madvise, copied,
  zeroed, munlock, munmap, SecBuf, Use, copy, as_ro, as_none, used, uses_of,
}

-- What the calls leave of one byte: not mapped, mapped with or without something that was copied to
-- it, or given back with what was copied to it.
pub data Byte : Type 0 where
  unmapped : Byte
  clean : Prot → Byte
  secret : Prot → Byte
  lost : Byte

abbrev pub inside : ℕ → ℕ → ℕ → Bool
inside a x len = leb x a && ltb a (x + len)

abbrev pub protect : Prot → Byte → Byte
protect q unmapped = unmapped
protect q (clean p) = clean q
protect q (secret p) = secret q
protect q lost = lost

-- Only a byte that may be written changes.
abbrev pub store : Byte → Byte
store unmapped = unmapped
store (clean prot_none) = clean prot_none
store (clean prot_read) = clean prot_read
store (clean prot_read_write) = secret prot_read_write
store (secret p) = secret p
store lost = lost

abbrev pub wipe : Byte → Byte
wipe unmapped = unmapped
wipe (clean p) = clean p
wipe (secret prot_none) = secret prot_none
wipe (secret prot_read) = secret prot_read
wipe (secret prot_read_write) = clean prot_read_write
wipe lost = lost

abbrev pub give_back : Byte → Byte
give_back unmapped = unmapped
give_back (clean p) = unmapped
give_back (secret p) = lost
give_back lost = lost

-- What a call makes of the byte at the address `a`.
abbrev pub asked : ℕ → MemoryCall → Byte → Byte
asked a (mmap x len) s = if inside a x len then clean prot_read_write else s
asked a (mprotect x len q) s = if inside a x len then protect q s else s
asked a (copied x len) s = if inside a x len then store s else s
asked a (zeroed x len) s = if inside a x len then wipe s else s
asked a (munmap x len) s = if inside a x len then give_back s else s
asked a (mlock x len) s = s
asked a (madvise x len) s = s
asked a (munlock x len) s = s

abbrev pub byte_after : ℕ → List MemoryCall → Byte → Byte
byte_after a [] s = s
byte_after a (call ∷ calls) s = byte_after a calls (asked a call s)

abbrev pub prot_of : Byte → Option Prot
prot_of unmapped = none
prot_of (clean p) = some p
prot_of (secret p) = some p
prot_of lost = none

abbrev pub last_lock : List Use → Prot → Prot
last_lock [] p = p
last_lock (copy n ∷ uses) p = last_lock uses p
last_lock (as_ro ∷ uses) p = last_lock uses prot_read
last_lock (as_none ∷ uses) p = last_lock uses prot_none

-- A guard page, the usable part, and a guard page.
abbrev pub layout : ℕ → ℕ → Prot → ℕ → Option Prot
layout base size p a =
    if ltb a base
    then none
    else if ltb a (base + 4096)
    then some prot_none
    else if ltb a (base + 4096 + size)
    then some p
    else if ltb a (base + 8192 + size)
    then some prot_none
    else none

pub byte_after-append :
    (a : ℕ) (xs ys : List MemoryCall) (s : Byte)
    → byte_after a (xs ++ ys) s ≡ byte_after a ys (byte_after a xs s)
byte_after-append a [] ys s = refl
byte_after-append a (x ∷ xs) ys s = byte_after-append a xs ys (asked a x s)

kept_if : (b : Bool) (s : Byte) → store s ≡ s → (if b then store s else s) ≡ s
kept_if true s h = h
kept_if false s h = refl

not_here : (b : Bool) (x s : Byte) → b ≡ false → (if b then x else s) ≡ s
not_here true x s h = cc
not_here false x s h = refl

-- Outside of the usable part a use changes nothing.
pub uses-outside :
    (a : ℕ) (b : SecBuf) (uses : List Use) (s : Byte)
    → inside a b.ptr b.usable ≡ false
    → store s ≡ s
    → byte_after a (uses_of b uses) s ≡ s
uses-outside a b [] s out same = refl
uses-outside a b (u ∷ uses) s out same =
    ap (byte_after a (uses_of b uses)) (untouched u) ∙ uses-outside a b uses s out same
  where
    untouched : (u : Use) → asked a (used b u) s ≡ s
    untouched (copy n) = kept_if (inside a b.ptr n) s same
    untouched as_ro = not_here (inside a b.ptr b.usable) (protect prot_read s) s out
    untouched as_none = not_here (inside a b.ptr b.usable) (protect prot_none s) s out

abbrev pub Held : Prot → Byte → Type 0
Held p s = (s ≡ clean p) ⊎ (s ≡ secret p)

store-Held : (p : Prot) (s : Byte) → Held p s → Held p (store s)
store-Held prot_none s (inl e) = inl (ap store e)
store-Held prot_read s (inl e) = inl (ap store e)
store-Held prot_read_write s (inl e) = inr (ap store e)
store-Held p s (inr e) = inr (ap store e)

protect-Held : (p q : Prot) (s : Byte) → Held p s → Held q (protect q s)
protect-Held p q s (inl e) = inl (ap (protect q) e)
protect-Held p q s (inr e) = inr (ap (protect q) e)

if_store-Held : (b : Bool) (p : Prot) (s : Byte) → Held p s → Held p (if b then store s else s)
if_store-Held true p s h = store-Held p s h
if_store-Held false p s h = h

if_protect-Held :
    (b : Bool) (p q : Prot) (s : Byte) → b ≡ true → Held p s → Held q (if b then protect q s else s)
if_protect-Held true p q s at h = protect-Held p q s h
if_protect-Held false p q s at h = cc

pub uses-inside :
    (a : ℕ) (b : SecBuf) (uses : List Use) (p : Prot) (s : Byte)
    → inside a b.ptr b.usable ≡ true
    → Held p s
    → Held (last_lock uses p) (byte_after a (uses_of b uses) s)
uses-inside a b [] p s at h = h
uses-inside a b (copy n ∷ uses) p s at h =
    uses-inside a b uses p _ at (if_store-Held (inside a b.ptr n) p s h)
uses-inside a b (as_ro ∷ uses) p s at h =
    uses-inside a b uses prot_read _ at (if_protect-Held _ p prot_read s at h)
uses-inside a b (as_none ∷ uses) p s at h =
    uses-inside a b uses prot_none _ at (if_protect-Held _ p prot_none s at h)

pub inside-within : (a x len : ℕ) → x ≤ a → a < x + len → inside a x len ≡ true
inside-within a x len low high = ground arith

pub inside-before : (a x len : ℕ) → a < x → inside a x len ≡ false
inside-before a x len low = ground arith

pub inside-past : (a x len : ℕ) → x + len ≤ a → inside a x len ≡ false
inside-past a x len high = ground arith
