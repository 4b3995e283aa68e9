-- ===== src/Archive/Memory/Tests.antt =====
-- Buffers of some sizes, byte by byte.
use hello_old.Base.{◌≡◌, refl, true, false, List, [], ◌∷◌, ◌++◌, none, some}
use hello_old.Archive.Buffer.{usable, total}
use hello_old.Archive.Memory.{
  prot_read, prot_read_write, SecBuf, new, drop, Use, copy, as_ro, as_none, uses_of,
}
use hello_old.Archive.Memory.Trace.{unmapped, byte_after, prot_of, last_lock, layout, secret}
use hello_old.Archive.Memory.Guards.{new-drop}

-- The key is written, made read-only, and locked at the end.
abbrev key_uses : List Use
key_uses = copy 64 ∷ as_ro ∷ as_none ∷ []

abbrev key_buffer : SecBuf
key_buffer = record { base = 65536; ptr = 69632; usable = 4096; total = 12288 }

-- A byte of the key holds something until the buffer is dropped.
holds :
    byte_after 69650
      ((new 64 (some 65536) true).0 ++ uses_of key_buffer (copy 64 ∷ as_ro ∷ []))
      unmapped
    ≡ secret prot_read
unfolding new usable total
holds = refl

no_mapping : new 64 none true ≡ ([], none)
unfolding new
no_mapping = refl

new-drop_example :
    (b : SecBuf) × ((new 64 (some 65536) true).1 ≡ some b)
    × (prot_of (byte_after 69650 ((new 64 (some 65536) true).0 ++ uses_of b key_uses) unmapped)
        ≡ layout 65536 (usable 64) (last_lock key_uses prot_read_write) 69650)
    × (byte_after 69650 ((new 64 (some 65536) true).0 ++ (uses_of b key_uses ++ drop b)) unmapped
        ≡ unmapped)
    × ((new 64 (some 65536) false).1 ≡ none)
    × (byte_after 69650 (new 64 (some 65536) false).0 unmapped ≡ unmapped)
new-drop_example = new-drop 64 65536 69650 key_uses
