-- ===== src/Crypto/Flush.antt =====
-- src/crypto.rs, `flush_mem` and `burn_cycles`, and `timing_equalize` of src/main.rs. What is modelled
-- of a flush is the list of the addresses that are given to `_mm_clflush`, on a machine of 64 bits.
use hello_old.Base.{
  ℕ, zero, suc, ◌+◌, ◌-◌, ◌*◌, ◌/◌, ◌%◌, ◌^◌, ◌≤◌, ◌<◌, ◌≡◌, refl, arith, Bool, true, false, List,
  [], ◌∷◌, ◌++◌, ◌==◌, ◌||◌, ltb, leb, leb→le, lt→ltb, if◌then◌else◌, min, bit_xor, bit_or,
  wrapping_add, wrapping_mul, u64, u8,
}
use mathlib.Core.List.{Memᴰ}

abbrev pub saturating_add : ℕ → ℕ → ℕ
saturating_add a b = min (a + b) (2 ^ 64 - 1)

abbrev pub line : ℕ
line = 64

-- The loop from the address `a`, on fuel.
unfoldable pub flush_loop : ℕ → ℕ → ℕ → List ℕ
flush_loop zero a end = []
flush_loop (suc fuel) a end =
    let rest = flush_loop fuel (saturating_add a line) end in if ltb a end then a ∷ rest else []

-- Every round goes on by a byte at least, so that `len` rounds are enough.
unfoldable pub flush_mem : ℕ → ℕ → List ℕ
flush_mem ptr len = if len == 0 || ptr == 0 then [] else flush_loop len ptr (saturating_add ptr len)

abbrev pub rotate_left_17 : ℕ → ℕ
rotate_left_17 x = bit_or (u64 (x * 2 ^ 17)) (x / 2 ^ 47)

unfoldable pub burn_loop : ℕ → ℕ → ℕ
burn_loop zero acc = acc
burn_loop (suc i) acc =
    let x = wrapping_add (wrapping_mul acc 6364136223846793005) 1442695040888963407 in
    burn_loop i (bit_xor (rotate_left_17 x) x)

unfoldable pub burn_cycles : ℕ → ℕ
burn_cycles rounds = burn_loop rounds 0x9e3779b97f4a7c15

-- The bytes that `timing_equalize` writes into one chunk.
unfoldable pub chunk_bytes : ℕ → ℕ → List ℕ
chunk_bytes zero acc = []
chunk_bytes (suc n) acc =
    let acc' = wrapping_add (wrapping_mul acc 6364136223846793005) 1 in
    u8 (acc' / 2 ^ 56) ∷ chunk_bytes n acc'

unfoldable pub scratch : ℕ → List ℕ
scratch zero = []
scratch (suc chunks) = chunk_bytes 16 0x243f6a8885a308d3 ++ scratch chunks

-- What `timing_equalize` does, in its order: rounds of `burn_cycles`, bytes written to its buffer, lines
-- flushed, and the bytes that are zero in the end.
pub data Work : Type 0 where
  burned : ℕ → Work
  written : List ℕ → Work
  flushed : List ℕ → Work
  zeroed : ℕ → Work

-- The buffer has 128 bytes and begins at `ptr`.
unfoldable pub timing_equalize : ℕ → List Work
timing_equalize ptr =
    burned 8000000 ∷ written (scratch 8) ∷ flushed (flush_mem ptr 128) ∷ zeroed 128 ∷ []

flush_loop-line :
    (fuel a end b : ℕ)
    → a % 64 ≡ 0
    → end < 2 ^ 64
    → end ≤ a + fuel
    → a ≤ b
    → b < end
    → (x : ℕ) × Memᴰ x (flush_loop fuel a end) × (x / 64 ≡ b / 64)
unfolding flush_loop
flush_loop-line zero a end b whole fits enough from to = absurd (omega arith)
flush_loop-line (suc fuel) a end b whole fits enough from to =
    let inside : ltb a end ≡ true = lt→ltb a end (omega arith) in
    rw inside (
      near_or_far (leb (a + 64) b) refl (λ beyond.
        let later = leb→le (a + 64) b beyond in
        let next : saturating_add a line ≡ a + 64 = omega (arith, later) in
        rw next (flush_loop-line fuel (a + 64) end b (omega arith) fits (omega arith) later to)))
  where
    same_line : (a b : ℕ) → a % 64 ≡ 0 → a ≤ b → leb (a + 64) b ≡ false → a / 64 ≡ b / 64
    same_line a b whole from here = ground arith

    near_or_far :
        {rest : List ℕ} (far : Bool)
        → leb (a + 64) b ≡ far
        → (leb (a + 64) b ≡ true → (x : ℕ) × Memᴰ x rest × (x / 64 ≡ b / 64))
        → (x : ℕ) × Memᴰ x (a ∷ rest) × (x / 64 ≡ b / 64)
    near_or_far true e later = let (x, found, same) = later e in (x, Memᴰ.tail found, same)
    near_or_far false e later = (a, Memᴰ.head refl, same_line a b whole from e)

-- When a buffer begins at a multiple of 64 and does not reach the end of the address space, every byte
-- of it is in a line of 64 bytes that is flushed.
pub flush_mem-line :
    (ptr len b : ℕ)
    → 1 ≤ ptr
    → ptr % 64 ≡ 0
    → ptr + len < 2 ^ 64
    → ptr ≤ b
    → b < ptr + len
    → (x : ℕ) × Memᴰ x (flush_mem ptr len) × (x / 64 ≡ b / 64)
unfolding flush_mem
flush_mem-line ptr len b some_ptr whole fits from to =
    let goes : (len == 0 || ptr == 0) ≡ false = ground arith in
    let ends : saturating_add ptr len ≡ ptr + len = omega arith in
    rw (goes, ends) (flush_loop-line len ptr (ptr + len) b whole fits (omega arith) from to)
