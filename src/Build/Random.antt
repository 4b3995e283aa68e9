-- ===== src/Build/Random.antt =====
-- build.rs, what the build gives to the crates that ask for random numbers: `TryRng` of `Rng` and of
-- `SysRng`, whose errors are of a type without values, and `build_seed`. The bytes of `getrandom` are an
-- argument, `none` when it fails.
use hello_old.Base.{
  ℕ, ◌%◌, ◌^◌, ◌<◌, ◌≡◌, List, Option, none, some, Checked, panic, value, All, IsByte, take,
  from_le_bytes, refl,
}
use hello_old.Vm.Bounds.{from_le_bytes-lt}
use hello_old.Build.Rng.{Rng, next_u64, fill}

unfoldable pub try_next_u32 : Rng → ℕ × Rng
try_next_u32 r = let (x, r') = next_u64 r in (x % 2 ^ 32, r')

abbrev pub try_next_u64 : Rng → ℕ × Rng
try_next_u64 r = next_u64 r

abbrev pub try_fill_bytes : ℕ → Rng → List ℕ × Rng
try_fill_bytes len r = fill len r

-- `SysRng`: `getrandom` of 4, of 8 and of as many bytes as are asked for.
unfoldable pub sys_next_u32 : Option (List ℕ) → Checked ℕ
sys_next_u32 none = panic
sys_next_u32 (some b) = value (from_le_bytes b)

unfoldable pub sys_next_u64 : Option (List ℕ) → Checked ℕ
sys_next_u64 none = panic
sys_next_u64 (some b) = value (from_le_bytes b)

unfoldable pub sys_fill_bytes : Option (List ℕ) → Checked (List ℕ)
sys_fill_bytes none = panic
sys_fill_bytes (some dst) = value dst

-- The first 8 of 32 bytes.
unfoldable pub build_seed : Option (List ℕ) → Checked ℕ
build_seed none = panic
build_seed (some seed) = value (from_le_bytes (take 8 seed))

-- Whatever bytes the system gives, the seed fits 64 bits.
pub build_seed-IsU64 :
    (seed : List ℕ) → All IsByte seed → (x : ℕ) × (build_seed (some seed) ≡ value x) × (x < 2 ^ 64)
unfolding build_seed
build_seed-IsU64 seed h = (from_le_bytes (take 8 seed), refl, from_le_bytes-lt 8 seed h)
