-- ===== src/Build/Fill.antt =====
-- build.rs, `Rng::fill`: it writes every byte of the slice.
use hello_old.Base.{
  All-append, ℕ, zero, suc, ◌-◌, ◌/◌, ◌≤◌, ◌≡◌, sym, arith, false, Bool-cases, inl, inr, ◌==◌,
  ==_iff, min, length, take, All, IsByte, length-take, length-append, to_le_bytes,
}
use hello_old.Build.Rng.{Rng, next_u64, fill_loop, fill}
use hello_old.Vm.Bounds.{All-take}

pub length-to_le_bytes : (n x : ℕ) → length (to_le_bytes n x) ≡ n
length-to_le_bytes zero x = omega arith
length-to_le_bytes (suc n) x = omega (arith, length-to_le_bytes n (x / 256))

pub to_le_bytes-IsByte : (n x : ℕ) → All IsByte (to_le_bytes n x)
to_le_bytes-IsByte zero x = tt
to_le_bytes-IsByte (suc n) x = (omega arith, to_le_bytes-IsByte n (x / 256))

round : (left fuel : ℕ) → left ≤ suc fuel → (left == 0) ≡ false → left - min left 8 ≤ fuel
round left fuel h more = ground arith

length-fill_loop : (fuel left : ℕ) (r : Rng) → left ≤ fuel → length (fill_loop fuel left r).0 ≡ left
unfolding fill_loop
length-fill_loop zero left r h = omega arith
length-fill_loop (suc fuel) left r h = elim (Bool-cases (left == 0)) [
  | inl done ↦ let empty = (==_iff left 0).0 done in rw (length, fill_loop, done) (sym empty)
  | inr more ↦
      let x = next_u64 r in
      let n = min left 8 in
      rw (fill_loop, more)
        (omega (
          arith,
          length-append (take n (to_le_bytes 8 x.0)) (fill_loop fuel (left - n) x.1).0,
          length-take n (to_le_bytes 8 x.0),
          length-to_le_bytes 8 x.0,
          length-fill_loop fuel (left - n) x.1 (round left fuel h more),
        ))
]

fill_loop-IsByte : (fuel left : ℕ) (r : Rng) → All IsByte (fill_loop fuel left r).0
unfolding fill_loop
fill_loop-IsByte zero left r = tt
fill_loop-IsByte (suc fuel) left r = elim (Bool-cases (left == 0)) [
  | inl done ↦ rw (fill_loop, done) tt
  | inr more ↦
      let x = next_u64 r in
      let n = min left 8 in
      rw (fill_loop, more)
        (All-append IsByte (take n (to_le_bytes 8 x.0)) (fill_loop fuel (left - n) x.1).0
          (All-take IsByte n (to_le_bytes 8 x.0) (to_le_bytes-IsByte 8 x.0))
          (fill_loop-IsByte fuel (left - n) x.1))
]

-- `fill` ends with exactly as many bytes written as the slice has.
pub length-fill : (len : ℕ) (r : Rng) → length (fill len r).0 ≡ len
unfolding fill
length-fill len r = length-fill_loop len len r (omega arith)

pub fill-IsByte : (len : ℕ) (r : Rng) → All IsByte (fill len r).0
unfolding fill
fill-IsByte len r = fill_loop-IsByte len len r
