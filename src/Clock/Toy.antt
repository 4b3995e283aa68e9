-- ===== src/Clock/Toy.antt =====
-- Numbers in place of the f64 of src/ntp.rs, for the tests.
use hello_old.Base.{ℕ, ◌+◌, ◌-◌, ◌*◌, ◌/◌, ltb, arith}
use hello_old.Clock.Ntp.{F64}
use hello_old.Clock.Sorting.{Orders}

-- Natural numbers in place of f64.
abbrev pub naturals : F64
naturals = record {
  Number = ℕ;
  of_u64 = λ n. n;
  one_half = 0;
  add = λ a b. a + b;
  sub = λ a b. a - b;
  mul = λ a b. a * b;
  div = λ a b. a / b;
  abs = λ a. a;
  floor_u64 = λ a. a;
  lt = ltb;
  limit = 10;
}

pub naturals-Orders : Orders naturals
naturals-Orders = record {
  asymmetric = λ a b h. ground arith;
  transitive = λ a b c sa sb sc h k. ground arith;
}
