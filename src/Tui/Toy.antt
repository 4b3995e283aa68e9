-- ===== src/Tui/Toy.antt =====
-- Numbers in place of the f32 of src/tui.rs, for the tests.
use hello_old.Base.{ℕ, ◌+◌, ◌*◌, ◌/◌, ◌-◌, min, decimal}
use hello_old.Tui.Panel.{F32}

-- Thousandths in place of f32.
abbrev pub thousandths : F32
thousandths = record {
  Number = ℕ;
  of_usize = λ n. n * 1000;
  add = λ a b. a + b;
  sub = λ a b. a - b;
  mul = λ a b. a * b / 1000;
  div = λ a b. a * 1000 / b;
  clamp_unit = λ a. min a 1000;
  to_usize = λ a. a / 1000;
  one_decimal = λ a. decimal (a / 1000);
}
