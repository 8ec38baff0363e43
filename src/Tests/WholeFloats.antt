-- ===== src/Tests/WholeFloats.antt =====
-- Whole numbers in place of float64, so that the code runs in the tests.
use knirvbase.Base.{ℕ, ◌+◌, ◌*◌, ◌/◌, none, ltb, eqb}
use knirvbase.Base.Int.{pos, pos_part}
use knirvbase.Floats.{Floats}
use knirvbase.Value.Print.{decimal}

abbrev pub whole : Floats
whole = record {
  Float = ℕ;
  of_int = pos_part;
  literal = λ a b. a / b;
  add = λ a b. a + b;
  mul = λ a b. a * b;
  div = λ a b. a / b;
  less = ltb;
  is_zero = λ a. eqb a 0;
  truncate = pos;
  format = decimal 20;
  parse = λ s. none;
}
