-- ===== src/Floats.antt =====
-- Go's float64, which has no counterpart here: its type and the operations that the code uses on it
-- are a parameter of the definitions. `format` is fmt's %v, `parse` is strconv.ParseFloat with none
-- for an error, and `truncate` is the conversion to int.
use knirvbase.Base.{String, Bool, Option, ℕ}
use knirvbase.Base.Int.{ℤ}

pub record Floats : Type 1 where
  pub Float : Type 0
  pub of_int : ℤ → Float
  -- the literal that stands for the first number divided by the second
  pub literal : ℕ → ℕ → Float
  pub add : Float → Float → Float
  pub mul : Float → Float → Float
  pub div : Float → Float → Float
  pub less : Float → Float → Bool
  pub is_zero : Float → Bool
  pub truncate : Float → ℤ
  pub format : Float → String
  pub parse : String → Option Float
