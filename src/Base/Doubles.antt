-- ===== src/Base/Doubles.antt =====
-- `double` and what the program does with it: the language has no floats, so the type and its
-- operations are a parameter. No law of them is assumed.
use Prim.Native.Nat.{ℕ}
use mathlib.Core.Bool.{Bool}
use mathlib.Core.Option.{Option}
use mathlib.Core.List.{List}

pub record Floats (D : Type 0) : Type 0 where
  -- `literal m k` is the value of the source's literal m / 10 ^ k.
  pub literal : ℕ → ℕ → D
  pub negate : D → D
  -- `a > b`
  pub greater : D → D → Bool
  -- `std::stod`; none where it throws.
  pub stod : List ℕ → Option D
