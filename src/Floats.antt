-- ===== src/Floats.antt =====
-- Floating point as the sources use it: a type with its operations, a parameter of the models.
-- `float` and `double` are one type here, and conversions between them are not written.
use icecream.Base.{ℕ, Bool}
use icecream.Base.Int.{ℤ}

pub record Floats : Type 1 where
  pub F : Type 0
  pub of_int : ℤ → F
  -- A literal, as a fraction: 1.2 is `lit (pos 12) 10`.
  pub lit : ℤ → ℕ → F
  pub add : F → F → F
  pub sub : F → F → F
  pub mul : F → F → F
  pub div : F → F → F
  pub lt : F → F → Bool
  pub le : F → F → Bool
  -- `(unsigned long) x`
  pub to_ulong : F → ℕ
