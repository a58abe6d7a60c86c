-- ===== src/ConstFold/Doubles.antt =====
-- Arithmetic on doubles, which are given by their 64 bits. The operations of the machine are
-- parameters; whether a double is infinite or not a number is read from its bits.
use sage_tree.Base.{ℕ, ◌%◌, ◌^◌, ◌*◌, Bool, ltb, ◌==◌}
use sage_tree.Base.Int.{ℤ}

pub record Doubles : Type 0 where
  pub add : ℕ → ℕ → ℕ
  pub sub : ℕ → ℕ → ℕ
  pub mul : ℕ → ℕ → ℕ
  pub div : ℕ → ℕ → ℕ
  pub fmod : ℕ → ℕ → ℕ
  pub less : ℕ → ℕ → Bool
  pub less_equal : ℕ → ℕ → Bool
  pub equal : ℕ → ℕ → Bool
  -- The conversion to an `int`.
  pub to_int : ℕ → ℤ

-- The bits of infinity.
abbrev infinity : ℕ
infinity = 2047 * 2 ^ 52

abbrev pub isinf : ℕ → Bool
isinf x = (x % 2 ^ 63) == infinity

abbrev pub isnan : ℕ → Bool
isnan x = ltb infinity (x % 2 ^ 63)
