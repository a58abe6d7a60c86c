-- ===== src/ConstFold/Whole.antt =====
-- Whole numbers in the place of doubles, for the tests of the passes.
use sage_tree.Base.{◌+◌, ◌-◌, ◌*◌, ltb, leb, ◌==◌}
use sage_tree.Base.Int.{pos}
use sage_tree.ConstFold.Doubles.{Doubles}

abbrev pub whole : Doubles
whole = record {
  add = λ a b. a + b;
  sub = λ a b. a - b;
  mul = λ a b. a * b;
  div = λ a b. a;
  fmod = λ a b. 0;
  less = ltb;
  less_equal = leb;
  equal = λ a b. a == b;
  to_int = pos;
}
