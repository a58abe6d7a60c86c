-- ===== src/ConstFold/Value.antt =====
-- The operators of src/interpreter.c (`eval_binary`) on the values of literals: `is_truthy`,
-- `values_equal` (src/value.c), `sage_add` and its like (include/value.h). Integers and objects are
-- left out; `none` is a result that is an integer. A message is left out.
use sage_tree.Base.{
  ℕ, zero, suc, Bool, true, false, not, [], ◌∷◌, ◌++◌, Option, none, some, Bytes, ltb, ◌==◌,
  bytes_eq, if◌then◌else◌,
}
use sage_tree.Base.Int.{ℤ, pos, negsuc}
use sage_tree.Lexer.Token.{
  TokenType, not_kw, and_kw, or_kw, plus, minus, star, slash, percent, equal, not_equal, less,
  greater, less_equal, greater_equal, amp, pipe, caret, tilde, lshift, rshift,
}
use sage_tree.Ast.{Expr, number, string, boolean, nil}
use sage_tree.ConstFold.Doubles.{Doubles}

pub data Value : Type 0 where
  val_nil : Value
  val_bool : Bool → Value
  val_number : ℕ → Value
  val_string : Bytes → Value

-- `eval_expr` on a literal.
unfoldable pub eval_literal : Expr → Option Value
eval_literal (number x) = some (val_number x)
eval_literal (string s) = some (val_string s)
eval_literal (boolean b) = some (val_bool b)
eval_literal nil = some val_nil
eval_literal _ = none

-- `strcmp(a, b) < 0`
abbrev pub strcmp_less : Bytes → Bytes → Bool
strcmp_less a [] = false
strcmp_less [] (d ∷ b) = true
strcmp_less (c ∷ a) (d ∷ b) = if c == d then strcmp_less a b else ltb c d

abbrev bool_equal : Bool → Bool → Bool
bool_equal true b = b
bool_equal false b = not b

-- The loop that repeats a string.
unfoldable pub repeat : ℕ → Bytes → Bytes
repeat zero s = []
repeat (suc n) s = s ++ repeat n s

abbrev repeat_int : ℤ → Bytes → Bytes
repeat_int (pos n) s = repeat n s
repeat_int (negsuc n) s = []

module _ (f : Doubles) where
  unfoldable pub is_truthy : Value → Bool
  is_truthy val_nil = false
  is_truthy (val_bool b) = b
  is_truthy (val_number x) = not (f.equal x 0)
  is_truthy (val_string []) = false
  is_truthy (val_string (c ∷ s)) = true

  unfoldable pub values_equal : Value → Value → Bool
  values_equal (val_number a) (val_number b) = f.equal a b
  values_equal (val_bool a) (val_bool b) = bool_equal a b
  values_equal val_nil val_nil = true
  values_equal (val_string a) (val_string b) = bytes_eq a b
  values_equal _ _ = false

  -- The comparisons, from the test on numbers and the one on strings.
  unfoldable pub compare_values : (ℕ → ℕ → Bool) → (Bytes → Bytes → Bool) → Value → Value → Value
  compare_values numbers strings (val_number a) (val_number b) = val_bool (numbers a b)
  compare_values numbers strings (val_string a) (val_string b) = val_bool (strings a b)
  compare_values numbers strings _ _ = val_nil

  -- An operator that is defined on numbers only.
  unfoldable pub on_numbers : (ℕ → ℕ → ℕ) → Value → Value → Value
  on_numbers op (val_number a) (val_number b) = val_number (op a b)
  on_numbers op _ _ = val_nil

  -- `/` and `%`, with the check for a zero.
  unfoldable pub divide : (ℕ → ℕ → ℕ) → Value → Value → Value
  divide op (val_number a) (val_number b) = if f.equal b 0 then val_nil else val_number (op a b)
  divide op _ _ = val_nil

  unfoldable pub plus_values : Value → Value → Value
  plus_values (val_number a) (val_number b) = val_number (f.add a b)
  plus_values (val_string a) (val_string b) = val_string (a ++ b)
  plus_values (val_string a) (val_number n) = val_string (repeat_int (f.to_int n) a)
  plus_values _ _ = val_nil

  unfoldable pub star_values : Value → Value → Value
  star_values (val_number a) (val_number b) = val_number (f.mul a b)
  star_values (val_string a) (val_number n) = val_string (repeat_int (f.to_int n) a)
  star_values (val_number n) (val_string a) = val_string (repeat_int (f.to_int n) a)
  star_values _ _ = val_nil

  -- The operators on bits, whose result for numbers is an integer.
  unfoldable pub on_bits : Value → Value → Option Value
  on_bits (val_number a) (val_number b) = none
  on_bits _ _ = some val_nil

  -- `~`, whose right operand is not there.
  unfoldable pub flip_bits : Value → Option Value
  flip_bits (val_number a) = none
  flip_bits _ = some val_nil

  -- `eval_binary` on the values of its operands.
  unfoldable pub eval_binary : TokenType → Value → Value → Option Value
  eval_binary not_kw left right = some (val_bool (not (is_truthy left)))
  eval_binary or_kw left right = some (val_bool (if is_truthy left then true else is_truthy right))
  eval_binary and_kw left right =
      some (val_bool (if is_truthy left then is_truthy right else false))
  eval_binary equal left right = some (val_bool (values_equal left right))
  eval_binary not_equal left right = some (val_bool (not (values_equal left right)))
  eval_binary greater left right =
      some (compare_values (λ a b. f.less b a) (λ a b. strcmp_less b a) left right)
  eval_binary less left right = some (compare_values f.less strcmp_less left right)
  eval_binary greater_equal left right =
      some (compare_values (λ a b. f.less_equal b a) (λ a b. not (strcmp_less a b)) left right)
  eval_binary less_equal left right =
      some (compare_values f.less_equal (λ a b. not (strcmp_less b a)) left right)
  eval_binary plus left right = some (plus_values left right)
  eval_binary minus left right = some (on_numbers f.sub left right)
  eval_binary star left right = some (star_values left right)
  eval_binary slash left right = some (divide f.div left right)
  eval_binary percent left right = some (divide f.fmod left right)
  eval_binary tilde left right = flip_bits left
  eval_binary amp left right = on_bits left right
  eval_binary pipe left right = on_bits left right
  eval_binary caret left right = on_bits left right
  eval_binary lshift left right = on_bits left right
  eval_binary rshift left right = on_bits left right
  eval_binary _ left right = some val_nil
