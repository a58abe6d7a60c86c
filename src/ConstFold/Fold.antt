-- ===== src/ConstFold/Fold.antt =====
-- `fold_binary` and `fold_expr` of src/constfold.c.
use sage_tree.Base.{
  ℕ, ◌+◌, Bool, not, ◌&&◌, ◌||◌, [], ◌∷◌, ◌++◌, Option, none, some, Bytes, length, ltb, ◌==◌,
  if◌then◌else◌,
}
use sage_tree.Ast.{
  Expr, Exprs, Operator, number, string, boolean, binary, call, array, index, dict, tuple, slice,
  get, set, index_set, no_exprs, exprs,
}
use sage_tree.ConstFold.Doubles.{Doubles, isinf, isnan}

-- A result that is infinite or not a number is left to the run of the program.
abbrev pub finite : ℕ → Option Expr
finite x = if isinf x || isnan x then none else some (number x)

-- The boolean case: `and` and `or`.
unfoldable pub fold_booleans : Bytes → Bool → Bool → Option Expr
fold_booleans (c ∷ d ∷ e ∷ []) l r =
    if (c == b'a') && ((d == b'n') && (e == b'd')) then some (boolean (l && r)) else none
fold_booleans (c ∷ d ∷ []) l r =
    if (c == b'o') && (d == b'r') then some (boolean (l || r)) else none
fold_booleans _ l r = none

abbrev pub join_strings : Bytes → Bytes → Option Expr
join_strings l r = if ltb 65536 (length l + length r) then none else some (string (l ++ r))

unfoldable pub fold_strings : Bytes → Bytes → Bytes → Option Expr
fold_strings (c ∷ []) l r = if c == b'+' then join_strings l r else none
fold_strings _ l r = none

module _ (f : Doubles) where
  -- The operators of one character on numbers.
  unfoldable pub fold_char : ℕ → ℕ → ℕ → Option Expr
  fold_char c l r =
      if c == b'+'
      then finite (f.add l r)
      else if c == b'-'
      then finite (f.sub l r)
      else if c == b'*'
      then finite (f.mul l r)
      else if c == b'/'
      then if f.equal r 0 then none else finite (f.div l r)
      else if c == b'%'
      then if f.equal r 0 then none else finite (f.fmod l r)
      else if c == b'<'
      then some (boolean (f.less l r))
      else if c == b'>'
      then some (boolean (f.less r l))
      else none

  -- The operators of two characters on numbers.
  unfoldable pub fold_chars : ℕ → ℕ → ℕ → ℕ → Option Expr
  fold_chars c d l r =
      if (c == b'=') && (d == b'=')
      then some (boolean (f.equal l r))
      else if (c == b'!') && (d == b'=')
      then some (boolean (not (f.equal l r)))
      else if (c == b'<') && (d == b'=')
      then some (boolean (f.less_equal l r))
      else if (c == b'>') && (d == b'=')
      then some (boolean (f.less_equal r l))
      else none

  unfoldable pub fold_numbers : Bytes → ℕ → ℕ → Option Expr
  fold_numbers (c ∷ []) l r = fold_char c l r
  fold_numbers (c ∷ d ∷ []) l r = fold_chars c d l r
  fold_numbers _ l r = none

  -- The literal that replaces an operator on two folded operands, if one does.
  unfoldable pub fold_literals : Bytes → Expr → Expr → Option Expr
  fold_literals op (number l) (number r) = fold_numbers op l r
  fold_literals op (string l) (string r) = fold_strings op l r
  fold_literals op (boolean l) (boolean r) = fold_booleans op l r
  fold_literals op _ _ = none

  -- `fold_binary`, once its operands are folded.
  unfoldable pub fold_binary : Operator → Expr → Expr → Expr
  fold_binary op l r = elim (fold_literals op.text l r) [ some e ↦ e | none ↦ binary op l r ]

  unfoldable mutual
    pub fold_expr : Expr → Expr
    fold_expr (binary op l r) = fold_binary op (fold_expr l) (fold_expr r)
    fold_expr (call callee args) = call (fold_expr callee) (fold_exprs args)
    fold_expr (array elements) = array (fold_exprs elements)
    fold_expr (index a i) = index (fold_expr a) (fold_expr i)
    fold_expr (index_set a i value) = index_set (fold_expr a) (fold_expr i) (fold_expr value)
    fold_expr (dict keys values) = dict keys (fold_exprs values)
    fold_expr (tuple elements) = tuple (fold_exprs elements)
    fold_expr (slice a from to) = slice (fold_expr a) (fold_expr from) (fold_expr to)
    fold_expr (get object property) = get (fold_expr object) property
    fold_expr (set object property value) = set (fold_expr object) property (fold_expr value)
    fold_expr e = e

    -- The loops over the elements of an array.
    pub fold_exprs : Exprs → Exprs
    fold_exprs no_exprs = no_exprs
    fold_exprs (exprs e es) = exprs (fold_expr e) (fold_exprs es)
