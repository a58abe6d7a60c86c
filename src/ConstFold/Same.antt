-- ===== src/ConstFold/Same.antt =====
-- When two expressions mean the same, by what the interpreter computes for literals, and which
-- operators have the text of their type, as those of the lexer have.
use sage_tree.Base.{ℕ, ◌≡◌, List, [], ◌∷◌, ◌&&◌, Option, none, some, Bytes, ◌==◌, if◌then◌else◌}
use sage_tree.Lexer.Token.{
  TokenType, and_kw, or_kw, plus, minus, star, slash, percent, equal, not_equal, less, greater,
  less_equal, greater_equal,
}
use sage_tree.Ast.{
  Expr, Exprs, Operator, binary, call, array, index, dict, tuple, slice, get, set, index_set,
  no_exprs, exprs,
}
use sage_tree.ConstFold.Doubles.{Doubles}
use sage_tree.ConstFold.Value.{Value, eval_literal, eval_binary}

abbrev pub char_operator : ℕ → Option TokenType
char_operator c =
    if c == b'+'
    then some plus
    else if c == b'-'
    then some minus
    else if c == b'*'
    then some star
    else if c == b'/'
    then some slash
    else if c == b'%'
    then some percent
    else if c == b'<'
    then some less
    else if c == b'>'
    then some greater
    else none

abbrev pub chars_operator : ℕ → ℕ → Option TokenType
chars_operator c d =
    if (c == b'=') && (d == b'=')
    then some equal
    else if (c == b'!') && (d == b'=')
    then some not_equal
    else if (c == b'<') && (d == b'=')
    then some less_equal
    else if (c == b'>') && (d == b'=')
    then some greater_equal
    else none

-- The operator that a text is.
unfoldable pub operator_of : Bytes → Option TokenType
operator_of (c ∷ []) = char_operator c
operator_of (c ∷ d ∷ []) = if (c == b'o') && (d == b'r') then some or_kw else chars_operator c d
operator_of (c ∷ d ∷ e ∷ []) =
    if (c == b'a') && ((d == b'n') && (e == b'd')) then some and_kw else none
operator_of _ = none

abbrev pub Spelled : Operator → Type 0
Spelled op = (type : TokenType) → operator_of op.text ≡ some type → op.type ≡ type

-- All the operators at which the pass arrives have the text of their type.
abbrev mutual
  pub AllSpelled : Expr → Type 0
  AllSpelled (binary op l r) = Spelled op × AllSpelled l × AllSpelled r
  AllSpelled (call callee args) = AllSpelled callee × EachSpelled args
  AllSpelled (array elements) = EachSpelled elements
  AllSpelled (index a i) = AllSpelled a × AllSpelled i
  AllSpelled (index_set a i value) = AllSpelled a × AllSpelled i × AllSpelled value
  AllSpelled (dict keys values) = EachSpelled values
  AllSpelled (tuple elements) = EachSpelled elements
  AllSpelled (slice a from to) = AllSpelled a × AllSpelled from × AllSpelled to
  AllSpelled (get object property) = AllSpelled object
  AllSpelled (set object property value) = AllSpelled object × AllSpelled value
  AllSpelled e = Unit

  pub EachSpelled : Exprs → Type 0
  EachSpelled no_exprs = Unit
  EachSpelled (exprs e es) = AllSpelled e × EachSpelled es

module _ (f : Doubles) where
  -- The operator gives the value of the literal `e`.
  abbrev pub Computes : TokenType → Value → Value → Expr → Type 0
  Computes type a b e = (v : Value) × (eval_binary f type a b ≡ some v) × (eval_literal e ≡ some v)

  -- One expression becomes the other when operators on literals are replaced by the literal of
  -- the value that the interpreter computes.
  mutual
    pub data Same : Expr → Expr → Type 0 where
      same : (e : Expr) → Same e e
      computed :
          (op : Operator) {l r l' r' e : Expr} {a b v : Value}
          → Same l l'
          → Same r r'
          → eval_literal l' ≡ some a
          → eval_literal r' ≡ some b
          → eval_binary f op.type a b ≡ some v
          → eval_literal e ≡ some v
          → Same (binary op l r) e
      in_binary :
          (op : Operator) {l r l' r' : Expr}
          → Same l l'
          → Same r r'
          → Same (binary op l r) (binary op l' r')
      in_call :
          {c c' : Expr} {es es' : Exprs} → Same c c' → Sames es es' → Same (call c es) (call c' es')
      in_array : {es es' : Exprs} → Sames es es' → Same (array es) (array es')
      in_index : {a i a' i' : Expr} → Same a a' → Same i i' → Same (index a i) (index a' i')
      in_index_set :
          {a i v a' i' v' : Expr}
          → Same a a'
          → Same i i'
          → Same v v'
          → Same (index_set a i v) (index_set a' i' v')
      in_dict :
          (keys : List Bytes) {es es' : Exprs} → Sames es es' → Same (dict keys es) (dict keys es')
      in_tuple : {es es' : Exprs} → Sames es es' → Same (tuple es) (tuple es')
      in_slice :
          {a i j a' i' j' : Expr}
          → Same a a'
          → Same i i'
          → Same j j'
          → Same (slice a i j) (slice a' i' j')
      in_get : {o o' : Expr} (p : Bytes) → Same o o' → Same (get o p) (get o' p)
      in_set :
          {o v o' v' : Expr} (p : Bytes) → Same o o' → Same v v' → Same (set o p v) (set o' p v')

    pub data Sames : Exprs → Exprs → Type 0 where
      no_more : Sames no_exprs no_exprs
      both :
          {e e' : Expr} {es es' : Exprs}
          → Same e e'
          → Sames es es'
          → Sames (exprs e es) (exprs e' es')
