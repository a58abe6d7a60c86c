-- ===== src/ConstFold/Preserves.antt =====
-- The pass on expressions keeps what they mean.
use sage_tree.Base.{◌≡◌, refl, some, inl, inr, Option-cases}
use sage_tree.Ast.{
  Expr, Exprs, Operator, number, string, boolean, binary, call, array, index, dict, tuple, slice,
  get, set, index_set, no_exprs, exprs,
}
use sage_tree.ConstFold.Doubles.{Doubles}
use sage_tree.ConstFold.Value.{Value, val_bool, val_number, val_string, eval_literal}
use sage_tree.ConstFold.Fold.{fold_literals, fold_binary, fold_expr, fold_exprs}
use sage_tree.ConstFold.Same.{
  Same, Sames, same, computed, in_binary, in_call, in_array, in_index, in_index_set, in_dict,
  in_tuple, in_slice, in_get, in_set, no_more, both, Spelled, AllSpelled, EachSpelled, operator_of,
}
use sage_tree.ConstFold.Literals.{
  Meets, fold_numbers-Meets, fold_strings-Meets, fold_booleans-Meets,
}

module _ (f : Doubles) where
  -- A literal replaces an operator on the values of two literals.
  replaced :
      (op : Operator) (l r l' r' e : Expr) (a b : Value)
      → Spelled op
      → Same f l l'
      → Same f r r'
      → eval_literal l' ≡ some a
      → eval_literal r' ≡ some b
      → Meets f (operator_of op.text) a b e
      → Same f (binary op l r) e
  replaced op l r l' r' e a b spelled left right is_a is_b (type, is_op, (v, run, is_v)) =
      computed op left right is_a is_b (rw (spelled type is_op) run) is_v

  module _ (op : Operator) (l r : Expr) where
    fold_literals-Same :
        (l' r' e : Expr)
        → Spelled op
        → Same f l l'
        → Same f r r'
        → fold_literals f op.text l' r' ≡ some e
        → Same f (binary op l r) e
    unfolding fold_literals eval_literal
    fold_literals-Same (number a) (number b) e spelled left right h =
        replaced op l r (number a) (number b) e (val_number a) (val_number b) spelled left right
          refl refl (fold_numbers-Meets f a b e op.text h)
    fold_literals-Same (string a) (string b) e spelled left right h =
        replaced op l r (string a) (string b) e (val_string a) (val_string b) spelled left right
          refl refl (fold_strings-Meets f op.text a b e h)
    fold_literals-Same (boolean a) (boolean b) e spelled left right h =
        replaced op l r (boolean a) (boolean b) e (val_bool a) (val_bool b) spelled left right refl
          refl (fold_booleans-Meets f op.text a b e h)
    fold_literals-Same _ _ e spelled left right h = cc

    fold_binary-Same :
        (l' r' : Expr)
        → Spelled op
        → Same f l l'
        → Same f r r'
        → Same f (binary op l r) (fold_binary f op l' r')
    unfolding fold_binary
    fold_binary-Same l' r' spelled left right =
        elim (Option-cases (fold_literals f op.text l' r')) [
          | inl e ↦ rw (fold_binary, e) (in_binary op left right)
          | inr (x, e) ↦ rw (fold_binary, e) (fold_literals-Same l' r' x spelled left right e)
        ]

  mutual
    unfolding fold_expr

    expr-Same : (e : Expr) → AllSpelled e → Same f e (fold_expr f e)
    expr-Same (binary op l r) (spelled, left, right) =
        fold_binary-Same op l r (fold_expr f l) (fold_expr f r) spelled (expr-Same l left)
          (expr-Same r right)
    expr-Same (call callee args) (h, hs) = in_call (expr-Same callee h) (exprs-Sames args hs)
    expr-Same (array elements) hs = in_array (exprs-Sames elements hs)
    expr-Same (index a i) (h, k) = in_index (expr-Same a h) (expr-Same i k)
    expr-Same (index_set a i v) (h, k, m) =
        in_index_set (expr-Same a h) (expr-Same i k) (expr-Same v m)
    expr-Same (dict keys values) hs = in_dict keys (exprs-Sames values hs)
    expr-Same (tuple elements) hs = in_tuple (exprs-Sames elements hs)
    expr-Same (slice a i j) (h, k, m) = in_slice (expr-Same a h) (expr-Same i k) (expr-Same j m)
    expr-Same (get object property) h = in_get property (expr-Same object h)
    expr-Same (set object property v) (h, k) = in_set property (expr-Same object h) (expr-Same v k)
    expr-Same e h = same e

    exprs-Sames : (es : Exprs) → EachSpelled es → Sames f es (fold_exprs f es)
    exprs-Sames no_exprs h = no_more
    exprs-Sames (exprs e es) (h, hs) = both (expr-Same e h) (exprs-Sames es hs)

  -- Where each operator has the text of its type, an expression that is folded is the one before
  -- with some operators on literals replaced: each by the literal of the value that the
  -- interpreter computes for it.
  pub fold_expr-Same : (e : Expr) → AllSpelled e → Same f e (fold_expr f e)
  fold_expr-Same e h = expr-Same e h
