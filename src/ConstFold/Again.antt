-- ===== src/ConstFold/Again.antt =====
-- A second run of the pass finds nothing to fold.
use sage_tree.Base.{◌≡◌, refl, ap, true, false, some, inl, inr, Option-cases, Bytes}
use sage_tree.Ast.{
  Expr, Exprs, Operator, number, string, boolean, nil, binary, call, array, index, dict, tuple,
  slice, get, set, index_set, no_exprs, exprs, Stmt, Stmts, Cases, Catches, print, expression,
  let_stmt, if_stmt, block, while_stmt, proc, for_stmt, ret, class_stmt, match_stmt, try_stmt,
  raise, yield_stmt, no_stmts, stmts, no_cases, cases, no_catches, catches,
}
use sage_tree.ConstFold.Doubles.{Doubles}
use sage_tree.ConstFold.Value.{Value, eval_literal}
use sage_tree.ConstFold.Fold.{fold_literals, fold_binary, fold_expr, fold_exprs}
use sage_tree.ConstFold.Statements.{
  fold_if, fold_while, fold_stmt, fold_stmt_list, fold_cases, fold_catches, pass_constfold,
}
use sage_tree.ConstFold.Literals.{fold_literals-literal}

module _ (f : Doubles) where
  literal-again : (e : Expr) (v : Value) → eval_literal e ≡ some v → fold_expr f e ≡ e
  unfolding eval_literal fold_expr
  literal-again (number x) v h = refl
  literal-again (string x) v h = refl
  literal-again (boolean x) v h = refl
  literal-again nil v h = refl
  literal-again _ v h = cc

  fold_literals-again :
      (op : Bytes) (l r e : Expr) → fold_literals f op l r ≡ some e → fold_expr f e ≡ e
  fold_literals-again op l r e h =
      let (v, is_v) = fold_literals-literal f op l r e h in literal-again e v is_v

  fold_binary-again :
      (op : Operator) (l r : Expr)
      → fold_expr f l ≡ l
      → fold_expr f r ≡ r
      → fold_expr f (fold_binary f op l r) ≡ fold_binary f op l r
  unfolding fold_expr fold_binary
  fold_binary-again op l r left right = elim (Option-cases (fold_literals f op.text l r)) [
    | inl e ↦
        let kept : fold_binary f op l r ≡ binary op l r = rw (fold_binary, e) refl in
        let once : fold_expr f (binary op l r) ≡ binary op l r = rw (left, right) kept in
        rw kept once
    | inr (x, e) ↦ rw (fold_binary, e) (fold_literals-again op.text l r x e)
  ]

  mutual
    unfolding fold_expr

    expr-again : (e : Expr) → fold_expr f (fold_expr f e) ≡ fold_expr f e
    expr-again (binary op l r) =
        fold_binary-again op (fold_expr f l) (fold_expr f r) (expr-again l) (expr-again r)
    expr-again (call callee args) = rw (expr-again callee, exprs-again args) refl
    expr-again (array elements) = rw (exprs-again elements) refl
    expr-again (index a i) = rw (expr-again a, expr-again i) refl
    expr-again (index_set a i v) = rw (expr-again a, expr-again i, expr-again v) refl
    expr-again (dict keys values) = rw (exprs-again values) refl
    expr-again (tuple elements) = rw (exprs-again elements) refl
    expr-again (slice a i j) = rw (expr-again a, expr-again i, expr-again j) refl
    expr-again (get object property) = rw (expr-again object) refl
    expr-again (set object property v) = rw (expr-again object, expr-again v) refl
    expr-again e = refl

    exprs-again : (es : Exprs) → fold_exprs f (fold_exprs f es) ≡ fold_exprs f es
    exprs-again no_exprs = refl
    exprs-again (exprs e es) = rw (expr-again e, exprs-again es) refl

  fold_if-again :
      (cond : Expr) (t e : Stmts)
      → fold_expr f cond ≡ cond
      → fold_stmt_list f t ≡ t
      → fold_stmt_list f e ≡ e
      → fold_stmt f (fold_if cond t e) ≡ fold_if cond t e
  unfolding fold_stmt fold_if fold_expr
  fold_if-again (boolean true) t e c x y = rw x refl
  fold_if-again (boolean false) t no_stmts c x y = refl
  fold_if-again (boolean false) t (stmts s rest) c x y = ap block y
  fold_if-again cond t e c x y = rw (c, x, y) refl

  fold_while-again :
      (cond : Expr) (body : Stmts)
      → fold_expr f cond ≡ cond
      → fold_stmt_list f body ≡ body
      → fold_stmt f (fold_while cond body) ≡ fold_while cond body
  unfolding fold_stmt fold_while fold_expr
  fold_while-again (boolean true) body c x = rw x refl
  fold_while-again (boolean false) body c x = refl
  fold_while-again cond body c x = rw (c, x) refl

  mutual
    unfolding fold_stmt

    stmt-again : (s : Stmt) → fold_stmt f (fold_stmt f s) ≡ fold_stmt f s
    stmt-again (print e) = ap print (expr-again e)
    stmt-again (expression e) = ap expression (expr-again e)
    stmt-again (let_stmt name e info) = rw (expr-again e) refl
    stmt-again (if_stmt cond t e) =
        fold_if-again (fold_expr f cond) (fold_stmt_list f t) (fold_stmt_list f e) (expr-again cond)
          (list-again t) (list-again e)
    stmt-again (block body) = ap block (list-again body)
    stmt-again (while_stmt cond body) =
        fold_while-again (fold_expr f cond) (fold_stmt_list f body) (expr-again cond)
          (list-again body)
    stmt-again (proc name params defaults body) = rw (list-again body) refl
    stmt-again (for_stmt v iterable body) = rw (expr-again iterable, list-again body) refl
    stmt-again (ret e) = ap ret (expr-again e)
    stmt-again (class_stmt name parent methods) = rw (list-again methods) refl
    stmt-again (match_stmt e cs default) =
        rw (expr-again e, cases-again cs, list-again default) refl
    stmt-again (try_stmt body cs finally) =
        rw (list-again body, catches-again cs, list-again finally) refl
    stmt-again (raise e) = ap raise (expr-again e)
    stmt-again (yield_stmt e) = ap yield_stmt (expr-again e)
    stmt-again s = refl

    list-again : (l : Stmts) → fold_stmt_list f (fold_stmt_list f l) ≡ fold_stmt_list f l
    list-again no_stmts = refl
    list-again (stmts s rest) = rw (stmt-again s, list-again rest) refl

    cases-again : (cs : Cases) → fold_cases f (fold_cases f cs) ≡ fold_cases f cs
    cases-again no_cases = refl
    cases-again (cases pattern guard body rest) =
        rw (expr-again pattern, list-again body, cases-again rest) refl

    catches-again : (cs : Catches) → fold_catches f (fold_catches f cs) ≡ fold_catches f cs
    catches-again no_catches = refl
    catches-again (catches v body rest) = rw (list-again body, catches-again rest) refl

  -- A second run of the pass on any program changes nothing.
  pub pass_constfold-twice :
      (program : Stmts) → pass_constfold f (pass_constfold f program) ≡ pass_constfold f program
  unfolding pass_constfold
  pass_constfold-twice program = list-again program
