-- ===== src/ConstFold/Kept.antt =====
-- The pass on programs keeps what they mean.
use sage_tree.Base.{refl, Bool, true, false}
use sage_tree.Ast.{
  Expr, boolean, Stmt, Stmts, Cases, Catches, print, expression, let_stmt, if_stmt, block,
  while_stmt, proc, for_stmt, ret, class_stmt, match_stmt, try_stmt, raise, yield_stmt, no_stmts,
  stmts, no_cases, cases, no_catches, catches,
}
use sage_tree.ConstFold.Doubles.{Doubles}
use sage_tree.ConstFold.Value.{val_bool, eval_literal, is_truthy}
use sage_tree.ConstFold.Fold.{fold_expr}
use sage_tree.ConstFold.Same.{Same}
use sage_tree.ConstFold.Preserves.{fold_expr-Same}
use sage_tree.ConstFold.Statements.{
  fold_if, fold_while, fold_stmt, fold_stmt_list, fold_cases, fold_catches, pass_constfold,
}
use sage_tree.ConstFold.Program.{
  StmtSpelled, ListSpelled, CasesSpelled, CatchesSpelled, Known, SameStmt, unchanged, takes_then,
  takes_else, takes_none, never_loops, in_print, in_expression, in_let, in_if, in_block, in_while,
  in_proc, in_for, in_return, in_class, in_match, in_try, in_raise, in_yield, SameList, list_end,
  list_next, SameCases, cases_end, cases_next, SameCatches, catches_end, catches_next,
}

module _ (f : Doubles) where
  known : (e : Expr) (b : Bool) → Same f e (boolean b) → Known f e b
  unfolding eval_literal is_truthy
  known e b h = record {
    literal = boolean b;
    value = val_bool b;
    means = h;
    evaluates = refl;
    is_so = refl;
  }

  fold_if-SameStmt :
      (c c' : Expr) (t t' e e' : Stmts)
      → Same f c c'
      → SameList f t t'
      → SameList f e e'
      → SameStmt f (if_stmt c t e) (fold_if c' t' e')
  unfolding fold_if
  fold_if-SameStmt c (boolean true) t t' e e' x y z = takes_then e (known c true x) y
  fold_if-SameStmt c (boolean false) t t' e no_stmts x y list_end = takes_none t (known c false x)
  fold_if-SameStmt c (boolean false) t t' e (stmts s rest) x y z = takes_else t (known c false x) z
  fold_if-SameStmt c c' t t' e e' x y z = in_if x y z

  fold_while-SameStmt :
      (c c' : Expr) (b b' : Stmts)
      → Same f c c'
      → SameList f b b'
      → SameStmt f (while_stmt c b) (fold_while c' b')
  unfolding fold_while
  fold_while-SameStmt c (boolean true) b b' x y = in_while x y
  fold_while-SameStmt c (boolean false) b b' x y = never_loops b (known c false x)
  fold_while-SameStmt c c' b b' x y = in_while x y

  mutual
    unfolding fold_stmt

    stmt-SameStmt : (s : Stmt) → StmtSpelled s → SameStmt f s (fold_stmt f s)
    stmt-SameStmt (print e) h = in_print (fold_expr-Same f e h)
    stmt-SameStmt (expression e) h = in_expression (fold_expr-Same f e h)
    stmt-SameStmt (let_stmt name e info) h = in_let name info (fold_expr-Same f e h)
    stmt-SameStmt (if_stmt c t e) (h, k, m) =
        fold_if-SameStmt c (fold_expr f c) t (fold_stmt_list f t) e (fold_stmt_list f e)
          (fold_expr-Same f c h) (list-SameList t k) (list-SameList e m)
    stmt-SameStmt (block body) h = in_block (list-SameList body h)
    stmt-SameStmt (while_stmt c body) (h, k) =
        fold_while-SameStmt c (fold_expr f c) body (fold_stmt_list f body) (fold_expr-Same f c h)
          (list-SameList body k)
    stmt-SameStmt (proc name ps ds body) h = in_proc name ps ds (list-SameList body h)
    stmt-SameStmt (for_stmt v e body) (h, k) =
        in_for v (fold_expr-Same f e h) (list-SameList body k)
    stmt-SameStmt (ret e) h = in_return (fold_expr-Same f e h)
    stmt-SameStmt (class_stmt name parent methods) h =
        in_class name parent (list-SameList methods h)
    stmt-SameStmt (match_stmt e cs default) (h, k, m) =
        in_match (fold_expr-Same f e h) (cases-SameCases cs k) (list-SameList default m)
    stmt-SameStmt (try_stmt body cs finally) (h, k, m) =
        in_try (list-SameList body h) (catches-SameCatches cs k) (list-SameList finally m)
    stmt-SameStmt (raise e) h = in_raise (fold_expr-Same f e h)
    stmt-SameStmt (yield_stmt e) h = in_yield (fold_expr-Same f e h)
    stmt-SameStmt s h = unchanged s

    list-SameList : (l : Stmts) → ListSpelled l → SameList f l (fold_stmt_list f l)
    list-SameList no_stmts h = list_end
    list-SameList (stmts s rest) (h, k) = list_next (stmt-SameStmt s h) (list-SameList rest k)

    cases-SameCases : (cs : Cases) → CasesSpelled cs → SameCases f cs (fold_cases f cs)
    cases-SameCases no_cases h = cases_end
    cases-SameCases (cases pattern guard body rest) (h, k, m) =
        cases_next guard (fold_expr-Same f pattern h) (list-SameList body k)
          (cases-SameCases rest m)

    catches-SameCatches : (cs : Catches) → CatchesSpelled cs → SameCatches f cs (fold_catches f cs)
    catches-SameCatches no_catches h = catches_end
    catches-SameCatches (catches v body rest) (h, k) =
        catches_next v (list-SameList body h) (catches-SameCatches rest k)

  -- Where each operator has the text of its type, the pass makes of a program one that differs
  -- in three ways only: operators on literals are replaced by the literal of the value that the
  -- interpreter computes, an `if` whose condition means a literal is replaced by the branch that
  -- its truth takes, or by nil when there is none, and a `while` whose condition means a false
  -- literal is replaced by nil.
  pub pass_constfold-SameList :
      (program : Stmts) → ListSpelled program → SameList f program (pass_constfold f program)
  unfolding pass_constfold
  pass_constfold-SameList program h = list-SameList program h
