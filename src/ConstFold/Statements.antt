-- ===== src/ConstFold/Statements.antt =====
-- `fold_stmt`, `fold_stmt_list` and `pass_constfold` of src/constfold.c.
use sage_tree.Base.{true, false}
use sage_tree.Ast.{
  Expr, boolean, nil, Stmt, Stmts, Cases, Catches, print, expression, let_stmt, if_stmt, block,
  while_stmt, proc, for_stmt, ret, class_stmt, match_stmt, try_stmt, raise, yield_stmt, no_stmts,
  stmts, no_cases, cases, no_catches, catches,
}
use sage_tree.ConstFold.Doubles.{Doubles}
use sage_tree.ConstFold.Fold.{fold_expr}

-- The end of the case of an `if`, whose parts are folded.
unfoldable pub fold_if : Expr → Stmts → Stmts → Stmt
fold_if (boolean true) then_branch else_branch = block then_branch
fold_if (boolean false) then_branch no_stmts = expression nil
fold_if (boolean false) then_branch (stmts s rest) = block (stmts s rest)
fold_if cond then_branch else_branch = if_stmt cond then_branch else_branch

unfoldable pub fold_while : Expr → Stmts → Stmt
fold_while (boolean false) body = expression nil
fold_while cond body = while_stmt cond body

module _ (f : Doubles) where
  unfoldable mutual
    pub fold_stmt : Stmt → Stmt
    fold_stmt (print e) = print (fold_expr f e)
    fold_stmt (expression e) = expression (fold_expr f e)
    fold_stmt (let_stmt name e info) = let_stmt name (fold_expr f e) info
    fold_stmt (if_stmt cond then_branch else_branch) =
        fold_if (fold_expr f cond) (fold_stmt_list then_branch) (fold_stmt_list else_branch)
    fold_stmt (block body) = block (fold_stmt_list body)
    fold_stmt (while_stmt cond body) = fold_while (fold_expr f cond) (fold_stmt_list body)
    fold_stmt (proc name params defaults body) = proc name params defaults (fold_stmt_list body)
    fold_stmt (for_stmt v iterable body) = for_stmt v (fold_expr f iterable) (fold_stmt_list body)
    fold_stmt (ret e) = ret (fold_expr f e)
    fold_stmt (class_stmt name parent methods) = class_stmt name parent (fold_stmt_list methods)
    fold_stmt (match_stmt e cs default) =
        match_stmt (fold_expr f e) (fold_cases cs) (fold_stmt_list default)
    fold_stmt (try_stmt body cs finally) =
        try_stmt (fold_stmt_list body) (fold_catches cs) (fold_stmt_list finally)
    fold_stmt (raise e) = raise (fold_expr f e)
    fold_stmt (yield_stmt e) = yield_stmt (fold_expr f e)
    fold_stmt s = s

    pub fold_stmt_list : Stmts → Stmts
    fold_stmt_list no_stmts = no_stmts
    fold_stmt_list (stmts s rest) = stmts (fold_stmt s) (fold_stmt_list rest)

    pub fold_cases : Cases → Cases
    fold_cases no_cases = no_cases
    fold_cases (cases pattern guard body rest) =
        cases (fold_expr f pattern) guard (fold_stmt_list body) (fold_cases rest)

    pub fold_catches : Catches → Catches
    fold_catches no_catches = no_catches
    fold_catches (catches v body rest) = catches v (fold_stmt_list body) (fold_catches rest)

  unfoldable pub pass_constfold : Stmts → Stmts
  pass_constfold program = fold_stmt_list program
