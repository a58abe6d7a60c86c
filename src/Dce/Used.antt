-- ===== src/Dce/Used.antt =====
-- The names that a program reads, src/dce.c: `collect_used_names_expr` and its like add them to
-- the set.
use sage_tree.Base.{List, Bytes}
use sage_tree.Ast.{
  Expr, Exprs, binary, variable, call, array, index, dict, tuple, slice, get, set, index_set,
  no_exprs, exprs, Stmt, Stmts, Cases, Catches, print, expression, let_stmt, if_stmt, block,
  while_stmt, proc, for_stmt, ret, class_stmt, match_stmt, defer, try_stmt, raise, yield_stmt,
  no_stmts, stmts, no_cases, cases, no_catches, catches,
}
use sage_tree.Dce.Names.{nameset_add}

unfoldable mutual
  pub collect_used_names_expr : List Bytes → Expr → List Bytes
  collect_used_names_expr used (variable name) = nameset_add used name
  collect_used_names_expr used (binary op l r) =
      collect_used_names_expr (collect_used_names_expr used l) r
  collect_used_names_expr used (call callee args) =
      collect_exprs (collect_used_names_expr used callee) args
  collect_used_names_expr used (array elements) = collect_exprs used elements
  collect_used_names_expr used (index a i) =
      collect_used_names_expr (collect_used_names_expr used a) i
  collect_used_names_expr used (index_set a i v) =
      collect_used_names_expr (collect_used_names_expr (collect_used_names_expr used a) i) v
  collect_used_names_expr used (dict keys values) = collect_exprs used values
  collect_used_names_expr used (tuple elements) = collect_exprs used elements
  collect_used_names_expr used (slice a i j) =
      collect_used_names_expr (collect_used_names_expr (collect_used_names_expr used a) i) j
  collect_used_names_expr used (get object property) = collect_used_names_expr used object
  collect_used_names_expr used (set object property v) =
      collect_used_names_expr (collect_used_names_expr used object) v
  collect_used_names_expr used e = used

  pub collect_exprs : List Bytes → Exprs → List Bytes
  collect_exprs used no_exprs = used
  collect_exprs used (exprs e es) = collect_exprs (collect_used_names_expr used e) es

unfoldable mutual
  pub collect_used_names_stmt : List Bytes → Stmt → List Bytes
  collect_used_names_stmt used (print e) = collect_used_names_expr used e
  collect_used_names_stmt used (expression e) = collect_used_names_expr used e
  collect_used_names_stmt used (let_stmt name e info) = collect_used_names_expr used e
  collect_used_names_stmt used (if_stmt c t e) =
      collect_used_names_list (collect_used_names_list (collect_used_names_expr used c) t) e
  collect_used_names_stmt used (block body) = collect_used_names_list used body
  collect_used_names_stmt used (while_stmt c body) =
      collect_used_names_list (collect_used_names_expr used c) body
  collect_used_names_stmt used (proc name ps ds body) = collect_used_names_list used body
  collect_used_names_stmt used (for_stmt v e body) =
      collect_used_names_list (collect_used_names_expr used e) body
  collect_used_names_stmt used (ret e) = collect_used_names_expr used e
  collect_used_names_stmt used (class_stmt name parent methods) =
      collect_used_names_list used methods
  collect_used_names_stmt used (match_stmt e cs default) =
      collect_used_names_list (collect_cases (collect_used_names_expr used e) cs) default
  collect_used_names_stmt used (try_stmt body cs finally) =
      collect_used_names_list (collect_catches (collect_used_names_list used body) cs) finally
  collect_used_names_stmt used (raise e) = collect_used_names_expr used e
  collect_used_names_stmt used (yield_stmt e) = collect_used_names_expr used e
  collect_used_names_stmt used (defer s) = collect_used_names_stmt used s
  collect_used_names_stmt used s = used

  pub collect_used_names_list : List Bytes → Stmts → List Bytes
  collect_used_names_list used no_stmts = used
  collect_used_names_list used (stmts s rest) =
      collect_used_names_list (collect_used_names_stmt used s) rest

  pub collect_cases : List Bytes → Cases → List Bytes
  collect_cases used no_cases = used
  collect_cases used (cases pattern guard body rest) =
      collect_cases (collect_used_names_list (collect_used_names_expr used pattern) body) rest

  pub collect_catches : List Bytes → Catches → List Bytes
  collect_catches used no_catches = used
  collect_catches used (catches v body rest) =
      collect_catches (collect_used_names_list used body) rest
