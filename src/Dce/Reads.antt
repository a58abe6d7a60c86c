-- ===== src/Dce/Reads.antt =====
-- Which names a program reads, in the expressions that the pass of src/dce.c goes through.
use sage_tree.Base.{Bool, false, ◌||◌, Bytes, bytes_eq}
use sage_tree.Ast.{
  Expr, Exprs, binary, variable, call, array, index, dict, tuple, slice, get, set, index_set,
  no_exprs, exprs, Stmt, Stmts, Cases, Catches, print, expression, let_stmt, if_stmt, block,
  while_stmt, proc, for_stmt, ret, class_stmt, match_stmt, defer, try_stmt, raise, yield_stmt,
  no_stmts, stmts, no_cases, cases, no_catches, catches,
}

module _ (n : Bytes) where
  unfoldable mutual
    pub reads_expr : Expr → Bool
    reads_expr (variable name) = bytes_eq name n
    reads_expr (binary op l r) = reads_expr l || reads_expr r
    reads_expr (call callee args) = reads_expr callee || reads_exprs args
    reads_expr (array elements) = reads_exprs elements
    reads_expr (index a i) = reads_expr a || reads_expr i
    reads_expr (index_set a i v) = reads_expr a || (reads_expr i || reads_expr v)
    reads_expr (dict keys values) = reads_exprs values
    reads_expr (tuple elements) = reads_exprs elements
    reads_expr (slice a i j) = reads_expr a || (reads_expr i || reads_expr j)
    reads_expr (get object property) = reads_expr object
    reads_expr (set object property v) = reads_expr object || reads_expr v
    reads_expr e = false

    pub reads_exprs : Exprs → Bool
    reads_exprs no_exprs = false
    reads_exprs (exprs e es) = reads_expr e || reads_exprs es

  unfoldable mutual
    pub reads_stmt : Stmt → Bool
    reads_stmt (print e) = reads_expr e
    reads_stmt (expression e) = reads_expr e
    reads_stmt (let_stmt name e info) = reads_expr e
    reads_stmt (if_stmt c t e) = reads_expr c || (reads_list t || reads_list e)
    reads_stmt (block body) = reads_list body
    reads_stmt (while_stmt c body) = reads_expr c || reads_list body
    reads_stmt (proc name ps ds body) = reads_list body
    reads_stmt (for_stmt v e body) = reads_expr e || reads_list body
    reads_stmt (ret e) = reads_expr e
    reads_stmt (class_stmt name parent methods) = reads_list methods
    reads_stmt (match_stmt e cs default) = reads_expr e || (reads_cases cs || reads_list default)
    reads_stmt (try_stmt body cs finally) =
        reads_list body || (reads_catches cs || reads_list finally)
    reads_stmt (raise e) = reads_expr e
    reads_stmt (yield_stmt e) = reads_expr e
    reads_stmt (defer s) = reads_stmt s
    reads_stmt s = false

    pub reads_list : Stmts → Bool
    reads_list no_stmts = false
    reads_list (stmts s rest) = reads_stmt s || reads_list rest

    pub reads_cases : Cases → Bool
    reads_cases no_cases = false
    reads_cases (cases pattern guard body rest) =
        reads_expr pattern || (reads_list body || reads_cases rest)

    pub reads_catches : Catches → Bool
    reads_catches no_catches = false
    reads_catches (catches v body rest) = reads_list body || reads_catches rest
