-- ===== src/Dce/Collected.antt =====
-- The set of names that the pass of src/dce.c collects.
use sage_tree.Base.{◌≡◌, sym, ◌∙◌, Bool, ◌||◌, List, [], Bytes}
use sage_tree.Ast.{
  Expr, Exprs, binary, variable, call, array, index, dict, tuple, slice, get, set, index_set,
  no_exprs, exprs, Stmt, Stmts, Cases, Catches, print, expression, let_stmt, if_stmt, block,
  while_stmt, proc, for_stmt, ret, class_stmt, match_stmt, defer, try_stmt, raise, yield_stmt,
  no_stmts, stmts, no_cases, cases, no_catches, catches,
}
use sage_tree.Dce.Names.{nameset_has, nameset_has-nameset_add, or_assoc, or_false}
use sage_tree.Dce.Used.{
  collect_used_names_expr, collect_exprs, collect_used_names_stmt, collect_used_names_list,
  collect_cases, collect_catches,
}
use sage_tree.Dce.Reads.{
  reads_expr, reads_exprs, reads_stmt, reads_list, reads_cases, reads_catches,
}

module _ (n : Bytes) where
  -- A step of the collection, then another.
  two :
      (a b c : List Bytes) (x y : Bool)
      → nameset_has b n ≡ (nameset_has a n || x)
      → nameset_has c n ≡ (nameset_has b n || y)
      → nameset_has c n ≡ (nameset_has a n || (x || y))
  two a b c x y first second = second ∙ (rw first (or_assoc (nameset_has a n) x y))

  mutual
    unfolding collect_used_names_expr reads_expr

    expr-reads :
        (used : List Bytes) (e : Expr)
        → nameset_has (collect_used_names_expr used e) n ≡ (nameset_has used n || reads_expr n e)
    expr-reads used (variable name) = nameset_has-nameset_add used name n
    expr-reads used (binary op l r) =
        two used (collect_used_names_expr used l)
          (collect_used_names_expr (collect_used_names_expr used l) r) (reads_expr n l)
          (reads_expr n r) (expr-reads used l) (expr-reads (collect_used_names_expr used l) r)
    expr-reads used (call callee args) =
        two used (collect_used_names_expr used callee)
          (collect_exprs (collect_used_names_expr used callee) args) (reads_expr n callee)
          (reads_exprs n args) (expr-reads used callee)
          (exprs-reads (collect_used_names_expr used callee) args)
    expr-reads used (array elements) = exprs-reads used elements
    expr-reads used (index a i) =
        two used (collect_used_names_expr used a)
          (collect_used_names_expr (collect_used_names_expr used a) i) (reads_expr n a)
          (reads_expr n i) (expr-reads used a) (expr-reads (collect_used_names_expr used a) i)
    expr-reads used (index_set a i v) =
        two used (collect_used_names_expr used a)
          (collect_used_names_expr (collect_used_names_expr (collect_used_names_expr used a) i) v)
          (reads_expr n a) ((reads_expr n i) || (reads_expr n v)) (expr-reads used a)
          (two (collect_used_names_expr used a)
            (collect_used_names_expr (collect_used_names_expr used a) i)
            (collect_used_names_expr (collect_used_names_expr (collect_used_names_expr used a) i) v)
            (reads_expr n i) (reads_expr n v) (expr-reads (collect_used_names_expr used a) i)
            (expr-reads (collect_used_names_expr (collect_used_names_expr used a) i) v))
    expr-reads used (dict keys values) = exprs-reads used values
    expr-reads used (tuple elements) = exprs-reads used elements
    expr-reads used (slice a i j) =
        two used (collect_used_names_expr used a)
          (collect_used_names_expr (collect_used_names_expr (collect_used_names_expr used a) i) j)
          (reads_expr n a) ((reads_expr n i) || (reads_expr n j)) (expr-reads used a)
          (two (collect_used_names_expr used a)
            (collect_used_names_expr (collect_used_names_expr used a) i)
            (collect_used_names_expr (collect_used_names_expr (collect_used_names_expr used a) i) j)
            (reads_expr n i) (reads_expr n j) (expr-reads (collect_used_names_expr used a) i)
            (expr-reads (collect_used_names_expr (collect_used_names_expr used a) i) j))
    expr-reads used (get object property) = expr-reads used object
    expr-reads used (set object property v) =
        two used (collect_used_names_expr used object)
          (collect_used_names_expr (collect_used_names_expr used object) v) (reads_expr n object)
          (reads_expr n v) (expr-reads used object)
          (expr-reads (collect_used_names_expr used object) v)
    expr-reads used e = sym (or_false (nameset_has used n))

    exprs-reads :
        (used : List Bytes) (es : Exprs)
        → nameset_has (collect_exprs used es) n ≡ (nameset_has used n || reads_exprs n es)
    exprs-reads used no_exprs = sym (or_false (nameset_has used n))
    exprs-reads used (exprs e es) =
        two used (collect_used_names_expr used e)
          (collect_exprs (collect_used_names_expr used e) es) (reads_expr n e) (reads_exprs n es)
          (expr-reads used e) (exprs-reads (collect_used_names_expr used e) es)

  mutual
    unfolding collect_used_names_stmt reads_stmt

    stmt-reads :
        (used : List Bytes) (s : Stmt)
        → nameset_has (collect_used_names_stmt used s) n ≡ (nameset_has used n || reads_stmt n s)
    stmt-reads used (print e) = expr-reads used e
    stmt-reads used (expression e) = expr-reads used e
    stmt-reads used (let_stmt name e info) = expr-reads used e
    stmt-reads used (if_stmt c t e) =
        two used (collect_used_names_expr used c)
          (collect_used_names_list (collect_used_names_list (collect_used_names_expr used c) t) e)
          (reads_expr n c) ((reads_list n t) || (reads_list n e)) (expr-reads used c)
          (two (collect_used_names_expr used c)
            (collect_used_names_list (collect_used_names_expr used c) t)
            (collect_used_names_list (collect_used_names_list (collect_used_names_expr used c) t) e)
            (reads_list n t) (reads_list n e) (list-reads (collect_used_names_expr used c) t)
            (list-reads (collect_used_names_list (collect_used_names_expr used c) t) e))
    stmt-reads used (block body) = list-reads used body
    stmt-reads used (while_stmt c body) =
        two used (collect_used_names_expr used c)
          (collect_used_names_list (collect_used_names_expr used c) body) (reads_expr n c)
          (reads_list n body) (expr-reads used c) (list-reads (collect_used_names_expr used c) body)
    stmt-reads used (proc name ps ds body) = list-reads used body
    stmt-reads used (for_stmt v e body) =
        two used (collect_used_names_expr used e)
          (collect_used_names_list (collect_used_names_expr used e) body) (reads_expr n e)
          (reads_list n body) (expr-reads used e) (list-reads (collect_used_names_expr used e) body)
    stmt-reads used (ret e) = expr-reads used e
    stmt-reads used (class_stmt name parent methods) = list-reads used methods
    stmt-reads used (match_stmt e cs default) =
        two used (collect_used_names_expr used e)
          (collect_used_names_list (collect_cases (collect_used_names_expr used e) cs) default)
          (reads_expr n e) ((reads_cases n cs) || (reads_list n default)) (expr-reads used e)
          (two (collect_used_names_expr used e) (collect_cases (collect_used_names_expr used e) cs)
            (collect_used_names_list (collect_cases (collect_used_names_expr used e) cs) default)
            (reads_cases n cs) (reads_list n default)
            (cases-reads (collect_used_names_expr used e) cs)
            (list-reads (collect_cases (collect_used_names_expr used e) cs) default))
    stmt-reads used (try_stmt body cs finally) =
        two used (collect_used_names_list used body)
          (collect_used_names_list (collect_catches (collect_used_names_list used body) cs) finally)
          (reads_list n body) ((reads_catches n cs) || (reads_list n finally))
          (list-reads used body)
          (two (collect_used_names_list used body)
            (collect_catches (collect_used_names_list used body) cs)
            (collect_used_names_list (collect_catches (collect_used_names_list used body) cs)
              finally)
            (reads_catches n cs) (reads_list n finally)
            (catches-reads (collect_used_names_list used body) cs)
            (list-reads (collect_catches (collect_used_names_list used body) cs) finally))
    stmt-reads used (raise e) = expr-reads used e
    stmt-reads used (yield_stmt e) = expr-reads used e
    stmt-reads used (defer s) = stmt-reads used s
    stmt-reads used s = sym (or_false (nameset_has used n))

    list-reads :
        (used : List Bytes) (l : Stmts)
        → nameset_has (collect_used_names_list used l) n ≡ (nameset_has used n || reads_list n l)
    list-reads used no_stmts = sym (or_false (nameset_has used n))
    list-reads used (stmts s rest) =
        two used (collect_used_names_stmt used s)
          (collect_used_names_list (collect_used_names_stmt used s) rest) (reads_stmt n s)
          (reads_list n rest) (stmt-reads used s) (list-reads (collect_used_names_stmt used s) rest)

    cases-reads :
        (used : List Bytes) (cs : Cases)
        → nameset_has (collect_cases used cs) n ≡ (nameset_has used n || reads_cases n cs)
    cases-reads used no_cases = sym (or_false (nameset_has used n))
    cases-reads used (cases pattern guard body rest) =
        two used (collect_used_names_expr used pattern)
          (collect_cases (collect_used_names_list (collect_used_names_expr used pattern) body) rest)
          (reads_expr n pattern) ((reads_list n body) || (reads_cases n rest))
          (expr-reads used pattern)
          (two (collect_used_names_expr used pattern)
            (collect_used_names_list (collect_used_names_expr used pattern) body)
            (collect_cases (collect_used_names_list (collect_used_names_expr used pattern) body)
              rest)
            (reads_list n body) (reads_cases n rest)
            (list-reads (collect_used_names_expr used pattern) body)
            (cases-reads (collect_used_names_list (collect_used_names_expr used pattern) body)
              rest))

    catches-reads :
        (used : List Bytes) (cs : Catches)
        → nameset_has (collect_catches used cs) n ≡ (nameset_has used n || reads_catches n cs)
    catches-reads used no_catches = sym (or_false (nameset_has used n))
    catches-reads used (catches v body rest) =
        two used (collect_used_names_list used body)
          (collect_catches (collect_used_names_list used body) rest) (reads_list n body)
          (reads_catches n rest) (list-reads used body)
          (catches-reads (collect_used_names_list used body) rest)

  -- The set that the pass collects has exactly the names that the program reads.
  pub collect-reads :
      (program : Stmts) → nameset_has (collect_used_names_list [] program) n ≡ reads_list n program
  unfolding nameset_has
  collect-reads program = list-reads [] program
