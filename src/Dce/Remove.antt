-- ===== src/Dce/Remove.antt =====
-- What the pass of src/dce.c removes.
use sage_tree.Base.{Bool, true, false, ◌||◌, List, [], Bytes, if◌then◌else◌}
use sage_tree.Ast.{
  Expr, Exprs, binary, call, array, index, set, index_set, await, no_exprs, exprs, Stmt, Stmts,
  Cases, Catches, let_stmt, if_stmt, block, while_stmt, proc, for_stmt, ret, break, continue,
  class_stmt, match_stmt, try_stmt, no_stmts, stmts, no_cases, cases, no_catches, catches,
}
use sage_tree.Dce.Names.{nameset_has}
use sage_tree.Dce.Used.{collect_used_names_list}

unfoldable mutual
  pub has_side_effects : Expr → Bool
  has_side_effects (call callee args) = true
  has_side_effects (set object property v) = true
  has_side_effects (await e) = true
  has_side_effects (binary op l r) = has_side_effects l || has_side_effects r
  has_side_effects (index a i) = has_side_effects a || has_side_effects i
  has_side_effects (index_set a i v) = true
  has_side_effects (array elements) = any_side_effects elements
  has_side_effects e = false

  pub any_side_effects : Exprs → Bool
  any_side_effects no_exprs = false
  any_side_effects (exprs e es) = if has_side_effects e then true else any_side_effects es

unfoldable pub is_terminator : Stmt → Bool
is_terminator (ret e) = true
is_terminator break = true
is_terminator continue = true
is_terminator s = false

unfoldable pub remove_unreachable : Stmts → Stmts
remove_unreachable no_stmts = no_stmts
remove_unreachable (stmts s rest) =
    stmts s (if is_terminator s then no_stmts else remove_unreachable rest)

module _ (used : List Bytes) where
  -- The variable `keep` of the loop.
  unfoldable pub keep : Stmt → Bool
  keep (let_stmt name e info) = nameset_has used name || has_side_effects e
  keep (proc name ps ds body) = nameset_has used name
  keep s = true

  -- `dce_stmt_list` goes through what `remove_unreachable` leaves of the list; here the loop stops
  -- where that list ends.
  unfoldable mutual
    pub dce_stmt_body : Stmt → Stmt
    dce_stmt_body (if_stmt c t e) = if_stmt c (dce_stmt_list t) (dce_stmt_list e)
    dce_stmt_body (block body) = block (dce_stmt_list body)
    dce_stmt_body (while_stmt c body) = while_stmt c (dce_stmt_list body)
    dce_stmt_body (proc name ps ds body) = proc name ps ds (dce_stmt_list body)
    dce_stmt_body (for_stmt v e body) = for_stmt v e (dce_stmt_list body)
    dce_stmt_body (class_stmt name parent methods) = class_stmt name parent (dce_stmt_list methods)
    dce_stmt_body (try_stmt body cs finally) =
        try_stmt (dce_stmt_list body) (dce_catches cs) (dce_stmt_list finally)
    dce_stmt_body (match_stmt e cs default) = match_stmt e (dce_cases cs) (dce_stmt_list default)
    dce_stmt_body s = s

    pub dce_stmt_list : Stmts → Stmts
    dce_stmt_list no_stmts = no_stmts
    dce_stmt_list (stmts s rest) =
        let body = dce_stmt_body s in
        let all_next = dce_stmt_list rest in
        let next = if is_terminator s then no_stmts else all_next in
        if keep s then stmts body next else next

    pub dce_cases : Cases → Cases
    dce_cases no_cases = no_cases
    dce_cases (cases pattern guard body rest) =
        cases pattern guard (dce_stmt_list body) (dce_cases rest)

    pub dce_catches : Catches → Catches
    dce_catches no_catches = no_catches
    dce_catches (catches v body rest) = catches v (dce_stmt_list body) (dce_catches rest)

unfoldable pub pass_dce : Stmts → Stmts
pass_dce program = dce_stmt_list (collect_used_names_list [] program) program
