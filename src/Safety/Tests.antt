-- ===== src/Safety/Tests.antt =====
-- Programs that are analyzed, and calls of a client.
use sage_tree.Base.{◌≡◌, ◌≢◌, ◌↔◌, refl, true, false, [], ◌∷◌, none, some, bytes}
use sage_tree.Base.Int.{pos}
use sage_tree.Ast.{
  LetInfo, int_val, array, no_exprs, exprs, variable, call, Stmts, Stmt, print, expression,
  let_stmt, block, try_stmt, no_stmts, stmts, no_catches, catches,
}
use sage_tree.Safety.State.{
  mode_off, mode_annotated, mode_strict, uninitialized_use, use_after_move, double_move,
  uninitialized, SafetyVar, SafetyContext, safety_emit, safety_context_new, safety_push_scope,
  safety_pop_scope, find_var, lookup_scopes, safety_lookup, change_var, change_scopes, declare_in,
  safety_declare, check_borrows,
}
use sage_tree.Safety.Checks.{
  failed, safety_mark_moved, add_borrow, count_borrow, safety_mark_borrowed, check_use_of,
  safety_check_use, check_move_of, safety_check_move, check_borrow_of, safety_check_borrow,
}
use sage_tree.Safety.Walk.{
  move_variable, send_args, check_spawn, analyze_expr, annotate, initialize, param_var,
  declare_params, analyze_stmt, analyze_stmt_list, safety_analyze,
}
use sage_tree.Safety.Goes.{Goes}
use sage_tree.Safety.Balanced.{analyze_stmt_list-Goes, safety_analyze_iff}
use sage_tree.Safety.Exclusive.{Each}
use sage_tree.Safety.Borrowing.{
  analyzes, borrows, declares, Reachable, start, next, Reachable-Exclusive,
}
use sage_tree.Safety.Moving.{safety_check_use-safety_check_move}

-- The tests unfold the analysis.
run : Unit {0}
unfolding safety_emit safety_context_new safety_push_scope safety_pop_scope find_var lookup_scopes
    safety_lookup change_var change_scopes declare_in safety_declare check_borrows safety_mark_moved
    add_borrow count_borrow safety_mark_borrowed check_use_of safety_check_use check_move_of
    safety_check_move check_borrow_of safety_check_borrow move_variable send_args check_spawn
    analyze_expr annotate initialize param_var declare_params analyze_stmt safety_analyze
run = tt

abbrev plain : LetInfo
plain = record { type_ann = none; is_mutable = false }

abbrev use_x : Stmt
use_x = expression (call (variable (bytes "f")) (exprs (variable (bytes "x")) no_exprs))

-- `let x = []`, `f(x)`, `f(x)`
abbrev twice : Stmts
twice = stmts (let_stmt (bytes "x") (array no_exprs) plain) (stmts use_x (stmts use_x no_stmts))

twice_annotated : safety_analyze mode_annotated twice ≡ true
unfolding run
twice_annotated = refl

twice_strict :
    (analyze_stmt_list (safety_context_new mode_strict) twice).diagnostics
    ≡ (use_after_move ∷ double_move ∷ [])
unfolding run
twice_strict = refl

-- `let x = 1`, `f(x)`, `f(x)`: an integer literal is moved as well.
abbrev integer_twice : Stmts
integer_twice =
    stmts (let_stmt (bytes "x") (int_val (pos 1)) plain) (stmts use_x (stmts use_x no_stmts))

integer_strict : safety_analyze mode_strict integer_twice ≡ false
unfolding run
integer_strict = refl

-- `try: ...`, `catch e: print e`: the variable of a catch counts as not initialized.
abbrev catching : Stmts
catching =
    stmts
      (try_stmt (stmts (block no_stmts) no_stmts)
        (catches (bytes "e") (stmts (print (variable (bytes "e"))) no_stmts) no_catches) no_stmts)
      no_stmts

catching_annotated :
    (analyze_stmt_list (safety_context_new mode_annotated) catching).diagnostics
    ≡ (uninitialized_use ∷ [])
unfolding run
catching_annotated = refl

analyze_stmt_list-Goes_example :
    Goes (safety_context_new mode_strict) (analyze_stmt_list (safety_context_new mode_strict) twice)
analyze_stmt_list-Goes_example = analyze_stmt_list-Goes (safety_context_new mode_strict) twice

not_off : mode_strict ≢ mode_off
not_off e = cc

safety_analyze_iff_example :
    (safety_analyze mode_strict twice ≡ true)
    ↔ ((analyze_stmt_list (safety_context_new mode_strict) twice).diagnostics ≡ [])
safety_analyze_iff_example = safety_analyze_iff mode_strict twice not_off

-- A variable that is there, and a mutable borrow of it.
abbrev with_x : SafetyContext
with_x = safety_declare (safety_context_new mode_strict) (bytes "x")

abbrev var_x : SafetyVar
var_x = record {
  name = bytes "x";
  state = uninitialized;
  is_option = false;
  is_send = true;
  is_sync = false;
  is_copy = false;
  borrow_count = 0;
  mut_borrow_count = 0;
  scope_depth = 0;
  lifetime_id = 1;
}

found_x : safety_lookup with_x (bytes "x") ≡ some var_x
unfolding run
found_x = refl

may_borrow : (safety_check_borrow with_x (bytes "x") true).1 ≡ true
unfolding run
may_borrow = refl

borrowed_x : Reachable (safety_mark_borrowed with_x (bytes "x") var_x (bytes "r") true)
borrowed_x =
    next (next (start mode_strict) (declares (safety_context_new mode_strict) (bytes "x")))
      (borrows with_x (bytes "x") (bytes "r") var_x true found_x may_borrow)

-- The analysis goes on from there.
analyzed_x :
    Reachable
      (analyze_stmt_list (safety_mark_borrowed with_x (bytes "x") var_x (bytes "r") true) twice)
analyzed_x =
    next borrowed_x
      (analyzes (safety_mark_borrowed with_x (bytes "x") var_x (bytes "r") true) twice)

Reachable-Exclusive_example : Each (
    (analyze_stmt_list
      (safety_mark_borrowed with_x (bytes "x") var_x (bytes "r") true)
      twice).scopes)
Reachable-Exclusive_example =
    Reachable-Exclusive
      (analyze_stmt_list (safety_mark_borrowed with_x (bytes "x") var_x (bytes "r") true) twice)
      analyzed_x

may_move : (safety_check_move with_x (bytes "x")).1 ≡ true
unfolding run
may_move = refl

safety_check_use-safety_check_move_example :
    safety_check_use (safety_check_move with_x (bytes "x")).0 (bytes "x")
    ≡ failed (safety_check_move with_x (bytes "x")).0 use_after_move
safety_check_use-safety_check_move_example =
    safety_check_use-safety_check_move (bytes "x") with_x var_x found_x refl may_move
