-- ===== src/Dce/Tests.antt =====
-- Programs from which dead code is removed.
use sage_tree.Base.{◌≡◌, refl, true, false, none, [], bytes}
use sage_tree.Ast.{
  Params, LetInfo, number, variable, call, get, interp, no_exprs, Stmts, print, expression,
  let_stmt, proc, ret, class_stmt, no_stmts, stmts,
}
use sage_tree.Dce.Names.{nameset_has, nameset_add}
use sage_tree.Dce.Used.{collect_used_names_expr, collect_used_names_list, collect_used_names_stmt}
use sage_tree.Dce.Remove.{
  has_side_effects, is_terminator, keep, dce_stmt_body, dce_stmt_list, pass_dce,
}
use sage_tree.Dce.Reads.{reads_list, reads_stmt, reads_expr}
use sage_tree.Dce.Safe.{binds, binds_stmt, pass_dce-binds}
use sage_tree.Dce.Mentions.{occurs_in, mentions_expr, mentions_stmt, mentions_list}

abbrev no_params : Params
no_params = record { names = []; param_types = []; required_count = 0; doc = []; type_params = [] }

abbrev plain : LetInfo
plain = record { type_ann = none; is_mutable = false }

-- The tests unfold the pass.
run : Unit {0}
unfolding nameset_has nameset_add collect_used_names_expr collect_used_names_stmt has_side_effects
    is_terminator keep dce_stmt_body pass_dce reads_stmt reads_expr binds binds_stmt occurs_in
    mentions_expr mentions_stmt
run = tt

-- `let x = 1`, `let y = 2`, `print x`, `return x`, `print y`
abbrev program : Stmts
program = stmts (let_stmt (bytes "x") (number 1) plain) (
    stmts (let_stmt (bytes "y") (number 2) plain) (
      stmts (print (variable (bytes "x")))
        (stmts (ret (variable (bytes "x"))) (stmts (print (variable (bytes "x"))) no_stmts))))

program_dce :
    pass_dce program
    ≡ stmts
        (let_stmt (bytes "x") (number 1) plain)
        (stmts (print (variable (bytes "x"))) (stmts (ret (variable (bytes "x"))) no_stmts))
unfolding run
program_dce = refl

-- `let x = 1`, `print "{x}"`: an interpolated string is not read, and the variable is lost.
interp_loses :
    pass_dce (
      stmts (let_stmt (bytes "x") (number 1) plain) (stmts (print (interp (bytes "{x}"))) no_stmts))
    ≡ stmts (print (interp (bytes "{x}"))) no_stmts
unfolding run
interp_loses = refl

-- `class Dog` with a method `speak`, and `d.speak()`: the method is lost.
abbrev methods : Stmts
methods = stmts (proc (bytes "speak") no_params no_exprs no_stmts) no_stmts

abbrev dog : Stmts
dog =
    stmts (class_stmt (bytes "Dog") [] methods)
      (stmts (expression (call (get (variable (bytes "d")) (bytes "speak")) no_exprs)) no_stmts)

dog_loses :
    pass_dce dog
    ≡ stmts
        (class_stmt (bytes "Dog") [] no_stmts)
        (stmts (expression (call (get (variable (bytes "d")) (bytes "speak")) no_exprs)) no_stmts)
unfolding run
dog_loses = refl

reads_x : reads_list (bytes "x") (pass_dce program) ≡ true
unfolding run
reads_x = refl

pass_dce-binds_example :
    binds (bytes "x") (dce_stmt_list (collect_used_names_list [] program) program)
    ≡ binds (bytes "x") program
pass_dce-binds_example = pass_dce-binds program (bytes "x") reads_x program

-- The method that `dog` loses is mentioned there, after a dot.
speak_mentioned : mentions_list (bytes "speak") dog ≡ true
unfolding run
speak_mentioned = refl
