-- ===== src/ConstFold/Tests.antt =====
-- Programs on which the pass is run, with whole numbers in the place of doubles.
use sage_tree.Base.{◌≡◌, refl, bytes}
use sage_tree.Lexer.Token.{plus, slash, less}
use sage_tree.Ast.{
  Operator, number, string, nil, binary, variable, Stmts, print, expression, if_stmt, block,
  while_stmt, no_stmts, stmts,
}
use sage_tree.ConstFold.Whole.{whole}
use sage_tree.ConstFold.Fold.{
  fold_expr, fold_binary, fold_literals, fold_numbers, fold_char, fold_strings,
}
use sage_tree.ConstFold.Statements.{fold_stmt, fold_stmt_list, fold_if, fold_while, pass_constfold}
use sage_tree.ConstFold.Same.{Spelled, operator_of}
use sage_tree.ConstFold.Program.{SameList}
use sage_tree.ConstFold.Kept.{pass_constfold-SameList}
use sage_tree.ConstFold.Again.{pass_constfold-twice}

abbrev plus_op : Operator
plus_op = record { type = plus; text = bytes "+" }

abbrev less_op : Operator
less_op = record { type = less; text = bytes "<" }

abbrev slash_op : Operator
slash_op = record { type = slash; text = bytes "/" }

-- `if 2 + 3 < 9: print "a" + "b" else: print x`, then `print 1 / 0`.
abbrev program : Stmts
program =
    stmts
      (if_stmt (binary less_op (binary plus_op (number 2) (number 3)) (number 9))
        (stmts (print (binary plus_op (string (bytes "a")) (string (bytes "b")))) no_stmts)
        (stmts (print (variable (bytes "x"))) no_stmts))
      (stmts (print (binary slash_op (number 1) (number 0))) no_stmts)

program_folded :
    pass_constfold whole program
    ≡ stmts
        (block (stmts (print (string (bytes "ab"))) no_stmts))
        (stmts (print (binary slash_op (number 1) (number 0))) no_stmts)
unfolding pass_constfold fold_stmt_list fold_if fold_expr fold_binary fold_literals fold_numbers
    fold_char fold_strings
program_folded = refl

while_false :
    fold_stmt whole (while_stmt (binary less_op (number 9) (number 2)) no_stmts) ≡ expression nil
unfolding fold_stmt fold_while fold_expr fold_binary fold_literals fold_numbers fold_char
while_false = refl

plus_op-Spelled : Spelled plus_op
unfolding operator_of
plus_op-Spelled type h = cc

less_op-Spelled : Spelled less_op
unfolding operator_of
less_op-Spelled type h = cc

slash_op-Spelled : Spelled slash_op
unfolding operator_of
slash_op-Spelled type h = cc

pass_constfold-SameList_example : SameList whole program (pass_constfold whole program)
pass_constfold-SameList_example = pass_constfold-SameList whole program (
  ((less_op-Spelled, (plus_op-Spelled, tt, tt), tt), ((plus_op-Spelled, tt, tt), tt), (tt, tt)),
  ((slash_op-Spelled, tt, tt), tt),
)

pass_constfold-twice_example :
    pass_constfold whole (pass_constfold whole program) ≡ pass_constfold whole program
pass_constfold-twice_example = pass_constfold-twice whole program
