-- ===== src/Dce/Clean.antt =====
-- What the pass of src/dce.c removes: what cannot be reached, and the definitions that are mentioned
-- nowhere.
use sage_tree.Base.{
  ◌≡◌, refl, inl, inr, Bool, true, false, not, ◌&&◌, List, Bytes, bytes_eq, Bool-cases,
}
use sage_tree.Ast.{Stmt, Stmts, let_stmt, proc, ret, break, continue, no_stmts, stmts}
use sage_tree.Dce.Remove.{has_side_effects, is_terminator, dce_stmt_list, remove_unreachable}

-- A procedure of that name, or a variable of that name whose initializer has no effect.
unfoldable pub defines : Bytes → Stmt → Bool
defines n (proc name ps ds body) = bytes_eq name n
defines n (let_stmt name e info) = bytes_eq name n && not (has_side_effects e)
defines n s = false

-- Nothing can follow a `return`, `break` or `continue`.
unfoldable pub fits_before : Stmt → Stmts → Bool
fits_before s no_stmts = true
fits_before (ret e) (stmts s rest) = false
fits_before break (stmts s rest) = false
fits_before continue (stmts s rest) = false
fits_before s0 (stmts s rest) = true

-- The list does not define the name, and all of it can be reached.
unfoldable pub is_clean : Bytes → Stmts → Bool
is_clean n no_stmts = true
is_clean n (stmts s rest) = (not (defines n s) && fits_before s rest) && is_clean n rest

-- `remove_unreachable` before the loop is the same as the end of the loop at a terminator.
pub dce_stmt_list-remove_unreachable :
    (used : List Bytes) (l : Stmts)
    → dce_stmt_list used (remove_unreachable l) ≡ dce_stmt_list used l
unfolding dce_stmt_list remove_unreachable
dce_stmt_list-remove_unreachable used no_stmts = refl
dce_stmt_list-remove_unreachable used (stmts s rest) = elim (Bool-cases (is_terminator s)) [
  | inl t ↦ rw t refl
  | inr t ↦ rw (t, dce_stmt_list-remove_unreachable used rest) refl
]
