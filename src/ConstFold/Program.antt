-- ===== src/ConstFold/Program.antt =====
-- When two programs mean the same, by the interpreter's rules for `if` and `while`.
use sage_tree.Base.{◌≡◌, Bool, true, false, List, some, Bytes}
use sage_tree.Ast.{
  Expr, Exprs, nil, Params, LetInfo, Stmt, Stmts, Cases, Catches, print, expression, let_stmt,
  if_stmt, block, while_stmt, proc, for_stmt, ret, class_stmt, match_stmt, try_stmt, raise,
  yield_stmt, no_stmts, stmts, no_cases, cases, no_catches, catches,
}
use sage_tree.ConstFold.Doubles.{Doubles}
use sage_tree.ConstFold.Value.{Value, eval_literal, is_truthy}
use sage_tree.ConstFold.Same.{Same, AllSpelled}

-- All the operators at which the pass arrives have the text of their type.
abbrev mutual
  pub StmtSpelled : Stmt → Type 0
  StmtSpelled (print e) = AllSpelled e
  StmtSpelled (expression e) = AllSpelled e
  StmtSpelled (let_stmt name e info) = AllSpelled e
  StmtSpelled (if_stmt cond t e) = AllSpelled cond × ListSpelled t × ListSpelled e
  StmtSpelled (block body) = ListSpelled body
  StmtSpelled (while_stmt cond body) = AllSpelled cond × ListSpelled body
  StmtSpelled (proc name params defaults body) = ListSpelled body
  StmtSpelled (for_stmt v iterable body) = AllSpelled iterable × ListSpelled body
  StmtSpelled (ret e) = AllSpelled e
  StmtSpelled (class_stmt name parent methods) = ListSpelled methods
  StmtSpelled (match_stmt e cs default) = AllSpelled e × CasesSpelled cs × ListSpelled default
  StmtSpelled (try_stmt body cs finally) =
      ListSpelled body × CatchesSpelled cs × ListSpelled finally
  StmtSpelled (raise e) = AllSpelled e
  StmtSpelled (yield_stmt e) = AllSpelled e
  StmtSpelled s = Unit

  pub ListSpelled : Stmts → Type 0
  ListSpelled no_stmts = Unit
  ListSpelled (stmts s rest) = StmtSpelled s × ListSpelled rest

  pub CasesSpelled : Cases → Type 0
  CasesSpelled no_cases = Unit
  CasesSpelled (cases pattern guard body rest) =
      AllSpelled pattern × ListSpelled body × CasesSpelled rest

  pub CatchesSpelled : Catches → Type 0
  CatchesSpelled no_catches = Unit
  CatchesSpelled (catches v body rest) = ListSpelled body × CatchesSpelled rest

module _ (f : Doubles) where
  -- The expression means a literal with that truth.
  pub record Known (e : Expr) (truth : Bool) : Type 0 where
    pub literal : Expr
    pub value : Value
    pub means : Same f e literal
    pub evaluates : eval_literal literal ≡ some value
    pub is_so : is_truthy f value ≡ truth

  -- One program becomes the other when operators on literals are computed, an `if` with a known
  -- condition is replaced by the branch that is taken, and a `while` with a false one by nil.
  mutual
    pub data SameStmt : Stmt → Stmt → Type 0 where
      unchanged : (s : Stmt) → SameStmt s s
      takes_then :
          {c : Expr} {t t' : Stmts} (e : Stmts)
          → Known c true
          → SameList t t'
          → SameStmt (if_stmt c t e) (block t')
      takes_else :
          {c : Expr} (t : Stmts) {e e' : Stmts}
          → Known c false
          → SameList e e'
          → SameStmt (if_stmt c t e) (block e')
      takes_none :
          {c : Expr} (t : Stmts) → Known c false → SameStmt (if_stmt c t no_stmts) (expression nil)
      never_loops :
          {c : Expr} (body : Stmts) → Known c false → SameStmt (while_stmt c body) (expression nil)
      in_print : {e e' : Expr} → Same f e e' → SameStmt (print e) (print e')
      in_expression : {e e' : Expr} → Same f e e' → SameStmt (expression e) (expression e')
      in_let :
          (name : Bytes) {e e' : Expr} (info : LetInfo)
          → Same f e e'
          → SameStmt (let_stmt name e info) (let_stmt name e' info)
      in_if :
          {c c' : Expr} {t t' e e' : Stmts}
          → Same f c c'
          → SameList t t'
          → SameList e e'
          → SameStmt (if_stmt c t e) (if_stmt c' t' e')
      in_block : {b b' : Stmts} → SameList b b' → SameStmt (block b) (block b')
      in_while :
          {c c' : Expr} {b b' : Stmts}
          → Same f c c'
          → SameList b b'
          → SameStmt (while_stmt c b) (while_stmt c' b')
      in_proc :
          (name : Bytes) (ps : Params) (ds : Exprs) {b b' : Stmts}
          → SameList b b'
          → SameStmt (proc name ps ds b) (proc name ps ds b')
      in_for :
          (v : Bytes) {e e' : Expr} {b b' : Stmts}
          → Same f e e'
          → SameList b b'
          → SameStmt (for_stmt v e b) (for_stmt v e' b')
      in_return : {e e' : Expr} → Same f e e' → SameStmt (ret e) (ret e')
      in_class :
          (name : Bytes) (parent : List Bytes) {b b' : Stmts}
          → SameList b b'
          → SameStmt (class_stmt name parent b) (class_stmt name parent b')
      in_match :
          {e e' : Expr} {cs cs' : Cases} {d d' : Stmts}
          → Same f e e'
          → SameCases cs cs'
          → SameList d d'
          → SameStmt (match_stmt e cs d) (match_stmt e' cs' d')
      in_try :
          {b b' : Stmts} {cs cs' : Catches} {d d' : Stmts}
          → SameList b b'
          → SameCatches cs cs'
          → SameList d d'
          → SameStmt (try_stmt b cs d) (try_stmt b' cs' d')
      in_raise : {e e' : Expr} → Same f e e' → SameStmt (raise e) (raise e')
      in_yield : {e e' : Expr} → Same f e e' → SameStmt (yield_stmt e) (yield_stmt e')

    pub data SameList : Stmts → Stmts → Type 0 where
      list_end : SameList no_stmts no_stmts
      list_next :
          {s s' : Stmt} {l l' : Stmts}
          → SameStmt s s'
          → SameList l l'
          → SameList (stmts s l) (stmts s' l')

    pub data SameCases : Cases → Cases → Type 0 where
      cases_end : SameCases no_cases no_cases
      cases_next :
          {p p' : Expr} (g : Expr) {b b' : Stmts} {cs cs' : Cases}
          → Same f p p'
          → SameList b b'
          → SameCases cs cs'
          → SameCases (cases p g b cs) (cases p' g b' cs')

    pub data SameCatches : Catches → Catches → Type 0 where
      catches_end : SameCatches no_catches no_catches
      catches_next :
          (v : Bytes) {b b' : Stmts} {cs cs' : Catches}
          → SameList b b'
          → SameCatches cs cs'
          → SameCatches (catches v b cs) (catches v b' cs')
