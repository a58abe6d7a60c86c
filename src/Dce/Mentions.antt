-- ===== src/Dce/Mentions.antt =====
-- Where a name can stand in an expression of a program, whether src/dce.c looks there or not: as a
-- variable, after a dot, after `super`, and in the text of an interpolated string.
use sage_tree.Base.{◌≡◌, refl, Bool, true, false, ◌||◌, [], ◌∷◌, Bytes, bytes_eq, has_prefix}
use sage_tree.Ast.{
  Expr, Exprs, binary, variable, call, array, index, dict, tuple, slice, get, set, index_set, await,
  super_expr, comptime, force_unwrap, propagate, nullcoal, optchain, range, interp, no_exprs, exprs,
  Stmt, Stmts, Cases, Catches, print, expression, let_stmt, if_stmt, block, while_stmt, proc,
  for_stmt, ret, class_stmt, match_stmt, defer, try_stmt, raise, yield_stmt, async_proc, trait_stmt,
  impl_stmt, comptime_stmt, macro_def, annotated_block, spawn_stmt, no_stmts, stmts, no_cases,
  cases, no_catches, catches,
}
use sage_tree.Dce.Reads.{
  reads_expr, reads_exprs, reads_stmt, reads_list, reads_cases, reads_catches,
}
use sage_tree.Dce.Safe.{or_mono}

-- The text holds the name.
unfoldable pub occurs_in : Bytes → Bytes → Bool
occurs_in [] n = has_prefix [] n
occurs_in (c ∷ text) n = has_prefix (c ∷ text) n || occurs_in text n

module _ (n : Bytes) where
  unfoldable mutual
    pub mentions_expr : Expr → Bool
    mentions_expr (variable name) = bytes_eq name n
    mentions_expr (binary op l r) = mentions_expr l || mentions_expr r
    mentions_expr (call callee args) = mentions_expr callee || mentions_exprs args
    mentions_expr (array elements) = mentions_exprs elements
    mentions_expr (index a i) = mentions_expr a || mentions_expr i
    mentions_expr (index_set a i v) = mentions_expr a || (mentions_expr i || mentions_expr v)
    mentions_expr (dict keys values) = mentions_exprs values
    mentions_expr (tuple elements) = mentions_exprs elements
    mentions_expr (slice a i j) = mentions_expr a || (mentions_expr i || mentions_expr j)
    mentions_expr (get object property) = mentions_expr object || bytes_eq property n
    mentions_expr (set object property v) =
        (mentions_expr object || mentions_expr v) || bytes_eq property n
    mentions_expr (await e) = mentions_expr e
    mentions_expr (super_expr method) = bytes_eq method n
    mentions_expr (comptime e) = mentions_expr e
    mentions_expr (force_unwrap e) = mentions_expr e
    mentions_expr (propagate e) = mentions_expr e
    mentions_expr (nullcoal l r) = mentions_expr l || mentions_expr r
    mentions_expr (optchain object property) = mentions_expr object || bytes_eq property n
    mentions_expr (range l r inclusive) = mentions_expr l || mentions_expr r
    mentions_expr (interp text) = occurs_in text n
    mentions_expr e = false

    pub mentions_exprs : Exprs → Bool
    mentions_exprs no_exprs = false
    mentions_exprs (exprs e es) = mentions_expr e || mentions_exprs es

  unfoldable mutual
    pub mentions_stmt : Stmt → Bool
    mentions_stmt (print e) = mentions_expr e
    mentions_stmt (expression e) = mentions_expr e
    mentions_stmt (let_stmt name e info) = mentions_expr e
    mentions_stmt (if_stmt c t e) = mentions_expr c || (mentions_list t || mentions_list e)
    mentions_stmt (block body) = mentions_list body
    mentions_stmt (while_stmt c body) = mentions_expr c || mentions_list body
    mentions_stmt (proc name ps ds body) = mentions_list body || mentions_exprs ds
    mentions_stmt (for_stmt v e body) = mentions_expr e || mentions_list body
    mentions_stmt (ret e) = mentions_expr e
    mentions_stmt (class_stmt name parent methods) = mentions_list methods
    mentions_stmt (match_stmt e cs default) =
        mentions_expr e || (mentions_cases cs || mentions_list default)
    mentions_stmt (try_stmt body cs finally) =
        mentions_list body || (mentions_catches cs || mentions_list finally)
    mentions_stmt (raise e) = mentions_expr e
    mentions_stmt (yield_stmt e) = mentions_expr e
    mentions_stmt (defer s) = mentions_stmt s
    mentions_stmt (async_proc name ps ds body) = mentions_list body || mentions_exprs ds
    mentions_stmt (trait_stmt name methods) = mentions_list methods
    mentions_stmt (impl_stmt name methods) = mentions_list methods
    mentions_stmt (comptime_stmt body) = mentions_list body
    mentions_stmt (macro_def name ps body) = mentions_list body
    mentions_stmt (annotated_block annotation name body) = mentions_list body
    mentions_stmt (spawn_stmt body) = mentions_list body
    mentions_stmt s = false

    pub mentions_list : Stmts → Bool
    mentions_list no_stmts = false
    mentions_list (stmts s rest) = mentions_stmt s || mentions_list rest

    pub mentions_cases : Cases → Bool
    mentions_cases no_cases = false
    mentions_cases (cases pattern guard body rest) =
        (mentions_expr pattern || (mentions_list body || mentions_cases rest))
        || mentions_expr guard

    pub mentions_catches : Catches → Bool
    mentions_catches no_catches = false
    mentions_catches (catches v body rest) = mentions_list body || mentions_catches rest

  or_left : (a b : Bool) → a ≡ true → (a || b) ≡ true
  or_left true b h = refl
  or_left false b h = cc

  -- What is read is mentioned.
  mutual
    unfolding reads_expr mentions_expr

    expr-mentions : (e : Expr) → reads_expr n e ≡ true → mentions_expr e ≡ true
    expr-mentions (variable name) h = h
    expr-mentions (binary op l r) h = or_mono _ _ _ _ (expr-mentions l) (expr-mentions r) h
    expr-mentions (call callee args) h =
        or_mono _ _ _ _ (expr-mentions callee) (exprs-mentions args) h
    expr-mentions (array elements) h = exprs-mentions elements h
    expr-mentions (index a i) h = or_mono _ _ _ _ (expr-mentions a) (expr-mentions i) h
    expr-mentions (index_set a i v) h =
        or_mono _ _ _ _ (expr-mentions a) (or_mono _ _ _ _ (expr-mentions i) (expr-mentions v)) h
    expr-mentions (dict keys values) h = exprs-mentions values h
    expr-mentions (tuple elements) h = exprs-mentions elements h
    expr-mentions (slice a i j) h =
        or_mono _ _ _ _ (expr-mentions a) (or_mono _ _ _ _ (expr-mentions i) (expr-mentions j)) h
    expr-mentions (get object property) h = or_left _ _ (expr-mentions object h)
    expr-mentions (set object property v) h =
        or_left _ _ (or_mono _ _ _ _ (expr-mentions object) (expr-mentions v) h)
    expr-mentions e h = cc

    exprs-mentions : (es : Exprs) → reads_exprs n es ≡ true → mentions_exprs es ≡ true
    exprs-mentions no_exprs h = h
    exprs-mentions (exprs e es) h = or_mono _ _ _ _ (expr-mentions e) (exprs-mentions es) h

  mutual
    unfolding reads_stmt mentions_stmt

    stmt-mentions : (s : Stmt) → reads_stmt n s ≡ true → mentions_stmt s ≡ true
    stmt-mentions (print e) h = expr-mentions e h
    stmt-mentions (expression e) h = expr-mentions e h
    stmt-mentions (let_stmt name e info) h = expr-mentions e h
    stmt-mentions (if_stmt c t e) h =
        or_mono _ _ _ _ (expr-mentions c) (or_mono _ _ _ _ (list-mentions t) (list-mentions e)) h
    stmt-mentions (block body) h = list-mentions body h
    stmt-mentions (while_stmt c body) h = or_mono _ _ _ _ (expr-mentions c) (list-mentions body) h
    stmt-mentions (proc name ps ds body) h = or_left _ _ (list-mentions body h)
    stmt-mentions (for_stmt v e body) h = or_mono _ _ _ _ (expr-mentions e) (list-mentions body) h
    stmt-mentions (ret e) h = expr-mentions e h
    stmt-mentions (class_stmt name parent methods) h = list-mentions methods h
    stmt-mentions (match_stmt e cs default) h =
        or_mono _ _ _ _ (expr-mentions e)
          (or_mono _ _ _ _ (cases-mentions cs) (list-mentions default)) h
    stmt-mentions (try_stmt body cs finally) h =
        or_mono _ _ _ _ (list-mentions body)
          (or_mono _ _ _ _ (catches-mentions cs) (list-mentions finally)) h
    stmt-mentions (raise e) h = expr-mentions e h
    stmt-mentions (yield_stmt e) h = expr-mentions e h
    stmt-mentions (defer s) h = stmt-mentions s h
    stmt-mentions s h = cc

    pub list-mentions : (l : Stmts) → reads_list n l ≡ true → mentions_list l ≡ true
    list-mentions no_stmts h = h
    list-mentions (stmts s rest) h = or_mono _ _ _ _ (stmt-mentions s) (list-mentions rest) h

    cases-mentions : (cs : Cases) → reads_cases n cs ≡ true → mentions_cases cs ≡ true
    cases-mentions no_cases h = h
    cases-mentions (cases pattern guard body rest) h = or_left _ _ (
        or_mono _ _ _ _ (expr-mentions pattern)
          (or_mono _ _ _ _ (list-mentions body) (cases-mentions rest)) h)

    catches-mentions : (cs : Catches) → reads_catches n cs ≡ true → mentions_catches cs ≡ true
    catches-mentions no_catches h = h
    catches-mentions (catches v body rest) h =
        or_mono _ _ _ _ (list-mentions body) (catches-mentions rest) h
