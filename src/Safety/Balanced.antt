-- ===== src/Safety/Balanced.antt =====
-- The analysis of src/safety.c on statements and programs.
use sage_tree.Base.{
  ℕ, ◌≡◌, ◌≢◌, ◌↔◌, refl, true, false, not, List, [], ◌∷◌, bytes, length, ltb, arith,
}
use sage_tree.Ast.{
  Stmt, Stmts, Cases, Catches, Params, print, expression, let_stmt, if_stmt, block, while_stmt,
  proc, for_stmt, ret, class_stmt, match_stmt, defer, try_stmt, raise, yield_stmt, async_proc,
  no_stmts, stmts, no_cases, cases, no_catches, catches,
}
use sage_tree.Safety.State.{
  SafetyMode, mode_off, mode_annotated, mode_strict, SafetyDiagKind, SafetyContext,
  safety_context_new, safety_push_scope, safety_pop_scope,
}
use sage_tree.Safety.Walk.{
  analyze_expr, annotate, set_owned, set_copy, declare_params, contains, inner, analyze_stmt,
  analyze_scope, analyze_first, analyze_stmt_list, analyze_catches, analyze_cases, safety_analyze,
}
use sage_tree.Safety.Goes.{
  Goes, Walks, Walks-Goes, Walks-refl, Walks-trans, newest-Walks, safety_declare-Walks,
  scoped-Walks,
}
use sage_tree.Safety.Reports.{Reports-counts}
use sage_tree.Safety.Walked.{annotate-Spares, expr-Walks, initialize-Walks, declare_params-Walks}

inner-Walks :
    (ctx ctx' : SafetyContext) → Walks (inner ctx) ctx' → Walks ctx (safety_pop_scope ctx')
inner-Walks ctx ctx' h = scoped-Walks ctx ctx' false false h

-- A procedure, from what is known of its body.
proc-Walks :
    (ctx : SafetyContext) (ps : Params) (body : Stmts)
    → ((c : SafetyContext) → Walks c (analyze_first c body))
    → Walks ctx (
        safety_pop_scope (
          analyze_first
            (declare_params ps.names ps.param_types
              (safety_push_scope ctx false (contains ps.doc (bytes "@safe"))))
            body))
proc-Walks ctx ps body first =
    let is_safe = contains ps.doc (bytes "@safe") in
    scoped-Walks ctx _ false is_safe (
      Walks-trans
        (declare_params-Walks ps.names ps.param_types (safety_push_scope ctx false is_safe))
        (first _))

mutual
  unfolding analyze_stmt

  pub stmt-Walks : (ctx : SafetyContext) (s : Stmt) → Walks ctx (analyze_stmt ctx s)
  stmt-Walks ctx (let_stmt name e info) =
      Walks-trans
        (Walks-trans (safety_declare-Walks ctx name)
          (newest-Walks (annotate info.type_ann) _ (annotate-Spares info.type_ann)))
        (initialize-Walks info e _)
  stmt-Walks ctx (expression e) = expr-Walks ctx e
  stmt-Walks ctx (print e) = expr-Walks ctx e
  stmt-Walks ctx (if_stmt c t e) =
      Walks-trans (Walks-trans (expr-Walks ctx c) (scope-Walks _ t)) (scope-Walks _ e)
  stmt-Walks ctx (while_stmt c body) =
      Walks-trans (expr-Walks ctx c) (inner-Walks (analyze_expr ctx c) _ (first-Walks _ body))
  stmt-Walks ctx (for_stmt v e body) = Walks-trans (expr-Walks ctx e) (
      inner-Walks (analyze_expr ctx e) _ (
        Walks-trans
          (Walks-trans (safety_declare-Walks (inner (analyze_expr ctx e)) v) (
            newest-Walks (λ w. set_copy (set_owned w)) _
              (λ v x. record { one = x.one; alone = x.alone })))
          (first-Walks _ body)))
  stmt-Walks ctx (block body) = inner-Walks ctx _ (list-Walks (inner ctx) body)
  stmt-Walks ctx (proc name ps ds body) = proc-Walks ctx ps body (λ c. first-Walks c body)
  stmt-Walks ctx (async_proc name ps ds body) = proc-Walks ctx ps body (λ c. first-Walks c body)
  stmt-Walks ctx (class_stmt name parent methods) = list-Walks ctx methods
  stmt-Walks ctx (ret e) = expr-Walks ctx e
  stmt-Walks ctx (try_stmt body cs finally) =
      Walks-trans
        (Walks-trans (inner-Walks ctx _ (first-Walks (inner ctx) body)) (catches-Walks _ cs))
        (scope-Walks _ finally)
  stmt-Walks ctx (raise e) = expr-Walks ctx e
  stmt-Walks ctx (defer s) = stmt-Walks ctx s
  stmt-Walks ctx (match_stmt e cs default) =
      Walks-trans (Walks-trans (expr-Walks ctx e) (cases-Walks _ cs)) (scope-Walks _ default)
  stmt-Walks ctx (yield_stmt e) = expr-Walks ctx e
  stmt-Walks ctx s = Walks-refl ctx

  scope-Walks : (ctx : SafetyContext) (l : Stmts) → Walks ctx (analyze_scope ctx l)
  scope-Walks ctx no_stmts = Walks-refl ctx
  scope-Walks ctx (stmts s rest) = inner-Walks ctx _ (stmt-Walks (inner ctx) s)

  first-Walks : (ctx : SafetyContext) (l : Stmts) → Walks ctx (analyze_first ctx l)
  first-Walks ctx no_stmts = Walks-refl ctx
  first-Walks ctx (stmts s rest) = stmt-Walks ctx s

  pub list-Walks : (ctx : SafetyContext) (l : Stmts) → Walks ctx (analyze_stmt_list ctx l)
  list-Walks ctx no_stmts = Walks-refl ctx
  list-Walks ctx (stmts s rest) = Walks-trans (stmt-Walks ctx s) (list-Walks _ rest)

  catches-Walks : (ctx : SafetyContext) (cs : Catches) → Walks ctx (analyze_catches ctx cs)
  catches-Walks ctx no_catches = Walks-refl ctx
  catches-Walks ctx (catches v body rest) =
      Walks-trans
        (inner-Walks ctx _ (Walks-trans (safety_declare-Walks (inner ctx) v) (first-Walks _ body)))
        (catches-Walks _ rest)

  cases-Walks : (ctx : SafetyContext) (cs : Cases) → Walks ctx (analyze_cases ctx cs)
  cases-Walks ctx no_cases = Walks-refl ctx
  cases-Walks ctx (cases pattern guard body rest) =
      Walks-trans
        (inner-Walks ctx _ (Walks-trans (expr-Walks (inner ctx) guard) (first-Walks _ body)))
        (cases-Walks _ rest)

-- The analysis of any list of statements leaves the scopes that it found, with their depth and
-- flags, ends in the same mode, keeps the errors that were reported before it, adds its own behind
-- them, and counts each one that it adds.
pub analyze_stmt_list-Goes :
    (ctx : SafetyContext) (program : Stmts) → Goes ctx (analyze_stmt_list ctx program)
analyze_stmt_list-Goes ctx program = Walks-Goes (list-Walks ctx program)

no_errors : (l : List SafetyDiagKind) (n : ℕ) → n ≡ length l → ((not (ltb 0 n)) ≡ true) ↔ (l ≡ [])
no_errors [] n h = (λ k. refl, λ k. ground (arith, h))
no_errors (x ∷ l) n h = (λ k. absurd (ground (arith, h, k)), λ k. cc)

module _ (mode : SafetyMode) (program : Stmts) where
  analyzed : SafetyContext
  analyzed = analyze_stmt_list (safety_context_new mode) program

  counted : analyzed.error_count ≡ length analyzed.diagnostics
  unfolding analyzed safety_context_new safety_push_scope
  counted = Reports-counts (analyze_stmt_list-Goes (safety_context_new mode) program).reports refl

-- Unless it is off, the analysis passes a program exactly when its walk reports no error.
pub safety_analyze_iff :
    (mode : SafetyMode) (program : Stmts)
    → mode ≢ mode_off
    → (safety_analyze mode program ≡ true)
      ↔ ((analyze_stmt_list (safety_context_new mode) program).diagnostics ≡ [])
unfolding safety_analyze analyzed
safety_analyze_iff mode_off program h = absurd (h refl)
safety_analyze_iff mode_annotated program h = no_errors _ _ (counted mode_annotated program)
safety_analyze_iff mode_strict program h = no_errors _ _ (counted mode_strict program)
