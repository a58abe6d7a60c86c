-- ===== src/Safety/Walk.antt =====
-- The walk of src/safety.c over a program. Where the source follows one pointer to a statement, not
-- a list, `analyze_first` takes the first statement of the list.
use sage_tree.Base.{
  Bool, true, false, not, ◌&&◌, ◌||◌, List, [], ◌∷◌, Option, none, some, Bytes, bytes, bytes_eq,
  has_prefix, ltb, if◌then◌else◌,
}
use sage_tree.Ast.{
  Expr, Exprs, null, number, string, boolean, nil, binary, variable, call, array, index, dict,
  tuple, slice, get, set, index_set, await, no_exprs, exprs, Stmt, Stmts, Cases, Catches,
  TypeAnnotation, LetInfo, print, expression, let_stmt, if_stmt, block, while_stmt, proc, for_stmt,
  ret, class_stmt, match_stmt, defer, try_stmt, raise, yield_stmt, async_proc, no_stmts, stmts,
  no_cases, cases, no_catches, catches,
}
use sage_tree.Safety.State.{
  SafetyMode, mode_off, mode_annotated, mode_strict, owned, borrowed, SafetyVar, SafetyContext,
  safety_context_new, safety_push_scope, safety_pop_scope, safety_declare, safety_lookup, newest,
  current_is_safe,
}
use sage_tree.Safety.Checks.{
  safety_check_use, safety_check_move, safety_check_nil_usage, safety_check_send,
}

-- A variable that is given away in safe code is moved.
unfoldable pub move_variable : Expr → SafetyContext → SafetyContext
move_variable (variable name) ctx = elim (safety_lookup ctx name) [
  | none ↦ ctx
  | some v ↦
      if not v.is_copy && current_is_safe ctx.scopes then (safety_check_move ctx name).0 else ctx
]
move_variable _ ctx = ctx

unfoldable pub send_args : Exprs → SafetyContext → SafetyContext
send_args no_exprs ctx = ctx
send_args (exprs (variable name) es) ctx = send_args es (safety_check_send ctx name).0
send_args (exprs e es) ctx = send_args es ctx

unfoldable pub check_spawn : Expr → Exprs → SafetyContext → SafetyContext
check_spawn (variable fn) args ctx =
    if bytes_eq fn (bytes "thread_spawn") || bytes_eq fn (bytes "async")
    then send_args args ctx
    else ctx
check_spawn _ args ctx = ctx

unfoldable mutual
  pub analyze_expr : SafetyContext → Expr → SafetyContext
  analyze_expr ctx (variable name) = (safety_check_use ctx name).0
  analyze_expr ctx (binary op l r) = analyze_expr (analyze_expr ctx l) r
  analyze_expr ctx (call callee args) =
      check_spawn callee args (analyze_args (analyze_expr ctx callee) args)
  analyze_expr ctx (index a i) = analyze_expr (analyze_expr ctx a) i
  analyze_expr ctx (index_set a i v) = analyze_expr (analyze_expr (analyze_expr ctx a) i) v
  analyze_expr ctx (get object property) = analyze_expr ctx object
  analyze_expr ctx (set object property v) =
      move_variable v (analyze_expr (analyze_expr ctx object) v)
  analyze_expr ctx (array elements) = analyze_exprs ctx elements
  analyze_expr ctx (dict keys values) = analyze_exprs ctx values
  analyze_expr ctx (tuple elements) = analyze_exprs ctx elements
  analyze_expr ctx (slice a i j) = analyze_expr (analyze_expr (analyze_expr ctx a) i) j
  analyze_expr ctx (await e) = analyze_expr ctx e
  analyze_expr ctx e = ctx

  pub analyze_exprs : SafetyContext → Exprs → SafetyContext
  analyze_exprs ctx no_exprs = ctx
  analyze_exprs ctx (exprs e es) = analyze_exprs (analyze_expr ctx e) es

  -- The loop over the arguments of a call.
  pub analyze_args : SafetyContext → Exprs → SafetyContext
  analyze_args ctx no_exprs = ctx
  analyze_args ctx (exprs e es) = analyze_args (move_variable e (analyze_expr ctx e)) es

abbrev pub is_copy_type : Bytes → Bool
is_copy_type name =
    bytes_eq name (bytes "Int")
    || (bytes_eq name (bytes "Float")
        || (bytes_eq name (bytes "Bool")
            || (bytes_eq name (bytes "String") || bytes_eq name (bytes "Num"))))

-- The type annotation of a `let`.
unfoldable pub annotate : Option TypeAnnotation → SafetyVar → SafetyVar
annotate none v = v
annotate (some ann) v = record v {
  is_option = v.is_option || ann.is_optional;
  is_copy = v.is_copy || is_copy_type ann.name;
}

abbrev pub is_literal : Expr → Bool
is_literal (number x) = true
is_literal (boolean b) = true
is_literal (string s) = true
is_literal _ = false

abbrev pub check_nil : Expr → SafetyContext → SafetyContext
check_nil nil ctx = if current_is_safe ctx.scopes then (safety_check_nil_usage ctx).0 else ctx
check_nil _ ctx = ctx

-- A `let` moves from the variable of its initializer, unless the new one is copied.
abbrev pub let_moves : Bool → Expr → SafetyContext → SafetyContext
let_moves false (variable name) ctx =
    if current_is_safe ctx.scopes then (safety_check_move ctx name).0 else ctx
let_moves _ _ ctx = ctx

abbrev pub type_is_copy : Option TypeAnnotation → Bool
type_is_copy none = false
type_is_copy (some ann) = is_copy_type ann.name

abbrev pub set_owned : SafetyVar → SafetyVar
set_owned v = record v { state = owned }

abbrev pub set_copy : SafetyVar → SafetyVar
set_copy v = record v { is_copy = true }

unfoldable pub initialize : LetInfo → Expr → SafetyContext → SafetyContext
initialize info null ctx = ctx
initialize info e ctx =
    let ctx1 = newest set_owned (analyze_expr (check_nil e ctx) e) in
    let ctx2 = let_moves (type_is_copy info.type_ann) e ctx1 in
    if is_literal e then newest set_copy ctx2 else ctx2

abbrev pub is_ref : Bytes → Bool
is_ref name = bytes_eq name (bytes "ref")

unfoldable pub param_var : Option TypeAnnotation → SafetyVar → SafetyVar
param_var none v = set_owned v
param_var (some ann) v = record v {
  state = if is_ref ann.name then borrowed else owned;
  is_copy = v.is_copy || (is_ref ann.name || is_copy_type ann.name);
}

-- The loop over the parameters of a procedure, which are declared in order.
unfoldable pub declare_params :
    List Bytes → List (Option TypeAnnotation) → SafetyContext → SafetyContext
declare_params [] types ctx = ctx
declare_params (p ∷ ps) [] ctx =
    declare_params ps [] (newest (param_var none) (safety_declare ctx p))
declare_params (p ∷ ps) (type ∷ types) ctx =
    declare_params ps types (newest (param_var type) (safety_declare ctx p))

-- `strstr(doc, needle) != NULL`
abbrev pub contains : Bytes → Bytes → Bool
contains [] needle = has_prefix [] needle
contains (c ∷ doc) needle = has_prefix (c ∷ doc) needle || contains doc needle

abbrev pub inner : SafetyContext → SafetyContext
inner ctx = safety_push_scope ctx false false

unfoldable mutual
  pub analyze_stmt : SafetyContext → Stmt → SafetyContext
  analyze_stmt ctx (let_stmt name e info) =
      initialize info e (newest (annotate info.type_ann) (safety_declare ctx name))
  analyze_stmt ctx (expression e) = analyze_expr ctx e
  analyze_stmt ctx (print e) = analyze_expr ctx e
  analyze_stmt ctx (if_stmt c t e) = analyze_scope (analyze_scope (analyze_expr ctx c) t) e
  analyze_stmt ctx (while_stmt c body) =
      safety_pop_scope (analyze_first (inner (analyze_expr ctx c)) body)
  analyze_stmt ctx (for_stmt v e body) =
      let ctx1 =
        newest (λ w. set_copy (set_owned w)) (safety_declare (inner (analyze_expr ctx e)) v) in
      safety_pop_scope (analyze_first ctx1 body)
  analyze_stmt ctx (block body) = safety_pop_scope (analyze_stmt_list (inner ctx) body)
  analyze_stmt ctx (proc name ps ds body) =
      let ctx1 = safety_push_scope ctx false (contains ps.doc (bytes "@safe")) in
      safety_pop_scope (analyze_first (declare_params ps.names ps.param_types ctx1) body)
  analyze_stmt ctx (async_proc name ps ds body) =
      let ctx1 = safety_push_scope ctx false (contains ps.doc (bytes "@safe")) in
      safety_pop_scope (analyze_first (declare_params ps.names ps.param_types ctx1) body)
  analyze_stmt ctx (class_stmt name parent methods) = analyze_stmt_list ctx methods
  analyze_stmt ctx (ret e) = analyze_expr ctx e
  analyze_stmt ctx (try_stmt body cs finally) =
      analyze_scope (analyze_catches (safety_pop_scope (analyze_first (inner ctx) body)) cs) finally
  analyze_stmt ctx (raise e) = analyze_expr ctx e
  analyze_stmt ctx (defer s) = analyze_stmt ctx s
  analyze_stmt ctx (match_stmt e cs default) =
      analyze_scope (analyze_cases (analyze_expr ctx e) cs) default
  analyze_stmt ctx (yield_stmt e) = analyze_expr ctx e
  analyze_stmt ctx s = ctx

  -- A branch that is there, in a scope of its own.
  pub analyze_scope : SafetyContext → Stmts → SafetyContext
  analyze_scope ctx no_stmts = ctx
  analyze_scope ctx (stmts s rest) = safety_pop_scope (analyze_stmt (inner ctx) s)

  pub analyze_first : SafetyContext → Stmts → SafetyContext
  analyze_first ctx no_stmts = ctx
  analyze_first ctx (stmts s rest) = analyze_stmt ctx s

  pub analyze_stmt_list : SafetyContext → Stmts → SafetyContext
  analyze_stmt_list ctx no_stmts = ctx
  analyze_stmt_list ctx (stmts s rest) = analyze_stmt_list (analyze_stmt ctx s) rest

  pub analyze_catches : SafetyContext → Catches → SafetyContext
  analyze_catches ctx no_catches = ctx
  analyze_catches ctx (catches v body rest) =
      analyze_catches (safety_pop_scope (analyze_first (safety_declare (inner ctx) v) body)) rest

  pub analyze_cases : SafetyContext → Cases → SafetyContext
  analyze_cases ctx no_cases = ctx
  analyze_cases ctx (cases pattern guard body rest) =
      analyze_cases (safety_pop_scope (analyze_first (analyze_expr (inner ctx) guard) body)) rest

abbrev safety_has_errors : SafetyContext → Bool
safety_has_errors ctx = ltb 0 ctx.error_count

abbrev passes : SafetyMode → Stmts → Bool
passes mode program = not (safety_has_errors (analyze_stmt_list (safety_context_new mode) program))

-- Whether the program passes.
unfoldable pub safety_analyze : SafetyMode → Stmts → Bool
safety_analyze mode_off program = true
safety_analyze mode_annotated program = passes mode_annotated program
safety_analyze mode_strict program = passes mode_strict program
