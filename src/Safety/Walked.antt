-- ===== src/Safety/Walked.antt =====
-- The walk of src/safety.c leaves the scopes as it found them and only adds errors.
use sage_tree.Base.{
  inl, inr, Bool, true, false, not, ◌&&◌, ◌||◌, List, [], ◌∷◌, Option, none, some, Bytes, bytes,
  bytes_eq, Option-cases, if◌then◌else◌,
}
use sage_tree.Ast.{
  Expr, Exprs, null, nil, variable, binary, call, array, index, dict, tuple, slice, get, set,
  index_set, await, no_exprs, exprs, TypeAnnotation, LetInfo,
}
use sage_tree.Safety.State.{SafetyContext, safety_lookup, newest, current_is_safe}
use sage_tree.Safety.Exclusive.{Spares}
use sage_tree.Safety.Walk.{
  annotate, move_variable, send_args, check_spawn, analyze_expr, analyze_exprs, analyze_args,
  check_nil, let_moves, type_is_copy, is_literal, set_owned, set_copy, initialize, param_var,
  declare_params,
}
use sage_tree.Safety.Goes.{
  Walks, Walks-refl, Walks-trans, pick-Walks, newest-Walks, safety_declare-Walks,
  safety_check_use-Walks, safety_check_move-Walks, safety_check_nil_usage-Walks,
  safety_check_send-Walks,
}

set_owned-Spares : Spares set_owned
set_owned-Spares v x = record { one = x.one; alone = x.alone }

pub annotate-Spares : (ann : Option TypeAnnotation) → Spares (annotate ann)
unfolding annotate
annotate-Spares none v x = x
annotate-Spares (some ann) v x = record { one = x.one; alone = x.alone }

param_var-Spares : (type : Option TypeAnnotation) → Spares (param_var type)
unfolding param_var
param_var-Spares none v x = set_owned-Spares v x
param_var-Spares (some ann) v x = record { one = x.one; alone = x.alone }

move_variable-Walks : (e : Expr) (ctx : SafetyContext) → Walks ctx (move_variable e ctx)
unfolding move_variable
move_variable-Walks (variable name) ctx = elim (Option-cases (safety_lookup ctx name)) [
  | inl h ↦ rw (move_variable, h) (Walks-refl ctx)
  | inr (v, h) ↦
      rw (move_variable, h)
        (pick-Walks ctx (not v.is_copy && current_is_safe ctx.scopes) _ _
          (safety_check_move-Walks ctx name) (Walks-refl ctx))
]
move_variable-Walks e ctx = Walks-refl ctx

send_args-Walks : (es : Exprs) (ctx : SafetyContext) → Walks ctx (send_args es ctx)
unfolding send_args
send_args-Walks no_exprs ctx = Walks-refl ctx
send_args-Walks (exprs (variable name) es) ctx =
    Walks-trans (safety_check_send-Walks ctx name) (send_args-Walks es _)
send_args-Walks (exprs e es) ctx = send_args-Walks es ctx

check_spawn-Walks :
    (e : Expr) (args : Exprs) (ctx : SafetyContext) → Walks ctx (check_spawn e args ctx)
unfolding check_spawn
check_spawn-Walks (variable fn) args ctx =
    pick-Walks ctx (bytes_eq fn (bytes "thread_spawn") || bytes_eq fn (bytes "async")) _ _
      (send_args-Walks args ctx) (Walks-refl ctx)
check_spawn-Walks e args ctx = Walks-refl ctx

mutual
  unfolding analyze_expr

  pub expr-Walks : (ctx : SafetyContext) (e : Expr) → Walks ctx (analyze_expr ctx e)
  expr-Walks ctx (variable name) = safety_check_use-Walks ctx name
  expr-Walks ctx (binary op l r) = Walks-trans (expr-Walks ctx l) (expr-Walks _ r)
  expr-Walks ctx (call callee args) =
      Walks-trans (Walks-trans (expr-Walks ctx callee) (args-Walks _ args))
        (check_spawn-Walks callee args _)
  expr-Walks ctx (index a i) = Walks-trans (expr-Walks ctx a) (expr-Walks _ i)
  expr-Walks ctx (index_set a i v) =
      Walks-trans (Walks-trans (expr-Walks ctx a) (expr-Walks _ i)) (expr-Walks _ v)
  expr-Walks ctx (get object property) = expr-Walks ctx object
  expr-Walks ctx (set object property v) =
      Walks-trans (Walks-trans (expr-Walks ctx object) (expr-Walks _ v)) (move_variable-Walks v _)
  expr-Walks ctx (array elements) = exprs-Walks ctx elements
  expr-Walks ctx (dict keys values) = exprs-Walks ctx values
  expr-Walks ctx (tuple elements) = exprs-Walks ctx elements
  expr-Walks ctx (slice a i j) =
      Walks-trans (Walks-trans (expr-Walks ctx a) (expr-Walks _ i)) (expr-Walks _ j)
  expr-Walks ctx (await e) = expr-Walks ctx e
  expr-Walks ctx e = Walks-refl ctx

  exprs-Walks : (ctx : SafetyContext) (es : Exprs) → Walks ctx (analyze_exprs ctx es)
  exprs-Walks ctx no_exprs = Walks-refl ctx
  exprs-Walks ctx (exprs e es) = Walks-trans (expr-Walks ctx e) (exprs-Walks _ es)

  args-Walks : (ctx : SafetyContext) (es : Exprs) → Walks ctx (analyze_args ctx es)
  args-Walks ctx no_exprs = Walks-refl ctx
  args-Walks ctx (exprs e es) =
      Walks-trans (Walks-trans (expr-Walks ctx e) (move_variable-Walks e _)) (args-Walks _ es)

check_nil-Walks : (e : Expr) (ctx : SafetyContext) → Walks ctx (check_nil e ctx)
check_nil-Walks nil ctx =
    pick-Walks ctx (current_is_safe ctx.scopes) _ _ (safety_check_nil_usage-Walks ctx)
      (Walks-refl ctx)
check_nil-Walks e ctx = Walks-refl ctx

let_moves-Walks : (b : Bool) (e : Expr) (ctx : SafetyContext) → Walks ctx (let_moves b e ctx)
let_moves-Walks false (variable name) ctx =
    pick-Walks ctx (current_is_safe ctx.scopes) _ _ (safety_check_move-Walks ctx name)
      (Walks-refl ctx)
let_moves-Walks true (variable name) ctx = Walks-refl ctx
let_moves-Walks b e ctx = Walks-refl ctx

initialized-Walks :
    (info : LetInfo) (e : Expr) (ctx : SafetyContext)
    → Walks ctx (
        let ctx1 = newest set_owned (analyze_expr (check_nil e ctx) e) in
        let ctx2 = let_moves (type_is_copy info.type_ann) e ctx1 in
        if is_literal e then newest set_copy ctx2 else ctx2)
initialized-Walks info e ctx =
    let first =
      Walks-trans (Walks-trans (check_nil-Walks e ctx) (expr-Walks (check_nil e ctx) e))
        (newest-Walks set_owned (analyze_expr (check_nil e ctx) e) set_owned-Spares) in
    let then_moves = Walks-trans first (
      let_moves-Walks (type_is_copy info.type_ann) e
        (newest set_owned (analyze_expr (check_nil e ctx) e))) in
    pick-Walks ctx (is_literal e) _ _
      (Walks-trans then_moves
        (newest-Walks set_copy _ (λ v x. record { one = x.one; alone = x.alone })))
      then_moves

pub initialize-Walks :
    (info : LetInfo) (e : Expr) (ctx : SafetyContext) → Walks ctx (initialize info e ctx)
unfolding initialize
initialize-Walks info null ctx = Walks-refl ctx
initialize-Walks info e ctx = initialized-Walks info e ctx

pub declare_params-Walks :
    (ps : List Bytes) (types : List (Option TypeAnnotation)) (ctx : SafetyContext)
    → Walks ctx (declare_params ps types ctx)
unfolding declare_params
declare_params-Walks [] types ctx = Walks-refl ctx
declare_params-Walks (p ∷ ps) [] ctx =
    Walks-trans
      (Walks-trans (safety_declare-Walks ctx p)
        (newest-Walks (param_var none) _ (param_var-Spares none)))
      (declare_params-Walks ps [] _)
declare_params-Walks (p ∷ ps) (type ∷ types) ctx =
    Walks-trans
      (Walks-trans (safety_declare-Walks ctx p)
        (newest-Walks (param_var type) _ (param_var-Spares type)))
      (declare_params-Walks ps types _)
