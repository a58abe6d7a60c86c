-- ===== src/Safety/Borrowing.antt =====
-- Every state that a client of src/safety.c reaches keeps mutable borrows apart.
use sage_tree.Base.{
  ℕ, ◌≡◌, refl, ◌∙◌, Bool, true, false, List, [], ◌∷◌, some, Bytes, arith, ltb, if◌then◌else◌,
}
use sage_tree.Ast.{Stmts}
use sage_tree.Safety.State.{
  SafetyMode, SafetyDiagKind, Borrow, SafetyVar, SafetyScope, SafetyContext, safety_emit,
  safety_context_new, safety_push_scope, safety_pop_scope, safety_lookup, safety_declare, pop_of,
  change,
}
use sage_tree.Safety.Checks.{
  is_moved, failed, safety_mark_moved, add_borrow, count_borrow, safety_mark_borrowed,
  safety_check_use, safety_check_move, check_borrow_of, safety_check_borrow, safety_check_nil_usage,
  safety_check_send, safety_check_sync,
}
use sage_tree.Safety.Walk.{analyze_stmt_list}
use sage_tree.Safety.Exclusive.{
  Exclusive, Each, Spares, lookup_scopes-Exclusive, change_scopes-Exclusive, change_scopes-Each,
  lookup-add_borrow, add_borrow-Exclusive,
}
use sage_tree.Safety.Goes.{
  safety_declare-Walks, safety_check_use-Walks, safety_check_move-Walks, safety_mark_moved-Walks,
  safety_check_nil_usage-Walks, safety_check_send-Walks, safety_check_sync-Walks, safety_emit-Walks,
}
use sage_tree.Safety.Balanced.{list-Walks}

-- The functions of include/safety.h that change a context, as a client calls them: a borrow is
-- marked only when the check of it passes, and the walk over statements is one call. What the client
-- writes itself to the variable that `safety_declare` and `safety_lookup` return, leaves the counts
-- of its borrows.
pub data Step : SafetyContext → SafetyContext → Type 0 where
  pushes :
      (ctx : SafetyContext) (is_unsafe is_safe : Bool)
      → Step ctx (safety_push_scope ctx is_unsafe is_safe)
  pops : (ctx : SafetyContext) → Step ctx (safety_pop_scope ctx)
  declares : (ctx : SafetyContext) (name : Bytes) → Step ctx (safety_declare ctx name)
  uses : (ctx : SafetyContext) (name : Bytes) → Step ctx (safety_check_use ctx name).0
  moves : (ctx : SafetyContext) (name : Bytes) → Step ctx (safety_check_move ctx name).0
  moved_to : (ctx : SafetyContext) (name : Bytes) → Step ctx (safety_mark_moved ctx name)
  nils : (ctx : SafetyContext) → Step ctx (safety_check_nil_usage ctx).0
  sends : (ctx : SafetyContext) (name : Bytes) → Step ctx (safety_check_send ctx name).0
  syncs : (ctx : SafetyContext) (name : Bytes) → Step ctx (safety_check_sync ctx name).0
  emits : (ctx : SafetyContext) (kind : SafetyDiagKind) → Step ctx (safety_emit ctx kind)
  writes :
      (ctx : SafetyContext) (name : Bytes) (f : SafetyVar → SafetyVar)
      → ((v : SafetyVar)
          → ((f v).borrow_count ≡ v.borrow_count) × ((f v).mut_borrow_count ≡ v.mut_borrow_count))
      → Step ctx (change f name ctx)
  analyzes : (ctx : SafetyContext) (program : Stmts) → Step ctx (analyze_stmt_list ctx program)
  borrows :
      (ctx : SafetyContext) (name borrower : Bytes) (v : SafetyVar) (is_mutable : Bool)
      → safety_lookup ctx name ≡ some v
      → (safety_check_borrow ctx name is_mutable).1 ≡ true
      → Step ctx (safety_mark_borrowed ctx name v borrower is_mutable)

pub data Reachable : SafetyContext → Type 0 where
  start : (mode : SafetyMode) → Reachable (safety_context_new mode)
  next : {ctx ctx' : SafetyContext} → Reachable ctx → Step ctx ctx' → Reachable ctx'

-- A check that passed did not take the branch that fails.
not_failed :
    (ctx : SafetyContext) (kind : SafetyDiagKind) (b : Bool) (x : SafetyContext × Bool)
    → (if b then failed ctx kind else x).1 ≡ true
    → (b ≡ false) × (x.1 ≡ true)
not_failed ctx kind true x h = cc
not_failed ctx kind false x h = (refl, h)

not_positive : (n : ℕ) → ltb 0 n ≡ false → n ≡ 0
not_positive n h = ground arith

borrow-Exclusive :
    (ctx : SafetyContext) (is_mutable : Bool) (v : SafetyVar)
    → Exclusive v
    → (check_borrow_of ctx is_mutable v).1 ≡ true
    → Exclusive (count_borrow is_mutable v)
unfolding check_borrow_of count_borrow
borrow-Exclusive ctx true v x h =
    let shared = (not_failed ctx _ (is_moved v.state) _ h).1 in
    let (no_shared, unique) = not_failed ctx _ (ltb 0 v.borrow_count) _ shared in
    let no_unique = (not_failed ctx _ (ltb 0 v.mut_borrow_count) _ unique).0 in
    record {
      one = omega (arith, not_positive v.mut_borrow_count no_unique);
      alone = λ k. not_positive v.borrow_count no_shared;
    }
borrow-Exclusive ctx false v x h =
    let unique = (not_failed ctx _ (is_moved v.state) _ h).1 in
    let no_unique = (not_failed ctx _ (ltb 0 v.mut_borrow_count) _ unique).0 in
    let none_yet = not_positive v.mut_borrow_count no_unique in
    record { one = omega (arith, none_yet); alone = λ k. absurd (omega (arith, none_yet, k)) }

pop-Each :
    (l : List SafetyScope) (ctx : SafetyContext)
    → Each l
    → ctx.scopes ≡ l
    → Each (pop_of l ctx).scopes
pop-Each [] ctx h e = rw e h
pop-Each (scope ∷ l) ctx (h, hs) e = hs

mark_borrowed-Each :
    (ctx : SafetyContext) (name borrower : Bytes) (v : SafetyVar) (is_mutable : Bool)
    → Each ctx.scopes
    → safety_lookup ctx name ≡ some v
    → Exclusive (count_borrow is_mutable v)
    → Each (safety_mark_borrowed ctx name v borrower is_mutable).scopes
unfolding safety_mark_borrowed safety_lookup
mark_borrowed-Each ctx name borrower v is_mutable h e x =
    let b : Borrow = record {
      borrower = borrower;
      source = v.name;
      is_mutable = is_mutable;
      lifetime_id = v.lifetime_id;
    } in
    change_scopes-Exclusive name (count_borrow is_mutable) (add_borrow b ctx.scopes) v
      (add_borrow-Exclusive b ctx.scopes h) (lookup-add_borrow name b ctx.scopes ∙ e) x

asked :
    (ctx : SafetyContext) (name : Bytes) (v : SafetyVar) (is_mutable : Bool)
    → safety_lookup ctx name ≡ some v
    → safety_check_borrow ctx name is_mutable ≡ check_borrow_of ctx is_mutable v
unfolding safety_check_borrow
asked ctx name v is_mutable found = rw (safety_check_borrow, found) refl

-- A write that leaves the counts of borrows.
counts-Spares :
    (f : SafetyVar → SafetyVar)
    → ((v : SafetyVar)
        → ((f v).borrow_count ≡ v.borrow_count) × ((f v).mut_borrow_count ≡ v.mut_borrow_count))
    → Spares f
counts-Spares f same v x = record {
  one = rw ((same v).1) x.one;
  alone = λ k. (same v).0 ∙ x.alone (rw (← (same v).1) k);
}

Step-Each : (ctx ctx' : SafetyContext) → Step ctx ctx' → Each ctx.scopes → Each ctx'.scopes
unfolding safety_push_scope safety_pop_scope safety_lookup
Step-Each ctx ctx' (pushes _ is_unsafe is_safe) h = (tt, h)
Step-Each ctx ctx' (pops _) h = pop-Each ctx.scopes ctx h refl
Step-Each ctx ctx' (declares _ name) h = (safety_declare-Walks ctx name).kept_apart h
Step-Each ctx ctx' (uses _ name) h = (safety_check_use-Walks ctx name).kept_apart h
Step-Each ctx ctx' (moves _ name) h = (safety_check_move-Walks ctx name).kept_apart h
Step-Each ctx ctx' (moved_to _ name) h = (safety_mark_moved-Walks ctx name).kept_apart h
Step-Each ctx ctx' (nils _) h = (safety_check_nil_usage-Walks ctx).kept_apart h
Step-Each ctx ctx' (sends _ name) h = (safety_check_send-Walks ctx name).kept_apart h
Step-Each ctx ctx' (syncs _ name) h = (safety_check_sync-Walks ctx name).kept_apart h
Step-Each ctx ctx' (emits _ kind) h = (safety_emit-Walks ctx kind).kept_apart h
Step-Each ctx ctx' (writes _ name f same) h =
    change_scopes-Each f name ctx.scopes (counts-Spares f same) h
Step-Each ctx ctx' (analyzes _ program) h = (list-Walks ctx program).kept_apart h
Step-Each ctx ctx' (borrows _ name borrower v is_mutable found passes) h =
    let passes_too : (check_borrow_of ctx is_mutable v).1 ≡ true =
      rw (← asked ctx name v is_mutable found) passes in
    mark_borrowed-Each ctx name borrower v is_mutable h found (
      borrow-Exclusive ctx is_mutable v (lookup_scopes-Exclusive name ctx.scopes v h found)
        passes_too)

-- Whatever functions of include/safety.h a client calls, and whatever programs it has analyzed, as
-- long as it marks a borrow only when the check of it passes and does not write the counts of
-- borrows itself, every variable of every scope has at most one mutable borrow, and with one no
-- other.
pub Reachable-Exclusive : (ctx : SafetyContext) → Reachable ctx → Each ctx.scopes
unfolding safety_context_new safety_push_scope
Reachable-Exclusive ctx (start mode) = (tt, tt)
Reachable-Exclusive ctx (next {ctx = before} reached step) =
    Step-Each before ctx step (Reachable-Exclusive before reached)
