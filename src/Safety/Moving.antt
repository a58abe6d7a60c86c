-- ===== src/Safety/Moving.antt =====
-- A moved variable of src/safety.c cannot be used.
use sage_tree.Base.{
  ◌≡◌, refl, sym, ◌∙◌, inl, inr, Bool, true, false, ◌||◌, List, [], ◌∷◌, some, Bytes, bytes_eq,
  Bool-cases, Option-cases, ltb, if◌then◌else◌,
}
use sage_tree.Safety.State.{
  SafetyDiagKind, use_after_move, moved, SafetyVar, SafetyScope, SafetyContext, find_var,
  lookup_scopes, safety_lookup, change_var, change_scopes,
}
use sage_tree.Safety.Checks.{
  is_moved, passed, failed, safety_mark_moved, safety_check_use, check_use_of, check_move_of,
  safety_check_move,
}
use sage_tree.Safety.Exclusive.{lookup_here, lookup_later}

abbrev to_moved : SafetyVar → SafetyVar
to_moved v = record v { state = moved }

if_passed :
    (ctx : SafetyContext) (kind : SafetyDiagKind) (b : Bool) (x : SafetyContext × Bool)
    → (if b then failed ctx kind else x).1 ≡ true
    → ((if b then failed ctx kind else x) ≡ x) × (x.1 ≡ true)
if_passed ctx kind true x h = cc
if_passed ctx kind false x h = (refl, h)

if_moved :
    (b : Bool) (x y : SafetyContext × Bool)
    → b ≡ false
    → (if b then x else y).1 ≡ true
    → ((if b then x else y) ≡ y) × (y.1 ≡ true)
if_moved true x y h k = cc
if_moved false x y h k = (refl, k)

module _ (name : Bytes) where
  find_var-change_var :
      (vs : List SafetyVar) (v : SafetyVar)
      → find_var name vs ≡ some v
      → find_var name (change_var to_moved name vs) ≡ some (to_moved v)
  unfolding find_var change_var
  find_var-change_var [] v e = cc
  find_var-change_var (w ∷ vs) v e = elim (Bool-cases (bytes_eq w.name name)) [
    | inl k ↦
        let found : find_var name (w ∷ vs) ≡ some w = rw (find_var, k) refl in
        let same : w ≡ v = cc (found, e) in rw (change_var, k, find_var, k, same) refl
    | inr k ↦
        let later : find_var name (w ∷ vs) ≡ find_var name vs = rw (find_var, k) refl in
        rw (change_var, k, find_var, k) (find_var-change_var vs v (sym later ∙ e))
  ]

  lookup-change_scopes :
      (l : List SafetyScope) (v : SafetyVar)
      → lookup_scopes name l ≡ some v
      → lookup_scopes name (change_scopes to_moved name l) ≡ some (to_moved v)
  unfolding change_scopes lookup_scopes
  lookup-change_scopes [] v e = cc
  lookup-change_scopes (scope ∷ l) v e = elim (Option-cases (find_var name scope.vars)) [
    | inl k ↦
        rw (change_scopes, k, lookup_scopes, k)
          (lookup-change_scopes l v (sym (lookup_later name scope l k) ∙ e))
    | inr (w, k) ↦
        let same : w ≡ v = cc (lookup_here name scope l w k, e) in
        let now = find_var-change_var scope.vars w k in
        rw (change_scopes, k, lookup_scopes, now, same) refl
  ]

  looked_up :
      (ctx : SafetyContext) (v : SafetyVar)
      → safety_lookup ctx name ≡ some v
      → safety_check_move ctx name ≡ check_move_of ctx name v
  unfolding safety_check_move
  looked_up ctx v found = rw (safety_check_move, found) refl

  passed_move :
      (ctx : SafetyContext) (v : SafetyVar)
      → v.is_copy ≡ false
      → (check_move_of ctx name v).1 ≡ true
      → check_move_of ctx name v ≡ passed (safety_mark_moved ctx name)
  unfolding check_move_of
  passed_move ctx v moves passes =
      let is_borrowed = ltb 0 v.borrow_count || ltb 0 v.mut_borrow_count in
      let first = if_moved v.is_copy _ _ moves passes in
      let (skips, second) = if_passed ctx _ (is_moved v.state) _ first.1 in
      first.0 ∙ skips ∙ (if_passed ctx _ is_borrowed _ second).0

  marked :
      (ctx : SafetyContext) (v : SafetyVar)
      → safety_lookup ctx name ≡ some v
      → safety_lookup (safety_mark_moved ctx name) name ≡ some (to_moved v)
  unfolding safety_lookup safety_mark_moved
  marked ctx v found = lookup-change_scopes ctx.scopes v found

  fails :
      (ctx : SafetyContext) (v : SafetyVar)
      → safety_lookup ctx name ≡ some (to_moved v)
      → safety_check_use ctx name ≡ failed ctx use_after_move
  unfolding safety_check_use check_use_of
  fails ctx v found = rw (safety_check_use, found) refl

  -- When the move of a variable that is known and not copied passes, a use of its name in the
  -- context that the move leaves fails with the error of a use after a move.
  pub safety_check_use-safety_check_move :
      (ctx : SafetyContext) (v : SafetyVar)
      → safety_lookup ctx name ≡ some v
      → v.is_copy ≡ false
      → (safety_check_move ctx name).1 ≡ true
      → safety_check_use (safety_check_move ctx name).0 name
        ≡ failed (safety_check_move ctx name).0 use_after_move
  safety_check_use-safety_check_move ctx v found moves passes =
      let same = looked_up ctx v found in
      let passes_too : (check_move_of ctx name v).1 ≡ true = rw (← same) passes in
      let done : safety_check_move ctx name ≡ passed (safety_mark_moved ctx name) =
        same ∙ passed_move ctx v moves passes_too in
      rw done (fails (safety_mark_moved ctx name) v (marked ctx v found))
