-- ===== src/Safety/Checks.antt =====
-- The checks of src/safety.c. Each returns the context and whether it passed.
use sage_tree.Base.{
  ◌+◌, Bool, true, false, ◌||◌, List, [], ◌∷◌, Option, none, some, Bytes, ltb, if◌then◌else◌,
}
use sage_tree.Safety.State.{
  OwnershipState, owned, moved, borrowed, mut_borrow, uninitialized, SafetyDiagKind, use_after_move,
  double_move, borrow_while_mutably_borrowed, mut_borrow_while_borrowed, multiple_mut_borrows,
  nil_in_safe_context, not_send, not_sync, uninitialized_use, Borrow, SafetyVar, SafetyScope,
  SafetyContext, safety_emit, safety_lookup, change, current_is_safe, is_strict,
}

abbrev pub is_moved : OwnershipState → Bool
is_moved moved = true
is_moved _ = false

abbrev pub is_uninitialized : OwnershipState → Bool
is_uninitialized uninitialized = true
is_uninitialized _ = false

abbrev pub passed : SafetyContext → SafetyContext × Bool
passed ctx = (ctx, true)

abbrev pub failed : SafetyContext → SafetyDiagKind → SafetyContext × Bool
failed ctx kind = (safety_emit ctx kind, false)

-- A variable that is not known passes every check.
abbrev pub on_var :
    SafetyContext → Option SafetyVar → (SafetyVar → SafetyContext × Bool) → SafetyContext × Bool
on_var ctx none f = passed ctx
on_var ctx (some v) f = f v

unfoldable pub safety_mark_moved : SafetyContext → Bytes → SafetyContext
safety_mark_moved ctx name = change (λ v. record v { state = moved }) name ctx

unfoldable pub add_borrow : Borrow → List SafetyScope → List SafetyScope
add_borrow b [] = []
add_borrow b (scope ∷ scopes) = record scope { borrows = b ∷ scope.borrows } ∷ scopes

abbrev pub borrowed_state : OwnershipState → OwnershipState
borrowed_state owned = borrowed
borrowed_state s = s

unfoldable pub count_borrow : Bool → SafetyVar → SafetyVar
count_borrow true v = record v { mut_borrow_count = v.mut_borrow_count + 1; state = mut_borrow }
count_borrow false v = record v {
  borrow_count = v.borrow_count + 1;
  state = borrowed_state v.state;
}

-- `var` is the variable that the name finds.
unfoldable pub safety_mark_borrowed :
    SafetyContext → Bytes → SafetyVar → Bytes → Bool → SafetyContext
safety_mark_borrowed ctx name v borrower is_mutable =
    let b : Borrow = record {
      borrower = borrower;
      source = v.name;
      is_mutable = is_mutable;
      lifetime_id = v.lifetime_id;
    } in
    change (count_borrow is_mutable) name (record ctx { scopes = add_borrow b ctx.scopes })

unfoldable pub check_use_of : SafetyContext → SafetyVar → SafetyContext × Bool
check_use_of ctx v =
    if is_moved v.state
    then failed ctx use_after_move
    else if is_uninitialized v.state
    then failed ctx uninitialized_use
    else passed ctx

unfoldable pub safety_check_use : SafetyContext → Bytes → SafetyContext × Bool
safety_check_use ctx name = on_var ctx (safety_lookup ctx name) (λ v. check_use_of ctx v)

unfoldable pub check_move_of : SafetyContext → Bytes → SafetyVar → SafetyContext × Bool
check_move_of ctx name v =
    if v.is_copy
    then passed ctx
    else if is_moved v.state
    then failed ctx double_move
    else if ltb 0 v.borrow_count || ltb 0 v.mut_borrow_count
    then failed ctx borrow_while_mutably_borrowed
    else passed (safety_mark_moved ctx name)

unfoldable pub safety_check_move : SafetyContext → Bytes → SafetyContext × Bool
safety_check_move ctx name = on_var ctx (safety_lookup ctx name) (λ v. check_move_of ctx name v)

unfoldable pub check_borrow_of : SafetyContext → Bool → SafetyVar → SafetyContext × Bool
check_borrow_of ctx true v =
    if is_moved v.state
    then failed ctx use_after_move
    else if ltb 0 v.borrow_count
    then failed ctx mut_borrow_while_borrowed
    else if ltb 0 v.mut_borrow_count
    then failed ctx multiple_mut_borrows
    else passed ctx
check_borrow_of ctx false v =
    if is_moved v.state
    then failed ctx use_after_move
    else if ltb 0 v.mut_borrow_count
    then failed ctx borrow_while_mutably_borrowed
    else passed ctx

unfoldable pub safety_check_borrow : SafetyContext → Bytes → Bool → SafetyContext × Bool
safety_check_borrow ctx name is_mutable =
    on_var ctx (safety_lookup ctx name) (λ v. check_borrow_of ctx is_mutable v)

unfoldable pub safety_check_nil_usage : SafetyContext → SafetyContext × Bool
safety_check_nil_usage ctx =
    if is_strict ctx.mode || current_is_safe ctx.scopes
    then failed ctx nil_in_safe_context
    else passed ctx

unfoldable pub safety_check_send : SafetyContext → Bytes → SafetyContext × Bool
safety_check_send ctx name =
    on_var ctx (safety_lookup ctx name) (λ v. if v.is_send then passed ctx else failed ctx not_send)

unfoldable pub safety_check_sync : SafetyContext → Bytes → SafetyContext × Bool
safety_check_sync ctx name =
    on_var ctx (safety_lookup ctx name) (λ v. if v.is_sync then passed ctx else failed ctx not_sync)
