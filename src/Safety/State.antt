-- ===== src/Safety/State.antt =====
-- The context of the analysis of include/safety.h, its scopes and variables. A pointer to a
-- variable is its name, which names the variable that `safety_lookup` finds; the scopes are a list,
-- the current one first. Left out are the lines, names and messages that only diagnostics print,
-- the regions, which nothing adds, and the fields that are written but never read.
use sage_tree.Base.{
  ℕ, ◌+◌, Bool, true, false, ◌||◌, List, [], ◌∷◌, ◌++◌, Option, none, some, Bytes, bytes_eq, leb,
  if◌then◌else◌,
}

-- `SafetyMode`
pub data SafetyMode : Type 0 where
  mode_off mode_annotated mode_strict : SafetyMode

-- `OwnershipState`
pub data OwnershipState : Type 0 where
  owned moved borrowed mut_borrow partial uninitialized : OwnershipState

-- `SafetyDiagKind`
pub data SafetyDiagKind : Type 0 where
  use_after_move double_move borrow_while_mutably_borrowed mut_borrow_while_borrowed :
      SafetyDiagKind
  multiple_mut_borrows dangling_reference lifetime_expired nil_in_safe_context : SafetyDiagKind
  unwrap_without_check unsafe_in_safe_context not_send not_sync : SafetyDiagKind
  uninitialized_use partial_move : SafetyDiagKind

-- `Borrow`
pub record Borrow : Type 0 where
  pub borrower : Bytes
  pub source : Bytes
  pub is_mutable : Bool
  pub lifetime_id : ℕ

-- `SafetyVar`
pub record SafetyVar : Type 0 where
  pub name : Bytes
  pub state : OwnershipState
  pub is_option : Bool
  pub is_send : Bool
  pub is_sync : Bool
  pub is_copy : Bool
  pub borrow_count : ℕ
  pub mut_borrow_count : ℕ
  pub scope_depth : ℕ
  pub lifetime_id : ℕ

-- `SafetyScope`
pub record SafetyScope : Type 0 where
  pub vars : List SafetyVar
  pub borrows : List Borrow
  pub depth : ℕ
  pub is_unsafe : Bool
  pub is_safe : Bool
  pub next_lifetime_id : ℕ

-- `SafetyContext`: the scopes, the current one first, and the kinds of the errors, the first one
-- first.
pub record SafetyContext : Type 0 where
  pub mode : SafetyMode
  pub scopes : List SafetyScope
  pub diagnostics : List SafetyDiagKind
  pub error_count : ℕ

-- `safety_emit` with SAFETY_ERROR, the only level that is used.
unfoldable pub safety_emit : SafetyContext → SafetyDiagKind → SafetyContext
safety_emit ctx kind = record ctx {
  diagnostics = ctx.diagnostics ++ (kind ∷ []);
  error_count = ctx.error_count + 1;
}

abbrev pub current_is_safe : List SafetyScope → Bool
current_is_safe [] = false
current_is_safe (scope ∷ scopes) = scope.is_safe

abbrev current_is_unsafe : List SafetyScope → Bool
current_is_unsafe [] = false
current_is_unsafe (scope ∷ scopes) = scope.is_unsafe

abbrev next_depth : List SafetyScope → ℕ
next_depth [] = 0
next_depth (scope ∷ scopes) = scope.depth + 1

abbrev next_lifetime : List SafetyScope → ℕ
next_lifetime [] = 1
next_lifetime (scope ∷ scopes) = scope.next_lifetime_id

abbrev pub new_scope : List SafetyScope → Bool → Bool → SafetyScope
new_scope scopes is_unsafe is_safe = record {
  vars = [];
  borrows = [];
  depth = next_depth scopes;
  is_unsafe = is_unsafe || current_is_unsafe scopes;
  is_safe = is_safe || current_is_safe scopes;
  next_lifetime_id = next_lifetime scopes;
}

unfoldable pub safety_push_scope : SafetyContext → Bool → Bool → SafetyContext
safety_push_scope ctx is_unsafe is_safe = record ctx {
  scopes = new_scope ctx.scopes is_unsafe is_safe ∷ ctx.scopes;
}

abbrev pub is_strict : SafetyMode → Bool
is_strict mode_strict = true
is_strict _ = false

unfoldable pub safety_context_new : SafetyMode → SafetyContext
safety_context_new mode =
    safety_push_scope (record { mode = mode; scopes = []; diagnostics = []; error_count = 0 }) false
      (is_strict mode)

unfoldable pub find_var : Bytes → List SafetyVar → Option SafetyVar
find_var name [] = none
find_var name (v ∷ vs) = if bytes_eq v.name name then some v else find_var name vs

unfoldable pub lookup_scopes : Bytes → List SafetyScope → Option SafetyVar
lookup_scopes name [] = none
lookup_scopes name (scope ∷ scopes) = elim (find_var name scope.vars) [
  | some v ↦ some v
  | none ↦ lookup_scopes name scopes
]

unfoldable pub safety_lookup : SafetyContext → Bytes → Option SafetyVar
safety_lookup ctx name = lookup_scopes name ctx.scopes

-- A write through the pointer that `safety_lookup` returns.
unfoldable pub change_var : (SafetyVar → SafetyVar) → Bytes → List SafetyVar → List SafetyVar
change_var f name [] = []
change_var f name (v ∷ vs) = if bytes_eq v.name name then (f v ∷ vs) else (v ∷ change_var f name vs)

unfoldable pub change_scopes : (SafetyVar → SafetyVar) → Bytes → List SafetyScope → List SafetyScope
change_scopes f name [] = []
change_scopes f name (scope ∷ scopes) =
    let outer = scope ∷ change_scopes f name scopes in
    elim (find_var name scope.vars) [
      | some v ↦ (record scope { vars = change_var f name scope.vars } ∷ scopes)
      | none ↦ outer
    ]

abbrev pub change : (SafetyVar → SafetyVar) → Bytes → SafetyContext → SafetyContext
change f name ctx = record ctx { scopes = change_scopes f name ctx.scopes }

-- A write through the pointer to the variable that has been declared last.
abbrev pub change_newest : (SafetyVar → SafetyVar) → List SafetyVar → List SafetyVar
change_newest f [] = []
change_newest f (v ∷ vs) = f v ∷ vs

abbrev pub newest_in : (SafetyVar → SafetyVar) → List SafetyScope → List SafetyScope
newest_in f [] = []
newest_in f (scope ∷ scopes) = record scope { vars = change_newest f scope.vars } ∷ scopes

abbrev pub newest : (SafetyVar → SafetyVar) → SafetyContext → SafetyContext
newest f ctx = record ctx { scopes = newest_in f ctx.scopes }

abbrev pub new_var : Bytes → SafetyScope → SafetyVar
new_var name scope = record {
  name = name;
  state = uninitialized;
  is_option = false;
  is_send = true;
  is_sync = false;
  is_copy = false;
  borrow_count = 0;
  mut_borrow_count = 0;
  scope_depth = scope.depth;
  lifetime_id = scope.next_lifetime_id;
}

unfoldable pub declare_in : Bytes → List SafetyScope → List SafetyScope
declare_in name [] = []
declare_in name (scope ∷ scopes) =
    record scope {
      vars = new_var name scope ∷ scope.vars;
      next_lifetime_id = scope.next_lifetime_id + 1;
    }
    ∷ scopes

unfoldable pub safety_declare : SafetyContext → Bytes → SafetyContext
safety_declare ctx name = record ctx { scopes = declare_in name ctx.scopes }

-- The loop over the borrows of the scope that ends.
unfoldable pub check_borrows : ℕ → List Borrow → SafetyContext → SafetyContext
check_borrows depth [] ctx = ctx
check_borrows depth (b ∷ bs) ctx = check_borrows depth bs (elim (safety_lookup ctx b.source) [
  | none ↦ ctx
  | some v ↦ if leb depth v.scope_depth then safety_emit ctx dangling_reference else ctx
])

abbrev borrows_of : SafetyScope → SafetyContext → SafetyContext
borrows_of scope ctx = check_borrows scope.depth scope.borrows ctx

abbrev pub pop_of : List SafetyScope → SafetyContext → SafetyContext
pop_of [] ctx = ctx
pop_of (scope ∷ scopes) ctx = record (borrows_of scope ctx) { scopes = scopes }

unfoldable pub safety_pop_scope : SafetyContext → SafetyContext
safety_pop_scope ctx = pop_of ctx.scopes ctx

unfoldable pub safety_in_unsafe : SafetyContext → Bool
safety_in_unsafe ctx = current_is_unsafe ctx.scopes
