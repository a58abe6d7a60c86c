-- ===== src/LilyBox/Handles.antt =====
-- The state behind the functions of src/sandbox_module.c: the sandboxes by address, the `__ptr` of
-- each handle that `make_box_val` made, and `lk_current_sandbox` of one thread. A handle is its
-- place in `handles`; an argument that is no handle is `none`. `get_box` reads the address from any
-- dictionary of the type with a string `__ptr`; a dictionary that a program builds itself, copies or
-- changes is left out, and so is a second thread, whose current sandbox stays.
use sage_tree.Base.{
  ℕ, Bool, true, false, List, [], ◌∷◌, ◌++◌, Option, none, some, Bytes, length, get_or, set, ◌==◌,
  if◌then◌else◌,
}
use sage_tree.LilyBox.Capability.{LilyBox}
use sage_tree.LilyBox.Manifest.{create}
use sage_tree.LilyBox.Session.{sandbox_check, sandbox_create_restricted}

pub record Session : Type 0 where
  pub boxes : List (Option LilyBox)
  pub handles : List (Option ℕ)
  pub current : Option ℕ
  pub next_id : ℕ

abbrev pub no_session : Session
no_session = record { boxes = []; handles = []; current = none; next_id = 1 }

-- `make_box_val` on a new sandbox.
abbrev pub add_box : Session → LilyBox × ℕ → Session
add_box s (box, next) = record s {
  boxes = s.boxes ++ (some box ∷ []);
  handles = s.handles ++ (some (length s.boxes) ∷ []);
  next_id = next;
}

unfoldable pub sandbox_create : Session → Option Bytes → Option (List Bytes) → Session
sandbox_create s path file = add_box s (create s.next_id path file)

unfoldable pub create_restricted : Session → List (Option Bytes) → Session
create_restricted s args = add_box s (sandbox_create_restricted s.next_id args)

-- `get_box`: the address in the handle.
abbrev pub get_box : Session → Option ℕ → Option ℕ
get_box s none = none
get_box s (some h) = get_or s.handles h none

-- The sandbox at an address, `none` when it is not there any more.
abbrev pub box_at : Session → Option ℕ → Option LilyBox
box_at s none = none
box_at s (some a) = get_or s.boxes a none

unfoldable pub sandbox_enter : Session → Option ℕ → Session × Bool
sandbox_enter s handle = elim (get_box s handle) [
  | none ↦ (s, false)
  | some a ↦ (record s { current = some a }, true)
]

unfoldable pub sandbox_exit : Session → Session
sandbox_exit s = record s { current = none }

unfoldable pub is_sandboxed : Session → Bool
is_sandboxed s = elim s.current [ none ↦ false | some a ↦ true ]

unfoldable pub check : Session → Option ℕ → Option Bytes → Bool
check s handle perm = sandbox_check (box_at s (get_box s handle)) perm

unfoldable pub last_violation : Session → Option Bytes
last_violation s = elim (box_at s s.current) [
  | none ↦ none
  | some box ↦ if box.violation_count == 0 then none else some box.last_violation
]

abbrev pub left_by : Option ℕ → ℕ → Option ℕ
left_by none a = none
left_by (some c) a = if c == a then none else some c

unfoldable pub sandbox_destroy : Session → Option ℕ → Session
sandbox_destroy s none = s
sandbox_destroy s (some h) = elim (get_box s (some h)) [
  | none ↦ s
  | some a ↦ record s {
    current = left_by s.current a;
    boxes = set s.boxes a none;
    handles = set s.handles h none;
  }
]
