-- ===== src/Safety/Reports.antt =====
-- The errors that the functions of src/safety.c report, and the frame of the scopes.
use sage_tree.Base.{
  ℕ, ◌+◌, ◌≡◌, refl, ap, ◌∙◌, Bool, List, [], ◌∷◌, ◌++◌, length, arith, length-append,
}
use sage_tree.Safety.State.{SafetyDiagKind, SafetyScope, SafetyContext}

-- What a scope has beside its variables and borrows.
abbrev pub Frame : Type 0
Frame = ℕ × Bool × Bool

abbrev pub frame_of : SafetyScope → Frame
frame_of scope = (scope.depth, scope.is_unsafe, scope.is_safe)

abbrev pub frames : List SafetyScope → List Frame
frames [] = []
frames (scope ∷ scopes) = frame_of scope ∷ frames scopes

-- Errors are added behind those that are there, and counted.
pub record Reports (ctx ctx' : SafetyContext) : Type 0 where
  pub more : List SafetyDiagKind
  pub added : ctx'.diagnostics ≡ ctx.diagnostics ++ more
  pub counted : ctx'.error_count ≡ ctx.error_count + length more
  pub same_mode : ctx'.mode ≡ ctx.mode

append_nil : (l : List SafetyDiagKind) → l ≡ (l ++ [])
append_nil [] = refl
append_nil (x ∷ l) = ap (λ r. x ∷ r) (append_nil l)

append_assoc : (a b c : List SafetyDiagKind) → ((a ++ b) ++ c) ≡ (a ++ (b ++ c))
append_assoc [] b c = refl
append_assoc (x ∷ a) b c = ap (λ r. x ∷ r) (append_assoc a b c)

-- Nothing is reported when only the scopes differ.
pub silent :
    (ctx : SafetyContext) (scopes : List SafetyScope) → Reports ctx (record ctx { scopes = scopes })
silent ctx scopes = record {
  more = [];
  added = append_nil ctx.diagnostics;
  counted = omega arith;
  same_mode = refl;
}

pub Reports-trans : {a b c : SafetyContext} → Reports a b → Reports b c → Reports a c
Reports-trans {a = a} h k = record {
  more = h.more ++ k.more;
  added = k.added ∙ (rw h.added (append_assoc a.diagnostics h.more k.more));
  counted = omega (arith, h.counted, k.counted, length-append h.more k.more);
  same_mode = k.same_mode ∙ h.same_mode;
}

-- The count stays the number of errors.
pub Reports-counts :
    {a b : SafetyContext}
    → Reports a b
    → a.error_count ≡ length a.diagnostics
    → b.error_count ≡ length b.diagnostics
Reports-counts {a = a} {b = b} r h =
    let e : length b.diagnostics ≡ length (a.diagnostics ++ r.more) = ap length r.added in
    omega (arith, r.counted, e, length-append a.diagnostics r.more, h)
