-- ===== src/Safety/Goes.antt =====
-- What every operation of src/safety.c keeps: the scopes but for their variables, the errors that
-- are there, and their count.
use sage_tree.Base.{
  ℕ, ◌≡◌, refl, ◌∙◌, inl, inr, Bool, true, false, ◌||◌, List, [], ◌∷◌, Option, none, some, Bytes,
  arith, Option-cases, leb, ltb, if◌then◌else◌,
}
use sage_tree.Safety.State.{
  SafetyDiagKind, dangling_reference, not_send, not_sync, moved, Borrow, SafetyVar, SafetyScope,
  SafetyContext, safety_emit, safety_push_scope, safety_pop_scope, find_var, safety_lookup,
  change_scopes, change, newest, newest_in, declare_in, safety_declare, check_borrows, pop_of,
  new_scope, current_is_safe, is_strict,
}
use sage_tree.Safety.Exclusive.{Each, Spares, change_scopes-Each, newest_in-Each, declare_in-Each}
use sage_tree.Safety.Checks.{
  is_moved, is_uninitialized, passed, failed, on_var, safety_mark_moved, check_use_of,
  safety_check_use, check_move_of, safety_check_move, safety_check_nil_usage, safety_check_send,
  safety_check_sync,
}
use sage_tree.Safety.Reports.{Frame, frame_of, frames, Reports, silent, Reports-trans}

-- The scopes keep their frames, and errors are only added.
pub record Goes (ctx ctx' : SafetyContext) : Type 0 where
  pub same_frames : frames ctx'.scopes ≡ frames ctx.scopes
  pub reports : Reports ctx ctx'

-- In addition borrows that are apart stay so.
pub record Walks (ctx ctx' : SafetyContext) : Type 0 where
  pub same_frames : frames ctx'.scopes ≡ frames ctx.scopes
  pub reports : Reports ctx ctx'
  pub kept_apart : Each ctx.scopes → Each ctx'.scopes

pub Walks-Goes : {ctx ctx' : SafetyContext} → Walks ctx ctx' → Goes ctx ctx'
Walks-Goes w = record { same_frames = w.same_frames; reports = w.reports }

pub Walks-refl : (ctx : SafetyContext) → Walks ctx ctx
Walks-refl ctx = record {
  same_frames = refl;
  reports = silent ctx ctx.scopes;
  kept_apart = λ apart. apart;
}

pub Walks-trans : {a b c : SafetyContext} → Walks a b → Walks b c → Walks a c
Walks-trans h k = record {
  same_frames = k.same_frames ∙ h.same_frames;
  reports = Reports-trans h.reports k.reports;
  kept_apart = λ apart. k.kept_apart (h.kept_apart apart);
}

pub to_scopes :
    (ctx : SafetyContext) (scopes : List SafetyScope)
    → frames scopes ≡ frames ctx.scopes
    → (Each ctx.scopes → Each scopes)
    → Walks ctx (record ctx { scopes = scopes })
to_scopes ctx scopes h k = record { same_frames = h; reports = silent ctx scopes; kept_apart = k }

pub safety_emit-Walks :
    (ctx : SafetyContext) (kind : SafetyDiagKind) → Walks ctx (safety_emit ctx kind)
unfolding safety_emit
safety_emit-Walks ctx kind = record {
  same_frames = refl;
  reports = record { more = kind ∷ []; added = refl; counted = omega arith; same_mode = refl };
  kept_apart = λ apart. apart;
}

frames-change_scopes :
    (f : SafetyVar → SafetyVar) (name : Bytes) (l : List SafetyScope)
    → frames (change_scopes f name l) ≡ frames l
unfolding change_scopes
frames-change_scopes f name [] = refl
frames-change_scopes f name (scope ∷ scopes) =
    let ih = frames-change_scopes f name scopes in
    elim (Option-cases (find_var name scope.vars)) [
      | inl e ↦ rw (change_scopes, e, ih) refl
      | inr (v, e) ↦ rw (change_scopes, e) refl
    ]

pub change-Walks :
    (f : SafetyVar → SafetyVar) (name : Bytes) (ctx : SafetyContext)
    → Spares f
    → Walks ctx (change f name ctx)
change-Walks f name ctx h =
    to_scopes ctx (change_scopes f name ctx.scopes) (frames-change_scopes f name ctx.scopes)
      (change_scopes-Each f name ctx.scopes h)

frames-newest_in :
    (f : SafetyVar → SafetyVar) (l : List SafetyScope) → frames (newest_in f l) ≡ frames l
frames-newest_in f [] = refl
frames-newest_in f (scope ∷ scopes) = refl

pub newest-Walks :
    (f : SafetyVar → SafetyVar) (ctx : SafetyContext) → Spares f → Walks ctx (newest f ctx)
newest-Walks f ctx h =
    to_scopes ctx (newest_in f ctx.scopes) (frames-newest_in f ctx.scopes)
      (newest_in-Each f ctx.scopes h)

frames-declare_in : (name : Bytes) (l : List SafetyScope) → frames (declare_in name l) ≡ frames l
unfolding declare_in
frames-declare_in name [] = refl
frames-declare_in name (scope ∷ scopes) = refl

pub safety_declare-Walks :
    (ctx : SafetyContext) (name : Bytes) → Walks ctx (safety_declare ctx name)
unfolding safety_declare
safety_declare-Walks ctx name =
    to_scopes ctx (declare_in name ctx.scopes) (frames-declare_in name ctx.scopes)
      (declare_in-Each name ctx.scopes)

pub choose-Walks :
    (ctx : SafetyContext) (b : Bool) (x y : SafetyContext × Bool)
    → Walks ctx x.0
    → Walks ctx y.0
    → Walks ctx (if b then x else y).0
choose-Walks ctx true x y h k = h
choose-Walks ctx false x y h k = k

pub pick-Walks :
    (ctx : SafetyContext) (b : Bool) (x y : SafetyContext)
    → Walks ctx x
    → Walks ctx y
    → Walks ctx (if b then x else y)
pick-Walks ctx true x y h k = h
pick-Walks ctx false x y h k = k

-- A check of the variable that a name finds.
look-Walks :
    (ctx : SafetyContext) (o : Option SafetyVar) (f : SafetyVar → SafetyContext × Bool)
    → ((v : SafetyVar) → Walks ctx (f v).0)
    → Walks ctx (on_var ctx o f).0
look-Walks ctx none f h = Walks-refl ctx
look-Walks ctx (some v) f h = h v

pub safety_check_use-Walks :
    (ctx : SafetyContext) (name : Bytes) → Walks ctx (safety_check_use ctx name).0
unfolding safety_check_use check_use_of
safety_check_use-Walks ctx name = look-Walks ctx (safety_lookup ctx name) (check_use_of ctx) (λ v.
    choose-Walks ctx (is_moved v.state) _ _ (safety_emit-Walks ctx _)
      (choose-Walks ctx (is_uninitialized v.state) _ _ (safety_emit-Walks ctx _) (Walks-refl ctx)))

pub safety_mark_moved-Walks :
    (ctx : SafetyContext) (name : Bytes) → Walks ctx (safety_mark_moved ctx name)
unfolding safety_mark_moved
safety_mark_moved-Walks ctx name =
    change-Walks (λ w. record w { state = moved }) name ctx
      (λ v x. record { one = x.one; alone = x.alone })

pub safety_check_move-Walks :
    (ctx : SafetyContext) (name : Bytes) → Walks ctx (safety_check_move ctx name).0
unfolding safety_check_move check_move_of safety_mark_moved
safety_check_move-Walks ctx name =
    look-Walks ctx (safety_lookup ctx name) (check_move_of ctx name) (λ v.
      choose-Walks ctx v.is_copy _ _ (Walks-refl ctx) (
        choose-Walks ctx (is_moved v.state) _ _ (safety_emit-Walks ctx _) (
          choose-Walks ctx (ltb 0 v.borrow_count || ltb 0 v.mut_borrow_count) _ _
            (safety_emit-Walks ctx _) (safety_mark_moved-Walks ctx name))))

pub safety_check_nil_usage-Walks : (ctx : SafetyContext) → Walks ctx (safety_check_nil_usage ctx).0
unfolding safety_check_nil_usage
safety_check_nil_usage-Walks ctx =
    choose-Walks ctx (is_strict ctx.mode || current_is_safe ctx.scopes) _ _
      (safety_emit-Walks ctx _) (Walks-refl ctx)

pub safety_check_send-Walks :
    (ctx : SafetyContext) (name : Bytes) → Walks ctx (safety_check_send ctx name).0
unfolding safety_check_send
safety_check_send-Walks ctx name =
    look-Walks ctx (safety_lookup ctx name)
      (λ v. if v.is_send then passed ctx else failed ctx not_send)
      (λ v. choose-Walks ctx v.is_send _ _ (Walks-refl ctx) (safety_emit-Walks ctx _))

pub safety_check_sync-Walks :
    (ctx : SafetyContext) (name : Bytes) → Walks ctx (safety_check_sync ctx name).0
unfolding safety_check_sync
safety_check_sync-Walks ctx name =
    look-Walks ctx (safety_lookup ctx name)
      (λ v. if v.is_sync then passed ctx else failed ctx not_sync)
      (λ v. choose-Walks ctx v.is_sync _ _ (Walks-refl ctx) (safety_emit-Walks ctx _))

dangling-Walks :
    (depth : ℕ) (ctx : SafetyContext) (o : Option SafetyVar)
    → Walks ctx (elim o [
      | none ↦ ctx
      | some v ↦ if leb depth v.scope_depth then safety_emit ctx dangling_reference else ctx
    ])
dangling-Walks depth ctx none = Walks-refl ctx
dangling-Walks depth ctx (some v) =
    pick-Walks ctx (leb depth v.scope_depth) _ _ (safety_emit-Walks ctx _) (Walks-refl ctx)

check_borrows-Walks :
    (depth : ℕ) (bs : List Borrow) (ctx : SafetyContext) → Walks ctx (check_borrows depth bs ctx)
unfolding check_borrows
check_borrows-Walks depth [] ctx = Walks-refl ctx
check_borrows-Walks depth (b ∷ bs) ctx =
    Walks-trans (dangling-Walks depth ctx (safety_lookup ctx b.source))
      (check_borrows-Walks depth bs _)

-- What is done in a scope of its own.
pop_of-Walks :
    (ctx ctx' : SafetyContext) (frame : Frame) (l : List SafetyScope)
    → frames l ≡ (frame ∷ frames ctx.scopes)
    → (Each ctx.scopes → Each l)
    → Reports ctx ctx'
    → Walks ctx (pop_of l ctx')
pop_of-Walks ctx ctx' frame [] h apart r = cc
pop_of-Walks ctx ctx' frame (scope ∷ scopes) h apart r = record {
  same_frames = cc;
  reports = Reports-trans r (
      Reports-trans (check_borrows-Walks scope.depth scope.borrows ctx').reports
        (silent (check_borrows scope.depth scope.borrows ctx') scopes));
  kept_apart = λ before. (apart before).1;
}

pub scoped-Walks :
    (ctx ctx' : SafetyContext) (is_unsafe is_safe : Bool)
    → Walks (safety_push_scope ctx is_unsafe is_safe) ctx'
    → Walks ctx (safety_pop_scope ctx')
unfolding safety_push_scope safety_pop_scope
scoped-Walks ctx ctx' is_unsafe is_safe h =
    let new = new_scope ctx.scopes is_unsafe is_safe in
    pop_of-Walks ctx ctx' (frame_of new) ctx'.scopes h.same_frames
      (λ before. h.kept_apart (tt, before))
      (Reports-trans (silent ctx (new ∷ ctx.scopes)) h.reports)
