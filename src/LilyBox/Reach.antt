-- ===== src/LilyBox/Reach.antt =====
-- What holds of every session that calls of the sandbox module lead to.
use sage_tree.Base.{
  ℕ, zero, suc, ◌<◌, ◌≡◌, ◌∙◌, refl, sym, ◌⊎◌, inl, inr, true, false, List, [], ◌∷◌, ◌++◌, Option,
  none, some, Bytes, length, length-append, length-set, get_or, set, get_or-set, ◌==◌, ==_iff,
  if◌then◌else◌, arith, Option-cases, Bool-cases,
}
use sage_tree.LilyBox.Capability.{LilyBox}
use sage_tree.LilyBox.Manifest.{create}
use sage_tree.LilyBox.Session.{sandbox_check, sandbox_create_restricted}
use sage_tree.LilyBox.Handles.{
  Session, no_session, add_box, sandbox_create, create_restricted, sandbox_enter, sandbox_exit,
  left_by, sandbox_destroy, check,
}

-- The calls that change a session, each with a handle that the module returned.
pub data Reachable : Session → Type 0 where
  start : Reachable no_session
  by_create :
      {s : Session} (path : Option Bytes) (file : Option (List Bytes))
      → Reachable s
      → Reachable (sandbox_create s path file)
  by_restricted :
      {s : Session} (args : List (Option Bytes))
      → Reachable s
      → Reachable (create_restricted s args)
  by_enter : {s : Session} (handle : Option ℕ) → Reachable s → Reachable (sandbox_enter s handle).0
  by_exit : {s : Session} → Reachable s → Reachable (sandbox_exit s)
  by_destroy :
      {s : Session} (handle : Option ℕ) → Reachable s → Reachable (sandbox_destroy s handle)

-- The sandbox at the address is there.
abbrev pub Lives : Session → ℕ → Type 0
Lives s a = (box : LilyBox) × (get_or s.boxes a none ≡ some box)

-- The handle `h` that is valid has the address `h`, and the sandbox there is not destroyed; nor is
-- the current one.
pub record IsSound (s : Session) : Type 0 where
  pub paired : length s.handles ≡ length s.boxes
  pub held : (h a : ℕ) → get_or s.handles h none ≡ some a → (a ≡ h) × Lives s a
  pub entered : (a : ℕ) → s.current ≡ some a → Lives s a

module _ {A : Type 0} where
  get_or-some : (xs : List (Option A)) (i : ℕ) {x : A} → get_or xs i none ≡ some x → i < length xs
  get_or-some [] i h = cc
  get_or-some (y ∷ xs) zero h = omega arith
  get_or-some (y ∷ xs) (suc i) h = omega (arith, get_or-some xs i h)

  -- What is read after an item is put at the end.
  get_or-append :
      (xs : List (Option A)) (x : Option A) (i : ℕ)
      → get_or (xs ++ x ∷ []) i none ≡ (if i == length xs then x else get_or xs i none)
  get_or-append [] x zero = refl
  get_or-append [] x (suc i) = ground arith
  get_or-append (y ∷ xs) x zero = ground arith
  get_or-append (y ∷ xs) x (suc i) = ground (arith, get_or-append xs x i)

module _ (s : Session) (sound : IsSound s) where
  -- A new sandbox and its handle.
  module _ (b : LilyBox × ℕ) where
    Lives-add_box : (a : ℕ) → Lives s a → Lives (add_box s b) a
    Lives-add_box a (box, e) =
        let lt = get_or-some s.boxes a e in
        (box, get_or-append s.boxes (some b.0) a ∙ ground (arith, lt, e))

    add_box-held :
        (h a : ℕ) → get_or (add_box s b).handles h none ≡ some a → (a ≡ h) × Lives (add_box s b) a
    add_box-held h a e = elim (Bool-cases (h == length s.handles)) [
      | inl new ↦
          let at : h ≡ length s.handles = (==_iff h (length s.handles)).0 new in
          let it : length s.boxes ≡ a =
            cc (sym (get_or-append s.handles (some (length s.boxes)) h) ∙ e, new) in
          let there : get_or (s.boxes ++ some b.0 ∷ []) a none ≡ some b.0 =
            get_or-append s.boxes (some b.0) a ∙ ground (arith, it) in
          (omega (arith, at, it, sound.paired), (b.0, there))
      | inr old ↦
          let before : get_or s.handles h none ≡ some a =
            cc (sym (get_or-append s.handles (some (length s.boxes)) h) ∙ e, old) in
          ((sound.held h a before).0, Lives-add_box a (sound.held h a before).1)
    ]

    add_box-IsSound : IsSound (add_box s b)
    add_box-IsSound = record {
      paired = omega (
        arith,
        sound.paired,
        length-append s.handles (some (length s.boxes) ∷ []),
        length-append s.boxes (some b.0 ∷ []),
      );
      held = add_box-held;
      entered = λ a e. Lives-add_box a (sound.entered a e);
    }

  sandbox_enter-IsSound : (handle : Option ℕ) → IsSound (sandbox_enter s handle).0
  unfolding sandbox_enter
  sandbox_enter-IsSound none = sound
  sandbox_enter-IsSound (some h) = elim (Option-cases (get_or s.handles h none)) [
    | inl e ↦ rw (e, sandbox_enter) sound
    | inr (a, e) ↦
        rw (e, sandbox_enter)
          (record {
            paired = sound.paired;
            held = sound.held;
            entered = λ c at. let it : a ≡ c = cc at in rw (← it) (sound.held h a e).1;
          })
  ]

  sandbox_exit-IsSound : IsSound (sandbox_exit s)
  unfolding sandbox_exit
  sandbox_exit-IsSound = record {
    paired = sound.paired;
    held = sound.held;
    entered = λ c at. cc at;
  }

  -- The session after the sandbox at `a`, of the handle `h`, is destroyed.
  abbrev without : ℕ → ℕ → Session
  without h a = record s {
    current = left_by s.current a;
    boxes = set s.boxes a none;
    handles = set s.handles h none;
  }

  Lives-without : (h a c : ℕ) → Lives s a → (a == c) ≡ false → Lives s c → Lives (without h a) c
  Lives-without h a c (old, e) apart (box, at) =
      (box, get_or-set s.boxes a none none c (get_or-some s.boxes a e) ∙ rw apart at)

  without-IsSound : (h a : ℕ) → get_or s.handles h none ≡ some a → IsSound (without h a)
  without-IsSound h a e = record {
    paired = omega (arith, sound.paired, length-set s.boxes a none, length-set s.handles h none);
    held = λ h' a' e'. held_still h' a' (Bool-cases (h == h')) e';
    entered = λ c at. entered_still c s.current refl at;
  }
    where
      here : a ≡ h
      here = (sound.held h a e).0

      live : Lives s a
      live = (sound.held h a e).1

      held_still :
          (h' a' : ℕ)
          → ((h == h') ≡ true) ⊎ ((h == h') ≡ false)
          → get_or (set s.handles h none) h' none ≡ some a'
          → (a' ≡ h') × Lives (without h a) a'
      held_still h' a' t e' =
          let read = get_or-set s.handles h none none h' (get_or-some s.handles h e) in
          elim t [
            | inl same ↦ absurd (cc (read, e', same))
            | inr apart ↦
                let before : get_or s.handles h' none ≡ some a' = cc (read, e', apart) in
                let old = sound.held h' a' before in
                let other : (a == a') ≡ false = ground (arith, here, old.0, apart) in
                (old.0, Lives-without h a a' live other old.1)
          ]

      entered_still :
          (c : ℕ) (current : Option ℕ)
          → s.current ≡ current
          → left_by current a ≡ some c
          → Lives (without h a) c
      entered_still c none e' at = cc at
      entered_still c (some d) e' at = elim (Bool-cases (d == a)) [
        | inl same ↦ absurd (cc (at, same))
        | inr apart ↦
            let it : d ≡ c = cc (at, apart) in
            let other : (a == c) ≡ false = ground (arith, it, apart) in
            Lives-without h a c live other (sound.entered c (rw (← it) e'))
      ]

  sandbox_destroy-IsSound : (handle : Option ℕ) → IsSound (sandbox_destroy s handle)
  unfolding sandbox_destroy
  sandbox_destroy-IsSound none = sound
  sandbox_destroy-IsSound (some h) = elim (Option-cases (get_or s.handles h none)) [
    | inl e ↦ rw (e, sandbox_destroy) sound
    | inr (a, e) ↦ rw (e, sandbox_destroy) (without-IsSound h a e)
  ]

-- Whatever calls of the sandbox module one thread makes with the handles that the module returned,
-- none of which it copies, changes or builds itself, the current sandbox and the sandbox of every
-- valid handle are not destroyed, and no two valid handles share a sandbox.
pub Reachable-IsSound : (s : Session) → Reachable s → IsSound s
unfolding sandbox_create create_restricted
Reachable-IsSound s start = record { paired = refl; held = λ h a e. cc e; entered = λ a e. cc e }
Reachable-IsSound s (by_create {s = t} path file r) =
    add_box-IsSound t (Reachable-IsSound t r) (create t.next_id path file)
Reachable-IsSound s (by_restricted {s = t} args r) =
    add_box-IsSound t (Reachable-IsSound t r) (sandbox_create_restricted t.next_id args)
Reachable-IsSound s (by_enter {s = t} handle r) =
    sandbox_enter-IsSound t (Reachable-IsSound t r) handle
Reachable-IsSound s (by_exit {s = t} r) = sandbox_exit-IsSound t (Reachable-IsSound t r)
Reachable-IsSound s (by_destroy {s = t} handle r) =
    sandbox_destroy-IsSound t (Reachable-IsSound t r) handle

-- After `sandbox.destroy` of a handle, `sandbox.enter` and `sandbox.check` refuse that handle.
pub sandbox_destroy-refused :
    (s : Session) (h : ℕ) (perm : Option Bytes)
    → ((sandbox_enter (sandbox_destroy s (some h)) (some h)).1 ≡ false)
      × (check (sandbox_destroy s (some h)) (some h) perm ≡ false)
unfolding sandbox_destroy sandbox_enter check sandbox_check
sandbox_destroy-refused s h perm = elim (Option-cases (get_or s.handles h none)) [
  | inl e ↦ (ground (arith, e), ground (arith, e))
  | inr (a, e) ↦
      let lt = get_or-some s.handles h e in
      let gone : get_or (set s.handles h none) h none ≡ none =
        get_or-set s.handles h none none h lt ∙ ground arith in
      (ground (arith, e, gone), ground (arith, e, gone))
]
