-- ===== src/Safety/Exclusive.antt =====
-- Borrows of src/safety.c that are apart, and the writes to variables that keep them so.
use sage_tree.Base.{
  ◌≤◌, ◌<◌, ◌≡◌, refl, sym, ◌∙◌, inl, inr, List, [], ◌∷◌, none, some, Bytes, bytes_eq, All,
  Bool-cases, Option-cases, arith,
}
use sage_tree.Safety.State.{
  Borrow, SafetyVar, SafetyScope, find_var, lookup_scopes, change_var, change_scopes, change_newest,
  newest_in, declare_in,
}
use sage_tree.Safety.Checks.{add_borrow}

-- At most one mutable borrow of the variable, and with one no other borrow.
pub record Exclusive (v : SafetyVar) : Type 0 where
  pub one : v.mut_borrow_count ≤ 1
  pub alone : 0 < v.mut_borrow_count → v.borrow_count ≡ 0

abbrev pub Each : List SafetyScope → Type 0
Each scopes = All (λ scope. All Exclusive scope.vars) scopes

-- A write that leaves the borrows of a variable apart.
abbrev pub Spares : (SafetyVar → SafetyVar) → Type 0
Spares f = (v : SafetyVar) → Exclusive v → Exclusive (f v)

change_var-All :
    (f : SafetyVar → SafetyVar) (name : Bytes) (vs : List SafetyVar)
    → Spares f
    → All Exclusive vs
    → All Exclusive (change_var f name vs)
unfolding change_var
change_var-All f name [] spares h = tt
change_var-All f name (w ∷ vs) spares (h, hs) = elim (Bool-cases (bytes_eq w.name name)) [
  | inl k ↦ rw (change_var, k) (spares w h, hs)
  | inr k ↦ rw (change_var, k) (h, change_var-All f name vs spares hs)
]

pub change_scopes-Each :
    (f : SafetyVar → SafetyVar) (name : Bytes) (l : List SafetyScope)
    → Spares f
    → Each l
    → Each (change_scopes f name l)
unfolding change_scopes
change_scopes-Each f name [] spares h = tt
change_scopes-Each f name (scope ∷ l) spares (h, hs) =
    elim (Option-cases (find_var name scope.vars)) [
      | inl k ↦ rw (change_scopes, k) (h, change_scopes-Each f name l spares hs)
      | inr (w, k) ↦ rw (change_scopes, k) (change_var-All f name scope.vars spares h, hs)
    ]

change_newest-All :
    (f : SafetyVar → SafetyVar) (vs : List SafetyVar)
    → Spares f
    → All Exclusive vs
    → All Exclusive (change_newest f vs)
change_newest-All f [] spares h = tt
change_newest-All f (v ∷ vs) spares (h, hs) = (spares v h, hs)

pub newest_in-Each :
    (f : SafetyVar → SafetyVar) (l : List SafetyScope) → Spares f → Each l → Each (newest_in f l)
newest_in-Each f [] spares h = tt
newest_in-Each f (scope ∷ l) spares (h, hs) = (change_newest-All f scope.vars spares h, hs)

pub declare_in-Each : (name : Bytes) (l : List SafetyScope) → Each l → Each (declare_in name l)
unfolding declare_in
declare_in-Each name [] h = tt
declare_in-Each name (scope ∷ l) (h, hs) =
    ((record { one = omega arith; alone = λ k. refl }, h), hs)

find_var-Exclusive :
    (name : Bytes) (vs : List SafetyVar) (v : SafetyVar)
    → All Exclusive vs
    → find_var name vs ≡ some v
    → Exclusive v
unfolding find_var
find_var-Exclusive name [] v h e = cc
find_var-Exclusive name (w ∷ vs) v (h, hs) e = elim (Bool-cases (bytes_eq w.name name)) [
  | inl k ↦
      let found : find_var name (w ∷ vs) ≡ some w = rw (find_var, k) refl in
      let same : w ≡ v = cc (found, e) in rw (← same) h
  | inr k ↦
      let later : find_var name (w ∷ vs) ≡ find_var name vs = rw (find_var, k) refl in
      find_var-Exclusive name vs v hs (sym later ∙ e)
]

change_var-Exclusive :
    (f : SafetyVar → SafetyVar) (name : Bytes) (vs : List SafetyVar) (v : SafetyVar)
    → All Exclusive vs
    → find_var name vs ≡ some v
    → Exclusive (f v)
    → All Exclusive (change_var f name vs)
unfolding find_var change_var
change_var-Exclusive f name [] v h e x = tt
change_var-Exclusive f name (w ∷ vs) v (h, hs) e x = elim (Bool-cases (bytes_eq w.name name)) [
  | inl k ↦
      let found : find_var name (w ∷ vs) ≡ some w = rw (find_var, k) refl in
      let same : w ≡ v = cc (found, e) in rw (change_var, k, same) (x, hs)
  | inr k ↦
      let later : find_var name (w ∷ vs) ≡ find_var name vs = rw (find_var, k) refl in
      rw (change_var, k) (h, change_var-Exclusive f name vs v hs (sym later ∙ e) x)
]

module _ (name : Bytes) where
  pub lookup_here :
      (scope : SafetyScope) (l : List SafetyScope) (v : SafetyVar)
      → find_var name scope.vars ≡ some v
      → lookup_scopes name (scope ∷ l) ≡ some v
  unfolding lookup_scopes
  lookup_here scope l v e = rw (lookup_scopes, e) refl

  pub lookup_later :
      (scope : SafetyScope) (l : List SafetyScope)
      → find_var name scope.vars ≡ none
      → lookup_scopes name (scope ∷ l) ≡ lookup_scopes name l
  unfolding lookup_scopes
  lookup_later scope l e = rw (lookup_scopes, e) refl

  pub lookup_scopes-Exclusive :
      (l : List SafetyScope) (v : SafetyVar) → Each l → lookup_scopes name l ≡ some v → Exclusive v
  unfolding lookup_scopes
  lookup_scopes-Exclusive [] v h e = cc
  lookup_scopes-Exclusive (scope ∷ l) v (h, hs) e = elim (Option-cases (find_var name scope.vars)) [
    | inl k ↦ lookup_scopes-Exclusive l v hs (sym (lookup_later scope l k) ∙ e)
    | inr (w, k) ↦
        let same : w ≡ v = cc (lookup_here scope l w k, e) in
        rw (← same) (find_var-Exclusive name scope.vars w h k)
  ]

  pub change_scopes-Exclusive :
      (f : SafetyVar → SafetyVar) (l : List SafetyScope) (v : SafetyVar)
      → Each l
      → lookup_scopes name l ≡ some v
      → Exclusive (f v)
      → Each (change_scopes f name l)
  unfolding change_scopes
  change_scopes-Exclusive f [] v h e x = tt
  change_scopes-Exclusive f (scope ∷ l) v (h, hs) e x =
      elim (Option-cases (find_var name scope.vars)) [
        | inl k ↦
            rw (change_scopes, k)
              (h, change_scopes-Exclusive f l v hs (sym (lookup_later scope l k) ∙ e) x)
        | inr (w, k) ↦
            let same : w ≡ v = cc (lookup_here scope l w k, e) in
            rw (change_scopes, k) (change_var-Exclusive f name scope.vars w h k (rw same x), hs)
      ]

  pub lookup-add_borrow :
      (b : Borrow) (l : List SafetyScope)
      → lookup_scopes name (add_borrow b l) ≡ lookup_scopes name l
  unfolding add_borrow lookup_scopes
  lookup-add_borrow b [] = refl
  lookup-add_borrow b (scope ∷ l) = refl

pub add_borrow-Exclusive : (b : Borrow) (l : List SafetyScope) → Each l → Each (add_borrow b l)
unfolding add_borrow
add_borrow-Exclusive b [] h = h
add_borrow-Exclusive b (scope ∷ l) h = h
