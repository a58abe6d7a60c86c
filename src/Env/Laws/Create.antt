-- ===== src/Env/Laws/Create.antt =====
-- `env_create` of src/env.c: a new scope reads as its parent, and no other reading changes.
use sage_tree.Base.{
  ℕ, zero, suc, ◌+◌, ◌≤◌, ◌<◌, ◌≡◌, ◌∙◌, refl, sym, ap, inl, inr, false, Option, none, some, List,
  [], ◌∷◌, ◌++◌, Bytes, length, length-append, arith, Option-cases, Bool-cases, ltb,
}
use sage_tree.Env.Index.{Index}
use sage_tree.Env.Scope.{Env, find_node}
use sage_tree.Env.Walk.{Store, cell, env_get, get_node_from, env_create}
use sage_tree.Env.Laws.Cells.{ParentBelow, IsAlive, IsStore}
use sage_tree.Env.Laws.Reads.{
  node_value, get_from-get_node_from, get_node_from-none, get_node_from_up,
}

module _ {V M : Type 0} where
  cell-append :
      (cells : List (Option (Env V M))) (x : Option (Env V M)) (a : ℕ)
      → a < length cells
      → cell (cells ++ x ∷ []) a ≡ cell cells a
  cell-append [] x a h = absurd (omega arith)
  cell-append (y ∷ cells) x zero h = refl
  cell-append (y ∷ cells) x (suc a) h = cell-append cells x a (omega arith)

  cell-append_last :
      (cells : List (Option (Env V M))) (x : Option (Env V M))
      → cell (cells ++ x ∷ []) (length cells) ≡ x
  cell-append_last [] x = refl
  cell-append_last (y ∷ cells) x = cell-append_last cells x

  cell-append_above :
      (cells : List (Option (Env V M))) (x : Option (Env V M)) (a : ℕ)
      → length cells < a
      → cell (cells ++ x ∷ []) a ≡ none
  cell-append_above [] x zero h = absurd (omega arith)
  cell-append_above [] x (suc a) h = refl
  cell-append_above (y ∷ cells) x zero h = absurd (omega arith)
  cell-append_above (y ∷ cells) x (suc a) h = cell-append_above cells x a (omega arith)

  -- A parent that a new scope may have: none, or a scope that is there.
  abbrev pub MayEnclose : List (Option (Env V M)) → Option ℕ → Type 0
  MayEnclose cells none = Unit
  MayEnclose cells (some p) = IsAlive (cell cells p)

  alive-lt : (cells : List (Option (Env V M))) (p : ℕ) → IsAlive (cell cells p) → p < length cells
  alive-lt [] p h = absurd h
  alive-lt (x ∷ cells) zero h = omega arith
  alive-lt (x ∷ cells) (suc p) h = omega (arith, alive-lt cells p h)

  enclosing :
      (cells : List (Option (Env V M))) (a : ℕ) (p : Option ℕ)
      → ParentBelow cells a p
      → MayEnclose cells p
  enclosing cells a none h = tt
  enclosing cells a (some p) h = h.1

  below-lt :
      (cells : List (Option (Env V M))) (a : ℕ) (p : Option ℕ)
      → ParentBelow cells a p
      → (q : ℕ) → p ≡ some q
      → q < a
  below-lt cells a none h q e = cc
  below-lt cells a (some p) h q e = let at : p ≡ q = cc e in omega (arith, at, h.0)

  parent-lt :
      (cells : List (Option (Env V M))) (p : Option ℕ)
      → MayEnclose cells p
      → (q : ℕ) → p ≡ some q
      → q < length cells
  parent-lt cells none h q e = cc
  parent-lt cells (some p) h q e = let at : p ≡ q = cc e in omega (arith, at, alive-lt cells p h)

module _ {V : Type 0} where
  find_node_nil : (name : Bytes) → find_node {V = V} [] name ≡ none
  unfolding find_node
  find_node_nil name = refl

module _ {V : Type 0} (ix : Index V) where
  open ix use {Map}

  -- A walk that starts in the old cells stays in them.
  walk-append :
      (fuel : ℕ) (cells : List (Option (Env V Map))) (x : Option (Env V Map)) (c : Option ℕ)
      (name : Bytes)
      → IsStore ix cells
      → MayEnclose cells c
      → get_node_from ix fuel (cells ++ x ∷ []) c name ≡ get_node_from ix fuel cells c name
  unfolding get_node_from
  walk-append zero cells x c name h m = refl
  walk-append (suc fuel) cells x none name h m = refl
  walk-append (suc fuel) cells x (some a) name h m = elim (Option-cases (cell cells a)) [
    | inl e ↦ absurd (rw e at m)
    | inr (env, e) ↦
        let e' : cell (cells ++ x ∷ []) a ≡ some env =
          cell-append cells x a (alive-lt cells a m) ∙ e in
        let rest =
          walk-append fuel cells x env.parent name h (enclosing cells a env.parent (h a env e).1) in
        ground (arith, e, e', rest)
  ]

  -- More fuel than the address changes nothing.
  walk_fuel :
      (f g : ℕ) (cells : List (Option (Env V Map))) (a : ℕ) (name : Bytes)
      → IsStore ix cells
      → a < f
      → a < g
      → get_node_from ix f cells (some a) name ≡ get_node_from ix g cells (some a) name
  unfolding get_node_from
  walk_fuel zero g cells a name h hf hg = absurd (omega arith)
  walk_fuel (suc f) zero cells a name h hf hg = absurd (omega arith)
  walk_fuel (suc f) (suc g) cells a name h hf hg = elim (Option-cases (cell cells a)) [
    | inl e ↦ ground (arith, e)
    | inr (env, e) ↦ elim (Option-cases env.parent) [
      | inl q ↦
          let end_f = get_node_from-none ix f cells name in
          let end_g = get_node_from-none ix g cells name in ground (arith, e, q, end_f, end_g)
      | inr (p, q) ↦
          let below : ParentBelow cells a (some p) = rw q at (h a env e).1 in
          let rest = walk_fuel f g cells p name h (omega arith) (omega arith) in
          ground (arith, e, q, rest)
    ]
  ]

  module _ (s : Store V Map) (parent : Option ℕ) (h : IsStore ix s.cells)
      (m : MayEnclose s.cells parent) where
    abbrev added : Env V Map
    added = record {
      head = [];
      parent = parent;
      id = s.next_env_id;
      marked = false;
      count = 0;
      map = none;
    }

    abbrev after : List (Option (Env V Map))
    after = s.cells ++ some added ∷ []

    parent_after :
        (a : ℕ) (p : Option ℕ)
        → MayEnclose s.cells p
        → ((q : ℕ) → p ≡ some q → q < a)
        → ParentBelow after a p
    parent_after a none alive low = tt
    parent_after a (some p) alive low =
        (low p refl, rw (cell-append s.cells (some added) p (alive-lt s.cells p alive)) alive)

    after-IsStore : IsStore ix after
    after-IsStore a env e = elim (Bool-cases (ltb a (length s.cells))) [
      | inl t ↦
          let old = sym (cell-append s.cells (some added) a (ground (arith, t))) ∙ e in
          (
            (h a env old).0,
            parent_after a env.parent (enclosing s.cells a env.parent (h a env old).1)
                (below-lt s.cells a env.parent (h a env old).1),
          )
      | inr f ↦ elim (Bool-cases (ltb (length s.cells) a)) [
        | inl t ↦ cc (cell-append_above s.cells (some added) a (ground (arith, t)), e)
        | inr g ↦
            let at : length s.cells ≡ a = ground (arith, f, g) in
            let it : added ≡ env = cc (cell-append_last s.cells (some added), rw (← at) at e) in
            rw (← at, ← it)
              (
                record { ordered = tt; indexed = tt },
                parent_after (length s.cells) parent m (parent-lt s.cells parent m),
              )
      ]
    ]

    -- A walk of the new store from an old scope, in the new fuel.
    walk_after :
        (c : Option ℕ) (name : Bytes)
        → MayEnclose s.cells c
        → get_node_from ix (length after + 1) after c name
          ≡ get_node_from ix (length s.cells + 1) s.cells c name
    walk_after c name alive =
        walk-append (length after + 1) s.cells (some added) c name h alive ∙ by_start c alive
      where
        longer : length s.cells ≤ length after
        longer = omega (arith, length-append s.cells (some added ∷ []))

        by_start :
            (c : Option ℕ)
            → MayEnclose s.cells c
            → get_node_from ix (length after + 1) s.cells c name
              ≡ get_node_from ix (length s.cells + 1) s.cells c name
        by_start none alive =
            get_node_from-none ix (length after + 1) s.cells name
            ∙ sym (get_node_from-none ix (length s.cells + 1) s.cells name)
        by_start (some a) alive =
            let lt = alive-lt s.cells a alive in
            walk_fuel (length after + 1) (length s.cells + 1) s.cells a name h
              (omega (arith, longer)) (omega arith)

    walk_new :
        (name : Bytes)
        → get_node_from ix (length after + 1) after (some (length s.cells)) name
          ≡ get_node_from ix (length s.cells + 1) s.cells parent name
    walk_new name =
        let size : length after + 1 ≡ suc (length s.cells + 1) =
          omega (arith, length-append s.cells (some added ∷ [])) in
        ap (λ n. get_node_from ix n after (some (length s.cells)) name) size
        ∙ get_node_from_up ix (length s.cells + 1) after (length s.cells) added name
            (cell-append_last s.cells (some added)) (find_node_nil name)
        ∙ walk-append (length s.cells + 1) s.cells (some added) parent name h m

    -- `env_create` on a store in order, under no parent or one that is there: the store stays in
    -- order, the new scope reads every name as its parent does, and from the scopes that were
    -- there every name is read as before.
    pub env_create_lem :
        IsStore ix (env_create s parent).1.cells
        × ((name : Bytes)
            → env_get ix (env_create s parent).1 (some (env_create s parent).0) name
              ≡ env_get ix s parent name)
        × ((c : Option ℕ) (name : Bytes)
            → MayEnclose s.cells c
            → env_get ix (env_create s parent).1 c name ≡ env_get ix s c name)
    unfolding env_create env_get
    env_create_lem = (
      after-IsStore,
      λ name.
          get_from-get_node_from ix (length after + 1) after (some (length s.cells)) name
            after-IsStore
          ∙ ap (node_value ix) (walk_new name)
          ∙ sym (get_from-get_node_from ix (length s.cells + 1) s.cells parent name h),
      λ c name alive.
          get_from-get_node_from ix (length after + 1) after c name after-IsStore
          ∙ ap (node_value ix) (walk_after c name alive)
          ∙ sym (get_from-get_node_from ix (length s.cells + 1) s.cells c name h),
    )
