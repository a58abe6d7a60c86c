-- ===== src/Env/Laws/Reads.antt =====
-- `env_get` and `env_get_node` of src/env.c against the rule of lexical scope.
use sage_tree.Base.{
  ℕ, zero, suc, ◌+◌, ◌<◌, ◌≡◌, ◌↔◌, ◌∙◌, refl, sym, inl, inr, Option, none, some, List, Bytes,
  length, arith, Option-cases,
}
use sage_tree.Env.Index.{Index}
use sage_tree.Env.Scope.{EnvNode, Env, find_node}
use sage_tree.Env.Sync.{scope_get-eq-scan}
use sage_tree.Env.Walk.{Store, cell, get_from, env_get, get_node_from, env_get_node}
use sage_tree.Env.Laws.Cells.{ParentBelow, Resolves, here, up, IsStore}

module _ {V : Type 0} (ix : Index V) where
  open ix use {Map}

  abbrev pub node_value : Option (ℕ × EnvNode V) → Option V
  node_value none = none
  node_value (some (b, node)) = some node.value

  pub get_from-get_node_from :
      (fuel : ℕ) (cells : List (Option (Env V Map))) (current : Option ℕ) (name : Bytes)
      → IsStore ix cells
      → get_from ix fuel cells current name ≡ node_value (get_node_from ix fuel cells current name)
  unfolding get_from get_node_from
  get_from-get_node_from zero cells current name h = refl
  get_from-get_node_from (suc fuel) cells none name h = refl
  get_from-get_node_from (suc fuel) cells (some a) name h = elim (Option-cases (cell cells a)) [
    | inl e ↦ ground (arith, e)
    | inr (env, e) ↦ ground (
      arith,
      e,
      scope_get-eq-scan ix env name (h a env e).0,
      get_from-get_node_from fuel cells env.parent name h,
    )
  ]

  -- One step of the walk.
  pub get_node_from-there :
      (fuel : ℕ) (cells : List (Option (Env V Map))) (a : ℕ) (env : Env V Map) (name : Bytes)
      {node : EnvNode V}
      → cell cells a ≡ some env
      → find_node env.head name ≡ some node
      → get_node_from ix (suc fuel) cells (some a) name ≡ some (a, node)
  unfolding get_node_from
  get_node_from-there fuel cells a env name e f = ground arith

  pub get_node_from_up :
      (fuel : ℕ) (cells : List (Option (Env V Map))) (a : ℕ) (env : Env V Map) (name : Bytes)
      → cell cells a ≡ some env
      → find_node env.head name ≡ none
      → get_node_from ix (suc fuel) cells (some a) name
        ≡ get_node_from ix fuel cells env.parent name
  unfolding get_node_from
  get_node_from_up fuel cells a env name e f = ground arith

  pub get_node_from-none :
      (fuel : ℕ) (cells : List (Option (Env V Map))) (name : Bytes)
      → get_node_from ix fuel cells none name ≡ none
  unfolding get_node_from
  get_node_from-none zero cells name = refl
  get_node_from-none (suc fuel) cells name = refl

  -- With more fuel than the address the walk finds what the rule says.
  pub get_node_from-Resolves :
      (fuel : ℕ) (cells : List (Option (Env V Map))) (name : Bytes) (b : ℕ) (node : EnvNode V)
      (a : ℕ)
      → IsStore ix cells
      → a < fuel
      → Resolves cells name b node a
      → get_node_from ix fuel cells (some a) name ≡ some (b, node)
  get_node_from-Resolves zero cells name b node a h lt r = absurd (omega arith)
  get_node_from-Resolves (suc fuel) cells name b node b' h lt (here env e f) =
      get_node_from-there fuel cells b' env name e f
  get_node_from-Resolves (suc fuel) cells name b node a h lt (up env p e f q r) =
      let below : ParentBelow cells a (some p) = rw q at (h a env e).1 in
      get_node_from_up fuel cells a env name e f
      ∙ rw q (get_node_from-Resolves fuel cells name b node p h (omega arith) r)

  -- What a walk finds, the rule allows.
  pub Resolves-of_get_node :
      (fuel : ℕ) (cells : List (Option (Env V Map))) (name : Bytes) (b : ℕ) (node : EnvNode V)
      (a : ℕ)
      → get_node_from ix fuel cells (some a) name ≡ some (b, node)
      → Resolves cells name b node a
  unfolding get_node_from
  Resolves-of_get_node zero cells name b node a h = cc
  Resolves-of_get_node (suc fuel) cells name b node a h = elim (Option-cases (cell cells a)) [
    | inl e ↦ cc e
    | inr (env, e) ↦ elim (Option-cases (find_node env.head name)) [
      | inr (found, f) ↦
          let same : some (a, found) ≡ some (b, node) =
            sym (get_node_from-there fuel cells a env name e f) ∙ h in
          let at : a ≡ b = cc same in
          let it : found ≡ node = cc same in rw (← at, ← it) (here env e f)
      | inl f ↦ elim (Option-cases env.parent) [
        | inl q ↦
            let end : get_node_from ix fuel cells none name ≡ none =
              get_node_from-none fuel cells name in
            let same : get_node_from ix fuel cells none name ≡ some (b, node) =
              rw q at (sym (get_node_from_up fuel cells a env name e f) ∙ h) in
            cc (end, same)
        | inr (p, q) ↦ up env p e f q (
            Resolves-of_get_node fuel cells name b node p
              (rw q at (sym (get_node_from_up fuel cells a env name e f) ∙ h)))
      ]
    ]
  ]

  -- A search for a variable finds exactly what lexical scope says: from a scope of a store in
  -- order, `env_get_node` returns the node of the nearest scope on the way up that has the name,
  -- and returns it whenever there is one.
  pub env_get_node_iff :
      (s : Store V Map) (a : ℕ) (name : Bytes) (b : ℕ) (node : EnvNode V)
      → IsStore ix s.cells
      → a < length s.cells
      → (env_get_node ix s (some a) name ≡ some (b, node)) ↔ Resolves s.cells name b node a
  unfolding env_get_node
  env_get_node_iff s a name b node h lt = (
    Resolves-of_get_node (length s.cells + 1) s.cells name b node a,
    get_node_from-Resolves (length s.cells + 1) s.cells name b node a h (omega arith),
  )

  -- The fast path agrees with the search: in a store in order, `env_get`, which asks the hash map
  -- of each scope first, returns the value of the node that `env_get_node` finds in the lists.
  pub env_get-env_get_node :
      (s : Store V Map) (a : Option ℕ) (name : Bytes)
      → IsStore ix s.cells
      → env_get ix s a name ≡ node_value (env_get_node ix s a name)
  unfolding env_get env_get_node
  env_get-env_get_node s a name h = get_from-get_node_from (length s.cells + 1) s.cells a name h
