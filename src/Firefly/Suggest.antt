-- ===== src/Firefly/Suggest.antt =====
-- The search of src/firefly.c for a name to suggest (`firefly_undefined_var`), over the scopes of
-- src/env.c.
use sage_tree.Base.{
  ℕ, zero, suc, ◌+◌, ◌&&◌, List, [], ◌∷◌, Option, none, some, Bytes, length, ltb, leb,
  if◌then◌else◌,
}
use sage_tree.Env.Scope.{EnvNode, Env}
use sage_tree.Env.Walk.{Store, cell}
use sage_tree.Firefly.Distance.{edist}

-- `th`, the largest distance of a suggestion.
abbrev pub threshold : Bytes → ℕ
threshold name = if leb (length name) 3 then 1 else if leb (length name) 6 then 2 else 3

-- The variables `best` and `bd`.
pub record Best : Type 0 where
  pub best : Option Bytes
  pub distance : ℕ

abbrev pub no_best : Best
no_best = record { best = none; distance = 999 }

-- One node of a scope.
unfoldable pub consider : Bytes → Bytes → Best → Best
consider name other b =
    let d = edist name other in
    if ltb 0 d && (ltb d b.distance && leb d (threshold name))
    then record { best = some other; distance = d }
    else b

module _ {V : Type 0} where
  unfoldable pub search_scope : Bytes → List (EnvNode V) → Best → Best
  search_scope name [] b = b
  search_scope name (node ∷ nodes) b = search_scope name nodes (consider name node.name b)

module _ {V M : Type 0} where
  -- The loop up the parents.
  unfoldable pub search_from : Bytes → ℕ → List (Option (Env V M)) → Option ℕ → Best → Best
  search_from name zero cells current b = b
  search_from name (suc fuel) cells none b = b
  search_from name (suc fuel) cells (some a) b = elim (cell cells a) [
    | none ↦ b
    | some env ↦ search_from name fuel cells env.parent (search_scope name env.head b)
  ]

  unfoldable pub suggest : Store V M → Option ℕ → Bytes → Best
  suggest s a name = search_from name (length s.cells + 1) s.cells a no_best
