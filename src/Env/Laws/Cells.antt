-- ===== src/Env/Laws/Cells.antt =====
-- The order of a store, the rule of lexical scope, and cells after a write.
use sage_tree.Base.{
  ℕ, zero, suc, ◌<◌, ◌≡◌, Option, none, some, List, [], ◌∷◌, Bytes, set, get_or-set, ◌==◌,
  if◌then◌else◌, arith, length,
}
use sage_tree.Env.Index.{Index}
use sage_tree.Env.Scope.{EnvNode, Env, find_node}
use sage_tree.Env.Sync.{IsSynced}
use sage_tree.Env.Walk.{cell}

module _ {V M : Type 0} where
  abbrev pub IsAlive : Option (Env V M) → Type 0
  IsAlive none = ⊥
  IsAlive (some env) = Unit

  -- A parent is older than its child and is there.
  abbrev pub ParentBelow : List (Option (Env V M)) → ℕ → Option ℕ → Type 0
  ParentBelow cells a none = Unit
  ParentBelow cells a (some p) = (p < a) × IsAlive (cell cells p)

  -- The variable `name` seen from the scope `a` is `node` of the scope `b`: the nearest scope on
  -- the way up that has the name.
  pub data Resolves (cells : List (Option (Env V M))) (name : Bytes) (b : ℕ) (node : EnvNode V)
      : ℕ → Type 0 where
    here :
        (env : Env V M)
        → cell cells b ≡ some env
        → find_node env.head name ≡ some node
        → Resolves cells name b node b
    up :
        {a : ℕ} (env : Env V M) (p : ℕ)
        → cell cells a ≡ some env
        → find_node env.head name ≡ none
        → env.parent ≡ some p
        → Resolves cells name b node p
        → Resolves cells name b node a

  pub cell-lt :
      (cells : List (Option (Env V M))) (a : ℕ) {env : Env V M}
      → cell cells a ≡ some env
      → a < length cells
  cell-lt [] a h = cc
  cell-lt (x ∷ cells) zero h = omega arith
  cell-lt (x ∷ cells) (suc a) h = omega (arith, cell-lt cells a h)

  pub cell-set :
      (cells : List (Option (Env V M))) (a : ℕ) (x : Option (Env V M)) (c : ℕ)
      → a < length cells
      → cell (set cells a x) c ≡ (if a == c then x else cell cells c)
  cell-set cells a x c h = get_or-set cells a x none c h

module _ {V : Type 0} (ix : Index V) where
  open ix use {Map}

  -- Every scope that is there is in order and has an older parent that is there, or none.
  abbrev pub IsStore : List (Option (Env V Map)) → Type 0
  IsStore cells =
      (a : ℕ) (env : Env V Map)
      → cell cells a ≡ some env
      → IsSynced ix env × ParentBelow cells a env.parent
