-- ===== src/Env/Walk.antt =====
-- The store of scopes and the functions of src/env.c that walk from a scope to its parents.
-- A walk has fuel; `Env.Laws` shows that the number of cells is enough.
use sage_tree.Base.{
  ℕ, zero, suc, ◌+◌, ◌%◌, ◌^◌, Bool, true, false, Option, none, some, List, [], ◌∷◌, ◌++◌, Bytes,
  length, get_or, set, if◌then◌else◌,
}
use sage_tree.Env.Index.{Index}
use sage_tree.Env.Scope.{
  EnvNode, Env, find_node, store_node, index_set, define, define_const, scope_get,
}

-- `cells` is the memory, `allocated` the list `allocated_envs` by address.
pub record Store (V M : Type 0) : Type 0 where
  pub cells : List (Option (Env V M))
  pub allocated : List ℕ
  pub next_env_id : ℕ

abbrev pub cell : {V M : Type 0} → List (Option (Env V M)) → ℕ → Option (Env V M)
cell cells a = get_or cells a none

-- `env_create`. The pool it looks at first is never filled, so every scope is a new cell.
unfoldable pub env_create : {V M : Type 0} → Store V M → Option ℕ → ℕ × Store V M
env_create s parent =
    let a = length s.cells in
    (
      a,
      record {
        cells =
            s.cells
            ++ some (record {
              head = [];
              parent = parent;
              id = s.next_env_id;
              marked = false;
              count = 0;
              map = none;
            })
              ∷ [];
        allocated = a ∷ s.allocated;
        next_env_id = (s.next_env_id + 1) % 2 ^ 64;
      },
    )

module _ {V : Type 0} (ix : Index V) where
  open ix use {Map}

  -- A use of a scope that is not there is undefined in C: `none`.
  abbrev pub at_cell : Store V Map → ℕ → (Env V Map → Env V Map) → Option (Store V Map)
  at_cell s a f = elim (cell s.cells a) [
    | none ↦ none
    | some env ↦ some (record s { cells = set s.cells a (some (f env)) })
  ]

  unfoldable pub env_define : Store V Map → ℕ → Bytes → V → Option (Store V Map)
  env_define s a name v = at_cell s a (λ env. define ix env name v)

  unfoldable pub env_define_const : Store V Map → ℕ → Bytes → V → Option (Store V Map)
  env_define_const s a name v = at_cell s a (λ env. define_const ix env name v)

  -- The loop of `env_get`; the address is `current_env`.
  unfoldable pub get_from : ℕ → List (Option (Env V Map)) → Option ℕ → Bytes → Option V
  get_from zero cells current name = none
  get_from (suc fuel) cells none name = none
  get_from (suc fuel) cells (some a) name = elim (cell cells a) [
    | none ↦ none
    | some env ↦ elim (scope_get ix env name) [
      | some v ↦ some v
      | none ↦ get_from fuel cells env.parent name
    ]
  ]

  unfoldable pub env_get : Store V Map → Option ℕ → Bytes → Option V
  env_get s a name = get_from (length s.cells + 1) s.cells a name

  -- The loop of `env_get_node`, which reads the lists only.
  unfoldable pub get_node_from :
      ℕ → List (Option (Env V Map)) → Option ℕ → Bytes → Option (ℕ × EnvNode V)
  get_node_from zero cells current name = none
  get_node_from (suc fuel) cells none name = none
  get_node_from (suc fuel) cells (some a) name = elim (cell cells a) [
    | none ↦ none
    | some env ↦ elim (find_node env.head name) [
      | some node ↦ some (a, node)
      | none ↦ get_node_from fuel cells env.parent name
    ]
  ]

  unfoldable pub env_get_node : Store V Map → Option ℕ → Bytes → Option (ℕ × EnvNode V)
  env_get_node s a name = get_node_from (length s.cells + 1) s.cells a name

  -- The scope after an assignment to a variable of its own.
  abbrev pub assign_in : Env V Map → Bytes → V → Env V Map
  assign_in env name v = record env {
    head = store_node env.head name v;
    map = index_set ix env.map name v;
  }

  -- The loop of `env_assign`: the new cells, and whether it returned 1.
  unfoldable pub assign_from :
      ℕ → List (Option (Env V Map)) → Option ℕ → Bytes → V → List (Option (Env V Map)) × Bool
  assign_from zero cells current name v = (cells, false)
  assign_from (suc fuel) cells none name v = (cells, false)
  assign_from (suc fuel) cells (some a) name v = elim (cell cells a) [
    | none ↦ (cells, false)
    | some env ↦ elim (find_node env.head name) [
      | some node ↦
          if node.is_const
          then (cells, false)
          else (set cells a (some (assign_in env name v)), true)
      | none ↦ assign_from fuel cells env.parent name v
    ]
  ]

  unfoldable pub env_assign : Store V Map → Option ℕ → Bytes → V → Store V Map × Bool
  env_assign s a name v =
      let (cells, done) = assign_from (length s.cells + 1) s.cells a name v in
      (record s { cells = cells }, done)
