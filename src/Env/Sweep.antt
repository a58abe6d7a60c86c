-- ===== src/Env/Sweep.antt =====
-- The collection of scopes in src/env.c. The lock is left out. A scope of the list of all scopes
-- that is not there any more would be undefined in C; it is passed over.
use sage_tree.Base.{ℕ, false, Option, none, some, List, [], ◌∷◌, set, if◌then◌else◌}
use sage_tree.Env.Scope.{Env}
use sage_tree.Env.Walk.{Store, cell}

module _ {V M : Type 0} where
  -- The loop of `env_sweep_unmarked`: the memory after it, and the list of those that stay.
  unfoldable pub sweep_cells : List ℕ → List (Option (Env V M)) → List (Option (Env V M))
  sweep_cells [] cells = cells
  sweep_cells (a ∷ rest) cells = elim (cell cells a) [
    | none ↦ sweep_cells rest cells
    | some env ↦
        let unmarked = sweep_cells rest (set cells a none) in
        let kept = sweep_cells rest (set cells a (some (record env { marked = false }))) in
        if env.marked then kept else unmarked
  ]

  unfoldable pub swept_list : List ℕ → List (Option (Env V M)) → List ℕ
  swept_list [] cells = []
  swept_list (a ∷ rest) cells =
      let later = swept_list rest cells in
      elim (cell cells a) [ none ↦ later | some env ↦ if env.marked then a ∷ later else later ]

  unfoldable pub env_sweep_unmarked : Store V M → Store V M
  env_sweep_unmarked s = record s {
    cells = sweep_cells s.allocated s.cells;
    allocated = swept_list s.allocated s.cells;
  }

  -- The loop of `env_clear_marks`.
  unfoldable pub unmark_cells : List ℕ → List (Option (Env V M)) → List (Option (Env V M))
  unmark_cells [] cells = cells
  unmark_cells (a ∷ rest) cells = elim (cell cells a) [
    | none ↦ unmark_cells rest cells
    | some env ↦ unmark_cells rest (set cells a (some (record env { marked = false })))
  ]

  unfoldable pub env_clear_marks : Store V M → Store V M
  env_clear_marks s = record s { cells = unmark_cells s.allocated s.cells }

  unfoldable pub free_cells : List ℕ → List (Option (Env V M)) → List (Option (Env V M))
  free_cells [] cells = cells
  free_cells (a ∷ rest) cells = free_cells rest (set cells a none)

  unfoldable pub env_cleanup_all : Store V M → Store V M
  env_cleanup_all s = record s { cells = free_cells s.allocated s.cells; allocated = [] }
