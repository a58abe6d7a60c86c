-- ===== src/Env/Tests.antt =====
-- Scopes run on small inputs over the hash map, and the theorems of the scopes at them.
use sage_tree.Base.{
  ℕ, zero, suc, ◌≡◌, ◌↔◌, refl, true, false, Option, none, some, [], ◌∷◌, Bytes, bytes, arith,
  length,
}
use sage_tree.EnvMap.Table.{EnvMap}
use sage_tree.EnvMap.AsIndex.{robin_hood}
use sage_tree.Env.Scope.{
  EnvNode, Env, find_node, define_const, define, store_node, scope_get, is_named, my_strndup,
}
use sage_tree.Env.Walk.{
  Store, cell, env_create, env_define, env_define_const, env_get, env_get_node, env_assign,
  get_from, get_node_from, assign_from,
}
use sage_tree.Env.Laws.Cells.{IsStore, Resolves}
use sage_tree.Env.Laws.Reads.{node_value, env_get_node_iff, env_get-env_get_node}
use sage_tree.Env.Laws.Define.{Defined, env_define-Defined, env_define_const-Defined}
use sage_tree.Env.Laws.Assign.{Assigns, env_assign-Assigns}
use sage_tree.Env.Laws.Create.{MayEnclose, env_create_lem}
use sage_tree.Env.Sweep.{
  env_sweep_unmarked, sweep_cells, swept_list, env_clear_marks, unmark_cells, env_cleanup_all,
  free_cells,
}
use sage_tree.Env.Laws.Sweep.{Distinct, In, Marked, Closed, collected, env_sweep_unmarked_lem}

abbrev Memory : Type 0
Memory = Store ℕ (EnvMap ℕ)

abbrev nothing : Memory
nothing = record { cells = []; allocated = []; next_env_id = 1 }

nothing-IsStore : IsStore (robin_hood ℕ) nothing.cells
nothing-IsStore a env e = cc

-- The global scope, and in it the constant `x`.
abbrev globals : Memory
globals = (env_create nothing none).1

globals-IsStore : IsStore (robin_hood ℕ) globals.cells
globals-IsStore = (env_create_lem (robin_hood ℕ) nothing none nothing-IsStore tt).0

abbrev empty_scope : Env ℕ (EnvMap ℕ)
empty_scope = record { head = []; parent = none; id = 1; marked = false; count = 0; map = none }

globals_cell : cell globals.cells 0 ≡ some empty_scope
unfolding env_create
globals_cell = refl

env_define_const-Defined_example :
    (s' : Memory) × (env_define_const (robin_hood ℕ) globals 0 (bytes "x") 5 ≡ some s')
    × Defined (robin_hood ℕ) globals 0 (bytes "x") 5 s'
env_define_const-Defined_example =
    env_define_const-Defined (robin_hood ℕ) globals 0 (bytes "x") 5 empty_scope globals-IsStore
      globals_cell

env_define-Defined_example :
    (s' : Memory) × (env_define (robin_hood ℕ) globals 0 (bytes "y") 7 ≡ some s')
    × Defined (robin_hood ℕ) globals 0 (bytes "y") 7 s'
env_define-Defined_example =
    env_define-Defined (robin_hood ℕ) globals 0 (bytes "y") 7 empty_scope globals-IsStore
      globals_cell (omega arith)

-- The global scope with the mutable variable `y`, and a scope inside it.
abbrev y_node : EnvNode ℕ
y_node = record { name = bytes "y"; name_length = 1; owns_name = true; is_const = false; value = 7 }

abbrev y_scope : Env ℕ (EnvMap ℕ)
y_scope = record empty_scope { head = y_node ∷ []; count = 1 }

abbrev with_y : Memory
with_y = record globals { cells = some y_scope ∷ [] }

with_y-IsStore : IsStore (robin_hood ℕ) with_y.cells
unfolding find_node
with_y-IsStore zero env e =
    let it : y_scope ≡ env = cc e in
    rw (← it) (record { ordered = (refl, refl, tt); indexed = tt }, tt)
with_y-IsStore (suc a) env e = cc

abbrev nested : Memory
nested = (env_create with_y (some 0)).1

program : Unit {0}
unfolding env_create env_define env_define_const env_get env_get_node env_assign define define_const
    get_from get_node_from assign_from find_node store_node scope_get is_named my_strndup
program = tt

defines_y : env_define (robin_hood ℕ) globals 0 (bytes "y") 7 ≡ some with_y
unfolding program
defines_y = refl

with_y-encloses : MayEnclose with_y.cells (some 0)
with_y-encloses = tt

nested-IsStore : IsStore (robin_hood ℕ) nested.cells
nested-IsStore = (env_create_lem (robin_hood ℕ) with_y (some 0) with_y-IsStore with_y-encloses).0

inner_scope : (env : Env ℕ (EnvMap ℕ)) × (cell nested.cells 1 ≡ some env)
unfolding program
inner_scope = (_, refl)

two_cells : length nested.cells ≡ 2
unfolding program
two_cells = refl

-- `y` is found one scope up, assigned there, and read back.
reads_y : env_get (robin_hood ℕ) nested (some 1) (bytes "y") ≡ some 7
unfolding program
reads_y = refl

assigns_y :
    env_get
      (robin_hood ℕ)
      (env_assign (robin_hood ℕ) nested (some 1) (bytes "y") 8).0
      (some 0)
      (bytes "y")
    ≡ some 8
unfolding program
assigns_y = refl

env_create_lem_example :
    IsStore (robin_hood ℕ) (env_create with_y (some 0)).1.cells
    × ((name : Bytes)
        → env_get
            (robin_hood ℕ)
            (env_create with_y (some 0)).1
            (some (env_create with_y (some 0)).0)
            name
          ≡ env_get (robin_hood ℕ) with_y (some 0) name)
    × ((c : Option ℕ) (name : Bytes)
        → MayEnclose with_y.cells c
        → env_get (robin_hood ℕ) (env_create with_y (some 0)).1 c name
          ≡ env_get (robin_hood ℕ) with_y c name)
env_create_lem_example =
    env_create_lem (robin_hood ℕ) with_y (some 0) with_y-IsStore with_y-encloses

env_get_node_iff_example :
    (env_get_node (robin_hood ℕ) nested (some 1) (bytes "y") ≡ some (0, y_node))
    ↔ Resolves nested.cells (bytes "y") 0 y_node 1
env_get_node_iff_example =
    env_get_node_iff (robin_hood ℕ) nested 1 (bytes "y") 0 y_node nested-IsStore
      (omega (arith, two_cells))

env_get-env_get_node_example :
    env_get (robin_hood ℕ) nested (some 1) (bytes "y")
    ≡ node_value (robin_hood ℕ) (env_get_node (robin_hood ℕ) nested (some 1) (bytes "y"))
env_get-env_get_node_example =
    env_get-env_get_node (robin_hood ℕ) nested (some 1) (bytes "y") nested-IsStore

env_assign-Assigns_example :
    Assigns
      (robin_hood ℕ)
      nested
      (bytes "y")
      8
      (env_assign (robin_hood ℕ) nested (some 1) (bytes "y") 8)
      (env_get_node (robin_hood ℕ) nested (some 1) (bytes "y"))
env_assign-Assigns_example =
    env_assign-Assigns (robin_hood ℕ) nested (some 1) (bytes "y") 8 nested-IsStore

-- A collection with two marked scopes, one inside the other, and one that is not marked.
abbrev marked_y : Env ℕ (EnvMap ℕ)
marked_y = record y_scope { marked = true }

abbrev marked_inner : Env ℕ (EnvMap ℕ)
marked_inner = record empty_scope { parent = some 0; marked = true }

abbrev to_sweep : Memory
to_sweep = record {
  cells = some marked_y ∷ (some marked_inner ∷ (some empty_scope ∷ []));
  allocated = 2 ∷ (1 ∷ (0 ∷ []));
  next_env_id = 4;
}

sweep_frees :
    (cell (env_sweep_unmarked to_sweep).cells 2 ≡ none)
    × ((env_sweep_unmarked to_sweep).allocated ≡ 1 ∷ (0 ∷ []))
unfolding env_sweep_unmarked sweep_cells swept_list
sweep_frees = (refl, refl)

cleanup_frees : cell (env_cleanup_all (env_clear_marks to_sweep)).cells 1 ≡ none
unfolding env_cleanup_all free_cells env_clear_marks unmark_cells
cleanup_frees = refl

to_sweep-Closed : Closed (robin_hood ℕ) to_sweep.cells
to_sweep-Closed zero env e m = let it : marked_y ≡ env = cc e in rw (← it) tt
to_sweep-Closed (suc zero) env e m =
    let it : marked_inner ≡ env = cc e in rw (← it) (marked_y, refl, refl)
to_sweep-Closed (suc (suc zero)) env e m =
    let it : empty_scope ≡ env = cc e in absurd (ground (arith, it, m))
to_sweep-Closed (suc (suc (suc a))) env e m = cc e

to_sweep-Distinct : Distinct to_sweep.allocated
to_sweep-Distinct = ground arith

env_sweep_unmarked_lem_example :
    ((a : ℕ) (name : Bytes)
      → Marked (robin_hood ℕ) to_sweep.cells a
      → env_get (robin_hood ℕ) (env_sweep_unmarked to_sweep) (some a) name
        ≡ env_get (robin_hood ℕ) to_sweep (some a) name)
    × ((a : ℕ) (env : Env ℕ (EnvMap ℕ))
        → In a to_sweep.allocated
        → cell to_sweep.cells a ≡ some env
        → cell (env_sweep_unmarked to_sweep).cells a ≡ collected env)
env_sweep_unmarked_lem_example =
    env_sweep_unmarked_lem (robin_hood ℕ) to_sweep to_sweep-Distinct to_sweep-Closed
