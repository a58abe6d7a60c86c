-- ===== src/Env/Scope.antt =====
-- One scope, and the operations of src/env.c that change one scope. The write barrier and the
-- reference counts of a stored value belong to the collector and are not modelled here:
-- `arc_assign_value` stores the value in every mode.
use sage_tree.Base.{
  ℕ, ◌+◌, ◌*◌, Bool, true, false, ◌&&◌, Option, none, some, List, [], ◌∷◌, Bytes, bytes_eq, length,
  ◌==◌, if◌then◌else◌,
}
use sage_tree.Env.Index.{Index}

-- `EnvNode`; the list that holds it is its `next`.
pub record EnvNode (V : Type 0) : Type 0 where
  pub name : Bytes
  pub name_length : ℕ
  pub owns_name : Bool
  pub is_const : Bool
  pub value : V

-- `Env`; `alloc_next` is the store's list of all scopes.
pub record Env (V M : Type 0) : Type 0 where
  pub head : List (EnvNode V)
  pub parent : Option ℕ
  pub id : ℕ
  pub marked : Bool
  pub count : ℕ
  pub map : Option M

-- `ENV_MAP_THRESHOLD`
abbrev pub env_map_threshold : ℕ
env_map_threshold = 8

-- `my_strndup`: the copy ends at the first null byte.
unfoldable pub my_strndup : Bytes → Bytes
my_strndup [] = []
my_strndup (c ∷ s) = if c == 0 then [] else c ∷ my_strndup s

-- The test of every search: equal lengths, then `memcmp`.
unfoldable pub is_named : {V : Type 0} → EnvNode V → Bytes → Bool
is_named node name = (node.name_length == length name) && bytes_eq node.name name

module _ {V : Type 0} where
  -- The first node of that name.
  unfoldable pub find_node : List (EnvNode V) → Bytes → Option (EnvNode V)
  find_node [] name = none
  find_node (node ∷ rest) name = if is_named node name then some node else find_node rest name

  abbrev pub value_of : Option (EnvNode V) → Option V
  value_of none = none
  value_of (some node) = some node.value

  -- The value that a search of the list reads.
  abbrev pub scan : List (EnvNode V) → Bytes → Option V
  scan l name = value_of (find_node l name)

  -- The list with the value of the first node of that name replaced.
  unfoldable pub store_node : List (EnvNode V) → Bytes → V → List (EnvNode V)
  store_node [] name v = []
  store_node (node ∷ rest) name v =
      if is_named node name then record node { value = v } ∷ rest else node ∷ store_node rest name v

module _ {V : Type 0} (ix : Index V) where
  open ix use {Map, init, set, get}

  -- `if (env->map) envmap_set(env->map, name, length, value)`
  abbrev pub index_set : Option Map → Bytes → V → Option Map
  index_set none name v = none
  index_set (some m) name v = some (set m name v)

  -- The loop that moves the nodes into a new map.
  unfoldable pub migrate : Map → List (EnvNode V) → Map
  migrate m [] = m
  migrate m (node ∷ rest) = migrate (set m node.name node.value) rest

  -- The branch that both definitions share: the name is there already.
  abbrev pub redefine : Env V Map → Bytes → V → Env V Map
  redefine env name v = record env {
    head = store_node env.head name v;
    map = index_set env.map name v;
  }

  -- `env_define` on the scope itself
  unfoldable pub define : Env V Map → Bytes → V → Env V Map
  define env name v = elim (find_node env.head name) [
    | some _ ↦ redefine env name v
    | none ↦
        let copy = my_strndup name in
        record env {
          head =
              record {
                name = copy;
                name_length = length name;
                owns_name = true;
                is_const = false;
                value = v;
              }
              ∷ env.head;
          count = env.count + 1;
          map = index_set env.map copy v;
        }
  ]

  -- The new map of a scope that has just grown past the threshold.
  abbrev pub promote : Env V Map → Env V Map
  promote env =
      if env.count == env_map_threshold + 1
      then record env { map = some (migrate (init (env.count * 2)) env.head) }
      else env

  -- `env_define_const` on the scope itself
  unfoldable pub define_const : Env V Map → Bytes → V → Env V Map
  define_const env name v = elim (find_node env.head name) [
    | some _ ↦ redefine env name v
    | none ↦ promote (record env {
      head =
          record {
            name = name;
            name_length = length name;
            owns_name = false;
            is_const = true;
            value = v;
          }
          ∷ env.head;
      count = env.count + 1;
      map = index_set env.map name v;
    })
  ]

  -- What `env_get` reads in one scope: the map first, then the list.
  unfoldable pub scope_get : Env V Map → Bytes → Option V
  scope_get env name = elim env.map [
    | none ↦ scan env.head name
    | some m ↦ elim (get m name) [ some v ↦ some v | none ↦ scan env.head name ]
  ]
