-- ===== src/Env/Index.antt =====
-- What a scope relies on of the hash map that indexes it: `envmap_init`, `envmap_set` and
-- `envmap_get` of include/env_hashmap.h. A map is made with at most 2 ^ 30 slots.
use sage_tree.Base.{ℕ, ◌≤◌, ◌≡◌, Option, none, some, Bytes, bytes_eq, if◌then◌else◌}

pub record Index (V : Type 0) : Type 1 where
  pub Map : Type 0
  pub IsValid : Map → Type 0
  pub init : ℕ → Map
  pub set : Map → Bytes → V → Map
  pub get : Map → Bytes → Option V
  pub init-IsValid : (n : ℕ) → n ≤ 1073741824 → IsValid (init n)
  pub get-init : (n : ℕ) (key : Bytes) → n ≤ 1073741824 → get (init n) key ≡ none
  pub set-IsValid : (m : Map) (key : Bytes) (v : V) → IsValid m → IsValid (set m key v)
  pub get-set :
      (m : Map) (key : Bytes) (v : V) (other : Bytes)
      → IsValid m
      → get (set m key v) other ≡ (if bytes_eq key other then some v else get m other)
