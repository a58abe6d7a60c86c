-- ===== src/Env/Laws/Define.antt =====
-- `env_define`, `env_define_const` and `env_create` of src/env.c on a store in order.
use sage_tree.Base.{
  ℕ, suc, ◌+◌, ◌≡◌, Option, some, Bytes, bytes_eq, length, length-set, arith, set, if◌then◌else◌,
  false,
}
use sage_tree.Env.Index.{Index}
use sage_tree.Env.Scope.{Env, define, define_const}
use sage_tree.Env.Sync.{NoNull, IsSynced}
use sage_tree.Env.Define.{Defines, define-Defines, define_const-Defines}
use sage_tree.Env.Walk.{Store, cell, env_get, get_node_from, env_define, env_define_const}
use sage_tree.Env.Laws.Cells.{IsStore}
use sage_tree.Env.Laws.Reads.{node_value, get_from-get_node_from}
use sage_tree.Env.Laws.Writes.{set-IsStore, read_overlaid, read_here}

module _ {V : Type 0} (ix : Index V) where
  open ix use {Map}

  -- `s'` is `s` with the variable `name` of the scope `a` set to `v`: the store is in order, the
  -- scope reads `v` under that name, and no other name is read differently from any scope.
  pub record Defined (s : Store V Map) (a : ℕ) (name : Bytes) (v : V) (s' : Store V Map)
      : Type 0 where
    pub in_order : IsStore ix s'.cells
    pub reads :
        (other : Bytes)
        → env_get ix s' (some a) other
          ≡ (if bytes_eq name other then some v else env_get ix s (some a) other)
    pub keeps :
        (c : Option ℕ) (other : Bytes)
        → bytes_eq name other ≡ false
        → env_get ix s' c other ≡ env_get ix s c other

  module _ (s : Store V Map) (a : ℕ) (name : Bytes) (v : V) (env env' : Env V Map)
      (h : IsStore ix s.cells) (e : cell s.cells a ≡ some env) (same : env'.parent ≡ env.parent)
      (d : Defines ix env name v env') where
    abbrev after : Store V Map
    after = record s { cells = set s.cells a (some env') }

    ordered_after : IsStore ix after.cells
    ordered_after = set-IsStore ix s.cells a env env' h e d.0 same

    -- Both stores have as many cells, so the walks have the same fuel.
    env_get-after :
        (c : Option ℕ) (other : Bytes)
        → env_get ix after c other
          ≡ node_value ix (get_node_from ix (suc (length s.cells)) after.cells c other)
    unfolding env_get
    env_get-after c other =
        let fuel : length after.cells + 1 ≡ suc (length s.cells) =
          omega (arith, length-set s.cells a (some env')) in
        rw fuel (get_from-get_node_from ix (suc (length s.cells)) after.cells c other ordered_after)

    env_get-before :
        (c : Option ℕ) (other : Bytes)
        → env_get ix s c other
          ≡ node_value ix (get_node_from ix (suc (length s.cells)) s.cells c other)
    unfolding env_get
    env_get-before c other =
        let fuel : length s.cells + 1 ≡ suc (length s.cells) = omega arith in
        rw fuel (get_from-get_node_from ix (suc (length s.cells)) s.cells c other h)

    pub write-Defined : Defined s a name v after
    write-Defined = record {
      in_order = ordered_after;
      reads = λ other.
          rw (env_get-after (some a) other, env_get-before (some a) other)
            (read_here ix s.cells a env env' name v e same d.1 (length s.cells) other);
      keeps = λ c other ne.
          rw (env_get-after c other, env_get-before c other)
            (read_overlaid ix s.cells a env env' name v e same d.1 (suc (length s.cells)) other c
              ne);
    }

  define-parent :
      (env : Env V Map) (name : Bytes) (v : V) → (define ix env name v).parent ≡ env.parent
  unfolding define
  define-parent env name v = ground arith

  define_const-parent :
      (env : Env V Map) (name : Bytes) (v : V) → (define_const ix env name v).parent ≡ env.parent
  unfolding define_const
  define_const-parent env name v = ground arith

  module _ (s : Store V Map) (a : ℕ) (name : Bytes) (v : V) (env : Env V Map)
      (h : IsStore ix s.cells) (e : cell s.cells a ≡ some env) where
    -- `env_define` on a scope that is there, of a name with no null byte, sets the variable in that
    -- scope and changes no reading of another name from any scope; the store stays in order.
    pub env_define-Defined :
        NoNull name
        → (s' : Store V Map) × (env_define ix s a name v ≡ some s') × Defined s a name v s'
    unfolding env_define
    env_define-Defined clean = (
      _,
      ground (arith, e),
      write-Defined s a name v env (define ix env name v) h e (define-parent env name v)
          (define-Defines ix env name v h' clean),
    )
      where
        h' : IsSynced ix env
        h' = (h a env e).0

    -- `env_define_const` on a scope that is there sets the variable in that scope and changes no
    -- reading of another name from any scope, also when the scope gets its hash map in this call;
    -- the store stays in order.
    pub env_define_const-Defined :
        (s' : Store V Map) × (env_define_const ix s a name v ≡ some s') × Defined s a name v s'
    unfolding env_define_const
    env_define_const-Defined = (
      _,
      ground (arith, e),
      write-Defined s a name v env (define_const ix env name v) h e (define_const-parent env name v)
          (define_const-Defines ix env name v (h a env e).0),
    )
