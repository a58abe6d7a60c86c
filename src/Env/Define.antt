-- ===== src/Env/Define.antt =====
-- `env_define` and `env_define_const` of src/env.c on one scope, and the assignment that
-- `env_assign` makes there: what is read afterwards, and that the scope stays in order.
use sage_tree.Base.{
  ℕ, ◌≤◌, ◌∙◌, ◌+◌, ◌*◌, ◌≡◌, refl, inl, inr, Option, none, some, List, ◌∷◌, Bytes, bytes_eq,
  length, ◌==◌, if◌then◌else◌, arith, Option-cases, Bool-cases, sym,
}
use sage_tree.Env.Index.{Index}
use sage_tree.Env.Scope.{
  EnvNode, Env, find_node, scan, store_node, index_set, redefine, promote, define, define_const,
  env_map_threshold,
}
use sage_tree.Env.Sync.{
  NoNull, strndup-NoNull, is_named-eq, scan-store_node, store_node-Ordered, Indexes, IsSynced,
  migrate-IsValid, get-migrate,
}

module _ {V : Type 0} where
  -- The list `l'` reads as `l` does, with `v` under `name`.
  abbrev pub Overlays : Bytes → V → List (EnvNode V) → List (EnvNode V) → Type 0
  Overlays name v l l' =
      (other : Bytes) → scan l' other ≡ (if bytes_eq name other then some v else scan l other)

  -- A new first node overlays the list.
  cons-Overlays :
      (node : EnvNode V) (l : List (EnvNode V))
      → node.name_length ≡ length node.name
      → Overlays node.name node.value l (node ∷ l)
  unfolding find_node
  cons-Overlays node l h other = rw (is_named-eq node other h) (ground arith)

module _ {V : Type 0} (ix : Index V) where
  open ix use {Map, IsValid, init, set, get, init-IsValid, get-init, set-IsValid, get-set}

  index_set-Indexes :
      (m : Option Map) (name : Bytes) (v : V) (l l' : List (EnvNode V))
      → Indexes ix m l
      → Overlays name v l l'
      → Indexes ix (index_set ix m name v) l'
  index_set-Indexes none name v l l' h over = tt
  index_set-Indexes (some m) name v l l' h over = (
    set-IsValid m name v h.0,
    λ other. get-set m name v other h.0 ∙ rw (h.1 other) (sym (over other)),
  )

  -- A value stored in a node that is there.
  pub redefine-IsSynced :
      (env : Env V Map) (name : Bytes) (v : V) (old : EnvNode V)
      → IsSynced ix env
      → find_node env.head name ≡ some old
      → IsSynced ix (redefine ix env name v)
        × Overlays name v env.head (redefine ix env name v).head
  redefine-IsSynced env name v old s h =
      let over : Overlays name v env.head (store_node env.head name v) =
        λ other. scan-store_node env.head name v other old s.ordered h in
      (
        record {
          ordered = store_node-Ordered env.head name v s.ordered;
          indexed = index_set-Indexes env.map name v env.head _ s.indexed over;
        },
        over,
      )

  -- A new node in front.
  push-IsSynced :
      (env : Env V Map) (node : EnvNode V) (n : ℕ)
      → IsSynced ix env
      → node.name_length ≡ length node.name
      → find_node env.head node.name ≡ none
      → IsSynced ix (record env {
        head = node ∷ env.head;
        count = n;
        map = index_set ix env.map node.name node.value;
      })
  push-IsSynced env node n s len fresh = record {
    ordered = (len, fresh, s.ordered);
    indexed =
        index_set-Indexes env.map node.name node.value env.head _ s.indexed
          (cons-Overlays node env.head len);
  }

  promote-IsSynced : (env : Env V Map) → IsSynced ix env → IsSynced ix (promote ix env)
  promote-IsSynced env s = elim (Bool-cases (env.count == env_map_threshold + 1)) [
    | inr e ↦ rw e s
    | inl e ↦
        let small : env.count * 2 ≤ 1073741824 = ground (arith, e) in
        let valid = init-IsValid (env.count * 2) small in
        rw e (record {
          ordered = s.ordered;
          indexed = (
            migrate-IsValid ix env.head _ valid,
            λ name.
                get-migrate ix env.head _ name valid s.ordered
                ∙ rw (get-init (env.count * 2) name small) (ground arith),
          );
        })
  ]

  promote-head : (env : Env V Map) → (promote ix env).head ≡ env.head
  promote-head env = ground arith

  -- What both definitions guarantee.
  abbrev pub Defines : Env V Map → Bytes → V → Env V Map → Type 0
  Defines env name v env' = IsSynced ix env' × Overlays name v env.head env'.head

  pub define-Defines :
      (env : Env V Map) (name : Bytes) (v : V)
      → IsSynced ix env
      → NoNull name
      → Defines env name v (define ix env name v)
  unfolding define
  define-Defines env name v s h = elim (Option-cases (find_node env.head name)) [
    | inr (old, e) ↦ rw (e, define) (redefine-IsSynced env name v old s e)
    | inl e ↦
        let same = strndup-NoNull name h in
        rw (e, define, same)
          (push-IsSynced env _ (env.count + 1) s refl e, cons-Overlays _ env.head refl)
  ]

  pub define_const-Defines :
      (env : Env V Map) (name : Bytes) (v : V)
      → IsSynced ix env
      → Defines env name v (define_const ix env name v)
  unfolding define_const
  define_const-Defines env name v s = elim (Option-cases (find_node env.head name)) [
    | inr (old, e) ↦ rw (e, define_const) (redefine-IsSynced env name v old s e)
    | inl e ↦
        rw (e, define_const)
          (
            promote-IsSynced _ (push-IsSynced env _ (env.count + 1) s refl e),
            rw promote-head (cons-Overlays _ env.head refl),
          )
  ]
