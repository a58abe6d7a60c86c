-- ===== src/Env/Sync.antt =====
-- A scope of src/env.c is in order: its nodes have different names, and its map, if there is one,
-- holds exactly what the list holds. Both definitions and the assignment keep it so.
use sage_tree.Base.{
  ◌≡◌, ◌≢◌, refl, ◌∙◌, inl, inr, Option, none, some, List, [], ◌∷◌, Bytes, bytes_eq, bytes_eq_iff,
  bytes_eq_refl, bytes_cases, length, if◌then◌else◌, arith, All, Bool-cases,
}
use sage_tree.Env.Index.{Index}
use sage_tree.Env.Scope.{
  EnvNode, Env, is_named, my_strndup, find_node, scan, store_node, migrate, scope_get,
}

-- No null byte: the names that the lexer and the compiler hand over.
abbrev pub NoNull : Bytes → Type 0
NoNull = All (λ c. c ≢ 0)

pub strndup-NoNull : (name : Bytes) → NoNull name → my_strndup name ≡ name
unfolding my_strndup
strndup-NoNull [] h = refl
strndup-NoNull (c ∷ s) h = ground (arith, strndup-NoNull s)

module _ {V : Type 0} where
  abbrev pub HasLength : EnvNode V → Type 0
  HasLength node = node.name_length ≡ length node.name

  pub is_named-eq :
      (node : EnvNode V) (name : Bytes)
      → HasLength node
      → is_named node name ≡ bytes_eq node.name name
  unfolding is_named
  is_named-eq node name h = elim (bytes_cases node.name name) [
    | inl e ↦ rw (h, ← e, bytes_eq_refl) (ground arith)
    | inr e ↦ rw e (ground arith)
  ]

  -- Every node has its length, and no later node has its name.
  abbrev pub Ordered : List (EnvNode V) → Type 0
  Ordered [] = Unit
  Ordered (node ∷ rest) = HasLength node × (find_node rest node.name ≡ none) × Ordered rest

  pub scan-store_node :
      (l : List (EnvNode V)) (name : Bytes) (v : V) (other : Bytes) (old : EnvNode V)
      → Ordered l
      → find_node l name ≡ some old
      → scan (store_node l name v) other ≡ (if bytes_eq name other then some v else scan l other)
  unfolding find_node store_node
  scan-store_node [] name v other old o h = cc
  scan-store_node (node ∷ rest) name v other old o h = ground (
    arith,
    is_named-eq node name o.0,
    is_named-eq node other o.0,
    is_named-eq (record node { value = v }) other o.0,
    bytes_eq_iff node.name name,
    bytes_eq_iff node.name other,
    bytes_eq_iff name other,
    scan-store_node rest name v other old o.2,
  )

  -- A store changes no name, so a name that is absent stays absent.
  find_node-store_node-none :
      (l : List (EnvNode V)) (name : Bytes) (v : V) (other : Bytes)
      → find_node l other ≡ none
      → find_node (store_node l name v) other ≡ none
  unfolding find_node store_node is_named
  find_node-store_node-none [] name v other h = refl
  find_node-store_node-none (node ∷ rest) name v other h =
      ground (arith, find_node-store_node-none rest name v other)

  pub store_node-Ordered :
      (l : List (EnvNode V)) (name : Bytes) (v : V) → Ordered l → Ordered (store_node l name v)
  unfolding store_node
  store_node-Ordered [] name v o = tt
  store_node-Ordered (node ∷ rest) name v o = elim (Bool-cases (is_named node name)) [
    | inl e ↦ rw e (o.0, o.1, o.2)
    | inr e ↦ rw e (
      o.0,
      find_node-store_node-none rest name v node.name o.1,
      store_node-Ordered rest name v o.2,
    )
  ]

  -- The first of two values that is there.
  abbrev pub or_value : Option V → Option V → Option V
  or_value none b = b
  or_value (some a) b = some a

module _ {V : Type 0} (ix : Index V) where
  open ix use {Map, IsValid, init, set, get, init-IsValid, get-init, set-IsValid, get-set}

  pub migrate-IsValid : (l : List (EnvNode V)) (m : Map) → IsValid m → IsValid (migrate ix m l)
  unfolding migrate
  migrate-IsValid [] m h = h
  migrate-IsValid (node ∷ rest) m h =
      migrate-IsValid rest (set m node.name node.value) (set-IsValid m node.name node.value h)

  -- After the loop the map reads as the list, and as before where the list has no such name.
  pub get-migrate :
      (l : List (EnvNode V)) (m : Map) (name : Bytes)
      → IsValid m
      → Ordered l
      → get (migrate ix m l) name ≡ or_value (scan l name) (get m name)
  unfolding migrate find_node
  get-migrate [] m name h o = refl
  get-migrate (node ∷ rest) m name h o =
      let m' = set m node.name node.value in
      get-migrate rest m' name (set-IsValid m node.name node.value h) o.2
      ∙ ground (
        arith,
        get-set m node.name node.value name h,
        is_named-eq node name o.0,
        bytes_eq_iff node.name name,
        o.1,
      )

  -- The map is an index of the list: it reads every name as the list does.
  abbrev pub Indexes : Option Map → List (EnvNode V) → Type 0
  Indexes none l = Unit
  Indexes (some m) l = IsValid m × ((name : Bytes) → get m name ≡ scan l name)

  pub record IsSynced (env : Env V Map) : Type 0 where
    pub ordered : Ordered env.head
    pub indexed : Indexes env.map env.head

  -- The map is only an index: a scope reads a name as a search of its list does.
  pub scope_get-eq-scan :
      (env : Env V Map) (name : Bytes) → IsSynced env → scope_get ix env name ≡ scan env.head name
  unfolding scope_get
  scope_get-eq-scan env name s = read env.map s.indexed
    where
      read :
          (m : Option Map)
          → Indexes m env.head
          → elim m [
            | none ↦ scan env.head name
            | some m ↦ elim (get m name) [ some v ↦ some v | none ↦ scan env.head name ]
          ]
            ≡ scan env.head name
      read none h = refl
      read (some m) h = rw (h.1 name) (ground arith)
