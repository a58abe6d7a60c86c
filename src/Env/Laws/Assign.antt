-- ===== src/Env/Laws/Assign.antt =====
-- `env_assign` of src/env.c: it changes the one variable that lexical scope names, or nothing.
use sage_tree.Base.{
  ℕ, zero, suc, ◌+◌, ◌≡◌, ◌∙◌, refl, sym, ap, inl, inr, Bool, true, false, ◌&&◌, Option, none, some,
  List, Bytes, bytes_eq, bytes_eq_iff, length, length-set, arith, Option-cases, Bool-cases, set,
  if◌then◌else◌, ◌==◌, ==_iff,
}
use mathlib.Core.Path.{subst}
use sage_tree.Env.Index.{Index}
use sage_tree.Env.Scope.{EnvNode, Env, find_node, scan, store_node}
use sage_tree.Env.Sync.{or_value, scan-store_node}
use sage_tree.Env.Define.{redefine-IsSynced, Overlays}
use sage_tree.Env.Walk.{
  Store, cell, env_get, get_node_from, env_get_node, assign_in, assign_from, env_assign,
}
use sage_tree.Env.Laws.Cells.{IsStore, cell-lt, cell-set}
use sage_tree.Env.Laws.Reads.{
  node_value, get_from-get_node_from, get_node_from_up, get_node_from-there,
}
use sage_tree.Env.Laws.Writes.{set-IsStore, value_step, value_step_none}

module _ {V : Type 0} (ix : Index V) where
  open ix use {Map}

  -- What a search that found `r` reads after `name` of the scope `b` was set to `v`.
  abbrev pub reassigned : ℕ → Bytes → V → Bytes → Option (ℕ × EnvNode V) → Option V
  reassigned b name v other none = none
  reassigned b name v other (some (c, node)) =
      some (if (b == c) && bytes_eq name other then v else node.value)

  -- The walk of `env_assign` stops where that of `env_get_node` does.
  assign_from-none :
      (fuel : ℕ) (cells : List (Option (Env V Map))) (c : Option ℕ) (name : Bytes) (v : V)
      → get_node_from ix fuel cells c name ≡ none
      → assign_from ix fuel cells c name v ≡ (cells, false)
  unfolding get_node_from assign_from
  assign_from-none zero cells c name v h = refl
  assign_from-none (suc fuel) cells none name v h = refl
  assign_from-none (suc fuel) cells (some a) name v h = elim (Option-cases (cell cells a)) [
    | inl e ↦ ground (arith, e)
    | inr (env, e) ↦ ground (arith, e, assign_from-none fuel cells env.parent name v)
  ]

  assign_from-some :
      (fuel : ℕ) (cells : List (Option (Env V Map))) (c : Option ℕ) (name : Bytes) (v : V) (b : ℕ)
      (node : EnvNode V)
      → get_node_from ix fuel cells c name ≡ some (b, node)
      → (env : Env V Map) × (cell cells b ≡ some env)
        × (find_node env.head name ≡ some node)
        × (assign_from ix fuel cells c name v ≡ (
            if node.is_const
            then (cells, false)
            else (set cells b (some (assign_in ix env name v)), true)))
  unfolding get_node_from assign_from
  assign_from-some zero cells c name v b node h = cc
  assign_from-some (suc fuel) cells none name v b node h = cc
  assign_from-some (suc fuel) cells (some a) name v b node h = elim (Option-cases (cell cells a)) [
    | inl e ↦ absurd (ground (arith, e, h))
    | inr (env, e) ↦ elim (Option-cases (find_node env.head name)) [
      | inr (found, f) ↦
          let same : some (a, found) ≡ some (b, node) =
            sym (get_node_from-there ix fuel cells a env name e f) ∙ h in
          let at : a ≡ b = cc same in
          let it : found ≡ node = cc same in rw (← at, ← it) (env, e, f, ground (arith, e, f))
      | inl f ↦
          let (there, is, it, run) =
            assign_from-some fuel cells env.parent name v b node
              (sym (get_node_from_up ix fuel cells a env name e f) ∙ h) in
          (there, is, it, ground (arith, e, f, run))
    ]
  ]

  module _ (cells : List (Option (Env V Map))) (b : ℕ) (env : Env V Map) (name : Bytes) (v : V)
      (node : EnvNode V) (h : IsStore ix cells) (e : cell cells b ≡ some env)
      (f : find_node env.head name ≡ some node) where
    abbrev assigned : List (Option (Env V Map))
    assigned = set cells b (some (assign_in ix env name v))

    overlaid : Overlays name v env.head (store_node env.head name v)
    overlaid other = scan-store_node env.head name v other node (h b env e).0.ordered f

    pub assigned-IsStore : IsStore ix assigned
    assigned-IsStore =
        set-IsStore ix cells b env _ h e (redefine-IsSynced ix env name v node (h b env e).0 f).0
          refl

    look :
        (c : ℕ)
        → cell assigned c ≡ (if b == c then some (assign_in ix env name v) else cell cells c)
    look c = cell-set cells b _ c (cell-lt cells b e)

    -- One step of a search, by what it reads after the assignment.
    reassigned_step :
        (fuel : ℕ) (other : Bytes) (c : ℕ) (there : Env V Map)
        → cell cells c ≡ some there
        → (b == c) ≡ false
        → reassigned b name v other (get_node_from ix (suc fuel) cells (some c) other)
          ≡ or_value
              (scan there.head other)
              (reassigned b name v other (get_node_from ix fuel cells there.parent other))
    unfolding get_node_from
    reassigned_step fuel other c there is ne = ground (arith, is, ne)

    -- The same at the scope of the assignment.
    here_step :
        (fuel : ℕ) (other : Bytes) (c : ℕ)
        → cell cells c ≡ some env
        → (b == c) ≡ true
        → node_value ix (get_node_from ix fuel assigned env.parent other)
          ≡ reassigned b name v other (get_node_from ix fuel cells env.parent other)
        → or_value
            (if bytes_eq name other then some v else scan env.head other)
            (node_value ix (get_node_from ix fuel assigned env.parent other))
          ≡ reassigned b name v other (get_node_from ix (suc fuel) cells (some c) other)
    unfolding get_node_from
    here_step fuel other c is t ih = elim (Option-cases (find_node env.head other)) [
      | inr (found, g) ↦ ground (arith, is, g, t)
      | inl g ↦
          let ne : bytes_eq name other ≡ false = elim (Bool-cases (bytes_eq name other)) [
            | inl same ↦ cc (f, rw (← (bytes_eq_iff name other).0 same) at g)
            | inr ne ↦ ne
          ] in
          rw (ne, g) (ih ∙ ground (arith, is, g))
    ]

    pub read_assigned :
        (fuel : ℕ) (other : Bytes) (c : Option ℕ)
        → node_value ix (get_node_from ix fuel assigned c other)
          ≡ reassigned b name v other (get_node_from ix fuel cells c other)
    unfolding get_node_from
    read_assigned zero other c = refl
    read_assigned (suc fuel) other none = refl
    read_assigned (suc fuel) other (some c) = elim (Bool-cases (b == c)) [
      | inl t ↦
          let at : b ≡ c = (==_iff b c).0 t in
          let old : cell cells c ≡ some env = rw (← at) e in
          value_step ix fuel assigned c (assign_in ix env name v) other (rw (look c, t))
          ∙ rw (overlaid other) (here_step fuel other c old t (read_assigned fuel other env.parent))
      | inr n ↦ elim (Option-cases (cell cells c)) [
        | inl no_cell ↦
            value_step_none ix fuel assigned c other (rw (look c, n) no_cell)
            ∙ ground (arith, no_cell)
        | inr (there, is) ↦
            value_step ix fuel assigned c there other (rw (look c, n) is)
            ∙ rw (read_assigned fuel other there.parent)
                (sym (reassigned_step fuel other c there is n))
      ]
    ]

  -- How a call ends on a variable of the scope `b`, by whether it is a constant.
  abbrev pub AssignsTo : Bool → Store V Map → ℕ → Bytes → V → Store V Map × Bool → Type 0
  AssignsTo true s b name v r = r ≡ (s, false)
  AssignsTo false s b name v r =
      (r.1 ≡ true)
      × IsStore ix r.0.cells
      × ((c : Option ℕ) (other : Bytes)
          → env_get ix r.0 c other ≡ reassigned b name v other (env_get_node ix s c other))

  -- How a call ends, by what the search for the name finds.
  abbrev pub Assigns :
      Store V Map → Bytes → V → Store V Map × Bool → Option (ℕ × EnvNode V) → Type 0
  Assigns s name v r none = r ≡ (s, false)
  Assigns s name v r (some (b, node)) = AssignsTo node.is_const s b name v r

  module _ (s : Store V Map) (b : ℕ) (env : Env V Map) (name : Bytes) (v : V) (node : EnvNode V)
      (h : IsStore ix s.cells) (e : cell s.cells b ≡ some env)
      (f : find_node env.head name ≡ some node) where
    abbrev after : List (Option (Env V Map))
    after = set s.cells b (some (assign_in ix env name v))

    -- Both stores have as many cells, so the walks have the same fuel.
    env_get-after :
        (c : Option ℕ) (other : Bytes)
        → env_get ix (record s { cells = after }) c other
          ≡ reassigned b name v other (env_get_node ix s c other)
    unfolding env_get env_get_node
    env_get-after c other =
        let fuel : length after + 1 ≡ length s.cells + 1 =
          omega (arith, length-set s.cells b (some (assign_in ix env name v))) in
        get_from-get_node_from ix (length after + 1) after c other
          (assigned-IsStore s.cells b env name v node h e f)
        ∙ read_assigned s.cells b env name v node h e f (length after + 1) other c
        ∙ ap (λ n. reassigned b name v other (get_node_from ix n s.cells c other)) fuel

    assigns_found :
        (constant : Bool) (r : List (Option (Env V Map)) × Bool)
        → r ≡ (if constant then (s.cells, false) else (after, true))
        → AssignsTo constant s b name v (record s { cells = r.0 }, r.1)
    assigns_found true r q = ap (λ t. (record s { cells = t.0 }, t.1)) q
    assigns_found false r q =
        subst (λ t. AssignsTo false s b name v (record s { cells = t.0 }, t.1)) (sym q)
          (refl, assigned-IsStore s.cells b env name v node h e f, env_get-after)

  -- Every call of `env_assign` on a store in order: where the search finds no variable, or a
  -- constant, it returns 0 and the store is as before. Where it finds a mutable one it returns 1,
  -- the store stays in order, and from every scope exactly the readings that find this same
  -- variable change, to the new value.
  pub env_assign-Assigns :
      (s : Store V Map) (c : Option ℕ) (name : Bytes) (v : V)
      → IsStore ix s.cells
      → Assigns s name v (env_assign ix s c name v) (env_get_node ix s c name)
  unfolding env_assign env_get_node
  env_assign-Assigns s c name v h =
      by_search (get_node_from ix (length s.cells + 1) s.cells c name) refl
    where
      by_search :
          (o : Option (ℕ × EnvNode V))
          → get_node_from ix (length s.cells + 1) s.cells c name ≡ o
          → Assigns s name v (env_assign ix s c name v) o
      by_search none g =
          ap (λ t. (record s { cells = t.0 }, t.1))
            (assign_from-none (length s.cells + 1) s.cells c name v g)
      by_search (some (b, node)) g =
          let (env, e, f, run) = assign_from-some (length s.cells + 1) s.cells c name v b node g in
          assigns_found s b env name v node h e f node.is_const
            (assign_from ix (length s.cells + 1) s.cells c name v) run
