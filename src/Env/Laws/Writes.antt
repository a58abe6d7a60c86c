-- ===== src/Env/Laws/Writes.antt =====
-- What the writes of src/env.c change: `env_define`, `env_define_const`, `env_assign`, `env_create`.
use sage_tree.Base.{
  ℕ, zero, suc, ◌<◌, ◌≡◌, ◌∙◌, refl, sym, ap, inl, inr, false, Option, none, some, List, Bytes,
  bytes_eq, length, arith, Option-cases, Bool-cases, set, if◌then◌else◌, ◌==◌, ==_iff,
}
use mathlib.Core.Path.{ap₂, subst}
use sage_tree.Env.Index.{Index}
use sage_tree.Env.Scope.{Env, scan}
use sage_tree.Env.Sync.{IsSynced, or_value}
use sage_tree.Env.Define.{Overlays}
use sage_tree.Env.Walk.{cell, get_node_from}
use sage_tree.Env.Laws.Cells.{ParentBelow, cell-lt, cell-set, IsStore}
use sage_tree.Env.Laws.Reads.{node_value}

module _ {V : Type 0} (ix : Index V) where
  open ix use {Map}

  ParentBelow-set :
      (cells : List (Option (Env V Map))) (a : ℕ) (env' : Env V Map) (c : ℕ) (p : Option ℕ)
      → a < length cells
      → ParentBelow cells c p
      → ParentBelow (set cells a (some env')) c p
  ParentBelow-set cells a env' c none lt h = tt
  ParentBelow-set cells a env' c (some q) lt h =
      let look = cell-set cells a (some env') q lt in
      elim (Bool-cases (a == q)) [
        | inl t ↦ (h.0, rw (look, t) tt)
        | inr f ↦ (h.0, rw (look, f) h.1)
      ]

  -- A scope replaced by one in order, under the same parent, leaves the store in order.
  pub set-IsStore :
      (cells : List (Option (Env V Map))) (a : ℕ) (env env' : Env V Map)
      → IsStore ix cells
      → cell cells a ≡ some env
      → IsSynced ix env'
      → env'.parent ≡ env.parent
      → IsStore ix (set cells a (some env'))
  set-IsStore cells a env env' h e sync same c found is =
      let lt = cell-lt cells a e in
      let look = cell-set cells a (some env') c lt in
      elim (Bool-cases (a == c)) [
        | inl t ↦
            let at : a ≡ c = (==_iff a c).0 t in
            let it : env' ≡ found = cc (rw t at look, is) in
            rw (← it, ← at)
              (
                sync,
                subst (λ p. ParentBelow (set cells a (some env')) a p) (sym same)
                    (ParentBelow-set cells a env' a env.parent lt (h a env e).1),
              )
        | inr f ↦
            let there : cell cells c ≡ some found = sym (rw f at look) ∙ is in
            let old = h c found there in
            (old.0, ParentBelow-set cells a env' c found.parent lt old.1)
      ]

  -- One step of the walk, by the value that it returns.
  pub value_step :
      (fuel : ℕ) (cells : List (Option (Env V Map))) (c : ℕ) (env : Env V Map) (other : Bytes)
      → cell cells c ≡ some env
      → node_value ix (get_node_from ix (suc fuel) cells (some c) other)
        ≡ or_value
            (scan env.head other)
            (node_value ix (get_node_from ix fuel cells env.parent other))
  unfolding get_node_from
  value_step fuel cells c env other e = ground arith

  pub value_step_none :
      (fuel : ℕ) (cells : List (Option (Env V Map))) (c : ℕ) (other : Bytes)
      → cell cells c ≡ none
      → node_value ix (get_node_from ix (suc fuel) cells (some c) other) ≡ none
  unfolding get_node_from
  value_step_none fuel cells c other e = ground arith

  module _ (cells : List (Option (Env V Map))) (a : ℕ) (env env' : Env V Map) (name : Bytes) (v : V)
      (e : cell cells a ≡ some env) (same : env'.parent ≡ env.parent)
      (over : Overlays name v env.head env'.head) where
    abbrev after : List (Option (Env V Map))
    after = set cells a (some env')

    look : (c : ℕ) → cell after c ≡ (if a == c then some env' else cell cells c)
    look c = cell-set cells a (some env') c (cell-lt cells a e)

    -- What the walk reads under another name, after one name of a scope was overlaid.
    pub read_overlaid :
        (fuel : ℕ) (other : Bytes) (c : Option ℕ)
        → bytes_eq name other ≡ false
        → node_value ix (get_node_from ix fuel after c other)
          ≡ node_value ix (get_node_from ix fuel cells c other)
    unfolding get_node_from
    read_overlaid zero other c ne = refl
    read_overlaid (suc fuel) other none ne = refl
    read_overlaid (suc fuel) other (some c) ne = elim (Bool-cases (a == c)) [
      | inl t ↦
          let at : a ≡ c = (==_iff a c).0 t in
          let old : cell cells c ≡ some env = rw (← at) e in
          value_step fuel after c env' other (rw (look c, t))
          ∙ ap₂ or_value (rw (over other, ne)) (
              ap (λ p. node_value ix (get_node_from ix fuel after p other)) same
              ∙ read_overlaid fuel other env.parent ne)
          ∙ sym (value_step fuel cells c env other old)
      | inr f ↦ elim (Option-cases (cell cells c)) [
        | inl no_cell ↦
            value_step_none fuel after c other (rw (look c, f) no_cell)
            ∙ sym (value_step_none fuel cells c other no_cell)
        | inr (there, is) ↦
            value_step fuel after c there other (rw (look c, f) is)
            ∙ rw (read_overlaid fuel other there.parent ne)
                (sym (value_step fuel cells c there other is))
      ]
    ]

    -- What the walk reads from the scope itself.
    pub read_here :
        (fuel : ℕ) (other : Bytes)
        → node_value ix (get_node_from ix (suc fuel) after (some a) other) ≡ (
            if bytes_eq name other
            then some v
            else node_value ix (get_node_from ix (suc fuel) cells (some a) other))
    read_here fuel other =
        let here' : cell after a ≡ some env' = rw (look a) (ground arith) in
        elim (Bool-cases (bytes_eq name other)) [
          | inl t ↦ rw t (value_step fuel after a env' other here' ∙ rw (over other, t))
          | inr f ↦ rw f (read_overlaid (suc fuel) other (some a) f)
        ]
