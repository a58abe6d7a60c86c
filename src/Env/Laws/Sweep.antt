-- ===== src/Env/Laws/Sweep.antt =====
-- `env_sweep_unmarked` of src/env.c: what a collection of scopes keeps and what it frees.
use sage_tree.Base.{
  ℕ, zero, suc, ◌+◌, ◌≡◌, ◌≢◌, ◌⊎◌, ◌∙◌, refl, inl, inr, Bool, true, false, Option, none, some,
  List, [], ◌∷◌, Bytes, set, length, length-set, ◌==◌, ==_iff, All, arith, Option-cases, Bool-cases,
  if◌then◌else◌,
}
use sage_tree.Env.Index.{Index}
use sage_tree.Env.Scope.{Env, scope_get}
use sage_tree.Env.Walk.{Store, cell, get_from, env_get}
use sage_tree.Env.Sweep.{sweep_cells, env_sweep_unmarked}
use sage_tree.Env.Laws.Cells.{cell-lt, cell-set}

abbrev pub Distinct : List ℕ → Type 0
Distinct [] = Unit
Distinct (a ∷ rest) = All (λ b. a ≢ b) rest × Distinct rest

-- The address is in the list.
abbrev pub In : ℕ → List ℕ → Type 0
In c [] = ⊥
In c (a ∷ rest) = (c ≡ a) ⊎ In c rest

distinct-In : (a c : ℕ) (l : List ℕ) → All (λ b. a ≢ b) l → In c l → a ≢ c
distinct-In a c [] h i = absurd i
distinct-In a c (b ∷ l) h (inl e) = rw e h.0
distinct-In a c (b ∷ l) h (inr i) = distinct-In a c l h.1 i

==_refl : (a : ℕ) → (a == a) ≡ true
==_refl a = ground arith

module _ {V M : Type 0} where
  -- A cell that is not in the list is not touched.
  sweep_cells-other :
      (l : List ℕ) (cells : List (Option (Env V M))) (c : ℕ)
      → All (λ b. c ≢ b) l
      → cell (sweep_cells l cells) c ≡ cell cells c
  unfolding sweep_cells
  sweep_cells-other [] cells c h = refl
  sweep_cells-other (a ∷ rest) cells c h = elim (Option-cases (cell cells a)) [
    | inl e ↦ ground (arith, e, sweep_cells-other rest cells c h.1)
    | inr (env, e) ↦
        let lt = cell-lt cells a e in
        ground (
          arith,
          e,
          h.0,
          cell-set cells a none c lt,
          cell-set cells a (some (record env { marked = false })) c lt,
          sweep_cells-other rest (set cells a none) c h.1,
          sweep_cells-other rest (set cells a (some (record env { marked = false }))) c h.1,
        )
  ]

  -- A scope that is marked is there afterwards, but for its mark.
  abbrev pub Stays : List (Option (Env V M)) → ℕ → Env V M → Type 0
  Stays cells c env = (b : Bool) × (cell cells c ≡ some (record env { marked = b }))

  sweep_cells-Stays :
      (l : List ℕ) (cells : List (Option (Env V M))) (c : ℕ) (env : Env V M)
      → Distinct l
      → cell cells c ≡ some env
      → env.marked ≡ true
      → Stays (sweep_cells l cells) c env
  unfolding sweep_cells
  sweep_cells-Stays [] cells c env d e m = (env.marked, e)
  sweep_cells-Stays (a ∷ rest) cells c env d e m = elim (Option-cases (cell cells a)) [
    | inl n ↦ rw (n, sweep_cells) (sweep_cells-Stays rest cells c env d.1 e m)
    | inr (x, at) ↦
        let kept = some (record x { marked = false }) in
        let lt = cell-lt cells a at in
        elim (Bool-cases (a == c)) [
          | inl same ↦
              let here : a ≡ c = (==_iff a c).0 same in
              let it : x ≡ env = cc (at, e, here) in
              let marked : x.marked ≡ true = cc (it, m) in
              let later : cell (sweep_cells rest (set cells a kept)) a ≡ kept =
                sweep_cells-other rest (set cells a kept) a d.0
                ∙ (cell-set cells a kept a lt ∙ rw (==_refl a) refl) in
              rw (at, sweep_cells, marked, ← here, ← it) (false, later)
          | inr apart ↦
              let there : (y : Option (Env V M)) → cell (set cells a y) c ≡ some env =
                λ y. cell-set cells a y c lt ∙ rw apart e in
              elim (Bool-cases x.marked) [
                | inl marked ↦
                    rw (at, sweep_cells, marked)
                      (sweep_cells-Stays rest (set cells a kept) c env d.1 (there kept) m)
                | inr unmarked ↦
                    rw (at, sweep_cells, unmarked)
                      (sweep_cells-Stays rest (set cells a none) c env d.1 (there none) m)
              ]
        ]
  ]

  -- A listed scope loses its mark, or is freed when it has none.
  abbrev pub collected : Env V M → Option (Env V M)
  collected env = if env.marked then some (record env { marked = false }) else none

  sweep_cells-collected :
      (l : List ℕ) (cells : List (Option (Env V M))) (c : ℕ) (env : Env V M)
      → Distinct l
      → In c l
      → cell cells c ≡ some env
      → cell (sweep_cells l cells) c ≡ collected env
  unfolding sweep_cells
  sweep_cells-collected [] cells c env d i e = absurd i
  sweep_cells-collected (a ∷ rest) cells c env d (inl here) e =
      let at : cell cells a ≡ some env = rw (← here) e in
      let lt = cell-lt cells a at in
      let stays : (y : Option (Env V M)) → cell (sweep_cells rest (set cells a y)) c ≡ y = λ y.
        rw here (
          sweep_cells-other rest (set cells a y) a d.0
          ∙ (cell-set cells a y a lt ∙ rw (==_refl a) refl)) in
      ground (arith, at, stays none, stays (some (record env { marked = false })))
  sweep_cells-collected (a ∷ rest) cells c env d (inr i) e =
      let apart : (a == c) ≡ false = ground (arith, distinct-In a c rest d.0 i) in
      elim (Option-cases (cell cells a)) [
        | inl n ↦ rw (n, sweep_cells) (sweep_cells-collected rest cells c env d.1 i e)
        | inr (x, at) ↦
            let later : (y : Option (Env V M))
                → cell (sweep_cells rest (set cells a y)) c ≡ collected env =
              λ y.
                sweep_cells-collected rest (set cells a y) c env d.1 i
                  (cell-set cells a y c (cell-lt cells a at) ∙ rw apart e) in
            ground (arith, at, later none, later (some (record x { marked = false })))
      ]

  sweep_cells-length :
      (l : List ℕ) (cells : List (Option (Env V M))) → length (sweep_cells l cells) ≡ length cells
  unfolding sweep_cells
  sweep_cells-length [] cells = refl
  sweep_cells-length (a ∷ rest) cells = elim (Option-cases (cell cells a)) [
    | inl e ↦ ground (arith, e, sweep_cells-length rest cells)
    | inr (env, e) ↦ ground (
      arith,
      e,
      length-set cells a none,
      length-set cells a (some (record env { marked = false })),
      sweep_cells-length rest (set cells a none),
      sweep_cells-length rest (set cells a (some (record env { marked = false }))),
    )
  ]

module _ {V : Type 0} (ix : Index V) where
  open ix use {Map}

  -- The address is that of a marked scope.
  abbrev pub Marked : List (Option (Env V Map)) → ℕ → Type 0
  Marked cells a = (env : Env V Map) × (cell cells a ≡ some env) × (env.marked ≡ true)

  abbrev pub MarkedOrNone : List (Option (Env V Map)) → Option ℕ → Type 0
  MarkedOrNone cells none = Unit
  MarkedOrNone cells (some a) = Marked cells a

  -- The marks of the collector: a parent of a marked scope is marked.
  abbrev pub Closed : List (Option (Env V Map)) → Type 0
  Closed cells =
      (a : ℕ) (env : Env V Map)
      → cell cells a ≡ some env
      → env.marked ≡ true
      → MarkedOrNone cells env.parent

  get_from-sweep_cells :
      (fuel : ℕ) (l : List ℕ) (cells : List (Option (Env V Map))) (current : Option ℕ)
      (name : Bytes)
      → Distinct l
      → Closed cells
      → MarkedOrNone cells current
      → get_from ix fuel (sweep_cells l cells) current name ≡ get_from ix fuel cells current name
  unfolding get_from scope_get
  get_from-sweep_cells zero l cells current name d closed m = refl
  get_from-sweep_cells (suc fuel) l cells none name d closed m = refl
  get_from-sweep_cells (suc fuel) l cells (some a) name d closed (env, e, marked) =
      let (b, after) = sweep_cells-Stays l cells a env d e marked in
      let rest =
        get_from-sweep_cells fuel l cells env.parent name d closed (closed a env e marked) in
      ground (arith, e, after, rest)

  -- `env_sweep_unmarked` on a store whose list names each scope once and in which the parent of a
  -- marked scope is marked: from every marked scope each name is read as before, and each scope of
  -- the list has its mark cleared, or is freed when it had none.
  pub env_sweep_unmarked_lem :
      (s : Store V Map)
      → Distinct s.allocated
      → Closed s.cells
      → ((a : ℕ) (name : Bytes)
          → Marked s.cells a
          → env_get ix (env_sweep_unmarked s) (some a) name ≡ env_get ix s (some a) name)
        × ((a : ℕ) (env : Env V Map)
            → In a s.allocated
            → cell s.cells a ≡ some env
            → cell (env_sweep_unmarked s).cells a ≡ collected env)
  unfolding env_sweep_unmarked env_get
  env_sweep_unmarked_lem s d closed = (
    λ a name m.
        rw (sweep_cells-length s.allocated s.cells)
          (get_from-sweep_cells (length s.cells + 1) s.allocated s.cells (some a) name d closed m),
    λ a env i e. sweep_cells-collected s.allocated s.cells a env d i e,
  )
