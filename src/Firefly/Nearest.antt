-- ===== src/Firefly/Nearest.antt =====
-- The suggestion of src/firefly.c is a nearest name.
use sage_tree.Base.{
  ℕ, zero, suc, ◌+◌, ◌≤◌, ◌<◌, ◌≡◌, ◌⊎◌, refl, sym, ap, ◌∙◌, inl, inr, true, false, ◌&&◌, List, [],
  ◌∷◌, ◌++◌, Option, none, some, Bytes, length, get_elem?, All, arith, ltb, leb, Bool-cases,
  Option-cases,
}
use sage_tree.Env.Scope.{EnvNode, Env}
use sage_tree.Env.Walk.{Store, cell}
use sage_tree.Firefly.Distance.{edist}
use sage_tree.Firefly.Suggest.{
  threshold, Best, no_best, consider, search_scope, search_from, suggest,
}

-- The search through a list of names.
abbrev pub search : Bytes → List Bytes → Best → Best
search name [] b = b
search name (m ∷ ms) b = search name ms (consider name m b)

abbrev pub names : {V : Type 0} → List (EnvNode V) → List Bytes
names [] = []
names (node ∷ nodes) = node.name ∷ names nodes

-- The names of the scope and its parents, from the inside.
unfoldable pub visible_from : {V M : Type 0} → ℕ → List (Option (Env V M)) → Option ℕ → List Bytes
visible_from zero cells current = []
visible_from (suc fuel) cells none = []
visible_from (suc fuel) cells (some a) = elim (cell cells a) [
  | none ↦ []
  | some env ↦ names env.head ++ visible_from fuel cells env.parent
]

search_append :
    (name : Bytes) (l m : List Bytes) (b : Best)
    → search name (l ++ m) b ≡ search name m (search name l b)
search_append name [] m b = refl
search_append name (x ∷ l) m b = search_append name l m (consider name x b)

module _ {V : Type 0} where
  scope_search :
      (name : Bytes) (nodes : List (EnvNode V)) (b : Best)
      → search_scope name nodes b ≡ search name (names nodes) b
  unfolding search_scope
  scope_search name [] b = refl
  scope_search name (node ∷ nodes) b = scope_search name nodes (consider name node.name b)

module _ {V M : Type 0} where
  walk_search :
      (name : Bytes) (fuel : ℕ) (cells : List (Option (Env V M))) (current : Option ℕ) (b : Best)
      → search_from name fuel cells current b ≡ search name (visible_from fuel cells current) b
  unfolding search_from visible_from
  walk_search name zero cells current b = refl
  walk_search name (suc fuel) cells none b = refl
  walk_search name (suc fuel) cells (some a) b = elim (Option-cases (cell cells a)) [
    | inl e ↦ rw (search_from, visible_from, e) refl
    | inr (env, e) ↦
        rw (search_from, visible_from, e)
          (walk_search name fuel cells env.parent (search_scope name env.head b)
            ∙ (rw (scope_search name env.head b)
                (sym (search_append name (names env.head) (visible_from fuel cells env.parent) b))))
  ]

-- A name that may be suggested: not the same, and near enough.
abbrev pub Near : Bytes → Bytes → Type 0
Near name m = (0 < edist name m) × (edist name m ≤ threshold name)

-- The name at a position of the list, with its distance.
abbrev pub From : Bytes → List Bytes → Best → Type 0
From name l b =
    (m : Bytes) × (i : ℕ) × (get_elem? l i ≡ some m)
    × (b.best ≡ some m)
    × (b.distance ≡ edist name m)
    × Near name m

-- What the search makes of the best name so far.
pub record Searched (name : Bytes) (l : List Bytes) (b r : Best) : Type 0 where
  pub nearer : r.distance ≤ b.distance
  pub least : All (λ m. Near name m → r.distance ≤ edist name m) l
  pub origin : (r ≡ b) ⊎ From name l r

chosen : (d bd th : ℕ) → (ltb 0 d && (ltb d bd && leb d th)) ≡ true → (0 < d) × (d < bd) × (d ≤ th)
chosen d bd th h = ground arith

not_chosen : (d bd th : ℕ) → (ltb 0 d && (ltb d bd && leb d th)) ≡ false → 0 < d → d ≤ th → bd ≤ d
not_chosen d bd th h k m = ground arith

consider-cases :
    (name m : Bytes) (b : Best)
    → ((consider name m b ≡ (record { best = some m; distance = edist name m }))
        × Near name m
        × (edist name m < b.distance))
      ⊎ ((consider name m b ≡ b) × (Near name m → b.distance ≤ edist name m))
unfolding consider
consider-cases name m b =
    let d = edist name m in
    elim (Bool-cases (ltb 0 d && (ltb d b.distance && leb d (threshold name)))) [
      | inl e ↦
          let (positive, nearer, near) = chosen d b.distance (threshold name) e in
          inl (rw (consider, e) refl, (positive, near), nearer)
      | inr e ↦ inr (rw (consider, e) refl, λ k. not_chosen d b.distance (threshold name) e k.0 k.1)
    ]

later : (name x : Bytes) (l : List Bytes) (r : Best) → From name l r → From name (x ∷ l) r
later name x l r (m, i, at, is_best, is_distance, near) = (m, suc i, at, is_best, is_distance, near)

search-Searched : (name : Bytes) (l : List Bytes) (b : Best) → Searched name l b (search name l b)
search-Searched name [] b = record { nearer = omega arith; least = tt; origin = inl refl }
search-Searched name (m ∷ l) b =
    let ih = search-Searched name l (consider name m b) in
    elim (consider-cases name m b) [
      | inl (took, near, nearer) ↦
          let best : (consider name m b).distance ≡ edist name m = ap (λ c. c.distance) took in
          record {
            nearer = omega (arith, ih.nearer, best, nearer);
            least = (λ k. omega (arith, ih.nearer, best), ih.least);
            origin = inr (elim ih.origin [
              | inl same ↦ (
                m,
                0,
                refl,
                ap (λ c. c.best) (same ∙ took),
                ap (λ c. c.distance) (same ∙ took),
                near,
              )
              | inr from ↦ later name m l (search name l (consider name m b)) from
            ]);
          }
      | inr (left, far) ↦
          let best : (consider name m b).distance ≡ b.distance = ap (λ c. c.distance) left in
          record {
            nearer = omega (arith, ih.nearer, best);
            least = (λ k. omega (arith, ih.nearer, best, far k), ih.least);
            origin = elim ih.origin [
              | inl same ↦ inl (same ∙ left)
              | inr from ↦ inr (later name m l (search name l (consider name m b)) from)
            ];
          }
    ]

-- The names that can be seen from a scope.
abbrev pub visible : {V M : Type 0} → Store V M → Option ℕ → List Bytes
visible s a = visible_from (length s.cells + 1) s.cells a

threshold_small : (name : Bytes) → threshold name ≤ 3
threshold_small name = ground arith

at_index :
    (name : Bytes) (l : List Bytes) (r : Best)
    → All (λ m. Near name m → r.distance ≤ edist name m) l
    → (i : ℕ) {m : Bytes} → get_elem? l i ≡ some m
    → Near name m
    → r.distance ≤ edist name m
at_index name [] r h i at near = cc
at_index name (x ∷ l) r (h, hs) zero {m} at near =
    let same : x ≡ m = cc at in rw (← same) (h (rw same near))
at_index name (x ∷ l) r (h, hs) (suc i) at near = at_index name l r hs i at near

-- When a name that can be seen from the scope differs from the unknown one by more than case and by
-- at most the threshold, a name of that kind is suggested, with its distance, which is at most that
-- of the first.
pub suggest-Near :
    {V M : Type 0} (s : Store V M) (a : Option ℕ) (name m : Bytes) (i : ℕ)
    → get_elem? (visible s a) i ≡ some m
    → Near name m
    → From name (visible s a) (suggest s a name) × ((suggest s a name).distance ≤ edist name m)
unfolding suggest
suggest-Near s a name m i at near =
    let same = walk_search name (length s.cells + 1) s.cells a no_best in
    let found = search-Searched name (visible s a) no_best in
    let least =
      at_index name (visible s a) (search name (visible s a) no_best) found.least i at near in
    elim found.origin [
      | inl e ↦
          let far : (search name (visible s a) no_best).distance ≡ 999 = ap (λ b. b.distance) e in
          absurd (omega (arith, far, least, near.1, threshold_small name))
      | inr from ↦ rw same (from, least)
    ]

-- What is suggested is a name that can be seen from the scope, with its distance, which is not zero
-- and at most the threshold.
pub suggest-From :
    {V M : Type 0} (s : Store V M) (a : Option ℕ) (name m : Bytes)
    → (suggest s a name).best ≡ some m
    → From name (visible s a) (suggest s a name)
unfolding suggest
suggest-From s a name m h =
    let same = walk_search name (length s.cells + 1) s.cells a no_best in
    let found = search-Searched name (visible s a) no_best in
    elim found.origin [
      | inl e ↦
          let nothing : (suggest s a name).best ≡ none = ap (λ b. b.best) (same ∙ e) in
          absurd (cc (nothing, h))
      | inr from ↦ rw same from
    ]
