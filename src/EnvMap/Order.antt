-- ===== src/EnvMap/Order.antt =====
-- The order of Robin Hood probing: an entry stands as far from its home as it says, no entry is
-- more than one further from home than the one before it, and no key stands twice.
use sage_tree.Base.{
  ℕ, zero, suc, ◌+◌, ◌-◌, ◌*◌, ◌/◌, ◌%◌, ◌≤◌, ◌<◌, ◌≡◌, ◌∙◌, ap, Option, none, some, List, Bytes,
  length, arith,
}
use native.Mathlib.Nat.{mod-add-mod, add-mod-mod, mod-add-div, add-mul-mod_self_left, mod-eq_of_lt}
use sage_tree.EnvMap.Table.{Entry, slot_at, envmap_hash}

-- Where the search for a key is after `p` steps.
abbrev pub pos : ℕ → Bytes → ℕ → ℕ
pos n key p = (envmap_hash key + p) % n

pub pos-lt : (n : ℕ) (key : Bytes) (p : ℕ) → 0 < n → pos n key p < n
pos-lt n key p h = omega arith

pub pos-suc : (n : ℕ) (key : Bytes) (p : ℕ) → 0 < n → (pos n key p + 1) % n ≡ pos n key (p + 1)
pos-suc n key p h =
    let regroup : envmap_hash key + p + 1 ≡ envmap_hash key + (p + 1) = omega arith in
    mod-add-mod (envmap_hash key + p) n 1 ∙ ap (λ x. x % n) regroup

-- Every slot is reached from home in fewer steps than there are slots.
pub pos_reach : (n : ℕ) (key : Bytes) (q : ℕ) → q < n → (j : ℕ) × (j < n) × (pos n key j ≡ q)
pos_reach n key q h =
    let home = envmap_hash key in
    let whole : home + (q + n - home % n) ≡ q + n * (home / n + 1) =
      grind (arith, mod-add-div home n) in
    (
      (q + n - home % n) % n,
      omega arith,
      add-mod-mod home (q + n - home % n) n
          ∙ ap (λ x. x % n) whole
          ∙ add-mul-mod_self_left q n (home / n + 1)
          ∙ mod-eq_of_lt h,
    )

module _ {V : Type 0} where
  abbrev pub rank : Option (Entry V) → ℕ
  rank none = 0
  rank (some e) = suc e.dist

  pub record InOrder (n : ℕ) (t : List (Option (Entry V))) : Type 0 where
    pub width : length t ≡ n
    pub nonempty : 0 < n
    pub placed : (s : ℕ) (e : Entry V) → slot_at t s ≡ some e → pos n e.key e.dist ≡ s
    pub chain : (s : ℕ) → s < n → rank (slot_at t ((s + 1) % n)) ≤ suc (rank (slot_at t s))
    pub distinct :
        (s r : ℕ) (e f : Entry V)
        → slot_at t s ≡ some e
        → slot_at t r ≡ some f
        → e.key ≡ f.key
        → s ≡ r

  -- The rank falls by at most one a step.
  pub rank_along :
      (n : ℕ) (t : List (Option (Entry V))) (key : Bytes) (p j : ℕ)
      → InOrder n t
      → rank (slot_at t (pos n key (p + j))) ≤ j + rank (slot_at t (pos n key p))
  rank_along n t key p zero o = let same : p + 0 ≡ p = omega arith in rw same (omega arith)
  rank_along n t key p (suc j) o =
      let ih = rank_along n t key p j o in
      let step = o.chain (pos n key (p + j)) (pos-lt n key (p + j) o.nonempty) in
      let next : (pos n key (p + j) + 1) % n ≡ pos n key (p + suc j) =
        pos-suc n key (p + j) o.nonempty
        ∙ ap (pos n key) (let e : p + j + 1 ≡ p + suc j = omega arith in e) in
      omega (arith, ih, rw next at step)
