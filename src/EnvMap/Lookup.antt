-- ===== src/EnvMap/Lookup.antt =====
-- The loop of `envmap_get` on slots in order: it finds a key that is there and stops on one that
-- is not, in at most one round more than there are slots.
use sage_tree.Base.{
  ℕ, zero, suc, ◌+◌, ◌-◌, ◌%◌, ◌≤◌, ◌<◌, ◌≡◌, ◌≢◌, ◌∙◌, sym, ap, inl, inr, false, Option, none,
  some, List, Bytes, bit_and, arith, ltb, bytes_eq, bytes_eq_iff, Bool-cases, Option-cases,
}
use native.Mathlib.Nat.{mod-add-mod}
use sage_tree.EnvMap.Table.{Entry, slot_at, envmap_hash, probe_get}
use sage_tree.EnvMap.Order.{pos, pos_reach, rank, InOrder, rank_along}

module _ {V : Type 0} where
  -- The key is not in the slots.
  abbrev pub Absent : Bytes → List (Option (Entry V)) → Type 0
  Absent key t = (s : ℕ) (e : Entry V) → slot_at t s ≡ some e → e.key ≢ key

  -- An entry of that key and value is in the slots.
  abbrev pub Has : List (Option (Entry V)) → Bytes → V → Type 0
  Has t key v = (s : ℕ) × (e : Entry V) × (slot_at t s ≡ some e) × (e.key ≡ key) × (e.value ≡ v)

  module _ (n mask : ℕ) (t : List (Option (Entry V))) (key : Bytes) (o : InOrder n t)
      (wrap : (x : ℕ) → bit_and x mask ≡ x % n) where
    at_probe : (p : ℕ) → bit_and (bit_and (envmap_hash key) mask + p) mask ≡ pos n key p
    at_probe p = rw (wrap, wrap) (mod-add-mod (envmap_hash key) n p)

    -- Before its distance is reached a key meets only entries that are at least as far from home.
    pub rank_before :
        (s p : ℕ) (e : Entry V)
        → slot_at t s ≡ some e
        → e.key ≡ key
        → p ≤ e.dist
        → p < rank (slot_at t (pos n key p))
    rank_before s p e is same le =
        let home : pos n key e.dist ≡ s = rw same at (o.placed s e is) in
        let gone : p + (e.dist - p) ≡ e.dist = omega arith in
        let fall = rw gone at (rank_along n t key p (e.dist - p) o) in
        let top : rank (slot_at t (pos n key e.dist)) ≡ suc e.dist = rw (home, is) in
        omega (arith, fall, top)

    -- An empty slot stops the search of every key that is there before it gets so far.
    pub dist-lt :
        (s q : ℕ) (e : Entry V)
        → slot_at t s ≡ some e
        → e.key ≡ key
        → q < n
        → slot_at t q ≡ none
        → e.dist < n
    dist-lt s q e is same lt empty =
        let (j, below, at) = pos_reach n key q lt in
        elim (Bool-cases (ltb e.dist n)) [
          | inl h ↦ ground (arith, h)
          | inr h ↦
              let r = rank_before s j e is same (ground (arith, h, below)) in
              let z : rank (slot_at t (pos n key j)) ≡ 0 = rw (at, empty) in
              absurd (omega (arith, r, z))
        ]

    pub probe_hit :
        (fuel p s : ℕ) (e : Entry V)
        → slot_at t s ≡ some e
        → e.key ≡ key
        → p ≤ e.dist
        → e.dist < p + fuel
        → probe_get fuel t mask (bit_and (envmap_hash key) mask) p key ≡ some (some e.value)
    unfolding probe_get
    probe_hit zero p s e is same le lt = absurd (omega arith)
    probe_hit (suc fuel) p s e is same le lt =
        let home : pos n key e.dist ≡ s = rw same at (o.placed s e is) in
        let far = rank_before s p e is same le in
        elim (Option-cases (slot_at t (pos n key p))) [
          | inl no_entry ↦
              let z : rank (slot_at t (pos n key p)) ≡ 0 = rw no_entry in
              absurd (omega (arith, far, z))
          | inr (f, there) ↦
              let high : rank (slot_at t (pos n key p)) ≡ suc f.dist = rw there in
              let near : p ≤ f.dist = omega (arith, far, high) in
              elim (Bool-cases (bytes_eq f.key key)) [
                | inl match ↦
                    let eq = (bytes_eq_iff f.key key).0 match in
                    let slot : pos n key p ≡ s =
                      o.distinct (pos n key p) s f e there is (eq ∙ sym same) in
                    let it : f ≡ e = cc (there, slot, is) in
                    ground (arith, at_probe p, there, near, match, ap (λ (x : Entry V). x.value) it)
                | inr other ↦
                    let later : p ≢ e.dist = λ at.
                      let it : slot_at t s ≡ some f = rw (← home, ← at) there in
                      let it' : f ≡ e = cc (it, is) in
                      cc (
                        other,
                        (bytes_eq_iff f.key key).1 (ap (λ (x : Entry V). x.key) it' ∙ same),
                      ) in
                    let rest = probe_hit fuel (p + 1) s e is same (omega arith) (omega arith) in
                    ground (arith, at_probe p, there, near, other, rest)
              ]
        ]

    pub probe_miss :
        (fuel p j : ℕ)
        → Absent key t
        → slot_at t (pos n key j) ≡ none
        → p ≤ j
        → j < p + fuel
        → probe_get fuel t mask (bit_and (envmap_hash key) mask) p key ≡ some none
    unfolding probe_get
    probe_miss zero p j absent empty le lt = absurd (omega arith)
    probe_miss (suc fuel) p j absent empty le lt = elim (Option-cases (slot_at t (pos n key p))) [
      | inl no_entry ↦ ground (arith, at_probe p, no_entry)
      | inr (f, there) ↦
          let later : p ≢ j = λ at. cc (there, empty, ap (pos n key) at) in
          let ne : bytes_eq f.key key ≡ false = elim (Bool-cases (bytes_eq f.key key)) [
            | inl match ↦ absurd (absent (pos n key p) f there ((bytes_eq_iff f.key key).0 match))
            | inr ne ↦ ne
          ] in
          let rest = probe_miss fuel (p + 1) j absent empty (omega arith) (omega arith) in
          ground (arith, at_probe p, there, ne, rest)
    ]
