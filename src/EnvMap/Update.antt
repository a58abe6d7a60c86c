-- ===== src/EnvMap/Update.antt =====
-- The loop of `envmap_set` for a key that is there: it ends, and replaces the value alone.
use sage_tree.Base.{
  ℕ, zero, suc, ◌+◌, ◌%◌, ◌≤◌, ◌<◌, ◌≡◌, ◌≢◌, ◌↔◌, ◌⊎◌, ◌∙◌, refl, sym, ap, inl, inr, Bool, true,
  false, Option, none, some, List, Bytes, bit_and, arith, bytes_eq, bytes_eq_iff, Bool-cases,
  Option-cases, set, length-set, get_or-set, ◌==◌, ==_iff,
}
use sage_tree.EnvMap.Table.{Entry, Placed, slot_at, probe_set}
use sage_tree.EnvMap.Order.{pos, pos-suc, rank, InOrder}
use sage_tree.EnvMap.Lookup.{Has, rank_before}
use sage_tree.EnvMap.Place.{occupied, occupied-set}

module _ {V : Type 0} where
  module _ (n : ℕ) (t : List (Option (Entry V))) (o : InOrder n t) (s : ℕ) (e : Entry V) (val : V)
      (is : slot_at t s ≡ some e) (inside : s < n) where
    abbrev pub updated : List (Option (Entry V))
    updated = set t s (some (record e { value = val }))

    cases :
        (r : ℕ)
        → ((s ≡ r) × (slot_at updated r ≡ some (record e { value = val })))
          ⊎ ((s ≢ r) × (slot_at updated r ≡ slot_at t r))
    cases r =
        let at = get_or-set t s (some (record e { value = val })) none r (omega (arith, o.width)) in
        elim (Bool-cases (s == r)) [
          | inl q ↦ inl ((==_iff s r).0 q, at ∙ rw q)
          | inr q ↦ inr (λ x. cc (q, (==_iff s r).1 x), at ∙ rw q)
        ]

    -- Keys and distances are as before.
    same_entry :
        (r : ℕ) (d : Entry V)
        → slot_at updated r ≡ some d
        → (d' : Entry V) × (slot_at t r ≡ some d') × (d'.key ≡ d.key) × (d'.dist ≡ d.dist)
    same_entry r d h = elim (cases r) [
      | inl (at, a) ↦
          let it : record e { value = val } ≡ d = cc (a, h) in
          (
            e,
            ap (slot_at t) (sym at) ∙ is,
            ap (λ (x : Entry V). x.key) it,
            ap (λ (x : Entry V). x.dist) it,
          )
      | inr (_, a) ↦ (d, sym a ∙ h, refl, refl)
    ]

    same_rank : (r : ℕ) → rank (slot_at updated r) ≡ rank (slot_at t r)
    same_rank r = elim (cases r) [ inl (at, a) ↦ rw (a, ← at, is) | inr (_, a) ↦ rw a ]

    pub updated-InOrder : InOrder n updated
    updated-InOrder = record {
      width = length-set t s (some (record e { value = val })) ∙ o.width;
      nonempty = o.nonempty;
      placed =
          λ r d h. let (d', there, k, x) = same_entry r d h in rw (← k, ← x) (o.placed r d' there);
      chain = λ r lt. rw (same_rank ((r + 1) % n), same_rank r) (o.chain r lt);
      distinct = λ r q d f hr hq same.
          let (d', td, kd, _) = same_entry r d hr in
          let (f', tf, kf, _) = same_entry q f hq in
          o.distinct r q d' f' td tf (kd ∙ same ∙ sym kf);
    }

    pub updated-occupied : occupied updated ≡ occupied t
    updated-occupied =
        let c = occupied-set t s (record e { value = val }) (omega (arith, o.width)) in
        ground (arith, c, is)

    pub updated-Has :
        (k : Bytes) (v : V)
        → Has updated k v ↔ (((e.key ≡ k) × (val ≡ v)) ⊎ ((e.key ≢ k) × Has t k v))
    updated-Has k v = (
      λ (r, d, h, a, b). elim (cases r) [
        | inl (at, c) ↦
            let it : record e { value = val } ≡ d = cc (c, h) in
            inl (ap (λ (x : Entry V). x.key) it ∙ a, ap (λ (x : Entry V). x.value) it ∙ b)
        | inr (ne, c) ↦
            inr (
              λ same. ne (o.distinct s r e d is (sym c ∙ h) (same ∙ sym a)),
              (r, d, sym c ∙ h, a, b),
            )
      ],
      λ w. elim w [
        | inl (a, b) ↦ elim (cases s) [
          | inl (_, c) ↦ (s, record e { value = val }, c, a, b)
          | inr (ne, _) ↦ absurd (ne refl)
        ]
        | inr (ne, (r, d, h, a, b)) ↦ elim (cases r) [
          | inl (at, _) ↦
              let it : d ≡ e = cc (h, is, at) in
              absurd (ne (ap (λ (x : Entry V). x.key) (sym it) ∙ a))
          | inr (_, c) ↦ (r, d, c ∙ h, a, b)
        ]
      ],
    )

  module _ (n mask : ℕ) (t : List (Option (Entry V))) (key : Bytes) (val : V) (o : InOrder n t)
      (wrap : (x : ℕ) → bit_and x mask ≡ x % n) where
    abbrev replaced : ℕ → Entry V → Option (Placed V)
    replaced s e = some (record {
      entries = set t s (some (record e { value = val }));
      added = 0;
      inserted = false;
    })

    found_here :
        (fuel p : ℕ) (f : Entry V) (b : Bool)
        → slot_at t (pos n key p) ≡ some f
        → bytes_eq f.key key ≡ true
        → probe_set
            (suc fuel)
            t
            mask
            (pos n key p)
            (record { key = key; dist = p; value = val })
            key
            val
            b
          ≡ replaced (pos n key p) f
    unfolding probe_set
    found_here fuel p f b there match = ground (arith, there, match)

    -- The loop reaches the entry of the key, and displaces nothing on the way.
    pub probe_set_update :
        (fuel p s : ℕ) (e : Entry V) (b : Bool)
        → slot_at t s ≡ some e
        → e.key ≡ key
        → p ≤ e.dist
        → e.dist < p + fuel
        → probe_set fuel t mask
            (pos n key p)
            (record { key = key; dist = p; value = val })
            key
            val
            b
          ≡ some (record {
            entries = set t s (some (record e { value = val }));
            added = 0;
            inserted = false;
          })
    unfolding probe_set
    probe_set_update zero p s e b is same le lt = absurd (omega arith)
    probe_set_update (suc fuel) p s e b is same le lt =
        let home : pos n key e.dist ≡ s = rw same at (o.placed s e is) in
        let far = rank_before n mask t key o wrap s p e is same le in
        elim (Option-cases (slot_at t (pos n key p))) [
          | inl no_entry ↦
              let z : rank (slot_at t (pos n key p)) ≡ 0 = rw no_entry in
              absurd (omega (arith, far, z))
          | inr (f, there) ↦
              let high : rank (slot_at t (pos n key p)) ≡ suc f.dist = rw there in
              let near : p ≤ f.dist = omega (arith, far, high) in
              elim (Bool-cases (bytes_eq f.key key)) [
                | inl match ↦
                    let eq = (bytes_eq_iff f.key key).0 match in
                    let slot : pos n key p ≡ s =
                      o.distinct (pos n key p) s f e there is (eq ∙ sym same) in
                    let it : f ≡ e = cc (there, slot, is) in
                    found_here fuel p f b there match
                    ∙ ap (λ x. replaced x f) slot
                    ∙ ap (replaced s) it
                | inr other ↦
                    let later : p ≢ e.dist = λ at.
                      let it : slot_at t s ≡ some f = rw (← home, ← at) there in
                      let it' : f ≡ e = cc (it, is) in
                      cc (
                        other,
                        (bytes_eq_iff f.key key).1 (ap (λ (x : Entry V). x.key) it' ∙ same),
                      ) in
                    let rest =
                      probe_set_update fuel (p + 1) s e b is same (omega arith) (omega arith) in
                    let next = wrap (pos n key p + 1) ∙ pos-suc n key p o.nonempty in
                    ground (arith, there, other, near, next, rest)
              ]
        ]
