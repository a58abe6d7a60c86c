-- ===== src/EnvMap/Insert.antt =====
-- The loop of `envmap_set` for a key that is not there: it ends, and the slots stay in order and
-- hold one entry more.
use sage_tree.Base.{
  ℕ, zero, suc, ◌+◌, ◌-◌, ◌%◌, ◌≤◌, ◌<◌, ◌≡◌, ◌≢◌, ◌↔◌, ◌⊎◌, ◌∙◌, refl, sym, ap, inl, inr, Bool,
  false, Option, none, some, List, Bytes, bit_and, arith, ltb, bytes_eq_ne, Bool-cases,
  Option-cases,
}
use native.Mathlib.Nat.{mod-add-mod, mod-eq_of_lt, add-mod_right, mod-lt}
use sage_tree.EnvMap.Table.{Entry, Placed, slot_at, probe_set}
use sage_tree.EnvMap.Order.{pos, pos-suc, rank, InOrder}
use sage_tree.EnvMap.Lookup.{Has}
use sage_tree.EnvMap.Place.{
  next_inj, occupied, occupied-set, Fits, placed, at_placed, slot_cases, place-InOrder, place-Has,
}

step_on : (n slot i : ℕ) → ((slot + 1) % n + i) % n ≡ (slot + (i + 1)) % n
step_on n slot i =
    let regroup : slot + 1 + i ≡ slot + (i + 1) = omega arith in
    mod-add-mod (slot + 1) n i ∙ ap (λ x. x % n) regroup

-- Fewer steps than there are slots do not come back.
no_return : (n slot j : ℕ) → slot < n → 0 < j → j < n → (slot + j) % n ≢ slot
no_return n slot j h pos lt e = elim (Bool-cases (ltb (slot + j) n)) [
  | inl t ↦
      let same = mod-eq_of_lt {n = slot + j} {m = n} (ground (arith, t)) in
      absurd (omega (arith, same, e))
  | inr f ↦
      let over : n ≤ slot + j = ground (arith, f) in
      let split : slot + j ≡ (slot + j - n) + n = omega arith in
      let wrap = ap (λ x. x % n) split ∙ add-mod_right (slot + j - n) n in
      let low = mod-eq_of_lt {n = slot + j - n} {m = n} (omega arith) in
      absurd (omega (arith, wrap, low, e))
]

module _ {V : Type 0} where
  -- The slots after the loop, for the entry `ins` that was in hand.
  pub record Adds (n : ℕ) (t : List (Option (Entry V))) (ins : Entry V) (p : Placed V)
      : Type 0 where
    pub order : InOrder n p.entries
    pub one : p.added ≡ 1
    pub count : occupied p.entries ≡ occupied t + 1
    pub has :
        (k : Bytes) (v : V) → Has p.entries k v ↔ (Has t k v ⊎ ((ins.key ≡ k) × (ins.value ≡ v)))

  -- A slot that is empty within `g` steps, and no entry on the way that has the key of the call.
  pub record Way (n : ℕ) (t : List (Option (Entry V))) (slot g : ℕ) (key : Bytes) : Type 0 where
    pub empty : slot_at t ((slot + g) % n) ≡ none
    pub short : g < n
    pub differs : (i : ℕ) (e : Entry V) → i ≤ g → slot_at t ((slot + i) % n) ≡ some e → e.key ≢ key

  module _ (n : ℕ) (t : List (Option (Entry V))) (slot : ℕ) (ins : Entry V)
      (f : Fits n t slot ins) where
    width : slot < n
    width = f.inside

    at_zero : (slot + 0) % n ≡ slot
    at_zero =
        let same : slot + 0 ≡ slot = omega arith in ap (λ x. x % n) same ∙ mod-eq_of_lt f.inside

    -- The empty slot takes the entry.
    add_empty :
        (b : Bool)
        → slot_at t slot ≡ none
        → Adds n t ins (record { entries = placed n t slot ins f; added = 1; inserted = b })
    add_empty b no_entry = record {
      order = place-InOrder n t slot ins f (rw no_entry (omega arith));
      one = refl;
      count =
          let c = occupied-set t slot ins (omega (arith, f.inside, f.order.width)) in
          ground (arith, c, no_entry);
      has = λ k v. (
        λ h. elim ((place-Has n t slot ins f k v).0 h) [
          | inl it ↦ inr it
          | inr (s, e, _, is, a, b') ↦ inl (s, e, is, a, b')
        ],
        λ h. (place-Has n t slot ins f k v).1 (elim h [
          | inr it ↦ inl it
          | inl (s, e, is, a, b') ↦ inr (s, e, λ same. cc (no_entry, is, same), is, a, b')
        ]),
      );
    }

    module _ (e : Entry V) (is : slot_at t slot ≡ some e) where
      -- The entry in hand moves on.
      Fits-on : ins.dist ≤ e.dist → Fits n t ((slot + 1) % n) (record ins { dist = ins.dist + 1 })
      Fits-on le = record {
        order = f.order;
        inside = mod-lt (slot + 1) f.order.nonempty;
        fresh = f.fresh;
        here = sym (pos-suc n ins.key ins.dist f.order.nonempty) ∙ ap (λ x. (x + 1) % n) f.here;
        behind = λ q lt next.
            let at = next_inj n q slot lt f.inside next in
            let far : rank (slot_at t q) ≡ suc e.dist = rw (at, is) in omega (arith, far);
      }

      -- The entry in hand takes the slot, and the one that was there moves on.
      Fits-swap :
          e.dist < ins.dist
          → Fits n (placed n t slot ins f) ((slot + 1) % n) (record e { dist = e.dist + 1 })
      Fits-swap lt' = record {
        order = place-InOrder n t slot ins f (rw is (omega arith));
        inside = mod-lt (slot + 1) f.order.nonempty;
        fresh = λ s x there same. elim (slot_cases n t slot ins f s) [
          | inl (_, a) ↦
              let it : ins ≡ x = cc (a, there) in
              f.fresh slot e is (sym same ∙ ap (λ (y : Entry V). y.key) (sym it))
          | inr (ne, a) ↦ ne (sym (f.order.distinct s slot x e (sym a ∙ there) is same))
        ];
        here =
            sym (pos-suc n e.key e.dist f.order.nonempty)
            ∙ ap (λ x. (x + 1) % n) (f.order.placed slot e is);
        behind = λ q lt next.
            let at = next_inj n q slot lt f.inside next in
            let top : rank (slot_at (placed n t slot ins f) q) ≡ suc ins.dist =
              rw (at, at_placed n t slot ins f slot) (ground arith) in
            omega (arith, top);
      }

      -- What was added behind a swap, counted from before it.
      Adds-swap :
          (p : Placed V)
          → Adds n (placed n t slot ins f) (record e { dist = e.dist + 1 }) p
          → Adds n t ins p
      Adds-swap p a = record {
        order = a.order;
        one = a.one;
        count =
            let c = occupied-set t slot ins (omega (arith, f.inside, f.order.width)) in
            ground (arith, c, is, a.count);
        has = λ k v. (
          λ h. elim ((a.has k v).0 h) [
            | inr (ek, ev) ↦ inl (slot, e, is, ek, ev)
            | inl h' ↦ elim ((place-Has n t slot ins f k v).0 h') [
              | inl it ↦ inr it
              | inr (s, x, _, there, xk, xv) ↦ inl (s, x, there, xk, xv)
            ]
          ],
          λ h. (a.has k v).1 (elim h [
            | inr it ↦ inl ((place-Has n t slot ins f k v).1 (inl it))
            | inl (s, x, there, xk, xv) ↦ elim (slot_cases n t slot ins f s) [
              | inr (ne, _) ↦ inl ((place-Has n t slot ins f k v).1 (inr (s, x, ne, there, xk, xv)))
              | inl (at, _) ↦
                  let it : x ≡ e = cc (there, is, at) in
                  inr (
                    ap (λ (y : Entry V). y.key) (sym it) ∙ xk,
                    ap (λ (y : Entry V). y.value) (sym it) ∙ xv,
                  )
            ]
          ]),
        );
      }

      -- The way that is left after a step, in the same slots.
      Way-on : (g : ℕ) (key : Bytes) → Way n t slot (suc g) key → Way n t ((slot + 1) % n) g key
      Way-on g key w = record {
        empty = ap (slot_at t) (step_on n slot g ∙ ap (λ x. (slot + x) % n) (add_one g)) ∙ w.empty;
        short = omega (arith, w.short);
        differs = λ i x le there.
            w.differs (i + 1) x (omega arith) (ap (slot_at t) (sym (step_on n slot i)) ∙ there);
      }
        where
          add_one : (k : ℕ) → k + 1 ≡ suc k
          add_one k = omega arith

      -- And after a swap.
      Way-swap :
          (g : ℕ) (key : Bytes)
          → Way n t slot (suc g) key
          → Way n (placed n t slot ins f) ((slot + 1) % n) g key
      Way-swap g key w =
          let on = Way-on g key w in
          record {
            empty = elim (slot_cases n t slot ins f (((slot + 1) % n + g) % n)) [
              | inl (at, _) ↦ absurd (no_return' g (omega (arith, w.short)) (sym at))
              | inr (_, a) ↦ a ∙ on.empty
            ];
            short = on.short;
            differs = λ i x le there. elim (slot_cases n t slot ins f (((slot + 1) % n + i) % n)) [
              | inl (at, _) ↦ absurd (no_return' i (omega (arith, w.short)) (sym at))
              | inr (_, a) ↦ on.differs i x le (sym a ∙ there)
            ];
          }
        where
          no_return' : (i : ℕ) → i + 1 < n → ((slot + 1) % n + i) % n ≢ slot
          no_return' i lt at =
              no_return n slot (i + 1) f.inside (omega arith) lt (sym (step_on n slot i) ∙ at)

  module _ (n mask : ℕ) (key : Bytes) (val : V) (wrap : (x : ℕ) → bit_and x mask ≡ x % n) where
    -- With more fuel than steps to an empty slot the loop ends, and adds the entry in hand.
    pub probe_set-Adds :
        (fuel : ℕ) (t : List (Option (Entry V))) (slot g : ℕ) (ins : Entry V) (b : Bool)
        → Fits n t slot ins
        → Way n t slot g key
        → g < fuel
        → (p : Placed V) × (probe_set fuel t mask slot ins key val b ≡ some p) × Adds n t ins p
    unfolding probe_set
    probe_set-Adds zero t slot g ins b f w lt = absurd (omega arith)
    probe_set-Adds (suc fuel) t slot zero ins b f w lt =
        let no_entry : slot_at t slot ≡ none =
          ap (slot_at t) (sym (at_zero n t slot ins f)) ∙ w.empty in
        (_, ground (arith, no_entry), add_empty n t slot ins f b no_entry)
    probe_set-Adds (suc fuel) t slot (suc g) ins b f w lt = elim (Option-cases (slot_at t slot)) [
      | inl no_entry ↦ (_, ground (arith, no_entry), add_empty n t slot ins f b no_entry)
      | inr (e, is) ↦
          let other =
            bytes_eq_ne e.key key
              (w.differs 0 e (omega arith) (ap (slot_at t) (at_zero n t slot ins f) ∙ is)) in
          elim (Bool-cases (ltb e.dist ins.dist)) [
            | inl nearer ↦
                let (p, run, a) =
                  probe_set-Adds fuel (placed n t slot ins f) ((slot + 1) % n) g
                    (record e { dist = e.dist + 1 }) false
                    (Fits-swap n t slot ins f e is (ground (arith, nearer)))
                    (Way-swap n t slot ins f e is g key w) (omega arith) in
                (
                  p,
                  ground (arith, is, other, nearer, wrap (slot + 1), run),
                  Adds-swap n t slot ins f e is p a,
                )
            | inr further ↦
                let (p, run, a) =
                  probe_set-Adds fuel t ((slot + 1) % n) g (record ins { dist = ins.dist + 1 }) b
                    (Fits-on n t slot ins f e is (ground (arith, further)))
                    (Way-on n t slot ins f e is g key w) (omega arith) in
                (
                  p,
                  ground (arith, is, other, further, wrap (slot + 1), run),
                  record { order = a.order; one = a.one; count = a.count; has = a.has },
                )
          ]
    ]
