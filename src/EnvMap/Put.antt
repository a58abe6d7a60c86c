-- ===== src/EnvMap/Put.antt =====
-- `envmap_get` and `envmap_set` of src/gc/env_hashmap.c on a map in order, short of growth.
use sage_tree.Base.{
  ℕ, zero, suc, ◌+◌, ◌-◌, ◌%◌, ◌^◌, ◌≤◌, ◌<◌, ◌≡◌, ◌≢◌, ◌↔◌, ◌⊎◌, ◌∙◌, refl, sym, ap, inl, inr,
  Bool, true, false, Option, none, some, List, [], ◌∷◌, Bytes, bit_and, arith, bytes_cases,
  bytes_eq_iff, length,
}
use sage_tree.Base.Bits.{bit_and_mask}
use native.Mathlib.Nat.{mod-lt, mod-add-mod}
use sage_tree.EnvMap.Table.{
  Entry, EnvMap, Placed, slot_at, envmap_hash, envmap_get, put, is_full, probe_set,
}
use sage_tree.EnvMap.Order.{pos, pos_reach, InOrder}
use sage_tree.EnvMap.Lookup.{Absent, Has, dist-lt, probe_hit, probe_miss}
use sage_tree.EnvMap.Place.{Fits, occupied}
use sage_tree.EnvMap.Insert.{Way, Adds, probe_set-Adds}
use sage_tree.EnvMap.Update.{
  updated, updated-InOrder, updated-occupied, updated-Has, probe_set_update,
}

module _ {V : Type 0} where
  pub record IsValid (m : EnvMap V) : Type 0 where
    pub bits : ℕ
    pub power : m.cap ≡ 2 ^ bits
    pub least : 8 ≤ m.cap
    pub masks : m.mask ≡ m.cap - 1
    pub order : InOrder m.cap m.entries
    pub counted : m.count ≡ occupied m.entries
    pub room : m.count < m.cap

  pub wrap : (m : EnvMap V) → IsValid m → (x : ℕ) → bit_and x m.mask ≡ x % m.cap
  wrap m v x = rw (v.masks, v.power) (bit_and_mask v.bits x)

  -- A list that is not full has an empty slot.
  empty_slot :
      (t : List (Option (Entry V)))
      → occupied t < length t
      → (q : ℕ) × (q < length t) × (slot_at t q ≡ none)
  unfolding occupied
  empty_slot [] h = absurd (omega arith)
  empty_slot (none ∷ t) h = (0, omega arith, refl)
  empty_slot (some e ∷ t) h =
      let (q, lt, empty) = empty_slot t (omega arith) in (suc q, omega arith, empty)

  -- A key is in the slots or not.
  find_slot :
      (t : List (Option (Entry V))) (key : Bytes)
      → ((s : ℕ) × (e : Entry V) × (slot_at t s ≡ some e) × (e.key ≡ key)) ⊎ Absent key t
  find_slot [] key = inr (λ s e h. cc)
  find_slot (x ∷ t) key = elim (find_slot t key) [
    | inl (s, e, h, k) ↦ inl (suc s, e, h, k)
    | inr rest ↦ at_head x rest
  ]
    where
      later :
          (x : Option (Entry V))
          → Absent key t
          → ((e : Entry V) → x ≡ some e → e.key ≢ key)
          → Absent key (x ∷ t)
      later x rest h zero e there = h e there
      later x rest h (suc s) e there = rest s e there

      at_head :
          (x : Option (Entry V))
          → Absent key t
          → ((s : ℕ) × (e : Entry V) × (slot_at (x ∷ t) s ≡ some e) × (e.key ≡ key))
            ⊎ Absent key (x ∷ t)
      at_head none rest = inr (later none rest (λ e h. cc))
      at_head (some e) rest = elim (bytes_cases e.key key) [
        | inl k ↦ inl (0, e, refl, k)
        | inr ne ↦ inr (
            later (some e) rest (λ f h k.
              cc (
                ne,
                (bytes_eq_iff e.key key).1 (ap (λ (y : Entry V). y.key) (some_inj e f h) ∙ k),
              )))
      ]
        where
          some_inj : (a b : Entry V) → some a ≡ some b → a ≡ b
          some_inj a b h = cc

  occupied-Absent : (t : List (Option (Entry V))) (key : Bytes) → occupied t ≡ 0 → Absent key t
  unfolding occupied
  occupied-Absent [] key h s e = cc
  occupied-Absent (none ∷ t) key h zero e = cc
  occupied-Absent (none ∷ t) key h (suc s) e = occupied-Absent t key h s e
  occupied-Absent (some x ∷ t) key h s e = absurd (omega arith)

  -- What `envmap_get` returns on a map in order: it ends, and finds the value of the key if the
  -- map has it, and nothing if it does not.
  abbrev pub Finds : EnvMap V → Bytes → Type 0
  Finds m key =
      ((v : V) × (envmap_get m key ≡ some (some v)) × Has m.entries key v)
      ⊎ ((envmap_get m key ≡ some none) × Absent key m.entries)

  module _ (m : EnvMap V) (key : Bytes) (v : IsValid m) where
    pub free : (q : ℕ) × (q < m.cap) × (slot_at m.entries q ≡ none)
    free =
        let (q, lt, empty) =
          empty_slot m.entries (omega (arith, v.room, v.counted, v.order.width)) in
        (q, omega (arith, lt, v.order.width), empty)

    pub envmap_get-Finds : Finds m key
    unfolding envmap_get
    envmap_get-Finds = elim (find_slot m.entries key) [
      | inr absent ↦
          let (q, lt, empty) = free in
          let (j, below, at) = pos_reach m.cap key q lt in
          let run =
            probe_miss m.cap m.mask m.entries key v.order (wrap m v) (m.cap + 1) 0 j absent
              (ap (slot_at m.entries) at ∙ empty) (omega arith) (omega arith) in
          inr (ground (arith, run), absent)
      | inl (s, e, is, same) ↦
          let (q, lt, empty) = free in
          let near = dist-lt m.cap m.mask m.entries key v.order (wrap m v) s q e is same lt empty in
          let run =
            probe_hit m.cap m.mask m.entries key v.order (wrap m v) (m.cap + 1) 0 s e is same
              (omega arith) (omega arith) in
          let some_there : m.count ≢ 0 =
            λ z. occupied-Absent m.entries key (sym v.counted ∙ z) s e is same in
          inl (e.value, ground (arith, run, some_there), (s, e, is, same, refl))
    ]

  -- `m'` is `m` with `val` stored under `key`.
  pub record Stores (m : EnvMap V) (key : Bytes) (val : V) (m' : EnvMap V) : Type 0 where
    pub valid : IsValid m'
    pub count : m'.count ≤ m.count + 1
    pub has :
        (k : Bytes) (v : V)
        → Has m'.entries k v ↔ (((key ≡ k) × (val ≡ v)) ⊎ ((key ≢ k) × Has m.entries k v))

  module _ (m : EnvMap V) (key : Bytes) (val : V) (v : IsValid m)
      (not_full : is_full m ≡ false) where
    abbrev start : Entry V
    start = record { key = key; dist = 0; value = val }

    first : bit_and (envmap_hash key) m.mask ≡ pos m.cap key 0
    first =
        let same : envmap_hash key ≡ envmap_hash key + 0 = omega arith in
        wrap m v (envmap_hash key) ∙ ap (λ x. x % m.cap) same

    put_present :
        (s : ℕ) (e : Entry V)
        → slot_at m.entries s ≡ some e
        → e.key ≡ key
        → (r : EnvMap V × Bool) × (put m key val ≡ some r)
          × (r.0.cap ≡ m.cap)
          × Stores m key val r.0
    unfolding put
    put_present s e is same =
        let (q, lt, empty) = free m key v in
        let near = dist-lt m.cap m.mask m.entries key v.order (wrap m v) s q e is same lt empty in
        let inside : s < m.cap =
          rw (← v.order.placed s e is) (mod-lt (envmap_hash e.key + e.dist) v.order.nonempty) in
        let run =
          probe_set_update m.cap m.mask m.entries key val v.order (wrap m v) (m.cap + 1) 0 s e true
            is same (omega arith) (omega arith) in
        let m' : EnvMap V = record m {
          entries = updated m.cap m.entries v.order s e val is inside;
          count = m.count + 0;
        } in
        (
          (m', false),
          ground (arith, first, run),
          refl,
          record {
            valid = record {
              bits = v.bits;
              power = v.power;
              least = v.least;
              masks = v.masks;
              order = updated-InOrder m.cap m.entries v.order s e val is inside;
              counted =
                  omega
                    (arith, v.counted, updated-occupied m.cap m.entries v.order s e val is inside);
              room = omega (arith, v.room);
            };
            count = omega arith;
            has = rw (← same) (updated-Has m.cap m.entries v.order s e val is inside);
          },
        )

    -- The loop for a new key, from its home.
    add-Absent :
        Absent key m.entries
        → (p : Placed V) × (probe_set
              (m.cap + 1)
              m.entries
              m.mask
              (pos m.cap key 0)
              start
              key
              val
              true
            ≡ some p)
          × Adds m.cap m.entries start p
    add-Absent absent =
        let (q, lt, empty) = free m key v in
        let (j, below, at) = pos_reach m.cap key q lt in
        let regroup : envmap_hash key + 0 + j ≡ envmap_hash key + j = omega arith in
        let f : Fits m.cap m.entries (pos m.cap key 0) start = record {
          order = v.order;
          inside = mod-lt (envmap_hash key + 0) v.order.nonempty;
          fresh = absent;
          here = refl;
          behind = λ q' lt' e. omega arith;
        } in
        let w : Way m.cap m.entries (pos m.cap key 0) j key = record {
          empty =
              ap (slot_at m.entries)
                (mod-add-mod (envmap_hash key + 0) m.cap j ∙ ap (λ x. x % m.cap) regroup ∙ at)
              ∙ empty;
          short = below;
          differs = λ i e le there. absent _ e there;
        } in
        probe_set-Adds m.cap m.mask key val (wrap m v) (m.cap + 1) m.entries (pos m.cap key 0) j
          start true f w (omega arith)

    -- What was added is stored.
    Adds-Stores :
        (p : Placed V)
        → Absent key m.entries
        → Adds m.cap m.entries start p
        → Stores m key val (record m { entries = p.entries; count = m.count + p.added })
    Adds-Stores p absent a = record {
      valid = record {
        bits = v.bits;
        power = v.power;
        least = v.least;
        masks = v.masks;
        order = a.order;
        counted = omega (arith, v.counted, a.count, a.one);
        room = ground (arith, not_full, v.least, a.one);
      };
      count = omega (arith, a.one);
      has = λ k x. (
        λ h. elim ((a.has k x).0 h) [
          | inl (s, e, is, ek, ev) ↦ inr (λ same. absent s e is (ek ∙ sym same), (s, e, is, ek, ev))
          | inr it ↦ inl it
        ],
        λ h. (a.has k x).1 (elim h [ inl it ↦ inr it | inr (_, there) ↦ inl there ]),
      );
    }

    -- On a map in order that is not full, the part of `envmap_set` behind the load test ends, and
    -- stores the value.
    pub put-Stores :
        (r : EnvMap V × Bool) × (put m key val ≡ some r) × (r.0.cap ≡ m.cap) × Stores m key val r.0
    unfolding put
    put-Stores = elim (find_slot m.entries key) [
      | inl (s, e, is, same) ↦ put_present s e is same
      | inr absent ↦
          let (p, run, a) = add-Absent absent in
          (
            (record m { entries = p.entries; count = m.count + p.added }, p.inserted),
            ground (arith, first, run),
            refl,
            Adds-Stores p absent a,
          )
    ]
