-- ===== src/EnvMap/Grow.antt =====
-- `envmap_grow` and `envmap_set` of src/gc/env_hashmap.c: growing loses nothing,
-- and one growth is enough.
use sage_tree.Base.{
  ℕ, zero, suc, ◌+◌, ◌*◌, ◌%◌, ◌^◌, ◌≤◌, ◌≡◌, ◌≢◌, ◌↔◌, ◌⊎◌, ◌∙◌, refl, sym, ap, inl, inr, Bool,
  false, Option, none, some, List, [], ◌∷◌, Bytes, arith, length-replicate, replicate, Bool-cases,
}
use native.Mathlib.Nat.{pow-suc}
use sage_tree.EnvMap.Table.{
  Entry, EnvMap, slot_at, reinsert, is_full, empty_map, set_within, envmap_set,
}
use sage_tree.EnvMap.Lookup.{Has}
use sage_tree.EnvMap.Place.{occupied}
use sage_tree.EnvMap.Put.{IsValid, Stores, put-Stores}

occupied-replicate : (V : Type 0) (n : ℕ) → occupied {V = V} (replicate n none) ≡ 0
unfolding occupied
occupied-replicate V zero = refl
occupied-replicate V (suc n) = occupied-replicate V n

module _ {V : Type 0} where
  pub slot_at-replicate : (n s : ℕ) → slot_at {V = V} (replicate n none) s ≡ none
  slot_at-replicate zero s = refl
  slot_at-replicate (suc n) zero = refl
  slot_at-replicate (suc n) (suc s) = slot_at-replicate n s

  pub empty_map-IsValid : (n k : ℕ) → n ≡ 2 ^ k → 8 ≤ n → IsValid {V = V} (empty_map n)
  empty_map-IsValid n k p h = record {
    bits = k;
    power = p;
    least = h;
    masks = refl;
    order = record {
      width = length-replicate n none;
      nonempty = omega arith;
      placed = λ s e is. cc (slot_at-replicate n s, is);
      chain = λ s lt. rw (slot_at-replicate n ((s + 1) % n)) (omega arith);
      distinct = λ s r e f is _ _. cc (slot_at-replicate n s, is);
    };
    counted = sym (occupied-replicate V n);
    room = omega arith;
  }

  not-Has-empty_map : (n : ℕ) (k : Bytes) (v : V) → ¬ Has (replicate n none) k v
  not-Has-empty_map n k v (s, e, is, _, _) = cc (slot_at-replicate n s, is)

  -- No key stands twice in a list of slots, and none is also in the map.
  abbrev Apart : List (Option (Entry V)) → EnvMap V → Type 0
  Apart old m =
      ((s r : ℕ) (e f : Entry V)
        → slot_at old s ≡ some e
        → slot_at old r ≡ some f
        → e.key ≡ f.key
        → s ≡ r)
      × ((k : Bytes) (v w : V) → Has old k v → ¬ Has m.entries k w)

  -- What the second loop of `envmap_grow` leaves in the map.
  pub record Refilled (old : List (Option (Entry V))) (m m' : EnvMap V) : Type 0 where
    pub valid : IsValid m'
    pub cap : m'.cap ≡ m.cap
    pub count : m'.count ≤ m.count + occupied old
    pub has : (k : Bytes) (v : V) → Has m'.entries k v ↔ (Has m.entries k v ⊎ Has old k v)

  Apart-tail :
      (x : Option (Entry V)) (old : List (Option (Entry V))) (m : EnvMap V)
      → Apart (x ∷ old) m
      → Apart old m
  Apart-tail x old m a = (
    λ s r e f hs hr same. ap pred (a.0 (suc s) (suc r) e f hs hr same),
    λ k v w (s, e, h, ek, ev). a.1 k v w (suc s, e, h, ek, ev),
  )
    where
      pred : ℕ → ℕ
      pred zero = zero
      pred (suc n) = n

  Has-later :
      (x : Option (Entry V)) (old : List (Option (Entry V))) (k : Bytes) (v : V)
      → Has old k v
      → Has (x ∷ old) k v
  Has-later x old k v (s, e, h, ek, ev) = (suc s, e, h, ek, ev)

  Has-none :
      (old : List (Option (Entry V))) (k : Bytes) (v : V) → Has (none ∷ old) k v → Has old k v
  Has-none old k v (zero, e, h, ek, ev) = cc
  Has-none old k v (suc s, e, h, ek, ev) = (s, e, h, ek, ev)

  Has-split :
      (e : Entry V) (old : List (Option (Entry V))) (k : Bytes) (v : V)
      → Has (some e ∷ old) k v
      → ((e.key ≡ k) × (e.value ≡ v)) ⊎ Has old k v
  Has-split e old k v (zero, f, h, ek, ev) =
      let it : e ≡ f = cc h in
      inl (ap (λ (y : Entry V). y.key) it ∙ ek, ap (λ (y : Entry V). y.value) it ∙ ev)
  Has-split e old k v (suc s, f, h, ek, ev) = inr (s, f, h, ek, ev)

  -- The entry that was moved is not among those that are left.
  Apart-step :
      (e : Entry V) (old : List (Option (Entry V))) (m m' : EnvMap V)
      → Apart (some e ∷ old) m
      → Stores m e.key e.value m'
      → Apart old m'
  Apart-step e old m m' a st = (
    (Apart-tail (some e) old m a).0,
    λ k v w (s, f, h, fk, fv) there. elim ((st.has k w).0 there) [
      | inl (ek, _) ↦ absurd (omega (arith, a.0 0 (suc s) e f refl h (ek ∙ sym fk)))
      | inr (_, before) ↦ a.1 k v w (suc s, f, h, fk, fv) before
    ],
  )

  reinsert-Refilled :
      (old : List (Option (Entry V))) (m : EnvMap V)
      → IsValid m
      → Apart old m
      → (m.count + occupied old) * 2 ≤ m.cap
      → (m' : EnvMap V) × (reinsert (set_within 0) old m ≡ some m') × Refilled old m m'
  unfolding reinsert set_within occupied
  reinsert-Refilled [] m v a room = (
    m,
    refl,
    record {
      valid = v;
      cap = refl;
      count = omega arith;
      has = λ k x. (λ h. inl h, λ h. elim h [ inl there ↦ there | inr (s, e, is, _, _) ↦ cc ]);
    },
  )
  reinsert-Refilled (none ∷ old) m v a room =
      let (m', run, r) = reinsert-Refilled old m v (Apart-tail none old m a) room in
      (
        m',
        run,
        record {
          valid = r.valid;
          cap = r.cap;
          count = r.count;
          has = λ k x. (
            λ h. elim ((r.has k x).0 h) [ inl w ↦ inl w | inr w ↦ inr (Has-later none old k x w) ],
            λ h. (r.has k x).1 (elim h [ inl w ↦ inl w | inr w ↦ inr (Has-none old k x w) ]),
          );
        },
      )
  reinsert-Refilled (some e ∷ old) m v a room =
      let light : is_full m ≡ false = ground (arith, room, v.least) in
      let (r, put_run, same, st) = put-Stores m e.key e.value v light in
      let (m', run, f) =
        reinsert-Refilled old r.0 st.valid (Apart-step e old m r.0 a st)
          (omega (arith, st.count, same, room)) in
      (
        m',
        ground (arith, light, put_run, run),
        record {
          valid = f.valid;
          cap = f.cap ∙ same;
          count = omega (arith, f.count, st.count);
          has = λ k x. (
            λ h. elim ((f.has k x).0 h) [
              | inr w ↦ inr (Has-later (some e) old k x w)
              | inl w ↦ elim ((st.has k x).0 w) [
                | inl (ek, ev) ↦ inr (0, e, refl, ek, ev)
                | inr (_, there) ↦ inl there
              ]
            ],
            λ h. (f.has k x).1 (elim h [
              | inl w ↦
                  inl ((st.has k x).1 (inr (λ ek. a.1 k e.value x (0, e, refl, ek, refl) w, w)))
              | inr w ↦ elim (Has-split e old k x w) [
                | inl it ↦ inl ((st.has k x).1 (inl it))
                | inr later ↦ inr later
              ]
            ]),
          );
        },
      )

  -- What `envmap_set` leaves: `val` under `key`, and every other key as it was.
  pub record Updates (m : EnvMap V) (key : Bytes) (val : V) (m' : EnvMap V) : Type 0 where
    pub valid : IsValid m'
    pub has :
        (k : Bytes) (v : V)
        → Has m'.entries k v ↔ (((key ≡ k) × (val ≡ v)) ⊎ ((key ≢ k) × Has m.entries k v))

  module _ (m : EnvMap V) (key : Bytes) (val : V) (v : IsValid m) where
    fresh-IsValid : IsValid {V = V} (empty_map (m.cap * 2))
    fresh-IsValid =
        empty_map-IsValid (m.cap * 2) (suc v.bits) (omega (arith, pow-suc 2 v.bits, v.power))
          (omega (arith, v.least))

    refill :
        (m' : EnvMap V) × (reinsert (set_within 0) m.entries (empty_map (m.cap * 2)) ≡ some m')
        × Refilled m.entries (empty_map (m.cap * 2)) m'
    refill =
        reinsert-Refilled m.entries (empty_map (m.cap * 2)) fresh-IsValid
          (v.order.distinct, λ k x w _ there. not-Has-empty_map (m.cap * 2) k w there)
          (omega (arith, v.counted, v.room))

    -- `envmap_set` on a map in order ends, and the map it leaves is in order and holds `val` under
    -- `key` and under every other key what it held; so too when the call makes the map grow.
    pub envmap_set-Updates :
        (r : EnvMap V × Bool) × (envmap_set m key val ≡ some r) × Updates m key val r.0
    unfolding envmap_set set_within
    envmap_set-Updates = elim (Bool-cases (is_full m)) [
      | inr light ↦
          let (r, run, _, st) = put-Stores m key val v light in
          (r, ground (arith, light, run), record { valid = st.valid; has = st.has })
      | inl full ↦
          let (m', run, f) = refill in
          let light : is_full m' ≡ false = ground (arith, f.count, f.cap, v.counted, v.room) in
          let (r, put_run, _, st) = put-Stores m' key val f.valid light in
          (
            r,
            ground (arith, full, run, put_run),
            record {
              valid = st.valid;
              has = λ k x. (
                λ h. elim ((st.has k x).0 h) [
                  | inl it ↦ inl it
                  | inr (ne, there) ↦ elim ((f.has k x).0 there) [
                    | inl w ↦ absurd (not-Has-empty_map (m.cap * 2) k x w)
                    | inr w ↦ inr (ne, w)
                  ]
                ],
                λ h.
                    (st.has k x).1
                      (elim h [ inl it ↦ inl it | inr (ne, w) ↦ inr (ne, (f.has k x).1 (inr w)) ]),
              );
            },
          )
    ]
