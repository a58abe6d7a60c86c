-- ===== src/EnvMap/AsIndex.antt =====
-- The hash map is the index that a scope relies on: `Env.Index` filled by src/gc/env_hashmap.c.
use sage_tree.Base.{
  ℕ, ◌≤◌, ◌≡◌, ◌≢◌, ◌∙◌, refl, sym, ap, inl, inr, Bool, Option, none, some, Bytes, bytes_eq,
  bytes_eq_iff, bytes_cases, arith, if◌then◌else◌,
}
use sage_tree.EnvMap.Table.{Entry, EnvMap, empty_map, envmap_init, envmap_get, envmap_set}
use sage_tree.EnvMap.Lookup.{Has}
use sage_tree.EnvMap.Put.{IsValid, envmap_get-Finds}
use sage_tree.EnvMap.Grow.{Updates, envmap_set-Updates}
use sage_tree.EnvMap.Size.{envmap_init-IsValid}
use sage_tree.Env.Index.{Index}

module _ {V : Type 0} where
  -- What `envmap_get` hands out; the search of a map in order always ends.
  abbrev pub found : Option (Option V) → Option V
  found none = none
  found (some o) = o

  abbrev pub map_get : EnvMap V → Bytes → Option V
  map_get m key = found (envmap_get m key)

  abbrev pub left_by : EnvMap V → Option (EnvMap V × Bool) → EnvMap V
  left_by m none = m
  left_by m (some r) = r.0

  -- The map that `envmap_set` leaves behind its pointer.
  abbrev pub map_set : EnvMap V → Bytes → V → EnvMap V
  map_set m key val = left_by m (envmap_set m key val)

  pub map_set-Updates :
      (m : EnvMap V) (key : Bytes) (val : V) → IsValid m → Updates m key val (map_set m key val)
  map_set-Updates m key val v = let (r, run, u) = envmap_set-Updates m key val v in rw run u

  -- A map holds one value under a key.
  Has-unique :
      (m : EnvMap V) (key : Bytes) (a b : V)
      → IsValid m
      → Has m.entries key a
      → Has m.entries key b
      → a ≡ b
  Has-unique m key a b v (s, e, is, ek, ev) (r, f, is', fk, fv) =
      let at = v.order.distinct s r e f is is' (ek ∙ sym fk) in
      let it : e ≡ f = cc (is, is', at) in sym ev ∙ ap (λ (y : Entry V). y.value) it ∙ fv

  map_get-Has :
      (m : EnvMap V) (key : Bytes) (a : V)
      → IsValid m
      → Has m.entries key a
      → map_get m key ≡ some a
  map_get-Has m key a v h = elim (envmap_get-Finds m key v) [
    | inl (b, run, there) ↦ rw run (ap some (Has-unique m key b a v there h))
    | inr (_, absent) ↦ let (s, e, is, ek, _) = h in absurd (absent s e is ek)
  ]

  -- `envmap_get` after `envmap_set` reads the new value under the key, and under every other key
  -- what was read before.
  pub map_get-map_set :
      (m : EnvMap V) (key : Bytes) (val : V) (other : Bytes)
      → IsValid m
      → map_get (map_set m key val) other
        ≡ (if bytes_eq key other then some val else map_get m other)
  map_get-map_set m key val other v =
      let u = map_set-Updates m key val v in
      elim (bytes_cases key other) [
        | inl same ↦
            let hit =
              map_get-Has (map_set m key val) other val u.valid
                ((u.has other val).1 (inl (same, refl))) in
            ground (arith, hit, (bytes_eq_iff key other).1 same)
        | inr ne ↦
            let differ : key ≢ other = λ same. cc (ne, (bytes_eq_iff key other).1 same) in
            rw ne (elim (envmap_get-Finds m other v) [
              | inl (b, run, there) ↦
                  map_get-Has (map_set m key val) other b u.valid
                    ((u.has other b).1 (inr (differ, there)))
                  ∙ sym (ap found run)
              | inr (run, absent) ↦ elim (envmap_get-Finds (map_set m key val) other u.valid) [
                | inr (run', _) ↦ ap found run' ∙ sym (ap found run)
                | inl (b, _, there) ↦ elim ((u.has other b).0 there) [
                  | inl (same, _) ↦ absurd (differ same)
                  | inr (_, (s, e, is, ek, _)) ↦ absurd (absent s e is ek)
                ]
              ]
            ])
      ]

  -- What `envmap_init` leaves behind its pointer.
  abbrev pub made : Option (EnvMap V) → EnvMap V
  made none = empty_map 0
  made (some m) = m

  abbrev pub map_init : ℕ → EnvMap V
  map_init n = made (envmap_init n)

  pub map_init-IsValid : (n : ℕ) → n ≤ 1073741824 → IsValid (map_init n)
  map_init-IsValid n small = let (m, run, valid, _) = envmap_init-IsValid V n small in rw run valid

  pub map_get-map_init : (n : ℕ) (key : Bytes) → n ≤ 1073741824 → map_get (map_init n) key ≡ none
  map_get-map_init n key small =
      let (m, run, valid, empty) = envmap_init-IsValid V n small in
      rw run (elim (envmap_get-Finds m key valid) [
        | inl (b, _, (s, e, is, _, _)) ↦ cc (empty s, is)
        | inr (miss, _) ↦ rw miss refl
      ])

-- The hash map as an index.
abbrev pub robin_hood : (V : Type 0) → Index V
robin_hood V = record {
  Map = EnvMap V;
  IsValid = IsValid;
  init = map_init;
  set = map_set;
  get = map_get;
  init-IsValid = map_init-IsValid;
  get-init = map_get-map_init;
  set-IsValid = λ m key v h. (map_set-Updates m key v h).valid;
  get-set = map_get-map_set;
}
