-- ===== src/EnvMap/Table.antt =====
-- The code. A key is the bytes that the pair of pointer and length stands for, and an empty slot,
-- whose `dist` is -1, is `none`. Probing has fuel, one more round than there are slots; a result
-- `none` means that it ran out, and the proofs show that it does not.
use sage_tree.Base.{
  ℕ, zero, suc, ◌+◌, ◌-◌, ◌*◌, ◌%◌, ◌^◌, bit_and, bit_xor, Bool, true, false, Option, none, some,
  List, [], ◌∷◌, Bytes, bytes_eq, get_or, set, replicate, ltb, leb, ◌==◌, if◌then◌else◌,
}

pub record Entry (V : Type 0) : Type 0 where
  pub key : Bytes
  pub dist : ℕ
  pub value : V

pub record EnvMap (V : Type 0) : Type 0 where
  pub entries : List (Option (Entry V))
  pub cap : ℕ
  pub count : ℕ
  pub mask : ℕ

infixl 5 ◌>>=◌
abbrev pub ◌>>=◌ {ℓ κ} : {A : Type ℓ} {B : Type κ} → Option A → (A → Option B) → Option B
none >>= f = none
some a >>= f = f a

-- The loop of `_envmap_hash`, FNV-1a in 32 bits.
unfoldable pub fnv : ℕ → Bytes → ℕ
fnv h [] = h
fnv h (c ∷ s) = fnv (bit_xor h c * 16777619 % 2 ^ 32) s

unfoldable pub envmap_hash : Bytes → ℕ
unfolding fnv
envmap_hash key = fnv 2166136261 key

-- `while (p < n) p <<= 1` in an `int`: `none` when the doubled `p` passes INT_MAX, where the C
-- code has no defined result, and when the fuel runs out.
unfoldable pub double_until : ℕ → ℕ → ℕ → Option ℕ
double_until zero p n = none
double_until (suc fuel) p n =
    let rest = double_until fuel (p * 2) n in
    if ltb p n then (if leb (p * 2) 2147483647 then rest else none) else some p

unfoldable pub next_pow2 : ℕ → Option ℕ
unfolding double_until
next_pow2 n = double_until (suc n) 8 n

-- A table of empty slots.
abbrev pub empty_map : {V : Type 0} → ℕ → EnvMap V
empty_map n = record { entries = replicate n none; cap = n; count = 0; mask = n - 1 }

unfoldable pub envmap_init : {V : Type 0} → ℕ → Option (EnvMap V)
unfolding next_pow2
envmap_init n = next_pow2 (if ltb n 8 then 8 else n) >>= λ cap. some (empty_map cap)

unfoldable pub envmap_clear : {V : Type 0} → EnvMap V → EnvMap V
envmap_clear m = record m { entries = replicate m.cap none; count = 0 }

abbrev pub slot_at : {V : Type 0} → List (Option (Entry V)) → ℕ → Option (Entry V)
slot_at entries i = get_or entries i none

-- What the loop of `envmap_set` leaves: the slots, what it adds to `count`, what it returns.
pub record Placed (V : Type 0) : Type 0 where
  pub entries : List (Option (Entry V))
  pub added : ℕ
  pub inserted : Bool

module _ {V : Type 0} where
  -- The loop of `envmap_get`: the inner result is `none` on a miss.
  unfoldable pub probe_get : ℕ → List (Option (Entry V)) → ℕ → ℕ → ℕ → Bytes → Option (Option V)
  probe_get zero entries mask slot probe key = none
  probe_get (suc fuel) entries mask slot probe key =
      elim (slot_at entries (bit_and (slot + probe) mask)) [
        | none ↦ some none
        | some e ↦ elim (ltb e.dist probe) [
          | true ↦ some none
          | false ↦ elim (bytes_eq e.key key) [
            | true ↦ some (some e.value)
            | false ↦ probe_get fuel entries mask slot (probe + 1) key
          ]
        ]
      ]

  unfoldable pub envmap_get : EnvMap V → Bytes → Option (Option V)
  envmap_get m key =
      if m.count == 0
      then some none
      else probe_get (m.cap + 1) m.entries m.mask (bit_and (envmap_hash key) m.mask) 0 key

  -- The loop of `envmap_set`. The test for the key is against the key of the call, also after a
  -- displaced entry has taken the place of `ins`.
  unfoldable pub probe_set :
      ℕ → List (Option (Entry V)) → ℕ → ℕ → Entry V → Bytes → V → Bool → Option (Placed V)
  probe_set zero entries mask slot ins key val inserted = none
  probe_set (suc fuel) entries mask slot ins key val inserted = elim (slot_at entries slot) [
    | none ↦ some (record { entries = set entries slot (some ins); added = 1; inserted = inserted })
    | some e ↦ elim (bytes_eq e.key key) [
      | true ↦ some (record {
        entries = set entries slot (some (record e { value = val }));
        added = 0;
        inserted = false;
      })
      | false ↦ elim (ltb e.dist ins.dist) [
        | true ↦
            probe_set fuel (set entries slot (some ins)) mask (bit_and (slot + 1) mask)
              (record e { dist = e.dist + 1 }) key val false
        | false ↦
            probe_set fuel entries mask (bit_and (slot + 1) mask)
              (record ins { dist = ins.dist + 1 }) key val inserted
      ]
    ]
  ]

  -- `envmap_set` behind the test of the load.
  unfoldable pub put : EnvMap V → Bytes → V → Option (EnvMap V × Bool)
  put m key val =
      probe_set (m.cap + 1) m.entries m.mask (bit_and (envmap_hash key) m.mask)
        (record { key = key; dist = 0; value = val }) key val true
      >>= λ p. some (record m { entries = p.entries; count = m.count + p.added }, p.inserted)

  -- The second loop of `envmap_grow`, which calls `envmap_set` on each entry of the old slots.
  unfoldable pub reinsert :
      (EnvMap V → Bytes → V → Option (EnvMap V × Bool))
      → List (Option (Entry V))
      → EnvMap V
      → Option (EnvMap V)
  reinsert store [] m = some m
  reinsert store (none ∷ old) m = reinsert store old m
  reinsert store (some e ∷ old) m = store m e.key e.value >>= λ r. reinsert store old r.0

  -- `m->count * 4 >= m->cap * 3`
  -- The products are exact, as those of an `int` are for every table below 2 ^ 30 slots.
  abbrev pub is_full : EnvMap V → Bool
  is_full m = leb (m.cap * 3) (m.count * 4)

  -- `envmap_set` and `envmap_grow` call one another; the first argument bounds how deep.
  unfoldable pub set_within : ℕ → EnvMap V → Bytes → V → Option (EnvMap V × Bool)
  set_within zero m key val = if is_full m then none else put m key val
  set_within (suc depth) m key val =
      if is_full m
      then (reinsert (set_within depth) m.entries (empty_map (m.cap * 2)) >>= λ m'. put m' key val)
      else put m key val

  -- One growth is enough: the map that it fills is not full.
  unfoldable pub envmap_set : EnvMap V → Bytes → V → Option (EnvMap V × Bool)
  envmap_set m key val = set_within 1 m key val
