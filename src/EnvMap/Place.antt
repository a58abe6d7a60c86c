-- ===== src/EnvMap/Place.antt =====
-- One write of the loop of `envmap_set`: the entry in hand is put into a slot that is empty or
-- holds an entry nearer to its home.
use sage_tree.Base.{
  ℕ, zero, suc, ◌+◌, ◌%◌, ◌≤◌, ◌<◌, ◌≡◌, ◌≢◌, ◌↔◌, ◌⊎◌, ◌∙◌, sym, ap, inl, inr, Option, none, some,
  List, [], ◌∷◌, Bytes, arith, ltb, ◌==◌, ==_iff, if◌then◌else◌, length, set, length-set,
  get_or-set, Bool-cases,
}
use native.Mathlib.Nat.{mod-eq_of_lt, mod_self}
use sage_tree.EnvMap.Table.{Entry, slot_at}
use sage_tree.EnvMap.Order.{pos, rank, InOrder}
use sage_tree.EnvMap.Lookup.{Absent, Has}

next_cases : (n q : ℕ) → q < n → ((q + 1) % n ≡ q + 1) ⊎ ((suc q ≡ n) × ((q + 1) % n ≡ 0))
next_cases n q h = elim (Bool-cases (ltb (q + 1) n)) [
  | inl t ↦ inl (mod-eq_of_lt (ground (arith, t)))
  | inr f ↦
      let last : q + 1 ≡ n = ground (arith, f, h) in inr (omega (arith, last), rw last (mod_self n))
]

pub next_inj : (n q r : ℕ) → q < n → r < n → (q + 1) % n ≡ (r + 1) % n → q ≡ r
next_inj n q r hq hr e = elim (next_cases n q hq) [
  | inl a ↦ elim (next_cases n r hr) [
    | inl b ↦ omega (arith, a, b)
    | inr b ↦ absurd (omega (arith, a, b))
  ]
  | inr a ↦ elim (next_cases n r hr) [
    | inl b ↦ absurd (omega (arith, a, b))
    | inr b ↦ omega (arith, a, b)
  ]
]

module _ {V : Type 0} where
  -- How many slots hold an entry.
  unfoldable pub occupied : List (Option (Entry V)) → ℕ
  occupied [] = 0
  occupied (none ∷ t) = occupied t
  occupied (some e ∷ t) = suc (occupied t)

  pub occupied-set :
      (t : List (Option (Entry V))) (s : ℕ) (e : Entry V)
      → s < length t
      → occupied (set t s (some e)) + elim (slot_at t s) [ none ↦ 0 | some _ ↦ 1 ] ≡ occupied t + 1
  unfolding occupied
  occupied-set [] s e h = absurd (omega arith)
  occupied-set (none ∷ t) zero e h = omega arith
  occupied-set (some x ∷ t) zero e h = omega arith
  occupied-set (none ∷ t) (suc s) e h = occupied-set t s e (omega arith)
  occupied-set (some x ∷ t) (suc s) e h = omega (arith, occupied-set t s e (omega arith))

  -- The entry in hand may go into the slot.
  pub record Fits (n : ℕ) (t : List (Option (Entry V))) (slot : ℕ) (ins : Entry V) : Type 0 where
    pub order : InOrder n t
    pub inside : slot < n
    pub fresh : Absent ins.key t
    pub here : pos n ins.key ins.dist ≡ slot
    pub behind : (q : ℕ) → q < n → (q + 1) % n ≡ slot → ins.dist ≤ rank (slot_at t q)

  module _ (n : ℕ) (t : List (Option (Entry V))) (slot : ℕ) (ins : Entry V)
      (f : Fits n t slot ins) where
    abbrev pub placed : List (Option (Entry V))
    placed = set t slot (some ins)

    pub at_placed : (s : ℕ) → slot_at placed s ≡ (if slot == s then some ins else slot_at t s)
    at_placed s = get_or-set t slot (some ins) none s (omega (arith, f.inside, f.order.width))

    -- A slot holds the entry in hand, or what it held.
    pub slot_cases :
        (s : ℕ)
        → ((slot ≡ s) × (slot_at placed s ≡ some ins))
          ⊎ ((slot ≢ s) × (slot_at placed s ≡ slot_at t s))
    slot_cases s = elim (Bool-cases (slot == s)) [
      | inl e ↦ inl ((==_iff slot s).0 e, at_placed s ∙ rw e)
      | inr e ↦ inr (λ q. cc (e, (==_iff slot s).1 q), at_placed s ∙ rw e)
    ]

    place-chain :
        rank (slot_at t slot) ≤ ins.dist
        → (s : ℕ) → s < n
        → rank (slot_at placed ((s + 1) % n)) ≤ suc (rank (slot_at placed s))
    place-chain low s lt =
        let old = f.order.chain s lt in
        elim (slot_cases ((s + 1) % n)) [
          | inl (at, a) ↦ elim (slot_cases s) [
            | inl (_, b) ↦ rw (a, b) (omega arith)
            | inr (_, b) ↦ rw (a, b) (omega (arith, f.behind s lt (sym at)))
          ]
          | inr (_, a) ↦ elim (slot_cases s) [
            | inl (is, b) ↦ rw (a, b) (omega (arith, old, rw is at low))
            | inr (_, b) ↦ rw (a, b) old
          ]
        ]

    place-distinct :
        (s r : ℕ) (d e : Entry V)
        → slot_at placed s ≡ some d
        → slot_at placed r ≡ some e
        → d.key ≡ e.key
        → s ≡ r
    place-distinct s r d e hs hr same = elim (slot_cases s) [
      | inl (at, a) ↦ elim (slot_cases r) [
        | inl (at', b) ↦ sym at ∙ at'
        | inr (_, b) ↦
            let it : ins ≡ d = cc (a, hs) in
            absurd (f.fresh r e (sym b ∙ hr) (sym same ∙ ap (λ (x : Entry V). x.key) (sym it)))
      ]
      | inr (_, a) ↦ elim (slot_cases r) [
        | inl (at', b) ↦
            let it : ins ≡ e = cc (b, hr) in
            absurd (f.fresh s d (sym a ∙ hs) (same ∙ ap (λ (x : Entry V). x.key) (sym it)))
        | inr (_, b) ↦ f.order.distinct s r d e (sym a ∙ hs) (sym b ∙ hr) same
      ]
    ]

    place-placed : (s : ℕ) (e : Entry V) → slot_at placed s ≡ some e → pos n e.key e.dist ≡ s
    place-placed s e h = elim (slot_cases s) [
      | inl (at, a) ↦
          let it : ins ≡ e = cc (a, h) in
          ap (λ (x : Entry V). pos n x.key x.dist) (sym it) ∙ f.here ∙ at
      | inr (_, a) ↦ f.order.placed s e (sym a ∙ h)
    ]

    pub place-InOrder : rank (slot_at t slot) ≤ ins.dist → InOrder n placed
    place-InOrder low = record {
      width = length-set t slot (some ins) ∙ f.order.width;
      nonempty = f.order.nonempty;
      placed = place-placed;
      chain = place-chain low;
      distinct = place-distinct;
    }

    -- What the other slots hold.
    abbrev pub Elsewhere : Bytes → V → Type 0
    Elsewhere k v =
        (s : ℕ) × (e : Entry V) × (slot ≢ s) × (slot_at t s ≡ some e) × (e.key ≡ k) × (e.value ≡ v)

    -- What the slots hold after the write: the entry in hand, and what the other slots held.
    pub place-Has :
        (k : Bytes) (v : V) → Has placed k v ↔ (((ins.key ≡ k) × (ins.value ≡ v)) ⊎ Elsewhere k v)
    place-Has k v = (
      λ (s, e, h, a, b). elim (slot_cases s) [
        | inl (at, c) ↦
            let it : ins ≡ e = cc (c, h) in
            inl (ap (λ (x : Entry V). x.key) it ∙ a, ap (λ (x : Entry V). x.value) it ∙ b)
        | inr (ne, c) ↦ inr (s, e, ne, sym c ∙ h, a, b)
      ],
      λ w. elim w [
        | inl (a, b) ↦ (slot, ins, at_placed slot ∙ ground arith, a, b)
        | inr (s, e, ne, h, a, b) ↦ (s, e, at_placed s ∙ ground (arith, ne, h), a, b)
      ],
    )
