-- ===== src/EnvMap/Size.antt =====
-- `next_pow2` and `envmap_init` of src/gc/env_hashmap.c: the size of a new map.
use sage_tree.Base.{
  ℕ, zero, suc, ◌+◌, ◌*◌, ◌^◌, ◌≤◌, ◌<◌, ◌≡◌, ◌⊎◌, ◌∙◌, refl, sym, ap, inl, inr, true, Option, none,
  some, arith, Bool-cases, ltb, leb, if◌then◌else◌,
}
use native.Mathlib.Nat.{pow-suc}
use sage_tree.EnvMap.Table.{EnvMap, slot_at, empty_map, envmap_init, next_pow2, double_until}
use sage_tree.EnvMap.Put.{IsValid}
use sage_tree.EnvMap.Grow.{slot_at-replicate, empty_map-IsValid}

-- The least power of two from 8 on that is not below the argument.
abbrev pub Rounds : ℕ → Option ℕ → Type 0
Rounds n o =
    (k : ℕ) × (o ≡ some (2 ^ k)) × (8 ≤ 2 ^ k) × (n ≤ 2 ^ k) × ((2 ^ k ≡ 8) ⊎ (2 ^ k < n * 2))

module _ (n : ℕ) where
  -- One round of the loop, from what the rest of it makes of the doubled `p`.
  round-Rounds :
      (fuel p k : ℕ)
      → p ≡ 2 ^ k
      → 8 ≤ p
      → n ≤ 1073741824
      → (p ≡ 8) ⊎ (p < n * 2)
      → (p < n → Rounds n (double_until fuel (p * 2) n))
      → Rounds n (double_until (suc fuel) p n)
  unfolding double_until
  round-Rounds fuel p k e h small low rest = elim (Bool-cases (ltb p n)) [
    | inl t ↦
        let fits : leb (p * 2) 2147483647 ≡ true = ground (arith, t, small) in
        rw (double_until, t, fits) (rest (ground (arith, t)))
    | inr f ↦ (
      k,
      rw (double_until, f) (ap some e),
      omega (arith, e, h),
      ground (arith, f, e),
      elim low [ inl it ↦ inl (sym e ∙ it) | inr it ↦ inr (omega (arith, e, it)) ],
    )
  ]

  double_until-Rounds :
      (fuel p k : ℕ)
      → p ≡ 2 ^ k
      → 8 ≤ p
      → n ≤ p + fuel
      → n ≤ 1073741824
      → (p ≡ 8) ⊎ (p < n * 2)
      → Rounds n (double_until (suc fuel) p n)
  double_until-Rounds zero p k e h enough small low =
      round-Rounds zero p k e h small low (λ t. absurd (omega (arith, t, enough)))
  double_until-Rounds (suc fuel) p k e h enough small low =
      round-Rounds (suc fuel) p k e h small low (λ t.
        double_until-Rounds fuel (p * 2) (suc k) (omega (arith, pow-suc 2 k, e)) (omega (arith, h))
          (omega (arith, h, enough)) small (inr (omega (arith, t))))

double : (r p : ℕ) → p * 2 ^ suc r ≡ (p * 2) * 2 ^ r
double r p = rw (pow-suc 2 r) (grind arith)

le-shift : (r p : ℕ) → p ≤ p * 2 ^ r
le-shift zero p = omega arith
le-shift (suc r) p = omega (arith, double r p, le-shift r (p * 2))

-- One round above the bound, which the loop cannot leave.
round-none :
    (fuel p n : ℕ)
    → p < n
    → (leb (p * 2) 2147483647 ≡ true → double_until fuel (p * 2) n ≡ none)
    → double_until (suc fuel) p n ≡ none
unfolding double_until
round-none fuel p n below rest =
    let t : ltb p n ≡ true = ground (arith, below) in
    elim (Bool-cases (leb (p * 2) 2147483647)) [
      | inl fits ↦ rw (double_until, t, fits) (rest fits)
      | inr full ↦ rw (double_until, t, full) refl
    ]

-- Above the bound the loop comes to 2 ^ 30 and overflows.
double_until-none :
    (fuel r p n : ℕ) → p * 2 ^ r ≡ 1073741824 → 1073741824 < n → double_until fuel p n ≡ none
unfolding double_until
double_until-none zero r p n e h = refl
double_until-none (suc fuel) zero p n e h =
    round-none fuel p n (omega (arith, e, h)) (λ fits. absurd (ground (arith, e, fits)))
double_until-none (suc fuel) (suc r) p n e h =
    round-none fuel p n (omega (arith, le-shift (suc r) p, e, h))
      (λ fits. double_until-none fuel r (p * 2) n (sym (double r p) ∙ e) h)

-- Up to 2 ^ 30 `next_pow2` returns the least power of two that is at least 8 and at least its
-- argument; above, its `int` overflows and there is no result.
pub next_pow2_lem :
    (n : ℕ)
    → ((n ≤ 1073741824) × Rounds n (next_pow2 n)) ⊎ ((1073741824 < n) × (next_pow2 n ≡ none))
unfolding next_pow2
next_pow2_lem n = elim (Bool-cases (leb n 1073741824)) [
  | inl small ↦
      let bound : n ≤ 1073741824 = ground (arith, small) in
      inl (bound, double_until-Rounds n n 8 3 refl (omega arith) (omega arith) bound (inl refl))
  | inr large ↦
      let above : 1073741824 < n = ground (arith, large) in
      inr (above, double_until-none (suc n) 27 8 n refl above)
]

-- A map of any size up to the bound is made; it is in order, and its slots are empty.
pub envmap_init-IsValid :
    (V : Type 0) (n : ℕ)
    → n ≤ 1073741824
    → (m : EnvMap V) × (envmap_init n ≡ some m) × IsValid m × ((s : ℕ) → slot_at m.entries s ≡ none)
unfolding envmap_init
envmap_init-IsValid V n small = elim (next_pow2_lem (if ltb n 8 then 8 else n)) [
  | inl (_, (k, run, least, _, _)) ↦ (
    empty_map (2 ^ k),
    rw run refl,
    empty_map-IsValid (2 ^ k) k refl least,
    slot_at-replicate (2 ^ k),
  )
  | inr (large, _) ↦ absurd (ground (arith, small, large))
]
