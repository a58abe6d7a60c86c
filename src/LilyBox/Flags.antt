-- ===== src/LilyBox/Flags.antt =====
-- Tests of a set of flags against a word of flags, bit by bit.
use sage_tree.Base.{
  ℕ, zero, suc, ◌+◌, ◌/◌, ◌<◌, ◌≤◌, bit_and, bit_or, true, Option, none, some, List, [], ◌∷◌, Bytes,
  ◌≡◌, refl, ap, ◌↔◌, ◌==◌, ==_iff, Bool-cases, if◌then◌else◌, arith, inl, inr, ◌≢◌, ◌⊎◌,
}
use sage_tree.Base.Bits.{bit, bit-bit_or, bit-bit_and, bit-lt, bit-zero}
use sage_tree.LilyBox.Capability.{
  LilyBox, ok, deny_net, deny_fs, deny_proc, deny_ffi, perm_none, perm_net, perm_fs, perm_proc,
  perm_ffi, has_flag, create_with_flags,
}
use sage_tree.LilyBox.Checks.{check_perm}
use sage_tree.LilyBox.Session.{
  parse_perm_string, restricted_flags, sandbox_create_restricted, sandbox_check,
}

-- Each flag of `needed` is one of `flags`.
pub Covers : ℕ → ℕ → Type 0
Covers flags needed = (k : ℕ) → bit needed k ≤ bit flags k

-- Words with the same bits are the same.
bit_ext : (fuel a b : ℕ) → a < fuel → b < fuel → ((k : ℕ) → bit a k ≡ bit b k) → a ≡ b
unfolding bit
bit_ext zero a b a< b< h = absurd (omega arith)
bit_ext (suc fuel) zero zero a< b< h = refl
bit_ext (suc fuel) (suc a) b a< b< h =
    let half : suc a / 2 ≡ b / 2 =
      bit_ext fuel (suc a / 2) (b / 2) (omega arith) (omega arith) (λ k. h (suc k)) in
    omega (arith, h 0)
bit_ext (suc fuel) zero (suc b) a< b< h =
    let half : 0 / 2 ≡ suc b / 2 =
      bit_ext fuel (0 / 2) (suc b / 2) (omega arith) (omega arith) (λ k. h (suc k)) in
    omega (arith, h 0)

-- The test `(flags & needed) == needed`.
bit_and-Covers : (flags needed : ℕ) → (bit_and flags needed ≡ needed) ↔ Covers flags needed
unfolding Covers
bit_and-Covers flags needed = (
  (λ h k. omega (arith, bit-bit_and k flags needed, ap (λ n. bit n k) h)),
  (λ h.
      bit_ext (suc (bit_and flags needed + needed)) (bit_and flags needed) needed (omega arith)
        (omega arith) (λ k. omega (arith, bit-bit_and k flags needed, h k))),
)

-- A refusal is not `ok`, whichever flag it names.
refusal :
    (needed : ℕ)
    → (if has_flag needed perm_net
        then deny_net
        else if has_flag needed perm_fs
        then deny_fs
        else if has_flag needed perm_proc
        then deny_proc
        else if has_flag needed perm_ffi
        then deny_ffi
        else deny_net)
      ≢ ok
refusal needed = ground arith

-- `lk_check_perm` passes a sandbox exactly when its flags cover the flags needed.
pub check_perm_iff :
    (box : LilyBox) (needed : ℕ)
    → (check_perm (some box) needed ≡ ok) ↔ Covers box.capability.perm_flags needed
unfolding check_perm
check_perm_iff box needed =
    let iff = bit_and-Covers box.capability.perm_flags needed in
    elim (Bool-cases (bit_and box.capability.perm_flags needed == needed)) [
      | inl e ↦ (
        (λ h. iff.0 ((==_iff (bit_and box.capability.perm_flags needed) needed).0 e)),
        (λ h. ground (arith, e)),
      )
      | inr e ↦
          ((λ h. absurd (refusal needed (ground (arith, e, h)))), (λ h. ground (arith, e, iff.1 h)))
    ]

-- One of the arguments is a permission string that has flag `k`.
pub Grants : ℕ → List (Option Bytes) → Type 0
Grants k [] = ⊥
Grants k (none ∷ args) = Grants k args
Grants k (some s ∷ args) = (bit (parse_perm_string s) k ≡ 1) ⊎ Grants k args

restricted_flags-Grants :
    (args : List (Option Bytes)) (flags k : ℕ)
    → (bit (restricted_flags flags args) k ≡ 1) ↔ ((bit flags k ≡ 1) ⊎ Grants k args)
unfolding Grants restricted_flags
restricted_flags-Grants [] flags k = ground arith
restricted_flags-Grants (none ∷ args) flags k = restricted_flags-Grants args flags k
restricted_flags-Grants (some s ∷ args) flags k =
    let perm = parse_perm_string s in
    ground (
      arith,
      restricted_flags-Grants args (bit_or flags perm) k,
      bit-bit_or k flags perm,
      bit-lt k flags,
      bit-lt k perm,
    )

-- A sandbox made by `sandbox.create_restricted` passes `sandbox.check` of a permission string
-- exactly when each flag of it is one that an argument of the creation grants.
pub sandbox_check_iff :
    (next_id : ℕ) (args : List (Option Bytes)) (s : Bytes)
    → (sandbox_check (some (sandbox_create_restricted next_id args).0) (some s) ≡ true)
      ↔ ((k : ℕ) → bit (parse_perm_string s) k ≡ 1 → Grants k args)
unfolding sandbox_check sandbox_create_restricted create_with_flags Covers
sandbox_check_iff next_id args s =
    let flags = restricted_flags perm_none args in
    let perm = parse_perm_string s in
    let covers = bit_and-Covers flags perm in
    (
      (λ h k has. ground (
        arith,
        covers.0 ((==_iff (bit_and flags perm) perm).0 h) k,
        restricted_flags-Grants args perm_none k,
        bit-zero k,
        bit-lt k flags,
      )),
      (λ h. (==_iff (bit_and flags perm) perm).1 (
          covers.1
            (λ k. ground (arith, h k, restricted_flags-Grants args perm_none k, bit-lt k perm)))),
    )
