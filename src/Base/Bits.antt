-- ===== src/Base/Bits.antt =====
-- The bits of a word: `bit_and` and `bit_or` bit by bit, and a test against one bit of a mask.
use Prim.Native.Nat.{
  ℕ, zero, suc, ◌+◌, ◌-◌, ◌*◌, ◌/◌, ◌%◌, ◌^◌, ◌≤◌, ◌<◌, min, max, bit_and, bit_or, digits, bitwise,
  bit_and-bitwise, bit_or-bitwise,
}
use mathlib.Core.Path.{◌≡◌, refl, ap, ◌∙◌}
use native.Mathlib.Nat.{pow-suc, one-le-pow}
use native.Mathlib.Omega.{arith}

-- One round of fuel that the number does not need.
module _ (base : ℕ → ℕ) (op : ℕ → ℕ → ℕ) where
  spare_round : (n a b : ℕ) → a ≤ n → digits base op (suc n) a b ≡ digits base op n a b
  spare_round zero zero b h = refl
  spare_round zero (suc a) b h = absurd (omega arith)
  spare_round (suc n) zero b h = refl
  spare_round (suc n) (suc a) b h = rw (spare_round n (suc a / 2) (b / 2) (omega arith))

  -- And any number of them.
  spare_rounds : (k n m a b : ℕ) → m ≡ n + k → a ≤ n → digits base op m a b ≡ digits base op n a b
  spare_rounds zero n m a b e h =
      let same : m ≡ n = omega arith in ap (λ t. digits base op t a b) same
  spare_rounds (suc k) n zero a b e h = absurd (omega arith)
  spare_rounds (suc k) n (suc m) a b e h =
      spare_round m a b (omega arith) ∙ spare_rounds k n m a b (omega arith) h

  -- The lowest digit of the operation, apart from the others.
  lowest_digit :
      (a b : ℕ)
      → bitwise base op (suc a) b ≡ 2 * bitwise base op (suc a / 2) (b / 2) + op (suc a % 2) (b % 2)
  lowest_digit a b =
      let half = suc a / 2 in
      let enough = spare_rounds (a - half) half a half (b / 2) (omega arith) (omega arith) in
      omega (arith, enough)

pub bit_or_step : (a b : ℕ) → bit_or a b ≡ 2 * bit_or (a / 2) (b / 2) + max (a % 2) (b % 2)
bit_or_step zero b = omega (arith, bit_or-bitwise 0 b, bit_or-bitwise 0 (b / 2))
bit_or_step (suc a) b = omega (
  arith,
  lowest_digit (λ rest. rest) max a b,
  bit_or-bitwise (suc a) b,
  bit_or-bitwise (suc a / 2) (b / 2),
)

pub bit_and_step : (a b : ℕ) → bit_and a b ≡ 2 * bit_and (a / 2) (b / 2) + min (a % 2) (b % 2)
bit_and_step zero b = omega (arith, bit_and-bitwise 0 b, bit_and-bitwise 0 (b / 2))
bit_and_step (suc a) b = omega (
  arith,
  lowest_digit (λ rest. 0) min a b,
  bit_and-bitwise (suc a) b,
  bit_and-bitwise (suc a / 2) (b / 2),
)

-- Bit `k` of a word.
unfoldable pub bit : ℕ → ℕ → ℕ
bit a zero = a % 2
bit a (suc k) = bit (a / 2) k

pub bit-bit_or : (k a b : ℕ) → bit (bit_or a b) k ≡ max (bit a k) (bit b k)
unfolding bit
bit-bit_or zero a b = omega (arith, bit_or_step a b)
bit-bit_or (suc k) a b =
    let e : bit_or a b / 2 ≡ bit_or (a / 2) (b / 2) = omega (arith, bit_or_step a b) in
    rw e (bit-bit_or k (a / 2) (b / 2))

pub bit-bit_and : (k a b : ℕ) → bit (bit_and a b) k ≡ min (bit a k) (bit b k)
unfolding bit
bit-bit_and zero a b = omega (arith, bit_and_step a b)
bit-bit_and (suc k) a b =
    let e : bit_and a b / 2 ≡ bit_and (a / 2) (b / 2) = omega (arith, bit_and_step a b) in
    rw e (bit-bit_and k (a / 2) (b / 2))

bit_and-zero : (a : ℕ) → bit_and a 0 ≡ 0
bit_and-zero a = no_bits (suc a) a (omega arith)
  where
    no_bits : (bound b : ℕ) → b < bound → bit_and b 0 ≡ 0
    no_bits zero b h = absurd (omega arith)
    no_bits (suc bound) zero h = refl
    no_bits (suc bound) (suc b) h =
        omega (arith, bit_and_step (suc b) 0, no_bits bound (suc b / 2) (omega arith))

pub bit-lt : (k a : ℕ) → bit a k < 2
unfolding bit
bit-lt zero a = omega arith
bit-lt (suc k) a = bit-lt k (a / 2)

pub bit-zero : (k : ℕ) → bit 0 k ≡ 0
unfolding bit
bit-zero zero = refl
bit-zero (suc k) = bit-zero k

-- `a & (1 << k)` is that bit of `a` in its place.
pub bit_and-pow : (k a : ℕ) → bit_and a (2 ^ k) ≡ bit a k * 2 ^ k
unfolding bit
bit_and-pow zero a = omega (arith, bit_and_step a 1, bit_and-zero (a / 2))
bit_and-pow (suc k) a =
    let half : 2 ^ suc k / 2 ≡ 2 ^ k = omega (arith, pow-suc 2 k) in
    let step : bit_and a (2 ^ suc k) ≡ 2 * bit_and (a / 2) (2 ^ suc k / 2) =
      omega (arith, bit_and_step a (2 ^ suc k), pow-suc 2 k) in
    let ih : bit_and (a / 2) (2 ^ suc k / 2) ≡ bit (a / 2) k * 2 ^ k =
      rw half (bit_and-pow k (a / 2)) in
    omega (arith, step, ih, ap (λ (t : ℕ). bit (a / 2) k * t) (pow-suc 2 k))

low_part : (k q r : ℕ) → r < 2 ^ k → bit_and (q * 2 ^ k + r) (2 ^ k - 1) ≡ r
low_part zero q r h = rw bit_and-zero (omega arith)
low_part (suc k) q r h =
    let double : q * 2 ^ suc k ≡ 2 * (q * 2 ^ k) =
      omega (arith, ap (λ (t : ℕ). q * t) (pow-suc 2 k)) in
    ground (
      arith,
      double,
      bit_and_step (q * 2 ^ suc k + r) (2 ^ suc k - 1),
      pow-suc 2 k,
      low_part k q (r / 2) (omega arith),
    )

-- `a & (2^k - 1)` is the remainder by `2^k`.
pub bit_and_mask : (k a : ℕ) → bit_and a (2 ^ k - 1) ≡ a % 2 ^ k
bit_and_mask k a = ground (arith, one-le-pow k 2, low_part k (a / 2 ^ k) (a % 2 ^ k))
