-- ===== src/Base/Bits.antt =====
-- Laws of `&` and `|` at variables: a mask of low bits is a remainder, and disjoint fields add up.
use Prim.Native.Nat.{
  ℕ, zero, suc, ◌+◌, ◌-◌, ◌*◌, ◌/◌, ◌%◌, ◌^◌, ◌≤◌, ◌<◌, bit_and, bit_or, bit_and-bitwise,
  bit_or-bitwise,
}
use mathlib.Core.Path.{◌≡◌, refl, ap, ◌∙◌}
use native.Mathlib.Nat.{le_refl, pow-suc, one-le-pow, div-div-eq-div-mul}
use little.Base.Digits.{bit_or_step, bit_and_step}
use native.Mathlib.Omega.{arith}

-- Both halve their first argument, so the inductions run on a bound for it.
bit_or-zero_below : (n a : ℕ) → a ≤ n → bit_or a 0 ≡ a
bit_or-zero_below n zero h = refl
bit_or-zero_below zero (suc a) h = absurd (omega arith)
bit_or-zero_below (suc n) (suc a) h =
    omega (arith, bit_or_step (suc a) 0, bit_or-zero_below n (suc a / 2) (omega arith))

pub bit_or-zero : (a : ℕ) → bit_or a 0 ≡ a
bit_or-zero a = bit_or-zero_below a a (le_refl a)

bit_and-zero_below : (n a : ℕ) → a ≤ n → bit_and a 0 ≡ 0
bit_and-zero_below n zero h = refl
bit_and-zero_below zero (suc a) h = absurd (omega arith)
bit_and-zero_below (suc n) (suc a) h =
    omega (arith, bit_and_step (suc a) 0, bit_and-zero_below n (suc a / 2) (omega arith))

pub bit_and-zero : (a : ℕ) → bit_and a 0 ≡ 0
bit_and-zero a = bit_and-zero_below a a (le_refl a)

-- A field moves one place up.
pub place_up : (field k : ℕ) → 2 * (field * 2 ^ k) ≡ field * 2 ^ suc k
place_up field k = omega (arith, ap (λ (t : ℕ). field * t) (pow-suc 2 k))

-- `(high << k) | low` is a sum where `low` has at most `k` bits.
pub bit_or_high_low :
    (k high low : ℕ) → low < 2 ^ k → bit_or (high * 2 ^ k) low ≡ high * 2 ^ k + low
bit_or_high_low (suc k) high low short = ground (
  arith,
  place_up high k,
  bit_or_high_low k high (low / 2) (omega arith),
  bit_or_step (high * 2 ^ suc k) low,
)
bit_or_high_low zero high low short = ground (arith, bit_or-zero high)

-- The same with the operands exchanged.
pub bit_or_low_high : (k q r : ℕ) → r < 2 ^ k → bit_or r (q * 2 ^ k) ≡ q * 2 ^ k + r
bit_or_low_high zero q zero fits = ground (arith, bit_or_step 0 (q * 2 ^ 0), zero-bit_or q)
  where
    zero-bit_or : (b : ℕ) → bit_or 0 b ≡ b
    zero-bit_or b = simp bit_or-bitwise (omega arith)
bit_or_low_high zero q (suc r) fits = absurd (omega arith)
bit_or_low_high (suc k) q r fits =
    ground (
      arith,
      bit_or_step r (q * 2 ^ suc k),
      place_up q k,
      bit_or_low_high k q (r / 2) (omega arith),
    )

-- `x & mask` at a mask of `k` ones keeps the low part.
pub bit_and_low : (k high low : ℕ) → low < 2 ^ k → bit_and (high * 2 ^ k + low) (2 ^ k - 1) ≡ low
bit_and_low (suc k) high low short = ground (
  arith,
  pow-suc 2 k,
  place_up high k,
  bit_and_low k high (low / 2) (omega arith),
  bit_and_step (high * 2 ^ suc k + low) (2 ^ suc k - 1),
)
bit_and_low zero high low short = rw bit_and-zero (omega arith)

pub bit_and_low_bits : (k a : ℕ) → bit_and a (2 ^ k - 1) ≡ a % 2 ^ k
bit_and_low_bits k a = ground (arith, one-le-pow k 2, bit_and_low k (a / 2 ^ k) (a % 2 ^ k))

pub div_pow-suc : (k a : ℕ) → a / 2 / 2 ^ k ≡ a / 2 ^ suc k
div_pow-suc k a =
    div-div-eq-div-mul a 2 (2 ^ k) ∙ ap (λ (t : ℕ). a / t) (omega (arith, pow-suc 2 k))

zero-bit_and : (b : ℕ) → bit_and 0 b ≡ 0
zero-bit_and b = simp bit_and-bitwise refl

-- `x & (1 << k)` keeps the one bit.
pub bit_and_pow : (k a : ℕ) → bit_and a (2 ^ k) ≡ a / 2 ^ k % 2 * 2 ^ k
bit_and_pow zero a = ground (arith, bit_and_step a 1, bit_and-zero (a / 2))
bit_and_pow (suc k) a = ground (
  arith,
  bit_and_step a (2 ^ suc k),
  pow-suc 2 k,
  bit_and_pow k (a / 2),
  div_pow-suc k a,
  place_up (a / 2 / 2 ^ k % 2) k,
)

-- To mask twice is to mask once.
bit_and_mask_below : (n a m : ℕ) → a ≤ n → bit_and (bit_and a m) m ≡ bit_and a m
bit_and_mask_below n zero m h = rw zero-bit_and (zero-bit_and m)
bit_and_mask_below zero (suc a) m h = absurd (omega arith)
bit_and_mask_below (suc n) (suc a) m h = ground (
  arith,
  bit_and_step (suc a) m,
  bit_and_step (bit_and (suc a) m) m,
  bit_and_mask_below n (suc a / 2) (m / 2),
)

pub bit_and_mask_twice : (a m : ℕ) → bit_and (bit_and a m) m ≡ bit_and a m
bit_and_mask_twice a m = bit_and_mask_below a a m (le_refl a)
