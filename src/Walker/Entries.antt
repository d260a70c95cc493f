-- ===== src/Walker/Entries.antt =====
-- The tests on an entry as arithmetic.
use little.Base.{ℕ, zero, suc, ◌*◌, ◌/◌, ◌%◌, ◌^◌, ◌<◌, not, ◌==◌, bit_and, ◌≡◌, test_bit, arith}
use little.Base.Bits.{bit_and_low_bits, bit_and_pow, place_up, div_pow-suc}
use little.Base.Digits.{bit_and_step}
use little.Walker.{has, walk_is_leaf, walk_reserved}

pub has-bit0 : (pte : ℕ) → has pte 1 ≡ test_bit pte 0
has-bit0 pte = ground (arith, bit_and_pow 0 pte)

pub has-bit1 : (pte : ℕ) → has pte 2 ≡ test_bit pte 1
has-bit1 pte = ground (arith, bit_and_pow 1 pte)

pub has-bit2 : (pte : ℕ) → has pte 4 ≡ test_bit pte 2
has-bit2 pte = ground (arith, bit_and_pow 2 pte)

pub has-bit3 : (pte : ℕ) → has pte 8 ≡ test_bit pte 3
has-bit3 pte = ground (arith, bit_and_pow 3 pte)

pub has-bit4 : (pte : ℕ) → has pte 16 ≡ test_bit pte 4
has-bit4 pte = ground (arith, bit_and_pow 4 pte)

-- A page has one of the three permissions.
pub walk_is_leaf-bits : (pte : ℕ) → walk_is_leaf pte ≡ not (pte / 2 % 8 == 0)
walk_is_leaf-bits pte = ground (arith, bit_and_step pte 14, bit_and_low_bits 3 (pte / 2))

-- The mask of the bits from `k` up.
bit_and_shifted : (k a m : ℕ) → bit_and a (m * 2 ^ k) ≡ bit_and (a / 2 ^ k) m * 2 ^ k
bit_and_shifted zero a m = ground arith
bit_and_shifted (suc k) a m = ground (
  arith,
  bit_and_step a (m * 2 ^ suc k),
  place_up m k,
  bit_and_shifted k (a / 2) m,
  div_pow-suc k a,
  place_up (bit_and (a / 2 / 2 ^ k) m) k,
)

pub walk_reserved-bits : (pte : ℕ) → pte < 2 ^ 64 → walk_reserved pte ≡ not (pte / 2 ^ 54 == 0)
walk_reserved-bits pte fits =
    ground (arith, bit_and_shifted 54 pte 1023, bit_and_low_bits 10 (pte / 2 ^ 54))
