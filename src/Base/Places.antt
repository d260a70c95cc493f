-- ===== src/Base/Places.antt =====
-- The single bits of a number: of the results of `&`, `|`, a multiple of a power of two and a
-- remainder.
use Prim.Native.Nat.{ℕ, zero, suc, ◌*◌, ◌/◌, ◌%◌, ◌^◌, ◌-◌, bit_and, bit_or}
use mathlib.Core.Path.{◌≡◌, sym, ap, ◌∙◌}
use mathlib.Core.Bool.{◌&&◌, ◌||◌}
use native.Mathlib.Omega.{arith}
use little.Base.Tests.{test_bit}
use little.Base.Digits.{bit_and_step, bit_or_step}
use little.Base.Bits.{bit_and_low_bits, div_pow-suc}

test_bit-suc : (x k : ℕ) → test_bit x (suc k) ≡ test_bit (x / 2) k
test_bit-suc x k = ground (arith, div_pow-suc k x)

pub test_bit-bit_and : (k x y : ℕ) → test_bit (bit_and x y) k ≡ (test_bit x k && test_bit y k)
test_bit-bit_and zero x y = ground (arith, bit_and_step x y)
test_bit-bit_and (suc k) x y =
    let half : bit_and x y / 2 ≡ bit_and (x / 2) (y / 2) = omega (arith, bit_and_step x y) in
    rw (test_bit-suc (bit_and x y) k, test_bit-suc x k, test_bit-suc y k, half)
      (test_bit-bit_and k (x / 2) (y / 2))

pub test_bit-bit_or : (k x y : ℕ) → test_bit (bit_or x y) k ≡ (test_bit x k || test_bit y k)
test_bit-bit_or zero x y = ground (arith, bit_or_step x y)
test_bit-bit_or (suc k) x y =
    let half : bit_or x y / 2 ≡ bit_or (x / 2) (y / 2) = omega (arith, bit_or_step x y) in
    rw (test_bit-suc (bit_or x y) k, test_bit-suc x k, test_bit-suc y k, half)
      (test_bit-bit_or k (x / 2) (y / 2))

pub test_bit-word : (k x : ℕ) → test_bit (x % 2 ^ 64) k ≡ (test_bit x k && test_bit (2 ^ 64 - 1) k)
test_bit-word k x =
    ap (λ (y : ℕ). test_bit y k) (sym (bit_and_low_bits 64 x)) ∙ test_bit-bit_and k x (2 ^ 64 - 1)

pub test_bit-times_four : (x k : ℕ) → test_bit (x * 2 ^ 2) (suc (suc k)) ≡ test_bit x k
test_bit-times_four x k =
    test_bit-suc (x * 2 ^ 2) (suc k)
    ∙ test_bit-suc (x * 2 ^ 2 / 2) k
    ∙ ap (λ (y : ℕ). test_bit y k) (omega arith)
