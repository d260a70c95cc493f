-- ===== src/Base/Digits.antt =====
-- One binary digit of `&` and `|` at a time. The operations recurse with the first number as fuel,
-- which is more than they need.
use Prim.Native.Nat.{
  ℕ, zero, suc, ◌+◌, ◌-◌, ◌*◌, ◌/◌, ◌%◌, ◌≤◌, min, max, bit_and, bit_or, digits, bitwise,
  bit_and-bitwise, bit_or-bitwise,
}
use mathlib.Core.Path.{◌≡◌, refl, ap, ◌∙◌}
use native.Mathlib.Nat.{le_refl}
use native.Mathlib.Numerals.{unary_clauses}
use native.Mathlib.Omega.{arith}

module _ (tail : ℕ → ℕ) (op : ℕ → ℕ → ℕ) where
  one_more : (n x y : ℕ) → x ≤ n → digits tail op (suc n) x y ≡ digits tail op n x y
  one_more n zero y enough = unused n
    where
      unused : (n : ℕ) → digits tail op (suc n) 0 y ≡ digits tail op n 0 y
      unused zero = refl
      unused (suc n) = refl
  one_more zero (suc x) y enough = absurd (omega arith)
  one_more (suc n) (suc x) y enough =
      ap (λ (t : ℕ). t * 2 + op (suc x % 2) (y % 2)) (one_more n (suc x / 2) (y / 2) (omega arith))

  spare : (n k x y : ℕ) → x ≤ n → digits tail op (n + k) x y ≡ digits tail op n x y
  spare n zero x y enough = simp unary_clauses refl
  spare n (suc k) x y enough =
      simp unary_clauses (one_more (n + k) x y (omega arith) ∙ spare n k x y enough)

  half_and_rest : (x : ℕ) → x ≡ suc x / 2 + (x - suc x / 2)
  half_and_rest x = omega arith

  lowest_digit :
      (x y : ℕ)
      → bitwise tail op (suc x) y ≡ bitwise tail op (suc x / 2) (y / 2) * 2 + op (suc x % 2) (y % 2)
  lowest_digit x y =
      ap (λ (t : ℕ). t * 2 + op (suc x % 2) (y % 2))
        (ap (λ (n : ℕ). digits tail op n (suc x / 2) (y / 2)) (half_and_rest x)
          ∙ spare (suc x / 2) (x - suc x / 2) (suc x / 2) (y / 2) (le_refl _))

pub bit_or_step : (x y : ℕ) → bit_or x y ≡ max (x % 2) (y % 2) + 2 * bit_or (x / 2) (y / 2)
bit_or_step (suc x) y = simp bit_or-bitwise (omega (arith, lowest_digit (λ b. b) max x y))
bit_or_step zero y = simp bit_or-bitwise (omega arith)

pub bit_and_step : (x y : ℕ) → bit_and x y ≡ min (x % 2) (y % 2) + 2 * bit_and (x / 2) (y / 2)
bit_and_step (suc x) y = simp bit_and-bitwise (omega (arith, lowest_digit (λ b. 0) min x y))
bit_and_step zero y = simp bit_and-bitwise (omega arith)
