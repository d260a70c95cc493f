-- ===== src/Shift/Results.antt =====
-- The shifters against multiplication and division.
use little.Base.{
  ℕ, zero, suc, ◌+◌, ◌-◌, ◌*◌, ◌/◌, ◌%◌, ◌^◌, ◌≤◌, ◌<◌, not, ◌&&◌, ltb, leb, ◌==◌, if◌then◌else◌,
  ◌≡◌, sym, ap, ◌∙◌, arith, Bool-cases, inl, inr,
}
use native.Mathlib.Nat.{
  pow-suc, one-le-pow, zero-add, suc-add, mul-le-mul_right, mul-lt-mul_of_pos_right, div-eq_of_lt,
}
use little.Shift.{shift_index, sll_result, sll_carry}

pow-add : (m n : ℕ) → 2 ^ (m + n) ≡ 2 ^ m * 2 ^ n
pow-add zero n = rw zero-add (omega arith)
pow-add (suc m) n = rw suc-add (
    omega (
      arith,
      pow-suc 2 (m + n),
      ap (λ (t : ℕ). 2 * t) (pow-add m n),
      ap (λ (t : ℕ). t * 2 ^ n) (pow-suc 2 m),
    ))

rest : (b : ℕ) → b < 64 → 64 - b + b ≡ 64
rest b h = omega arith

two_parts : (b : ℕ) → b < 64 → 2 ^ (64 - b) * 2 ^ b ≡ 2 ^ 64
two_parts b h = sym (pow-add (64 - b) b) ∙ rw (rest b h)

div_pos_of_le : (a p : ℕ) → p ≤ a → 0 < p → 0 < a / p
div_pos_of_le a p l h = grind arith

-- Bits lie above a place exactly if the number reaches it.
reaches : (a p q : ℕ) → 0 < p → 0 < q → not (a / p == 0) ≡ leb (p * q) (a * q)
reaches a p q h k = elim (Bool-cases (leb p a)) [
  | inl l ↦
      ground (
        arith,
        mul-le-mul_right {m = p} {n = a} q (ground arith),
        div_pos_of_le a p (ground arith) h,
      )
  | inr l ↦ ground (
    arith,
    div-eq_of_lt {n = a} {m = p} (ground arith),
    mul-lt-mul_of_pos_right {m = a} {n = p} {k = q} (ground arith) k,
  )
]

sll_below :
    (a b : ℕ)
    → a < 2 ^ 64
    → b < 64
    → (sll_result a b ≡ a * 2 ^ b % 2 ^ 64) × (sll_carry a b ≡ leb (2 ^ 64) (a * 2 ^ b))
unfolding sll_result sll_carry
sll_below a zero h l = (omega arith, ground arith)
sll_below a (suc b) h l = (
  ground arith,
  rw (← two_parts (suc b) l) (
      ground (
        arith,
        reaches a (2 ^ (64 - suc b)) (2 ^ suc b) (one-le-pow (64 - suc b) 2 (omega arith))
            (one-le-pow (suc b) 2 (omega arith)),
      )),
)

-- SLL: the product with the power of two in 64 bits, and 0 from the amount 64 on. Its carry says that
-- bits were lost, but only for amounts below 64.
pub sll-product :
    (a b : ℕ)
    → a < 2 ^ 64
    → (sll_result a (shift_index b) ≡ (if ltb b 64 then a * 2 ^ b % 2 ^ 64 else 0))
      × (sll_carry a (shift_index b) ≡ (ltb b 64 && leb (2 ^ 64) (a * 2 ^ b)))
unfolding sll_result sll_carry
sll-product a b h = elim (Bool-cases (ltb b 64)) [
  | inl l ↦ ground (arith, sll_below a b h)
  | inr m ↦ ground arith
]
