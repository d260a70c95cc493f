-- ===== src/Shift/Right.antt =====
-- The shifters to the right against division.
use little.Base.{ℕ, ◌/◌, ◌^◌, ◌<◌, ◌≤◌, leb, ◌≡◌, sym, arith, Bool-cases, inl, inr}
use native.Mathlib.Nat.{div-eq_of_lt, pow-le-pow_right}
use little.Shift.{shift_index, srl_result, srli_result}

above : (a b : ℕ) → a < 2 ^ 64 → 64 ≤ b → a < 2 ^ b
above a b h l = omega (arith, pow-le-pow_right {n = 2} (omega arith) l)

-- SRL and SRLI: the quotient by the power of two, for every amount.
srl-quotient :
    (a b : ℕ)
    → a < 2 ^ 64
    → (srl_result a (shift_index b) ≡ a / 2 ^ b) × (srli_result a b ≡ a / 2 ^ b)
unfolding srl_result srli_result
srl-quotient a b h = elim (Bool-cases (leb 64 b)) [
  | inl l ↦
      (simp l (sym (div-eq_of_lt {n = a} {m = 2 ^ b} (above a b h (ground arith)))), ground arith)
  | inr m ↦ (ground arith, ground arith)
]
