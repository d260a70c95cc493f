-- ===== src/Instructions/Compare.antt =====
-- A comparison by TEST followed by a conditional jump.
use little.Base.{ℕ, ◌+◌, ◌%◌, ◌^◌, ◌<◌, ◌≤◌, Bool, not, ◌&&◌, ltb, ◌==◌, some, ◌≡◌, ◌∙◌, arith}
use mathlib.Core.Path.{ap₂}
use little.Execute.{ExecuteInputs, sub_value, execute_gp}
use little.Fields.{ls_condition}
use little.Instructions.Arithmetic.{flag_value_bits, sign_bit}
use little.Isa.{test, jump_z, jump_c, jump_gt, jump_lt}

-- A signed word as a number: its order is that of the words as signed integers.
abbrev pub biased : ℕ → ℕ
biased a = (a + 2 ^ 63) % 2 ^ 64

-- After TEST, JUMP_Z is taken if the operands are equal, and JUMP_C if the first is smaller without
-- a sign.
pub test_jump_unsigned :
    (i : ExecuteInputs)
    → i.operand_a < 2 ^ 64
    → i.operand_b < 2 ^ 64
    → (ls_condition (execute_gp (some test) i).flags_value jump_z ≡ (i.operand_a == i.operand_b))
      × (ls_condition (execute_gp (some test) i).flags_value jump_c ≡ ltb i.operand_a i.operand_b)
unfolding execute_gp ls_condition
test_jump_unsigned i a b =
    let (z, c, s) = flag_value_bits (sub_value i) (ltb i.operand_a i.operand_b) in
    (z ∙ ground arith, c)

-- After TEST, where the signed difference fits 64 bits, JUMP_LT is taken if the first operand is the
-- smaller signed number, and JUMP_GT if it is the greater.
pub test_jump_signed :
    (i : ExecuteInputs)
    → i.operand_a < 2 ^ 64
    → i.operand_b < 2 ^ 64
    → biased i.operand_a < biased i.operand_b + 2 ^ 63
    → biased i.operand_b ≤ biased i.operand_a + 2 ^ 63
    → (ls_condition (execute_gp (some test) i).flags_value jump_lt
        ≡ ltb (biased i.operand_a) (biased i.operand_b))
      × (ls_condition (execute_gp (some test) i).flags_value jump_gt
          ≡ ltb (biased i.operand_b) (biased i.operand_a))
unfolding execute_gp ls_condition
test_jump_signed i a b hi lo =
    let (z, c, s) = flag_value_bits (sub_value i) (ltb i.operand_a i.operand_b) in
    let sign = s ∙ sign_bit (sub_value i) (omega arith) in
    (sign ∙ ground arith, ap₂ (λ (x y : Bool). not x && not y) z sign ∙ ground arith)
