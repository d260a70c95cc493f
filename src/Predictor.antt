-- ===== src/Predictor.antt =====
-- The static branch predictors of hdl/little64_cores/v4/predictor.py.
pub mod Targets
use little.Base.{
  ℕ, ◌+◌, ◌*◌, ◌%◌, ◌^◌, Bool, not, ◌&&◌, ◌||◌, ◌==◌, if◌then◌else◌, ltb, slice, test_bit,
}
use little.Isa.{ls_value, jump_z}
use little.Fields.{instruction_top2, instruction_top3, instruction_ls_opcode, sign_extend}

pub record Prediction : Type 0 where
  pub is_branch : Bool
  pub predicted_next_pc : ℕ

-- `(top2 == 0b01) & (ls_opcode >= LSOpcode.JUMP_Z)`.
abbrev pub is_pc_rel_cond_branch : ℕ → Bool
is_pc_rel_cond_branch instruction =
    (instruction_top2 instruction == 1)
    && not (ltb (instruction_ls_opcode instruction) (ls_value jump_z))

-- `top3 == 0b111`.
abbrev pub is_ujmp : ℕ → Bool
is_ujmp instruction = instruction_top3 instruction == 7

-- The policy of Little64V4StaticNotTakenPredictor.
unfoldable pub not_taken : ℕ → ℕ → Prediction
not_taken instruction pc = record {
  is_branch = is_pc_rel_cond_branch instruction || is_ujmp instruction;
  predicted_next_pc = (pc + 2) % 2 ^ 64;
}

-- The policy of Little64V4StaticBackwardTakenPredictor.
unfoldable pub backward_taken : ℕ → ℕ → Prediction
backward_taken instruction pc =
    let post_increment_pc = (pc + 2) % 2 ^ 64 in
    let jump_rel10 = sign_extend (slice instruction 0 10) 10 64 * 2 % 2 ^ 64 in
    let cond_branch_target = (post_increment_pc + jump_rel10) % 2 ^ 64 in
    let jump_rel13 = sign_extend (slice instruction 0 13) 13 64 * 2 % 2 ^ 64 in
    let ujmp_target = (post_increment_pc + jump_rel13) % 2 ^ 64 in
    record {
      is_branch = is_pc_rel_cond_branch instruction || is_ujmp instruction;
      predicted_next_pc =
          if is_ujmp instruction
          then ujmp_target
          else if is_pc_rel_cond_branch instruction && test_bit instruction 9
          then cond_branch_target
          else post_increment_pc;
    }
