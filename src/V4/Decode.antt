-- ===== src/V4/Decode.antt =====
-- The decode stage of the v4 core, hdl/little64_cores/v4/decode_stage.py: the bypasses and hazards of
-- v3, whose chains of multiplexers stand in both files, and a branch predictor. With it the test of
-- the v4 core, hdl/little64_cores/v4/core.py, that compares the prediction with what execute computes.
pub mod Steering
use little.Base.{ℕ, Bool, not, ◌&&◌, ◌||◌, ◌==◌, if◌then◌else◌}
use little.Decode.{operand, current_flags, hazard}
use little.Decode
use little.Execute.{ExecuteOutputs}
use little.Fields.{instruction_rd, instruction_rs1}
use little.Predictor.{Prediction}

-- The wires of the v3 stage, and the addresses of the instruction and of the one after it.
pub record Inputs : Type 0 where
  pub base : Decode.Inputs
  pub pc : ℕ
  pub post_increment_pc : ℕ

pub record Outputs : Type 0 where
  pub operand_a : ℕ
  pub operand_b : ℕ
  pub flags : ℕ
  pub load_use_hazard : Bool
  pub predicted_next_pc : ℕ
  pub predict_redirect : Bool

-- The stage with a predictor, a function of the instruction and its address.
unfoldable pub decode : (ℕ → ℕ → Prediction) → Inputs → Outputs
decode predictor i =
    let prediction = predictor i.base.instruction i.pc in
    record {
      operand_a = operand i.base (instruction_rd i.base.instruction);
      operand_b = operand i.base (instruction_rs1 i.base.instruction);
      flags = current_flags i.base;
      load_use_hazard =
          hazard i.base.instruction i.base.pending_load_execute
          || hazard i.base.instruction i.base.pending_load_memory
          || hazard i.base.instruction i.base.pending_write_execute
          || hazard i.base.instruction i.base.pending_write_memory;
      predicted_next_pc = prediction.predicted_next_pc;
      predict_redirect =
          prediction.is_branch && not (prediction.predicted_next_pc == i.post_increment_pc);
    }

-- Where the core fetches after an instruction that leaves the stage: the prediction on a redirect,
-- and else the next instruction in line.
unfoldable pub fetched_next_pc : (ℕ → ℕ → Prediction) → Inputs → ℕ
fetched_next_pc predictor i =
    if (decode predictor i).predict_redirect
    then (decode predictor i).predicted_next_pc
    else i.post_increment_pc

-- The instruction in the execute stage, `valid`, goes elsewhere than the latch `predicted` says.
unfoldable pub execute_mispredict : Bool → Bool → ExecuteOutputs → ℕ → Bool
execute_mispredict valid memory_redirect o predicted =
    valid
    && not o.halt
    && not o.lockup
    && not o.trap
    && not memory_redirect
    && not (o.next_pc == predicted)
