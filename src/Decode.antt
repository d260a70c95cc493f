-- ===== src/Decode.antt =====
-- The decode stage of hdl/little64_cores/v3/decode_stage.py: the register operands with their
-- bypasses from the younger stages, and the hazards that hold an instruction back.
pub mod Bypass
use little.Base.{ℕ, Bool, not, ◌&&◌, ◌||◌, ◌==◌, if◌then◌else◌}
use little.Fields.{instruction_rd, instruction_rs1}
use little.Retire.{RetireEntry}

-- A result that the execute stage or the memory stage has still to produce.
pub record Pending : Type 0 where
  pub valid : Bool
  pub index : ℕ

-- The wires of the stage. `execute`, `memory_final` and `retire` are the results of the three older
-- instructions, of which the stage reads the register and flag fields.
pub record Inputs : Type 0 where
  pub regs : ℕ → ℕ
  pub arch_flags : ℕ
  pub instruction : ℕ
  pub execute : RetireEntry
  pub memory_final : RetireEntry
  pub retire : RetireEntry
  pub pending_load_execute : Pending
  pub pending_load_memory : Pending
  pub pending_write_execute : Pending
  pub pending_write_memory : Pending

pub record DecodedOperands : Type 0 where
  pub operand_a : ℕ
  pub operand_b : ℕ
  pub flags : ℕ

-- The value of a register, from the youngest result that writes it. The execute stage has no
-- auxiliary write.
unfoldable pub operand : Inputs → ℕ → ℕ
operand i index =
    if index == 0
    then 0
    else if i.execute.valid && i.execute.reg_write && (i.execute.reg_index == index)
    then i.execute.reg_value
    else if i.memory_final.valid && i.memory_final.reg_write && (i.memory_final.reg_index == index)
    then i.memory_final.reg_value
    else if i.memory_final.valid
        && i.memory_final.aux_reg_write
        && (i.memory_final.aux_reg_index == index)
    then i.memory_final.aux_reg_value
    else if i.retire.valid && i.retire.reg_write && (i.retire.reg_index == index)
    then i.retire.reg_value
    else if i.retire.valid && i.retire.aux_reg_write && (i.retire.aux_reg_index == index)
    then i.retire.aux_reg_value
    else i.regs index

unfoldable pub current_flags : Inputs → ℕ
current_flags i =
    if i.execute.valid && i.execute.flags_write
    then i.execute.flags_value
    else if i.memory_final.valid && i.memory_final.flags_write
    then i.memory_final.flags_value
    else if i.retire.valid && i.retire.flags_write
    then i.retire.flags_value
    else i.arch_flags

unfoldable pub operands : Inputs → DecodedOperands
operands i = record {
  operand_a = operand i (instruction_rd i.instruction);
  operand_b = operand i (instruction_rs1 i.instruction);
  flags = current_flags i;
}

-- A pending result that the instruction reads.
unfoldable pub hazard : ℕ → Pending → Bool
hazard instruction p =
    p.valid
    && not (p.index == 0)
    && ((p.index == instruction_rd instruction) || (p.index == instruction_rs1 instruction))

unfoldable pub load_use_hazard : Inputs → Bool
load_use_hazard i =
    hazard i.instruction i.pending_load_execute
    || hazard i.instruction i.pending_load_memory
    || hazard i.instruction i.pending_write_execute
    || hazard i.instruction i.pending_write_memory
