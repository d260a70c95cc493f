-- ===== src/Execute/General.antt =====
-- The general instructions of the execute stage, hdl/little64_cores/v3/execute_stage.py: arithmetic,
-- shifts, reservations, special registers, system calls and returns.
use little.Base.{
  ℕ, ◌+◌, ◌*◌, Bool, true, false, ◌&&◌, ltb, ◌==◌, if◌then◌else◌, slice, bit_and, bit_or, bit_xor,
  test_bit, Option, some, none,
}
use little.Execute.Signals.{ExecuteInputs, ExecuteOutputs, sum_value, sub_value, is_user, defaults}
use little.Fields.{instruction_gp_imm4, instruction_rd, flag_value}
use little.Isa.{
  GpOpcode, add, sub, test, llr, scr, and, or, xor, sll, srl, sra, slli, srli, srai, syscall, lsr,
  ssr, iret, stop, privileged_instruction, syscall_trap, syscall_from_supervisor,
  invalid_instruction,
}
use little.Shift.{
  shift_index, sll_result, sll_carry, srl_result, srl_carry, sra_result, sra_carry, slli_result,
  slli_carry, srli_result, srai_result, srx_carry,
}

-- An arithmetic instruction writes its register, and the flags of the result.
abbrev pub alu : ℕ → Bool → ExecuteInputs → ExecuteOutputs
alu value carry i = record (defaults i) {
  reg_write = true;
  reg_value = value;
  flags_write = true;
  flags_value = flag_value value carry;
}

abbrev pub trap_with : ℕ → ExecuteInputs → ExecuteOutputs
trap_with cause i = record (defaults i) { trap = true; trap_cause = cause }

abbrev reserved : ExecuteInputs → Bool
reserved i = i.ll_reservation_valid && (i.ll_reservation_addr == i.operand_b)

-- `Cat(z, flags[1:3])`.
abbrev pub with_zero_flag : ℕ → ℕ → ℕ
with_zero_flag z flags = z + slice flags 1 3 * 2

unfoldable pub execute_gp : Option GpOpcode → ExecuteInputs → ExecuteOutputs
execute_gp (some add) i = alu (slice (sum_value i) 0 64) (test_bit (sum_value i) 64) i
execute_gp (some sub) i = alu (sub_value i) (ltb i.operand_a i.operand_b) i
execute_gp (some test) i = record (defaults i) {
  flags_write = true;
  flags_value = flag_value (sub_value i) (ltb i.operand_a i.operand_b);
}
execute_gp (some and) i = alu (bit_and i.operand_a i.operand_b) false i
execute_gp (some or) i = alu (bit_or i.operand_a i.operand_b) false i
execute_gp (some xor) i = alu (bit_xor i.operand_a i.operand_b) false i
execute_gp (some sll) i =
    alu (sll_result i.operand_a (shift_index i.operand_b))
      (sll_carry i.operand_a (shift_index i.operand_b)) i
execute_gp (some srl) i =
    alu (srl_result i.operand_a (shift_index i.operand_b))
      (srl_carry i.operand_a (shift_index i.operand_b)) i
execute_gp (some sra) i =
    alu (sra_result i.operand_a (shift_index i.operand_b))
      (sra_carry i.operand_a (shift_index i.operand_b)) i
execute_gp (some slli) i =
    alu (slli_result i.operand_a (instruction_gp_imm4 i.instruction))
      (slli_carry i.operand_a (instruction_gp_imm4 i.instruction)) i
execute_gp (some srli) i =
    alu (srli_result i.operand_a (instruction_gp_imm4 i.instruction))
      (srx_carry i.operand_a (instruction_gp_imm4 i.instruction)) i
execute_gp (some srai) i =
    alu (srai_result i.operand_a (instruction_gp_imm4 i.instruction))
      (srx_carry i.operand_a (instruction_gp_imm4 i.instruction)) i
execute_gp (some lsr) i =
    if i.special_read_access_fault
    then trap_with privileged_instruction i
    else record (defaults i) { reg_write = true; reg_value = i.special_read_data }
execute_gp (some llr) i = record (defaults i) {
  memory_start = true;
  memory_addr = i.operand_b;
  memory_width_bytes = 8;
  memory_reg_write = true;
  memory_reg_index = instruction_rd i.instruction;
  memory_set_reservation = true;
  memory_reservation_addr = i.operand_b;
}
execute_gp (some scr) i =
    if reserved i
    then record (defaults i) {
      memory_start = true;
      memory_addr = i.operand_b;
      memory_width_bytes = 8;
      memory_write = true;
      memory_store_value = i.operand_a;
      memory_flags_write = true;
      memory_flags_value = with_zero_flag 1 i.flags;
    }
    else record (defaults i) {
      flags_write = true;
      flags_value = with_zero_flag 0 i.flags;
      clear_reservation = true;
    }
execute_gp (some ssr) i =
    if i.special_write_access_fault then trap_with privileged_instruction i else defaults i
execute_gp (some syscall) i =
    trap_with (if is_user i then syscall_trap else syscall_from_supervisor) i
execute_gp (some iret) i =
    if is_user i then trap_with privileged_instruction i else record (defaults i) {
      flags_write = true;
      flags_value = slice i.interrupt_eflags 0 3;
      cpu_control_write = true;
      cpu_control_value = i.interrupt_cpu_control;
      next_pc = i.interrupt_epc;
    }
execute_gp (some stop) i =
    if is_user i then trap_with privileged_instruction i else record (defaults i) { halt = true }
execute_gp none i = trap_with invalid_instruction i
