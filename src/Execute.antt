-- ===== src/Execute.antt =====
-- The execute stage, hdl/little64_cores/v3/execute_stage.py: what an instruction does, from its word,
-- its operands and the control state. The children hold the signals and the groups of instructions.
mod Signals
mod LoadStore
mod General
pub use Signals.{ExecuteInputs, ExecuteOutputs}
pub use Signals.{post_increment_pc, ls_rd_value, ls_rs1_value, ls_addr, jump_rel10, jump_rel13}
pub use Signals.{ls_pc_effective, ls_jump_target, minus_eight, sum_value, sub_value, is_user}
pub use Signals.{is_ssr, sign_extended_ldi, load_width, store_width, special_selector, defaults}
pub use General.{alu, trap_with, with_zero_flag}
unfoldable pub use Signals.{ldi_value, special_write_stb}
unfoldable pub use LoadStore.{execute_ls_reg, execute_ls_pc}
unfoldable pub use General.{execute_gp}
use little.Base.{ℕ, ◌+◌, ◌%◌, ◌^◌, Bool, true, ◌==◌, if◌then◌else◌}
use little.Fields.{instruction_top2, instruction_top3, instruction_ls_opcode, instruction_gp_opcode}
use little.Isa.{to_ls, to_gp, invalid_instruction}

-- The jump relative to the program counter that is always taken.
abbrev pub ujmp : ExecuteInputs → ExecuteOutputs
ujmp i = record (defaults i) { next_pc = (post_increment_pc i + jump_rel13 i.instruction) % 2 ^ 64 }

abbrev pub ldi : ExecuteInputs → ExecuteOutputs
ldi i = record (defaults i) { reg_write = true; reg_value = ldi_value i.instruction i.operand_a }

unfoldable pub execute : ExecuteInputs → ExecuteOutputs
execute i =
    if i.valid
    then (if instruction_top2 i.instruction == 2
        then ldi i
        else if instruction_top2 i.instruction == 0
        then execute_ls_reg (to_ls (instruction_ls_opcode i.instruction)) i
        else if instruction_top2 i.instruction == 1
        then execute_ls_pc (to_ls (instruction_ls_opcode i.instruction)) i
        else if instruction_top3 i.instruction == 7
        then ujmp i
        else if instruction_top3 i.instruction == 6
        then execute_gp (to_gp (instruction_gp_opcode i.instruction)) i
        else trap_with invalid_instruction i)
    else defaults i
