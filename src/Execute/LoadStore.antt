-- ===== src/Execute/LoadStore.antt =====
-- Loads, stores, moves and jumps of the execute stage, hdl/little64_cores/v3/execute_stage.py: the
-- form with a base register, and the form relative to the program counter.
use little.Base.{ℕ, ◌+◌, ◌%◌, ◌^◌, true, ◌&&◌, ◌==◌, if◌then◌else◌}
use little.Execute.Signals.{
  ExecuteInputs, ExecuteOutputs, post_increment_pc, ls_rd_value, ls_rs1_value, ls_addr,
  ls_pc_effective, ls_jump_target, minus_eight, load_width, store_width, defaults,
}
use little.Fields.{instruction_rd, instruction_rs1, ls_condition}
use little.Isa.{
  LsOpcode, load, store, push, pop, move, byte_load, byte_store, short_load, short_store, word_load,
  word_store, jump_z, jump_c, jump_s, jump_gt, jump_lt,
}

-- One function for each branch of the two switches; a branch serves the opcodes that the source
-- lists for it.
load_from : ℕ → LsOpcode → ExecuteInputs → ExecuteOutputs
load_from addr op i = record (defaults i) {
  memory_start = true;
  memory_addr = addr;
  memory_width_bytes = load_width op;
  memory_reg_write = true;
  memory_reg_index = instruction_rd i.instruction;
}

store_to : ℕ → ℕ → LsOpcode → ExecuteInputs → ExecuteOutputs
store_to addr value op i = record (defaults i) {
  memory_start = true;
  memory_addr = addr;
  memory_width_bytes = store_width op;
  memory_write = true;
  memory_store_value = value;
}

move_to : ℕ → ExecuteInputs → ExecuteOutputs
move_to value i = record (defaults i) {
  reg_write = true;
  reg_value = value;
  next_pc = if instruction_rd i.instruction == 15 then value else post_increment_pc i;
}

-- A conditional move, which into register 15 is a jump.
jump_move : LsOpcode → ExecuteInputs → ExecuteOutputs
jump_move op i =
    let taken = ls_condition i.flags op in
    record (defaults i) {
      reg_write = taken;
      reg_value = ls_addr i;
      next_pc =
          if taken && (instruction_rd i.instruction == 15) then ls_addr i else post_increment_pc i;
    }

-- The base register form, bits 15 and 14 being 00.
unfoldable pub execute_ls_reg : LsOpcode → ExecuteInputs → ExecuteOutputs
unfolding load_from store_to move_to jump_move
execute_ls_reg load i = load_from (ls_addr i) load i
execute_ls_reg byte_load i = load_from (ls_addr i) byte_load i
execute_ls_reg short_load i = load_from (ls_addr i) short_load i
execute_ls_reg word_load i = load_from (ls_addr i) word_load i
execute_ls_reg store i = store_to (ls_addr i) (ls_rd_value i) store i
execute_ls_reg byte_store i = store_to (ls_addr i) (ls_rd_value i) byte_store i
execute_ls_reg short_store i = store_to (ls_addr i) (ls_rd_value i) short_store i
execute_ls_reg word_store i = store_to (ls_addr i) (ls_rd_value i) word_store i
execute_ls_reg push i = record (defaults i) {
  memory_start = true;
  memory_addr = minus_eight (ls_rd_value i);
  memory_width_bytes = 8;
  memory_write = true;
  memory_store_value = ls_rs1_value i;
  memory_post_reg_write = true;
  memory_post_reg_index = instruction_rd i.instruction;
  memory_post_reg_value = minus_eight (ls_rd_value i);
}
execute_ls_reg pop i = record (defaults i) {
  memory_start = true;
  memory_addr = ls_rd_value i;
  memory_width_bytes = 8;
  memory_reg_write = true;
  memory_reg_index = instruction_rs1 i.instruction;
  memory_post_reg_write = true;
  memory_post_reg_index = instruction_rd i.instruction;
  memory_post_reg_value = (ls_rd_value i + 8) % 2 ^ 64;
  memory_post_reg_delta = 8;
  memory_post_reg_use_load_result = instruction_rd i.instruction == instruction_rs1 i.instruction;
}
execute_ls_reg move i = move_to (ls_addr i) i
execute_ls_reg jump_z i = jump_move jump_z i
execute_ls_reg jump_c i = jump_move jump_c i
execute_ls_reg jump_s i = jump_move jump_s i
execute_ls_reg jump_gt i = jump_move jump_gt i
execute_ls_reg jump_lt i = jump_move jump_lt i

jump_rel : LsOpcode → ExecuteInputs → ExecuteOutputs
jump_rel op i = record (defaults i) {
  next_pc = if ls_condition i.flags op then ls_jump_target i else post_increment_pc i;
}

-- The form relative to the program counter, bits 15 and 14 being 01. Its push reads the word at the
-- address given and stores it below the stack pointer; its pop does the reverse.
unfoldable pub execute_ls_pc : LsOpcode → ExecuteInputs → ExecuteOutputs
unfolding load_from store_to move_to jump_rel
execute_ls_pc load i = load_from (ls_pc_effective i) load i
execute_ls_pc byte_load i = load_from (ls_pc_effective i) byte_load i
execute_ls_pc short_load i = load_from (ls_pc_effective i) short_load i
execute_ls_pc word_load i = load_from (ls_pc_effective i) word_load i
execute_ls_pc store i = store_to (ls_pc_effective i) i.operand_a store i
execute_ls_pc byte_store i = store_to (ls_pc_effective i) i.operand_a byte_store i
execute_ls_pc short_store i = store_to (ls_pc_effective i) i.operand_a short_store i
execute_ls_pc word_store i = store_to (ls_pc_effective i) i.operand_a word_store i
execute_ls_pc push i = record (defaults i) {
  memory_start = true;
  memory_addr = ls_pc_effective i;
  memory_width_bytes = 8;
  memory_post_reg_write = true;
  memory_post_reg_index = instruction_rd i.instruction;
  memory_post_reg_value = minus_eight i.operand_a;
  memory_chain_store = true;
  memory_chain_store_addr = minus_eight i.operand_a;
  memory_chain_store_use_load_result = true;
}
execute_ls_pc pop i = record (defaults i) {
  memory_start = true;
  memory_addr = i.operand_a;
  memory_width_bytes = 8;
  memory_post_reg_write = true;
  memory_post_reg_index = instruction_rd i.instruction;
  memory_post_reg_value = (i.operand_a + 8) % 2 ^ 64;
  memory_chain_store = true;
  memory_chain_store_addr = ls_pc_effective i;
  memory_chain_store_use_load_result = true;
}
execute_ls_pc move i = move_to (ls_pc_effective i) i
execute_ls_pc jump_z i = jump_rel jump_z i
execute_ls_pc jump_c i = jump_rel jump_c i
execute_ls_pc jump_s i = jump_rel jump_s i
execute_ls_pc jump_gt i = jump_rel jump_gt i
execute_ls_pc jump_lt i = jump_rel jump_lt i
