-- ===== src/Execute/Signals.antt =====
-- The inputs and outputs of the execute stage, hdl/little64_cores/v3/execute_stage.py and
-- V3ExecuteOutputs of hdl/little64_cores/v3/bundles.py, and the values that it computes for every
-- instruction.
use little.Base.{
  ℕ, ◌+◌, ◌-◌, ◌*◌, ◌%◌, ◌^◌, Bool, true, false, ◌&&◌, ◌==◌, if◌then◌else◌, slice, bit_and, bit_or,
  not, Option, some,
}
use little.Isa.{
  LsOpcode, GpOpcode, byte_load, short_load, word_load, byte_store, short_store, word_store, ssr,
  to_gp, cpu_control_user_mode,
}
use little.Fields.{
  instruction_rd, instruction_rs1, instruction_ldi_imm8, instruction_ldi_shift,
  instruction_ls_offset2, instruction_gp_opcode, instruction_top3, sign_extend,
}

pub record ExecuteInputs : Type 0 where
  pub valid : Bool
  pub instruction : ℕ
  pub pc : ℕ
  pub pre_post_increment_pc : ℕ
  pub operand_a : ℕ
  pub operand_b : ℕ
  pub flags : ℕ
  pub cpu_control : ℕ
  pub interrupt_epc : ℕ
  pub interrupt_eflags : ℕ
  pub interrupt_cpu_control : ℕ
  pub ll_reservation_valid : Bool
  pub ll_reservation_addr : ℕ
  pub special_read_data : ℕ
  pub special_read_access_fault : Bool
  pub special_write_access_fault : Bool

pub record ExecuteOutputs : Type 0 where
  pub reg_write : Bool
  pub reg_index : ℕ
  pub reg_value : ℕ
  pub flags_write : Bool
  pub flags_value : ℕ
  pub cpu_control_write : Bool
  pub cpu_control_value : ℕ
  pub next_pc : ℕ
  pub halt : Bool
  pub lockup : Bool
  pub trap : Bool
  pub trap_cause : ℕ
  pub clear_reservation : Bool
  pub memory_start : Bool
  pub memory_addr : ℕ
  pub memory_width_bytes : ℕ
  pub memory_write : Bool
  pub memory_store_value : ℕ
  pub memory_reg_write : Bool
  pub memory_reg_index : ℕ
  pub memory_flags_write : Bool
  pub memory_flags_value : ℕ
  pub memory_set_reservation : Bool
  pub memory_reservation_addr : ℕ
  pub memory_next_pc : ℕ
  pub memory_post_reg_write : Bool
  pub memory_post_reg_index : ℕ
  pub memory_post_reg_value : ℕ
  pub memory_post_reg_delta : ℕ
  pub memory_post_reg_use_load_result : Bool
  pub memory_chain_store : Bool
  pub memory_chain_store_addr : ℕ
  pub memory_chain_store_use_load_result : Bool
  pub memory_chain_store_value : ℕ

abbrev pub post_increment_pc : ExecuteInputs → ℕ
post_increment_pc i = i.pre_post_increment_pc

-- The register operands of a load or store, where register 15 is the program counter.
abbrev pub ls_rd_value : ExecuteInputs → ℕ
ls_rd_value i = if instruction_rd i.instruction == 15 then post_increment_pc i else i.operand_a

abbrev pub ls_rs1_value : ExecuteInputs → ℕ
ls_rs1_value i = if instruction_rs1 i.instruction == 15 then post_increment_pc i else i.operand_b

abbrev pub ls_addr : ExecuteInputs → ℕ
ls_addr i = (ls_rs1_value i + instruction_ls_offset2 i.instruction * 2) % 2 ^ 64

abbrev pub jump_rel10 : ℕ → ℕ
jump_rel10 instruction = sign_extend (slice instruction 0 10) 10 64 * 2 % 2 ^ 64

abbrev pub jump_rel13 : ℕ → ℕ
jump_rel13 instruction = sign_extend (slice instruction 0 13) 13 64 * 2 % 2 ^ 64

abbrev pub ls_pc_effective : ExecuteInputs → ℕ
ls_pc_effective i = (post_increment_pc i + sign_extend (slice i.instruction 4 10) 6 64 * 2) % 2 ^ 64

abbrev pub ls_jump_target : ExecuteInputs → ℕ
ls_jump_target i = (post_increment_pc i + jump_rel10 i.instruction) % 2 ^ 64

-- `x - 8`, in 64 bits.
abbrev pub minus_eight : ℕ → ℕ
minus_eight x = (x + 2 ^ 64 - 8) % 2 ^ 64

abbrev pub sum_value : ExecuteInputs → ℕ
sum_value i = i.operand_a + i.operand_b

abbrev pub sub_value : ExecuteInputs → ℕ
sub_value i = (i.operand_a + 2 ^ 64 - i.operand_b) % 2 ^ 64

abbrev pub sign_extended_ldi : ℕ → ℕ
sign_extended_ldi instruction = sign_extend (instruction_ldi_imm8 instruction * 2 ^ 24) 32 64

-- The four forms of the load of an immediate byte.
unfoldable pub ldi_value : ℕ → ℕ → ℕ
ldi_value instruction a =
    let shift = instruction_ldi_shift instruction in
    let imm8 = instruction_ldi_imm8 instruction in
    if shift == 0
    then imm8
    else if shift == 1
    then bit_or a (imm8 * 2 ^ 8)
    else if shift == 2
    then bit_or a (imm8 * 2 ^ 16)
    else bit_or a (sign_extended_ldi instruction)

abbrev pub load_width : LsOpcode → ℕ
load_width byte_load = 1
load_width short_load = 2
load_width word_load = 4
load_width _ = 8

abbrev pub store_width : LsOpcode → ℕ
store_width byte_store = 1
store_width short_store = 2
store_width word_store = 4
store_width _ = 8

abbrev pub is_user : ExecuteInputs → Bool
is_user i = not (bit_and i.cpu_control cpu_control_user_mode == 0)

abbrev pub is_ssr : Option GpOpcode → Bool
is_ssr (some ssr) = true
is_ssr _ = false

-- The stage's port to the special registers.
unfoldable pub special_write_stb : ExecuteInputs → Bool
special_write_stb i =
    i.valid
    && ((instruction_top3 i.instruction == 6)
        && is_ssr (to_gp (instruction_gp_opcode i.instruction)))

abbrev pub special_selector : ExecuteInputs → ℕ
special_selector i = slice i.operand_b 0 16

-- What each output is where no instruction says otherwise.
abbrev pub defaults : ExecuteInputs → ExecuteOutputs
defaults i = record {
  reg_write = false;
  reg_index = instruction_rd i.instruction;
  reg_value = 0;
  flags_write = false;
  flags_value = i.flags;
  cpu_control_write = false;
  cpu_control_value = 0;
  next_pc = post_increment_pc i;
  halt = false;
  lockup = false;
  trap = false;
  trap_cause = 0;
  clear_reservation = false;
  memory_start = false;
  memory_addr = 0;
  memory_width_bytes = 0;
  memory_write = false;
  memory_store_value = 0;
  memory_reg_write = false;
  memory_reg_index = instruction_rd i.instruction;
  memory_flags_write = false;
  memory_flags_value = i.flags;
  memory_set_reservation = false;
  memory_reservation_addr = 0;
  memory_next_pc = post_increment_pc i;
  memory_post_reg_write = false;
  memory_post_reg_index = 0;
  memory_post_reg_value = 0;
  memory_post_reg_delta = 0;
  memory_post_reg_use_load_result = false;
  memory_chain_store = false;
  memory_chain_store_addr = 0;
  memory_chain_store_use_load_result = false;
  memory_chain_store_value = 0;
}
