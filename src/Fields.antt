-- ===== src/Fields.antt =====
-- The helpers of hdl/little64_cores/v3/helpers.py: instruction fields, sign extension, the flags of
-- a result, the branch conditions and the canonical addresses.
use little.Base.{
  ℕ, ◌+◌, ◌-◌, ◌*◌, ◌^◌, Bool, false, not, ◌&&◌, ◌==◌, if◌then◌else◌, bit, slice, test_bit, bit_or,
}
use little.Isa.{LsOpcode, jump_z, jump_c, jump_s, jump_gt, jump_lt}

abbrev pub instruction_rd : ℕ → ℕ
instruction_rd i = slice i 0 4

abbrev pub instruction_rs1 : ℕ → ℕ
instruction_rs1 i = slice i 4 8

abbrev pub instruction_gp_imm4 : ℕ → ℕ
instruction_gp_imm4 i = slice i 4 8

abbrev pub instruction_ldi_imm8 : ℕ → ℕ
instruction_ldi_imm8 i = slice i 4 12

abbrev pub instruction_ls_offset2 : ℕ → ℕ
instruction_ls_offset2 i = slice i 8 10

abbrev pub instruction_gp_opcode : ℕ → ℕ
instruction_gp_opcode i = slice i 8 13

abbrev pub instruction_ls_opcode : ℕ → ℕ
instruction_ls_opcode i = slice i 10 14

abbrev pub instruction_ldi_shift : ℕ → ℕ
instruction_ldi_shift i = slice i 12 14

abbrev pub instruction_top3 : ℕ → ℕ
instruction_top3 i = slice i 13 16

abbrev pub instruction_top2 : ℕ → ℕ
instruction_top2 i = slice i 14 16

-- `Cat(value, Mux(value[width - 1], ones, zeros))`, for a value of `width` bits.
abbrev pub sign_extend : ℕ → ℕ → ℕ → ℕ
sign_extend value width target_width =
    if test_bit value (width - 1)
    then value + (2 ^ (target_width - width) - 1) * 2 ^ width
    else value

-- `Cat(result == 0, carry, result[63])`: Z, C and S from the lowest bit up.
abbrev pub flag_value : ℕ → Bool → ℕ
flag_value result carry = bit (result == 0) + bit carry * 2 + bit (test_bit result 63) * 4

-- Whether a conditional jump is taken; no other opcode is.
unfoldable pub ls_condition : ℕ → LsOpcode → Bool
ls_condition flags jump_z = test_bit flags 0
ls_condition flags jump_c = test_bit flags 1
ls_condition flags jump_s = test_bit flags 2
ls_condition flags jump_gt = not (test_bit flags 0) && not (test_bit flags 2)
ls_condition flags jump_lt = test_bit flags 2
ls_condition flags _ = false

-- A 39-bit address, sign-extended to 64 bits.
unfoldable pub is_canonical39 : ℕ → Bool
is_canonical39 addr =
    if test_bit addr 38 then slice addr 39 64 == 2 ^ 25 - 1 else slice addr 39 64 == 0

unfoldable pub encode_aux : ℕ → ℕ → ℕ
encode_aux subtype level = bit_or subtype (level * 2 ^ 8)
