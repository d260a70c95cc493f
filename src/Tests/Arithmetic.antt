-- ===== src/Tests/Arithmetic.antt =====
-- The arithmetic instructions at concrete inputs.
use little.Base.{
  ◌+◌, ◌*◌, ◌/◌, ◌%◌, ◌^◌, true, false, ◌≡◌, refl, arith, some, leb, ltb, ◌==◌, ◌&&◌, if◌then◌else◌,
}
use little.Execute.{ExecuteInputs, execute_gp, ldi_value}
use little.Fields.{sign_extend, ls_condition}
use little.Isa.{add, sub, test, jump_z, jump_c, jump_lt, jump_gt}
use little.Instructions.Arithmetic.{Leaves, add-Leaves, sub-Leaves}
use little.Instructions.Compare.{biased, test_jump_unsigned, test_jump_signed}
use little.Instructions.Immediate.{encode_ldi, ldi_value_sequence}
use little.Shift.{shift_index, sll_result, sll_carry}
use little.Shift.Results.{sll-product}

-- The operands -1 and 2, as 64-bit words.
abbrev minus_one_and_two : ExecuteInputs
minus_one_and_two = record {
  valid = true;
  instruction = 0xc012;
  pc = 0x1000;
  pre_post_increment_pc = 0x1002;
  operand_a = 0xffff_ffff_ffff_ffff;
  operand_b = 2;
  flags = 0;
  cpu_control = 0;
  interrupt_epc = 0;
  interrupt_eflags = 0;
  interrupt_cpu_control = 0;
  ll_reservation_valid = false;
  ll_reservation_addr = 0;
  special_read_data = 0;
  special_read_access_fault = false;
  special_write_access_fault = false;
}

add-Leaves_example :
    Leaves
      (execute_gp (some add) minus_one_and_two)
      ((0xffff_ffff_ffff_ffff + 2) % 2 ^ 64)
      (leb (2 ^ 64) (0xffff_ffff_ffff_ffff + 2))
add-Leaves_example = add-Leaves minus_one_and_two (omega arith) (omega arith)

sub-Leaves_example :
    Leaves
      (execute_gp (some sub) minus_one_and_two)
      0xffff_ffff_ffff_fffd
      (ltb 0xffff_ffff_ffff_ffff 2)
sub-Leaves_example =
    sub-Leaves minus_one_and_two 0xffff_ffff_ffff_fffd (omega arith) (omega arith) (omega arith)
      refl

test_jump_unsigned_example :
    (ls_condition (execute_gp (some test) minus_one_and_two).flags_value jump_z
      ≡ (0xffff_ffff_ffff_ffff == 2))
    × (ls_condition (execute_gp (some test) minus_one_and_two).flags_value jump_c
        ≡ ltb 0xffff_ffff_ffff_ffff 2)
test_jump_unsigned_example = test_jump_unsigned minus_one_and_two (omega arith) (omega arith)

test_jump_signed_example :
    (ls_condition (execute_gp (some test) minus_one_and_two).flags_value jump_lt
      ≡ ltb (biased 0xffff_ffff_ffff_ffff) (biased 2))
    × (ls_condition (execute_gp (some test) minus_one_and_two).flags_value jump_gt
        ≡ ltb (biased 2) (biased 0xffff_ffff_ffff_ffff))
test_jump_signed_example =
    test_jump_signed minus_one_and_two (omega arith) (omega arith) (omega arith) (omega arith)

ldi_value_sequence_example :
    ldi_value (encode_ldi 3 (0x8765_4321 / 2 ^ 24) 5) (
      ldi_value (encode_ldi 2 (0x8765_4321 / 2 ^ 16 % 256) 5) (
        ldi_value
          (encode_ldi 1 (0x8765_4321 / 2 ^ 8 % 256) 5)
          (ldi_value (encode_ldi 0 (0x8765_4321 % 256) 5) 7)))
    ≡ sign_extend 0x8765_4321 32 64
ldi_value_sequence_example = ldi_value_sequence 5 (omega arith) 0x8765_4321 7 (omega arith)

sll-product_example :
    (sll_result 0xff00 (shift_index 60) ≡ (if ltb 60 64 then 0xff00 * 2 ^ 60 % 2 ^ 64 else 0))
    × (sll_carry 0xff00 (shift_index 60) ≡ (ltb 60 64 && leb (2 ^ 64) (0xff00 * 2 ^ 60)))
sll-product_example = sll-product 0xff00 60 (omega arith)
