-- ===== src/Tests/Stages.antt =====
-- The pipeline stages and the branch predictor at concrete inputs.
use little.Base.{true, false, ◌≡◌, refl, inr, arith}
use little.Fields.{ls_condition}
use little.Isa.{to_ls}
use little.Execute.{ExecuteInputs, execute}
use little.Instructions.Outcome.{IsExclusive, IsRefused, execute-IsExclusive}
use little.Retire.{RetireEntry, Machine, write_back}
use little.Retire.Order.{IsSplit}
use little.MemoryStage
use little.MemoryStage.{final_response, result}
use little.MemoryStage.Results.{result-IsSplit, in_order, write_back-in_order}
use little.Decode
use little.Decode.{DecodedOperands, operands}
use little.Decode.Bypass.{IsInFlight, settled, operands-settled}
use little.Predictor.{backward_taken}
use little.Predictor.Targets.{IsGuessed}

abbrev machine : Machine
machine = record {
  regs = λ i. i;
  flags = 0;
  commit_valid = false;
  commit_pc = 0;
  halted = false;
  locked_up = false;
}

-- The answer to a pop of register 3 from the stack at register 13.
abbrev popped : MemoryStage.Inputs
popped = record {
  valid = true;
  request_started = true;
  addr = 0x8000;
  width_bytes = 8;
  write = false;
  store_value = 0;
  reg_write = true;
  reg_index = 3;
  flags_write = false;
  flags_value = 0;
  next_pc = 0x1002;
  commit_pc = 0x1000;
  post_reg_write = true;
  post_reg_index = 13;
  post_reg_value = 0x8008;
  post_reg_delta = 8;
  post_reg_use_load_result = false;
  chain_store = false;
  chain_store_addr = 0;
  chain_store_use_load_result = false;
  chain_store_value = 0;
  lsu_request_ready = false;
  lsu_response_valid = true;
  lsu_response_error = false;
  lsu_response_load_value = 0xabcd;
}

write_back-in_order_example :
    (write_back (result popped) machine).regs 13 ≡ in_order popped machine.regs 13
write_back-in_order_example = write_back-in_order popped machine 13 refl

-- An addition into register 3.
abbrev added : RetireEntry
added = record {
  valid = true;
  reg_write = true;
  reg_index = 3;
  reg_value = 0x77;
  aux_reg_write = false;
  aux_reg_index = 0;
  aux_reg_value = 0;
  flags_write = true;
  flags_value = 4;
  cpu_control_write = false;
  cpu_control_value = 0;
  next_pc = 0x1004;
  commit = true;
  commit_pc = 0x1002;
  halt = false;
  lockup = false;
  trap = false;
  trap_cause = 0;
}

abbrev none_pending : Decode.Pending
none_pending = record { valid = false; index = 0 }

-- An addition of register 3 to register 13, after a pop that wrote both and an addition.
abbrev following : Decode.Inputs
following = record {
  regs = λ i. i;
  arch_flags = 0;
  instruction = 0xc03d;
  execute = added;
  memory_final = result popped;
  retire = added;
  pending_load_execute = none_pending;
  pending_load_memory = none_pending;
  pending_write_execute = none_pending;
  pending_write_memory = none_pending;
}

added-IsSplit : IsSplit added
unfolding IsSplit
added-IsSplit p q = absurd (ground arith)

following-IsInFlight : IsInFlight following machine
following-IsInFlight = record {
  same_regs = refl;
  same_flags = refl;
  zero_register = refl;
  split_memory = result-IsSplit popped;
  split_retire = added-IsSplit;
  single_execute = refl;
}

operands-settled_example : operands following ≡ record {
  operand_a = (settled following machine).regs 13;
  operand_b = (settled following machine).regs 3;
  flags = (settled following machine).flags;
}
operands-settled_example =
    operands-settled following machine following-IsInFlight (omega arith) (omega arith)

-- A jump back to itself if the flag of zero is set, at 0x1000.
abbrev looping : ExecuteInputs
looping = record {
  valid = true;
  instruction = 0x6fff;
  pc = 0x1000;
  pre_post_increment_pc = 0x1002;
  operand_a = 0;
  operand_b = 0;
  flags = 1;
  cpu_control = 0x20000;
  interrupt_epc = 0;
  interrupt_eflags = 0;
  interrupt_cpu_control = 0;
  ll_reservation_valid = false;
  ll_reservation_addr = 0;
  special_read_data = 0;
  special_read_access_fault = false;
  special_write_access_fault = false;
}

looping_is_branch : (backward_taken 0x6fff 0x1000).is_branch ≡ true
unfolding backward_taken
looping_is_branch = refl

looping-IsGuessed : IsGuessed looping
unfolding ls_condition to_ls
looping-IsGuessed = inr refl

execute-IsExclusive_example : IsExclusive (execute looping) × IsRefused looping (execute looping)
execute-IsExclusive_example = execute-IsExclusive looping
