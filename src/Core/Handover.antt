-- ===== src/Core/Handover.antt =====
-- What moves on in the v3 core, hdl/little64_cores/v3/core.py: the instruction in the execute stage,
-- what it drops behind it, and the instruction in the decode stage.
use little.Base.{Bool, false, not, ◌&&◌, ◌||◌, ◌==◌, if◌then◌else◌, slice}
use little.Core.State.{Params, Core, Inputs}
use little.Registers
use little.Retire.{execute_entry}
use little.Execute.{ExecuteInputs, ExecuteOutputs, execute, special_write_stb}
use little.Decode
use little.Core.Stages.{
  paging_enabled, user_mode, frontend_out, memory_redirect, memory_final_entry,
}

module _ (p : Params) (e : Inputs) (c : Core) where
  -- The inputs of the execute stage, with the answer of the special registers to a write of it.
  unfoldable pub execute_in : Bool → ExecuteInputs
  execute_in write_access_fault =
      let x = c.execute in
      record {
        valid = x.valid;
        instruction = x.instruction;
        pc = x.pc;
        pre_post_increment_pc = x.post_increment_pc;
        operand_a = x.operand_a;
        operand_b = x.operand_b;
        flags = x.flags;
        cpu_control = c.special_regs.cpu_control;
        interrupt_epc = c.special_regs.interrupt_epc;
        interrupt_eflags = c.special_regs.interrupt_eflags;
        interrupt_cpu_control = c.special_regs.interrupt_cpu_control;
        ll_reservation_valid = c.reservation.valid;
        ll_reservation_addr = c.reservation.addr;
        special_read_data = Registers.read_data p.registers (slice x.operand_b 0 16) c.special_regs;
        special_read_access_fault =
            Registers.read_access_fault (user_mode p e c) (slice x.operand_b 0 16);
        special_write_access_fault = write_access_fault;
      }

  -- Whether the instruction asks for a memory access, which does not depend on that answer.
  unfoldable pub execute_memory_start : Bool
  unfolding execute_in
  execute_memory_start = (execute (execute_in false)).memory_start

  unfoldable pub execute_to_memory : Bool
  execute_to_memory =
      c.execute.valid && execute_memory_start && not c.memory.valid && not (memory_redirect p e c)

  unfoldable pub execute_to_retire : Bool
  execute_to_retire =
      c.execute.valid
      && not execute_memory_start
      && not c.memory.valid
      && not c.memory_final.valid
      && not (memory_redirect p e c)

  -- The write of a special register, made when its instruction moves on.
  unfoldable pub execute_special_write_commit : Bool
  unfolding execute_in
  execute_special_write_commit = special_write_stb (execute_in false) && execute_to_retire

  -- The answer of the special registers to the write.
  unfoldable pub special_write_access_fault : Bool
  special_write_access_fault =
      user_mode p e c
      && not (Registers.is_thread_pointer (slice c.execute.operand_b 0 16))
      && execute_special_write_commit

  unfoldable pub execute_out : ExecuteOutputs
  unfolding execute_in
  execute_out = execute (execute_in special_write_access_fault)

  unfoldable pub execute_slot_available : Bool
  execute_slot_available = not c.execute.valid || execute_to_memory || execute_to_retire

  unfoldable pub execute_redirect : Bool
  execute_redirect =
      c.execute.valid
      && not execute_out.halt
      && not execute_out.lockup
      && not execute_out.trap
      && not (memory_redirect p e c)
      && not (execute_out.next_pc == c.execute.post_increment_pc)

  unfoldable pub execute_flush_younger : Bool
  execute_flush_younger =
      c.execute.valid
      && (execute_redirect || execute_out.halt || execute_out.trap || execute_out.lockup)

  unfoldable pub fetch_error : Bool
  fetch_error = (frontend_out p e c).fetch_error && not execute_flush_younger

  unfoldable pub paging_without_mmu : Bool
  paging_without_mmu = if p.registers.enable_mmu then false else paging_enabled p e c

  unfoldable pub decode_in : Decode.Inputs
  decode_in = record {
    regs = c.machine.regs;
    arch_flags = c.machine.flags;
    instruction = c.decode.instruction;
    execute = execute_entry (c.execute.valid && not execute_memory_start) c.execute.pc execute_out;
    memory_final = memory_final_entry c.memory_final;
    retire = c.retire;
    pending_load_execute = record {
      valid =
          c.execute.valid
          && execute_out.memory_start
          && not execute_out.memory_write
          && execute_out.memory_reg_write;
      index = execute_out.memory_reg_index;
    };
    pending_load_memory = record {
      valid = c.memory.valid && not c.memory.write && c.memory.reg_write;
      index = c.memory.reg_index;
    };
    pending_write_execute = record {
      valid = c.execute.valid && execute_out.memory_start && execute_out.memory_post_reg_write;
      index = execute_out.memory_post_reg_index;
    };
    pending_write_memory = record {
      valid = c.memory.valid && c.memory.post_reg_write;
      index = c.memory.post_reg_index;
    };
  }

  unfoldable pub decode_advance : Bool
  decode_advance =
      c.decode.valid
      && execute_slot_available
      && not (Decode.load_use_hazard decode_in)
      && not execute_flush_younger
      && not (memory_redirect p e c)
