-- ===== src/Retire.antt =====
-- The retire stage, hdl/little64_cores/v3/retire_stage.py, with V3RetireStageState of
-- hdl/little64_cores/v3/bundles.py, and the registers that hdl/little64_cores/v3/core.py writes with
-- its outputs and the entry that it makes of a finished execution.
pub mod Order
use little.Base.{ℕ, Bool, true, false, not, ◌&&◌, ◌==◌, if◌then◌else◌, update}
use little.Execute.{ExecuteOutputs}

pub record RetireEntry : Type 0 where
  pub valid : Bool
  pub reg_write : Bool
  pub reg_index : ℕ
  pub reg_value : ℕ
  pub aux_reg_write : Bool
  pub aux_reg_index : ℕ
  pub aux_reg_value : ℕ
  pub flags_write : Bool
  pub flags_value : ℕ
  pub cpu_control_write : Bool
  pub cpu_control_value : ℕ
  pub next_pc : ℕ
  pub commit : Bool
  pub commit_pc : ℕ
  pub halt : Bool
  pub lockup : Bool
  pub trap : Bool
  pub trap_cause : ℕ

pub record RetireActions : Type 0 where
  pub write_reg : Bool
  pub write_reg_index : ℕ
  pub write_reg_value : ℕ
  pub write_aux_reg : Bool
  pub write_aux_reg_index : ℕ
  pub write_aux_reg_value : ℕ
  pub write_flags : Bool
  pub write_flags_value : ℕ
  pub write_cpu_control : Bool
  pub write_cpu_control_value : ℕ
  pub commit_valid : Bool
  pub commit_valid_pc : ℕ
  pub halt_request : Bool
  pub lockup_request : Bool
  pub trap_request : Bool
  pub trap_write : Bool
  pub trap_cause_value : ℕ
  pub trap_pc_value : ℕ

unfoldable pub retire : RetireEntry → RetireActions
retire e = record {
  write_reg = e.valid && e.reg_write;
  write_reg_index = e.reg_index;
  write_reg_value = e.reg_value;
  write_aux_reg = e.valid && e.aux_reg_write;
  write_aux_reg_index = e.aux_reg_index;
  write_aux_reg_value = e.aux_reg_value;
  write_flags = e.valid && e.flags_write;
  write_flags_value = e.flags_value;
  write_cpu_control = e.valid && e.cpu_control_write;
  write_cpu_control_value = e.cpu_control_value;
  commit_valid = e.valid && e.commit;
  commit_valid_pc = e.commit_pc;
  halt_request = e.valid && e.halt;
  lockup_request = e.valid && e.lockup;
  trap_request = e.valid && e.trap;
  trap_write = e.valid && e.trap;
  trap_cause_value = e.trap_cause;
  trap_pc_value = e.commit_pc;
}

-- The registers that the write-back assigns.
pub record Machine : Type 0 where
  pub regs : ℕ → ℕ
  pub flags : ℕ
  pub commit_valid : Bool
  pub commit_pc : ℕ
  pub halted : Bool
  pub locked_up : Bool

-- A write of a numbered register; register 0 stays.
unfoldable pub write_register : Bool → ℕ → ℕ → (ℕ → ℕ) → ℕ → ℕ
write_register write index value regs =
    if write && not (index == 0) then update regs index value else regs

unfoldable pub write_back : RetireEntry → Machine → Machine
write_back e m =
    let a = retire e in
    let written =
      write_register a.write_aux_reg a.write_aux_reg_index a.write_aux_reg_value
        (write_register a.write_reg a.write_reg_index a.write_reg_value m.regs) in
    let committed = if a.commit_valid then update written 15 e.next_pc else written in
    record {
      regs = if a.halt_request then update committed 15 e.next_pc else committed;
      flags = if a.write_flags then a.write_flags_value else m.flags;
      commit_valid = a.commit_valid;
      commit_pc = if a.commit_valid then a.commit_valid_pc else m.commit_pc;
      halted = if a.halt_request then true else m.halted;
      locked_up = if a.lockup_request then true else m.locked_up;
    }

-- The entry that an instruction without a memory access leaves for the retire stage.
unfoldable pub execute_entry : Bool → ℕ → ExecuteOutputs → RetireEntry
execute_entry execute_valid execute_pc o = record {
  valid = execute_valid;
  reg_write = o.reg_write;
  reg_index = o.reg_index;
  reg_value = o.reg_value;
  aux_reg_write = false;
  aux_reg_index = 0;
  aux_reg_value = 0;
  flags_write = o.flags_write;
  flags_value = o.flags_value;
  cpu_control_write = o.cpu_control_write;
  cpu_control_value = o.cpu_control_value;
  next_pc = o.next_pc;
  commit = not o.halt && not o.lockup && not o.trap;
  commit_pc = execute_pc;
  halt = o.halt;
  lockup = o.lockup;
  trap = o.trap;
  trap_cause = o.trap_cause;
}
