-- ===== src/Core/Clearing.antt =====
-- What several branches of the control of the v3 core share, hdl/little64_cores/v3/core.py: stages that
-- are emptied, and a fetch that begins elsewhere.
use little.Base.{ℕ, false, not, if◌then◌else◌}
use little.Core.State.{Params, Core, Inputs}
use little.Core.Stages.{paging_enabled}
use little.Walker.{access_execute}

abbrev pub clear_inflight : Core → Core
clear_inflight n = record n {
  decode = record n.decode { valid = false };
  execute = record n.execute { valid = false };
  memory = record n.memory { valid = false; request_started = false };
  memory_final = record n.memory_final { valid = false };
  retire = record n.retire { valid = false };
}

abbrev pub clear_instruction_latches : Core → Core
clear_instruction_latches n = record n {
  decode = record n.decode { instruction = 0 };
  execute = record n.execute { instruction = 0 };
}

-- `c` are the registers of the cycle.
abbrev pub clear_memory_stage : Core → Core → Core
clear_memory_stage c n = record n {
  memory = record {
    valid = false;
    request_started = false;
    virtual_addr = 0;
    addr = 0;
    phys_valid = false;
    width_bytes = 0;
    write = false;
    store_value = 0;
    reg_write = false;
    reg_index = 0;
    flags_write = false;
    flags_value = c.machine.flags;
    set_reservation = false;
    reservation_addr = 0;
    next_pc = 0;
    commit_pc = 0;
    fault_pc = 0;
    post_reg_write = false;
    post_reg_index = 0;
    post_reg_value = 0;
    post_reg_delta = 0;
    post_reg_use_load_result = false;
    chain_store = false;
    chain_store_addr = 0;
    chain_store_use_load_result = false;
    chain_store_value = 0;
  };
}

abbrev pub clear_retire_stage : Core → Core → Core
clear_retire_stage c n = record n {
  retire = record {
    valid = false;
    reg_write = false;
    reg_index = 0;
    reg_value = 0;
    aux_reg_write = false;
    aux_reg_index = 0;
    aux_reg_value = 0;
    flags_write = false;
    flags_value = c.machine.flags;
    cpu_control_write = false;
    cpu_control_value = 0;
    next_pc = c.machine.regs 15;
    commit = false;
    commit_pc = 0;
    halt = false;
    lockup = false;
    trap = false;
    trap_cause = 0;
  };
}

module _ (p : Params) (e : Inputs) (c : Core) where
  abbrev pub redirect_fetch : ℕ → Core → Core
  redirect_fetch target n = record n {
    fetch = record {
      pc = target;
      phys_addr = if paging_enabled p e c then c.fetch.phys_addr else target;
      phys_valid = not (paging_enabled p e c);
      translate_virtual_addr = target;
      translate_access = access_execute;
    };
  }
