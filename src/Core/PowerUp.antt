-- ===== src/Core/PowerUp.antt =====
-- The registers of the v3 core, hdl/little64_cores/v3/core.py, after power-up: the initial values of
-- its signals and of those of its components.
use little.Base.{false, ◌==◌, if◌then◌else◌}
use little.Lsu
use little.Registers.{Registers}
use little.Retire.{RetireEntry}
use little.Walker.{access_execute}
use little.Core.State.{Params, Core, MemoryState, PipelineState, resume_fetch}

pub no_access : MemoryState
no_access = record {
  valid = false;
  request_started = false;
  virtual_addr = 0;
  addr = 0;
  phys_valid = false;
  width_bytes = 0;
  write = false;
  store_value = 0;
  reg_write = false;
  reg_index = 0;
  flags_write = false;
  flags_value = 0;
  set_reservation = false;
  reservation_addr = 0;
  next_pc = 0;
  commit_pc = 0;
  fault_pc = 0;
  post_reg_write = false;
  post_reg_index = 0;
  post_reg_value = 0;
  post_reg_delta = 0;
  post_reg_use_load_result = false;
  chain_store = false;
  chain_store_addr = 0;
  chain_store_use_load_result = false;
  chain_store_value = 0;
}

pub no_entry : RetireEntry
no_entry = record {
  valid = false;
  reg_write = false;
  reg_index = 0;
  reg_value = 0;
  aux_reg_write = false;
  aux_reg_index = 0;
  aux_reg_value = 0;
  flags_write = false;
  flags_value = 0;
  cpu_control_write = false;
  cpu_control_value = 0;
  next_pc = 0;
  commit = false;
  commit_pc = 0;
  halt = false;
  lockup = false;
  trap = false;
  trap_cause = 0;
}

no_registers : Registers
no_registers = record {
  cpu_control = 0;
  page_table_root_physical = 0;
  boot_info_frame_physical = 0;
  boot_source_page_size = 0;
  boot_source_page_count = 0;
  hypercall_caps = 0;
  interrupt_table_base = 0;
  interrupt_mask = 0;
  interrupt_mask_high = 0;
  interrupt_states = 0;
  interrupt_states_high = 0;
  interrupt_epc = 0;
  interrupt_eflags = 0;
  interrupt_cpu_control = 0;
  trap_cause = 0;
  trap_fault_addr = 0;
  trap_access = 0;
  trap_pc = 0;
  trap_aux = 0;
  thread_pointer = 0;
}

-- The core after power-up.
unfoldable pub power_up : Params → Core
unfolding no_access no_entry no_registers
power_up p = record {
  frontend = record {
    line_valid = false;
    line_base = 0;
    line_data = 0;
    request_valid = false;
    request_cancelled = false;
    request_line_base = 0;
    watchdog_counter = 0;
  };
  lsu = record {
    state = Lsu.idle;
    latched_addr = 0;
    latched_width = 0;
    latched_write = false;
    latched_store_value = 0;
    first_data = 0;
    beat_started = false;
    watchdog_counter = 0;
  };
  dcache = record { valid = λ _. false; tags = λ _. 0; line_data = λ _. 0 };
  tlb = record {
    current_generation = 0;
    valid = λ _. false;
    entry = λ _. record {
      generation = 0;
      virtual_tag = 0;
      physical_page = 0;
      perm = record { read = false; write = false; execute = false; user = false };
    };
  };
  special_regs = no_registers;
  state = PipelineState.reset;
  machine = record {
    regs = λ i. if i == 15 then p.reset_vector else 0;
    flags = 0;
    commit_valid = false;
    commit_pc = 0;
    halted = false;
    locked_up = false;
  };
  fetch = record {
    pc = p.reset_vector;
    phys_addr = p.reset_vector;
    phys_valid = false;
    translate_virtual_addr = p.reset_vector;
    translate_access = access_execute;
  };
  decode = record { valid = false; instruction = 0; pc = 0; post_increment_pc = 0 };
  execute = record {
    valid = false;
    instruction = 0;
    pc = 0;
    post_increment_pc = 0;
    operand_a = 0;
    operand_b = 0;
    flags = 0;
  };
  memory = no_access;
  memory_final = record {
    valid = false;
    next_pc = 0;
    commit_next_pc = 0;
    reg_write = false;
    reg_index = 0;
    reg_value = 0;
    aux_reg_write = false;
    aux_reg_index = 0;
    aux_reg_value = 0;
    commit_pc = 0;
    flags_write = false;
    flags_value = 0;
  };
  retire = no_entry;
  vector_load = record {
    active = false;
    started = false;
    virtual_addr = 0;
    addr = 0;
    phys_valid = false;
    epc = 0;
    flags = 0;
  };
  walk = record {
    active = false;
    processing = false;
    started = false;
    walk = record { virtual_addr = 0; table_addr = 0; level = 0; access = 0; pte_latched = 0 };
    resume_kind = resume_fetch;
  };
  pending_fault = record {
    pending = false;
    cause = 0;
    pc = 0;
    fault_addr = 0;
    access = 0;
    aux = 0;
  };
  reservation = record { valid = false; addr = 0 };
}
