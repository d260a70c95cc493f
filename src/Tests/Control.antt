-- ===== src/Tests/Control.antt =====
-- The special registers and the configuration at concrete inputs.
use little.Base.{true, false, none, ◌≡◌, refl, ◌↔◌, if◌then◌else◌, bit_or}
use little.Isa.{SpecialRegister, to_special}
use little.Registers.{
  RegisterConfig, Registers, Wires, accepted, read_data, step, tlb_flush, flushes,
  write_access_fault,
}
use little.Registers.Access.{
  user_write_isolated, read_data-step_write, left_by_write, protected, quiet,
}
use little.Registers.Control.{IsMasked, step-IsMasked}
use little.Registers.Interrupts.{
  interrupt_states_high-step, names_states_high, trap_entry_wins, TrapIs,
}
use little.Config.{CoreConfig, v4, split, post_init}
use little.Config.Accepted.{IsAccepted, post_init-IsAccepted}

abbrev with_mmu : RegisterConfig
with_mmu = record { optional_platform_registers = false; enable_mmu = true }

abbrev zeros : Registers
zeros = record {
  cpu_control = 0;
  page_table_root_physical = 0;
  boot_info_frame_physical = 0;
  boot_source_page_size = 0;
  boot_source_page_count = 0;
  hypercall_caps = 0;
  interrupt_table_base = 0;
  interrupt_mask = 0;
  interrupt_mask_high = 0;
  interrupt_states = 0;
  interrupt_states_high = 5;
  interrupt_epc = 0;
  interrupt_eflags = 0;
  interrupt_cpu_control = 0;
  trap_cause = 0;
  trap_fault_addr = 0;
  trap_access = 0;
  trap_pc = 0;
  trap_aux = 0;
  thread_pointer = 0;
}

-- A write of the interrupt mask, while interrupt 1 arrives.
abbrev write_mask : Wires
write_mask = record {
  user_mode = false;
  write_stb = true;
  write_selector = 17;
  write_data = 0xff;
  interrupt_states_high_set = 2;
  core_cpu_control_write = false;
  core_cpu_control_data = 0;
  core_interrupt_cpu_control_write = false;
  core_interrupt_cpu_control_data = 0;
  core_interrupt_epc_write = false;
  core_interrupt_epc_data = 0;
  core_interrupt_eflags_write = false;
  core_interrupt_eflags_data = 0;
  core_trap_write = false;
  core_trap_cause_data = 0;
  core_trap_fault_addr_data = 0;
  core_trap_access_data = 0;
  core_trap_pc_data = 0;
  core_trap_aux_data = 0;
}

-- The same from user mode.
abbrev user_mask : Wires
user_mask = record write_mask { user_mode = true }

-- An entry into a trap, while software writes the cause.
abbrev trap_entry : Wires
trap_entry = record write_mask {
  write_selector = 24;
  core_trap_write = true;
  core_trap_cause_data = 5;
  core_trap_fault_addr_data = 0x4000;
  core_trap_access_data = 1;
  core_trap_pc_data = 0x1000;
  core_trap_aux_data = 3;
}

write_mask-accepted : accepted write_mask ≡ true
unfolding accepted write_access_fault
write_mask-accepted = refl

no_flush : tlb_flush with_mmu write_mask ≡ false
unfolding tlb_flush accepted write_access_fault flushes to_special
no_flush = refl

zeros-IsMasked : IsMasked zeros
zeros-IsMasked = record { cpu_control = refl; interrupt_cpu_control = refl }

user_write_isolated_example :
    protected (step with_mmu user_mask zeros) ≡ protected (step with_mmu (quiet user_mask) zeros)
user_write_isolated_example = user_write_isolated with_mmu user_mask zeros refl

read_data-step_write_example :
    read_data with_mmu 17 (step with_mmu write_mask zeros)
    ≡ left_by_write with_mmu write_mask SpecialRegister.interrupt_mask
read_data-step_write_example =
    read_data-step_write with_mmu write_mask SpecialRegister.interrupt_mask zeros
      write_mask-accepted refl refl refl refl refl

step-IsMasked_example : IsMasked (step with_mmu write_mask zeros)
step-IsMasked_example = step-IsMasked with_mmu write_mask zeros zeros-IsMasked

interrupt_states_high-step_example : (step with_mmu write_mask zeros).interrupt_states_high ≡ (
    if accepted write_mask
    then (if names_states_high (to_special 17) then bit_or 0xff 2 else 5)
    else bit_or 5 2)
interrupt_states_high-step_example = interrupt_states_high-step with_mmu write_mask zeros

trap_entry_wins_example : TrapIs (step with_mmu trap_entry zeros) 5 0x4000 1 0x1000 3
trap_entry_wins_example = trap_entry_wins with_mmu trap_entry zeros refl

-- The default core, with both caches.
abbrev default_core : CoreConfig
default_core = record {
  instruction_bus_width = 64;
  data_bus_width = 64;
  address_width = 64;
  core_variant = v4;
  cache_topology = split;
  enable_tlb = true;
  tlb_entries = 64;
  irq_input_count = 63;
  reset_vector = 0;
}

post_init-IsAccepted_example : (post_init default_core ≡ none) ↔ IsAccepted default_core
post_init-IsAccepted_example = post_init-IsAccepted default_core
