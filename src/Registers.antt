-- ===== src/Registers.antt =====
-- The special register file, hdl/little64_cores/v3/special_registers.py, with its bank of trap
-- registers.
pub mod Access
pub mod Control
pub mod Interrupts
use little.Base.{
  ℕ, Bool, true, false, not, ◌&&◌, ◌||◌, ◌==◌, if◌then◌else◌, Option, none, some, bit_and, bit_or,
}
use little.Isa.{SpecialRegister, to_special, special_value, cpu_control_writable_mask}

-- What the file reads of the core's configuration.
pub record RegisterConfig : Type 0 where
  pub optional_platform_registers : Bool
  pub enable_mmu : Bool

pub record Registers : Type 0 where
  pub cpu_control : ℕ
  pub page_table_root_physical : ℕ
  pub boot_info_frame_physical : ℕ
  pub boot_source_page_size : ℕ
  pub boot_source_page_count : ℕ
  pub hypercall_caps : ℕ
  pub interrupt_table_base : ℕ
  pub interrupt_mask : ℕ
  pub interrupt_mask_high : ℕ
  pub interrupt_states : ℕ
  pub interrupt_states_high : ℕ
  pub interrupt_epc : ℕ
  pub interrupt_eflags : ℕ
  pub interrupt_cpu_control : ℕ
  pub trap_cause : ℕ
  pub trap_fault_addr : ℕ
  pub trap_access : ℕ
  pub trap_pc : ℕ
  pub trap_aux : ℕ
  pub thread_pointer : ℕ

-- The inputs of one clock cycle: software's port, and the core's own writes.
pub record Wires : Type 0 where
  pub user_mode : Bool
  pub write_stb : Bool
  pub write_selector : ℕ
  pub write_data : ℕ
  pub interrupt_states_high_set : ℕ
  pub core_cpu_control_write : Bool
  pub core_cpu_control_data : ℕ
  pub core_interrupt_cpu_control_write : Bool
  pub core_interrupt_cpu_control_data : ℕ
  pub core_interrupt_epc_write : Bool
  pub core_interrupt_epc_data : ℕ
  pub core_interrupt_eflags_write : Bool
  pub core_interrupt_eflags_data : ℕ
  pub core_trap_write : Bool
  pub core_trap_cause_data : ℕ
  pub core_trap_fault_addr_data : ℕ
  pub core_trap_access_data : ℕ
  pub core_trap_pc_data : ℕ
  pub core_trap_aux_data : ℕ

abbrev pub masked : ℕ → ℕ
masked x = bit_and x cpu_control_writable_mask

abbrev pub is_thread_pointer : ℕ → Bool
is_thread_pointer selector = selector == special_value SpecialRegister.thread_pointer

unfoldable pub read_access_fault : Bool → ℕ → Bool
read_access_fault user_mode selector = user_mode && not (is_thread_pointer selector)

unfoldable pub write_access_fault : Wires → Bool
write_access_fault w = w.user_mode && not (is_thread_pointer w.write_selector) && w.write_stb

-- The write that software's port makes in the cycle, if its access does not fault.
unfoldable pub accepted : Wires → Bool
accepted w = w.write_stb && not (write_access_fault w)

-- `read_data` of the trap bank, and 0 for any other selector.
unfoldable pub trap_read : Option SpecialRegister → Registers → ℕ
trap_read (some SpecialRegister.trap_cause) r = r.trap_cause
trap_read (some SpecialRegister.trap_fault_addr) r = r.trap_fault_addr
trap_read (some SpecialRegister.trap_access) r = r.trap_access
trap_read (some SpecialRegister.trap_pc) r = r.trap_pc
trap_read (some SpecialRegister.trap_aux) r = r.trap_aux
trap_read _ r = 0

-- The trap bank's next registers.
unfoldable pub trap_software_write : Option SpecialRegister → ℕ → Registers → Registers
trap_software_write (some SpecialRegister.trap_cause) v r = record r { trap_cause = v }
trap_software_write (some SpecialRegister.trap_fault_addr) v r = record r { trap_fault_addr = v }
trap_software_write (some SpecialRegister.trap_access) v r = record r { trap_access = v }
trap_software_write (some SpecialRegister.trap_pc) v r = record r { trap_pc = v }
trap_software_write (some SpecialRegister.trap_aux) v r = record r { trap_aux = v }
trap_software_write _ v r = r

unfoldable pub trap_step : Wires → Registers → Registers
trap_step w r =
    if w.core_trap_write
    then record r {
      trap_cause = w.core_trap_cause_data;
      trap_fault_addr = w.core_trap_fault_addr_data;
      trap_access = w.core_trap_access_data;
      trap_pc = w.core_trap_pc_data;
      trap_aux = w.core_trap_aux_data;
    }
    else if accepted w
    then trap_software_write (to_special w.write_selector) w.write_data r
    else r

-- The `Switch` on the selector of a read.
unfoldable pub read_register : RegisterConfig → Option SpecialRegister → Registers → ℕ
read_register c (some SpecialRegister.cpu_control) r = masked r.cpu_control
read_register c (some SpecialRegister.page_table_root_physical) r =
    if c.enable_mmu then r.page_table_root_physical else 0
read_register c (some SpecialRegister.boot_info_frame_physical) r =
    if c.optional_platform_registers then r.boot_info_frame_physical else 0
read_register c (some SpecialRegister.boot_source_page_size) r =
    if c.optional_platform_registers then r.boot_source_page_size else 0
read_register c (some SpecialRegister.boot_source_page_count) r =
    if c.optional_platform_registers then r.boot_source_page_count else 0
read_register c (some SpecialRegister.hypercall_caps) r =
    if c.optional_platform_registers then r.hypercall_caps else 0
read_register c (some SpecialRegister.interrupt_table_base) r = r.interrupt_table_base
read_register c (some SpecialRegister.interrupt_mask) r = r.interrupt_mask
read_register c (some SpecialRegister.interrupt_mask_high) r = r.interrupt_mask_high
read_register c (some SpecialRegister.interrupt_states) r = r.interrupt_states
read_register c (some SpecialRegister.interrupt_states_high) r = r.interrupt_states_high
read_register c (some SpecialRegister.interrupt_epc) r = r.interrupt_epc
read_register c (some SpecialRegister.interrupt_eflags) r = r.interrupt_eflags
read_register c (some SpecialRegister.interrupt_cpu_control) r = masked r.interrupt_cpu_control
read_register c (some SpecialRegister.thread_pointer) r = r.thread_pointer
read_register c other r = trap_read other r

unfoldable pub read_data : RegisterConfig → ℕ → Registers → ℕ
read_data c selector r = read_register c (to_special selector) r

-- The core's writes.
unfoldable pub core_write : Wires → Registers → Registers
core_write w r = record r {
  cpu_control = if w.core_cpu_control_write then masked w.core_cpu_control_data else r.cpu_control;
  interrupt_cpu_control =
      if w.core_interrupt_cpu_control_write
      then masked w.core_interrupt_cpu_control_data
      else r.interrupt_cpu_control;
  interrupt_epc = if w.core_interrupt_epc_write then w.core_interrupt_epc_data else r.interrupt_epc;
  interrupt_eflags =
      if w.core_interrupt_eflags_write then w.core_interrupt_eflags_data else r.interrupt_eflags;
}

-- The `Switch` on the selector of an accepted write. It comes after the core's writes, so where
-- both assign a register and no guard says otherwise, this one holds.
unfoldable pub software_write :
    RegisterConfig → Wires → Option SpecialRegister → Registers → Registers
software_write c w (some SpecialRegister.cpu_control) r =
    if w.core_cpu_control_write then r else record r { cpu_control = masked w.write_data }
software_write c w (some SpecialRegister.page_table_root_physical) r =
    if c.enable_mmu then record r { page_table_root_physical = w.write_data } else r
software_write c w (some SpecialRegister.boot_info_frame_physical) r =
    if c.optional_platform_registers
    then record r { boot_info_frame_physical = w.write_data }
    else r
software_write c w (some SpecialRegister.boot_source_page_size) r =
    if c.optional_platform_registers then record r { boot_source_page_size = w.write_data } else r
software_write c w (some SpecialRegister.boot_source_page_count) r =
    if c.optional_platform_registers then record r { boot_source_page_count = w.write_data } else r
software_write c w (some SpecialRegister.hypercall_caps) r =
    if c.optional_platform_registers then record r { hypercall_caps = w.write_data } else r
software_write c w (some SpecialRegister.interrupt_table_base) r = record r {
  interrupt_table_base = w.write_data;
}
software_write c w (some SpecialRegister.interrupt_mask) r = record r {
  interrupt_mask = w.write_data;
}
software_write c w (some SpecialRegister.interrupt_mask_high) r = record r {
  interrupt_mask_high = w.write_data;
}
software_write c w (some SpecialRegister.interrupt_states) r = record r {
  interrupt_states = w.write_data;
}
software_write c w (some SpecialRegister.interrupt_states_high) r = record r {
  interrupt_states_high = bit_or w.write_data w.interrupt_states_high_set;
}
software_write c w (some SpecialRegister.interrupt_epc) r = record r {
  interrupt_epc = w.write_data;
}
software_write c w (some SpecialRegister.interrupt_eflags) r =
    if w.core_interrupt_eflags_write then r else record r { interrupt_eflags = w.write_data }
software_write c w (some SpecialRegister.interrupt_cpu_control) r =
    if w.core_interrupt_cpu_control_write
    then r
    else record r { interrupt_cpu_control = masked w.write_data }
software_write c w (some SpecialRegister.thread_pointer) r = record r {
  thread_pointer = w.write_data;
}
software_write c w _ r = r

-- One clock cycle.
unfoldable pub step : RegisterConfig → Wires → Registers → Registers
step c w r =
    let written = core_write w (trap_step w r) in
    if accepted w
    then software_write c w (to_special w.write_selector) written
    else if not (w.interrupt_states_high_set == 0)
    then record written {
      interrupt_states_high = bit_or r.interrupt_states_high w.interrupt_states_high_set;
    }
    else written

unfoldable pub flushes : RegisterConfig → Wires → Option SpecialRegister → Bool
flushes c w (some SpecialRegister.cpu_control) = not w.core_cpu_control_write
flushes c w (some SpecialRegister.page_table_root_physical) = c.enable_mmu
flushes c w _ = false

-- The output that empties the translation buffer.
unfoldable pub tlb_flush : RegisterConfig → Wires → Bool
tlb_flush c w =
    w.core_cpu_control_write || (accepted w && flushes c w (to_special w.write_selector))
