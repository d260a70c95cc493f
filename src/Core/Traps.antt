-- ===== src/Core/Traps.antt =====
-- Traps and interrupts in the v3 core, hdl/little64_cores/v3/core.py: which fault is taken, when an
-- interrupt starts, and what the special registers are told.
use little.Base.{
  ℕ, zero, suc, ◌+◌, ◌*◌, ◌/◌, ◌%◌, ◌^◌, Bool, true, false, not, ◌&&◌, ◌||◌, ltb, leb, ◌==◌,
  if◌then◌else◌, slice, test_bit, bit_and, bit_or, Option, none, some,
}
use little.Core.State.{Params, Core, Inputs, PipelineState, WalkResume, resume_memory, Fault}
use little.Core.Stages.{user_mode, lsu_out}
use little.Core.Handover.{execute_special_write_commit}
use little.Core.Translate.{
  fetch_fault, fetch_fault_cause, fetch_fault_aux, memory_fault, address_fault_cause,
  address_fault_aux, walk_fault_trap, access_read,
}
use little.Isa.{
  cpu_control_cur_int_mask, cpu_control_in_interrupt, first_hw_irq, SpecialRegister, special_value,
}
use little.Retire.{retire}
use little.Registers
use little.Walker
use little.Walker.{access_write, access_execute}

-- The pending interrupt with the lowest number of those up to a count, as a vector number.
unfoldable pub first_pending : ℕ → ℕ → Option ℕ
first_pending zero lines = none
first_pending (suc n) lines =
    let lower = first_pending n lines in
    elim lower [
      | some v ↦ some v
      | none ↦ if test_bit lines (suc n) then some (64 + suc n) else none
    ]

abbrev pub is_some : Option ℕ → Bool
is_some (some v) = true
is_some none = false

abbrev pub value_or_zero : Option ℕ → ℕ
value_or_zero (some v) = v
value_or_zero none = 0

abbrev pub is_reset : PipelineState → Bool
is_reset PipelineState.reset = true
is_reset _ = false

abbrev is_memory : WalkResume → Bool
is_memory resume_memory = true
is_memory _ = false

-- The control register without the bits that an entry sets anew.
abbrev pub entry_mask : ℕ
entry_mask = 0xffff_ffff_fffd_fe00

module _ (p : Params) (e : Inputs) (c : Core) where
  -- The fault of this cycle, taken up in the next: the retiring instruction's first, then that of the
  -- fetch, of the memory access and of the walk.
  unfoldable pub next_fault : Fault
  next_fault =
      let r = retire c.retire in
      let ff = fetch_fault p e c in
      let mf = memory_fault p e c in
      let wf = walk_fault_trap p e c in
      record {
        pending = r.trap_request || ff || mf || wf;
        cause =
            if r.trap_request
            then r.trap_cause_value
            else if ff
            then fetch_fault_cause p e c
            else if mf
            then address_fault_cause c.memory.virtual_addr
            else Walker.walk_fault_cause c.walk.walk;
        pc =
            if r.trap_request
            then r.trap_pc_value
            else if ff
            then c.fetch.translate_virtual_addr
            else if mf
            then c.memory.fault_pc
            else if is_memory c.walk.resume_kind
            then c.memory.fault_pc
            else c.walk.walk.virtual_addr;
        fault_addr =
            if ff
            then c.fetch.translate_virtual_addr
            else if mf
            then c.memory.virtual_addr
            else if wf
            then c.walk.walk.virtual_addr
            else 0;
        access =
            if ff
            then access_execute
            else if mf
            then (if c.memory.write then access_write else access_read)
            else if wf
            then c.walk.walk.access
            else 0;
        aux =
            if ff
            then fetch_fault_aux p e c
            else if mf
            then address_fault_aux c.memory.virtual_addr
            else if wf
            then Walker.walk_fault_aux c.walk.walk
            else 0;
      }

  unfoldable pub current_interrupt_vector : ℕ
  current_interrupt_vector =
      bit_and c.special_regs.cpu_control cpu_control_cur_int_mask / 2 ^ 2 % 2 ^ 7

  -- `cpu_control[1]`.
  unfoldable pub in_interrupt : Bool
  in_interrupt = slice c.special_regs.cpu_control 1 2 == 1

  -- The interrupt lines at their bits, from bit 1 on.
  unfoldable pub irq_line_pending_mask : ℕ
  irq_line_pending_mask = e.irq_lines % 2 ^ p.irq_input_count * 2

  unfoldable pub pending_irq : Option ℕ
  pending_irq = first_pending p.irq_input_count (
      bit_and (bit_or c.special_regs.interrupt_states_high irq_line_pending_mask)
        c.special_regs.interrupt_mask_high)

  unfoldable pub pending_irq_vector : ℕ
  pending_irq_vector = value_or_zero pending_irq

  unfoldable pub can_preempt_pending_irq : Bool
  can_preempt_pending_irq =
      not in_interrupt
      || (current_interrupt_vector == 0)
      || ltb pending_irq_vector current_interrupt_vector

  -- A fault inside a handler of a fault that is no less urgent.
  unfoldable pub trap_preempt_lockup : Bool
  trap_preempt_lockup =
      c.pending_fault.pending
      && in_interrupt
      && not (current_interrupt_vector == 0)
      && ltb current_interrupt_vector first_hw_irq
      && leb current_interrupt_vector c.pending_fault.cause

  unfoldable pub trap_start : Bool
  trap_start = c.pending_fault.pending && not trap_preempt_lockup && not c.vector_load.active

  unfoldable pub irq_start : Bool
  irq_start =
      not c.pending_fault.pending
      && not next_fault.pending
      && not c.vector_load.active
      && not c.walk.active
      && not c.decode.valid
      && not c.execute.valid
      && not c.memory.valid
      && not c.retire.valid
      && is_some pending_irq
      && (slice c.special_regs.cpu_control 0 1 == 1)
      && can_preempt_pending_irq

  unfoldable pub entry_start : Bool
  entry_start = trap_start || irq_start

  unfoldable pub entry_vector : ℕ
  entry_vector = if trap_start then c.pending_fault.cause else pending_irq_vector

  unfoldable pub entry_epc : ℕ
  entry_epc = if trap_start then c.pending_fault.pc else c.fetch.pc

  unfoldable pub trap_cpu_control_value : ℕ
  trap_cpu_control_value =
      bit_or (bit_or (bit_and c.special_regs.cpu_control entry_mask) cpu_control_in_interrupt)
        (entry_vector * 2 ^ 2)
      % 2 ^ 64

  -- The address of the handler's entry in the vector table.
  unfoldable pub vector_entry_addr : ℕ
  vector_entry_addr = (c.special_regs.interrupt_table_base + entry_vector * 2 ^ 3) % 2 ^ 64

  unfoldable pub vector_request_valid : Bool
  vector_request_valid =
      c.vector_load.active && c.vector_load.phys_valid && not c.vector_load.started

  unfoldable pub vector_request_start : Bool
  vector_request_start = vector_request_valid && (lsu_out p e c).request_ready

  unfoldable pub vector_response_valid : Bool
  vector_response_valid =
      c.vector_load.active && c.vector_load.phys_valid && (lsu_out p e c).response_valid

  -- The handler's address has come.
  unfoldable pub vector_arrived : Bool
  vector_arrived =
      vector_response_valid
      && not (lsu_out p e c).response_error
      && not ((lsu_out p e c).response_load_value == 0)

  -- The inputs of the special registers.
  unfoldable pub special_wires : Registers.Wires
  special_wires =
      let r = retire c.retire in
      let selector = slice c.execute.operand_b 0 16 in
      let commit = execute_special_write_commit p e c in
      let in_reset = is_reset c.state in
      let fault = c.pending_fault in
      record {
        user_mode = user_mode p e c;
        write_stb = commit;
        write_selector = selector;
        write_data = c.execute.operand_a;
        interrupt_states_high_set =
            if not (irq_line_pending_mask == 0)
              && not (commit && (selector == special_value SpecialRegister.interrupt_states_high))
            then irq_line_pending_mask
            else 0;
        core_cpu_control_write = r.write_cpu_control || entry_start;
        core_cpu_control_data =
            if entry_start then trap_cpu_control_value else r.write_cpu_control_value;
        core_interrupt_cpu_control_write = entry_start;
        core_interrupt_cpu_control_data = c.special_regs.cpu_control;
        core_interrupt_epc_write = vector_arrived;
        core_interrupt_epc_data = c.vector_load.epc;
        core_interrupt_eflags_write = vector_arrived;
        core_interrupt_eflags_data = c.vector_load.flags;
        core_trap_write = in_reset || fault.pending;
        core_trap_cause_data =
            if in_reset
            then 0
            else if c.special_regs.trap_cause == 0
            then fault.cause
            else c.special_regs.trap_cause;
        core_trap_fault_addr_data = fault.fault_addr;
        core_trap_access_data = fault.access;
        core_trap_pc_data = if in_reset then 0 else fault.pc;
        core_trap_aux_data = fault.aux;
      }
