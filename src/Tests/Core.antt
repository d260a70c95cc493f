-- ===== src/Tests/Core.antt =====
-- The v3 core at concrete inputs.
use little.Base.{
  false, ◌&&◌, ℕ, true, false, ◌≡◌, refl, if◌then◌else◌, ◌*◌, ◌+◌, ◌^◌, ltb, Option, some, none,
  ◌%◌, ◌||◌, arith,
}
use little.Core.State.{Params, Inputs, Core, PipelineState}
use little.Core.PowerUp
use little.Core.PowerUp.{no_access, power_up}
use little.Core.Cycle.{after}
use little.Core.Stages
use little.Core.Handover
use little.Core.Translate
use little.Core.Traps
use little.Core.Finished
use little.Core.Advance
use little.Core.Control
use little.Core.Cycle
use little.Frontend
use little.Lsu
use little.Cache
use little.Tlb
use little.Registers
use little.Retire
use little.MemoryStage
use little.Decode
use little.Execute
use little.Core.Order.Commit.{reached, retires_in_order, interrupt_epc_lem}
use little.Core.Entry.{Runs, Enters, Dropped, irq_start-Enters, irq_start-Dropped}
use little.Core.Stopped.{IsFrozenFrom, has_stopped, stopped-stays}
use little.Core.Stopped.BusError.{IsAnsweredWithError, IsLockedFrom, bus_error-IsLockedFrom}
use little.Core.Privilege.{IsConfined, user_step-IsConfined}
use little.Core.Faults.{Records, trap-Recorded}
use little.Core.Traps.{irq_start, entry_epc}
use little.Core.Cycle.{step}
use little.Core.Finished.Cached.{IsResultOf, memory_result-load_bytes}
use little.Core.Finished.{memory_result}
use little.Core.Stages.{memory_in, cached_memory_response}
use little.Lsu.Load.{load_bytes, long}
use little.Cache.{Cache}
use little.Cache.Coherence.{Reach, reset, cycle, reading}
use little.Core.Order.Invariant.{RetiresInOrder}
use little.Core.Order.View.{view}

abbrev plain : Params
plain = record {
  registers = record { optional_platform_registers = false; enable_mmu = true };
  enable_tlb = false;
  tlb = record { index_bits = 1; generation_bits = 4; address_width = 64 };
  has_dcache = false;
  is_unified = false;
  bus_timeout_cycles = 0;
  irq_input_count = 1;
  reset_vector = 0;
}

-- `LDI r1, 2; LDI r2, 18; SSR r1, r2; LDI r3, 1`.
abbrev unmask : ℕ
unmask = 0x8021 + 0x8122 * 2 ^ 16 + 0xdd21 * 2 ^ 32 + 0x8013 * 2 ^ 48

-- `LDI r4, 0; SSR r3, r4; LDI r5, 0; LOAD r6, [r1]`.
abbrev enable_and_load : ℕ
enable_and_load = 0x8004 + 0xdd43 * 2 ^ 16 + 0x8005 * 2 ^ 32 + 0x0016 * 2 ^ 48

-- A cycle in which the memories answer, the instruction memory with the given line if it has one.
abbrev answering : Option ℕ → ℕ → Inputs
answering line irqs = record {
  irq_lines = irqs;
  boot_r1 = 0;
  boot_r13 = 0;
  i_bus_ack = elim line [ some x ↦ true | none ↦ false ];
  i_bus_err = false;
  i_bus_dat_r = elim line [ some x ↦ x | none ↦ 0 ];
  d_bus_ack = true;
  d_bus_err = false;
  d_bus_dat_r = 0x1234;
}

-- The two lines, and then no answer of the instruction memory.
abbrev program : ℕ → Inputs
program k =
    answering (if ltb k 5 then some unmask else if ltb k 12 then some enable_and_load else none) 0

-- Nothing but `SYSCALL`.
abbrev trapping : ℕ → Inputs
trapping k = answering (some 0xdb00) 0

abbrev trapped : Core
trapped = reached plain 6 trapping

abbrev twelve : Core
twelve = reached plain 12 program

-- Before the load has retired, and after it.
abbrev loaded : Core
loaded = reached plain 20 program

abbrev later : Core
later = reached plain 22 program

abbrev interrupting : Inputs
interrupting = answering none 1

-- What the run shows at the three points.
observed :
    (twelve.retire.valid ≡ true)
    × (twelve.retire.commit ≡ true)
    × (irq_start plain interrupting loaded ≡ true)
    × (Runs plain interrupting loaded)
    × (loaded.fetch.phys_valid ≡ true)
    × (loaded.memory_final.valid ≡ true)
    × (irq_start plain interrupting later ≡ true)
    × (later.machine.halted || later.machine.locked_up ≡ false)
    × (later.memory_final.valid ≡ false)
    × (trapped.retire.valid ≡ true)
    × (trapped.retire.trap ≡ true)
    × (trapped.pending_fault.pending ≡ false)
unfolding PowerUp.power_up Stages.memory_final_entry Stages.paging_enabled Stages.frontend_out
    Stages.lsu_out Stages.tlb_lookup Stages.dcache_lookup Stages.mem_single_line_access
    Stages.dcache_cacheable_load Stages.dcache_cacheable_fill Stages.cached_memory_response
    Stages.memory_in Stages.memory_out Stages.memory_error Stages.memory_to_retire
    Stages.memory_redirect Stages.memory_chain_continue Handover.execute_in
    Handover.execute_memory_start Handover.execute_to_memory Handover.execute_to_retire
    Handover.execute_special_write_commit Handover.special_write_access_fault Handover.execute_out
    Handover.execute_slot_available Handover.execute_redirect Handover.execute_flush_younger
    Handover.fetch_error Handover.paging_without_mmu Handover.decode_in Handover.decode_advance
    Translate.address_fault_cause Translate.address_fault_aux Translate.tlb_hit_ok
    Translate.root_aligned Translate.is_translated Translate.is_refused Translate.translated_phys
    Translate.memory_translate_ready Translate.memory_translate_complete Translate.memory_fault
    Translate.vector_translate_ready Translate.vector_translate_complete
    Translate.vector_translate_lockup Translate.fetch_translate_ready Translate.fetch_misaligned
    Translate.fetch_translate_complete Translate.fetch_fault Translate.fetch_fault_cause
    Translate.fetch_fault_aux Translate.walk_request_valid Translate.walk_request_start
    Translate.walk_response_valid Translate.walk_response_error Translate.walk_fault
    Translate.walk_leaf_success Translate.walk_fault_trap Translate.walk_fault_lockup
    Traps.first_pending Traps.next_fault Traps.current_interrupt_vector Traps.in_interrupt
    Traps.irq_line_pending_mask Traps.pending_irq Traps.pending_irq_vector
    Traps.can_preempt_pending_irq Traps.trap_preempt_lockup Traps.trap_start Traps.irq_start
    Traps.entry_start Traps.entry_vector Traps.entry_epc Traps.trap_cpu_control_value
    Traps.vector_entry_addr Traps.vector_request_valid Traps.vector_request_start
    Traps.vector_response_valid Traps.vector_arrived Traps.special_wires Finished.mem_byte_offset
    Finished.mem_shifted_sel Finished.mem_shifted_store_data Finished.dcache_load_result
    Finished.cached_memory_post_value Finished.cached_memory_next_pc Finished.cached_result
    Finished.memory_result Finished.chain_continue_store_value Finished.unified_line_update_value
    Finished.line_match Finished.store_finished Finished.store_overlaps_reservation
    Advance.frontend_accept Advance.fetch_accept Advance.finish_memory Advance.fill_retire
    Advance.move_memory Advance.note_requests Advance.move_decode Advance.fill_decode
    Advance.move_fetch Advance.advance Control.branch Control.act Cycle.advances
    Cycle.frontend_line_update_valid Cycle.frontend_store_invalidate Cycle.frontend_in Cycle.lsu_in
    Cycle.dcache_in Cycle.tlb_in Cycle.next_state Cycle.components Cycle.retired Cycle.zero_cleared
    Cycle.boot Cycle.step Cycle.after Frontend.step Frontend.outputs Lsu.step Lsu.outputs Cache.step
    Cache.lookup Cache.merge_bytes Cache.has_line Tlb.step Tlb.lookup Registers.step
    Registers.read_data Registers.read_register Registers.read_access_fault Registers.accepted
    Registers.write_access_fault Registers.trap_step Registers.core_write Registers.software_write
    Registers.flushes Registers.tlb_flush Retire.retire Retire.write_back Retire.write_register
    Retire.execute_entry MemoryStage.outputs MemoryStage.result MemoryStage.response_post_value
    MemoryStage.response_next_pc Decode.operands Decode.operand Decode.current_flags
    Decode.load_use_hazard Decode.hazard Execute.execute Execute.ldi_value Execute.special_write_stb
    Execute.execute_ls_reg Execute.execute_ls_pc Execute.execute_gp little.Isa.to_gp
    Stages.user_mode little.Isa.to_special Registers.trap_software_write little.Isa.to_ls
observed = (refl, refl, refl, (refl, refl, refl), refl, refl, refl, refl, refl, refl, refl, refl)

retires_in_order_example : RetiresInOrder (view twelve)
retires_in_order_example = retires_in_order plain 12 program observed.0 observed.1

irq_start-Enters_example : Enters plain interrupting loaded (step plain interrupting loaded)
irq_start-Enters_example =
    irq_start-Enters plain 20 program interrupting (omega arith) observed.3 observed.2

irq_start-Dropped_example : Dropped loaded (step plain interrupting loaded)
irq_start-Dropped_example =
    irq_start-Dropped plain 20 program interrupting observed.3 observed.2 observed.4

interrupt_epc_lem_example : entry_epc plain interrupting later ≡ later.machine.regs 15
interrupt_epc_lem_example =
    interrupt_epc_lem plain 22 program interrupting observed.6 observed.7 observed.8

trap-Recorded_example :
    Records trapped
      (step plain (trapping 7) trapped).special_regs
      (step plain (trapping 8) (step plain (trapping 7) trapped)).special_regs
trap-Recorded_example =
    trap-Recorded plain 6 trapping (trapping 7) (trapping 8) observed.9 observed.10 observed.11

-- A write of `CPU_CONTROL` from user mode, in the execute stage.
abbrev writing : Core
writing = record (power_up plain) {
  state = PipelineState.execute;
  special_regs = record (power_up plain).special_regs { cpu_control = 0x20000 };
  execute = record (power_up plain).execute { valid = true; instruction = 0xdd21 };
}

writing_plainly :
    (Stages.user_mode plain (trapping 0) writing ≡ true)
    × (Traps.entry_start plain (trapping 0) writing ≡ false)
    × ((writing.retire.valid && writing.retire.cpu_control_write) ≡ false)
    × (Traps.is_reset writing.state ≡ false)
unfolding PowerUp.power_up Stages.user_mode Traps.entry_start Traps.trap_start Traps.irq_start
    Traps.next_fault Retire.retire Translate.fetch_fault Translate.fetch_translate_ready
    Translate.memory_fault Translate.memory_translate_ready Translate.walk_fault_trap
    Translate.walk_fault
writing_plainly = (refl, refl, refl, refl)

user_step-IsConfined_example :
    IsConfined plain (trapping 0) writing (step plain (trapping 0) writing)
user_step-IsConfined_example =
    user_step-IsConfined plain (trapping 0) writing writing_plainly.0 writing_plainly.3
      writing_plainly.1 writing_plainly.2

-- A load in its first beat, which the bus answers with an error.
abbrev accessing : Core
accessing = record (power_up plain) {
  state = PipelineState.memory;
  lsu = record (power_up plain).lsu { state = Lsu.first; latched_width = 8; beat_started = true };
  memory = record no_access {
    valid = true;
    phys_valid = true;
    request_started = true;
    width_bytes = 8;
    reg_write = true;
    reg_index = 3;
  };
}

abbrev with_error : ℕ → Inputs
with_error k = record (answering none 0) { d_bus_ack = false; d_bus_err = true }

accessing-IsAnsweredWithError : IsAnsweredWithError plain (with_error 0) accessing
unfolding PowerUp.power_up Stages.lsu_out Lsu.outputs Stages.cached_memory_response
    Stages.dcache_cacheable_load
accessing-IsAnsweredWithError = record {
  accessing = refl;
  translated = refl;
  not_cached = refl;
  no_walk = refl;
  no_vector = refl;
  answered = refl;
  with_error = refl;
}

accessing_goes_on : (Traps.is_reset accessing.state ≡ false) × (has_stopped accessing ≡ false)
unfolding PowerUp.power_up
accessing_goes_on = (refl, refl)

bus_error-IsLockedFrom_example :
    IsLockedFrom
      (Retire.write_back accessing.retire accessing.machine)
      (after plain 9 with_error accessing).machine
bus_error-IsLockedFrom_example =
    bus_error-IsLockedFrom plain with_error accessing accessing_goes_on.0 accessing_goes_on.1
      accessing-IsAnsweredWithError 7

-- A core that a STOP has halted.
abbrev stopped_core : Core
stopped_core = record loaded {
  state = PipelineState.halted;
  machine = record loaded.machine { halted = true };
}

stopped-stays_example :
    IsFrozenFrom
      (step plain (program 0) stopped_core).machine
      (after plain 5 program stopped_core).machine
stopped-stays_example = stopped-stays plain program stopped_core refl refl 3

abbrev with_cache : Params
with_cache = record plain { has_dcache = true }

abbrev words : ℕ → ℕ
words l = l * 0x1001 % 2 ^ 64

abbrev filling : Cache.Wires
filling = record {
  flush_all = false;
  invalidate_valid = false;
  invalidate_addr = 0;
  store_update_valid = false;
  store_update_addr = 0;
  store_update_sel = 0;
  store_update_data = 0;
  fill_valid = true;
  fill_addr = 0x1238;
  fill_data = 0x24_7247;
}

-- A load of 8 bytes, of a line that the cache holds.
abbrev loading : Core
loading = record (power_up with_cache) {
  dcache = Cache.step 2 filling (power_up with_cache).dcache;
  memory = record no_access {
    valid = true;
    phys_valid = true;
    addr = 0x1238;
    width_bytes = 8;
    reg_write = true;
    reg_index = 3;
  };
}

loading-Reach : Reach 2 loading.dcache words
unfolding power_up
loading-Reach =
    cycle (power_up with_cache).dcache words filling words
      (reset (power_up with_cache).dcache words (λ i. refl))
      (reading refl refl refl (λ q. refl) (λ l. refl))

served : cached_memory_response with_cache (program 0) loading ≡ true
unfolding PowerUp.power_up Stages.cached_memory_response Stages.dcache_cacheable_load
    Stages.dcache_lookup Stages.mem_single_line_access Cache.step Cache.lookup Cache.has_line
served = refl

memory_result-load_bytes_example : IsResultOf (memory_result with_cache (program 0) loading) (
    MemoryStage.result (record (memory_in with_cache (program 0) loading) {
      lsu_response_load_value = load_bytes words 0x1238 8;
    }))
memory_result-load_bytes_example =
    memory_result-load_bytes with_cache (program 0) loading loading-Reach (λ a. omega arith) long
      served
