-- ===== src/Core/Cycle.antt =====
-- One clock cycle of the v3 core, hdl/little64_cores/v3/core.py: the inputs of its components, the
-- state that it shows, and the registers after the cycle.
use little.Base.{ℕ, zero, suc, Bool, true, false, not, ◌&&◌, ◌||◌, ◌==◌, if◌then◌else◌, update}
use little.Core.State.{Params, Core, Inputs, PipelineState, WalkResume, resume_fetch}
use little.Core.Stages.{
  lsu_out, memory_out, frontend_out, memory_to_retire, mem_single_line_access,
  cached_memory_response, dcache_cacheable_fill, dcache_index_bits, memory_redirect, memory_error,
}
use little.Core.Handover.{
  execute_flush_younger, execute_to_retire, execute_out, fetch_error, paging_without_mmu,
}
use little.Core.Translate.{walk_request_valid, walk_leaf_success}
use little.Core.Traps.{
  trap_start, irq_start, entry_start, special_wires, next_fault, vector_request_valid, is_reset,
}
use little.Core.Finished.{
  store_finished, line_match, unified_line_update_value, mem_shifted_sel, mem_shifted_store_data,
}
use little.Core.Control.{Branch, advancing, branch, act}
use little.Frontend
use little.Lsu
use little.Cache
use little.Tlb
use little.Registers
use little.Retire.{write_back}
use little.Walker

abbrev is_advancing : Branch → Bool
is_advancing advancing = true
is_advancing _ = false

abbrev pub is_fetch : WalkResume → Bool
is_fetch resume_fetch = true
is_fetch _ = false

module _ (p : Params) (e : Inputs) (c : Core) where
  -- The pipeline advances in this cycle.
  unfoldable pub advances : Bool
  advances = not (is_reset c.state) && is_advancing (branch p e c)

  -- A finished store to the line that the frontend holds, which it can take over.
  unfoldable pub frontend_line_update_valid : Bool
  frontend_line_update_valid =
      advances
      && store_finished p e c
      && line_match p e c
      && p.is_unified
      && mem_single_line_access p e c

  unfoldable pub frontend_store_invalidate : Bool
  frontend_store_invalidate =
      advances
      && store_finished p e c
      && line_match p e c
      && not (p.is_unified && mem_single_line_access p e c)

  unfoldable pub frontend_in : Frontend.Inputs
  frontend_in = record {
    pc = c.fetch.phys_addr;
    invalidate =
        execute_flush_younger p e c
        || memory_redirect p e c
        || trap_start p e c
        || irq_start p e c
        || not c.fetch.phys_valid
        || (c.walk.active && is_fetch c.walk.resume_kind)
        || frontend_store_invalidate;
    update_line_valid = frontend_line_update_valid;
    update_line_data = unified_line_update_value p e c;
    bus_ack = e.i_bus_ack;
    bus_err = e.i_bus_err;
    bus_dat_r = e.i_bus_dat_r;
  }

  -- The load/store unit serves the walker first, then the load of a vector, then the memory stage.
  unfoldable pub lsu_in : Lsu.Inputs
  lsu_in =
      let vector = c.vector_load.active && c.vector_load.phys_valid in
      let m = memory_out p e c in
      record {
        request_valid =
            if c.walk.active
            then walk_request_valid p e c
            else if vector
            then vector_request_valid p e c
            else m.lsu_request_valid;
        request_addr =
            if c.walk.active
            then Walker.walk_pte_addr c.walk.walk
            else if vector
            then c.vector_load.addr
            else m.lsu_request_addr;
        request_width_bytes = if c.walk.active || vector then 8 else m.lsu_request_width_bytes;
        request_write = if c.walk.active || vector then false else m.lsu_request_write;
        request_store_value = if c.walk.active || vector then 0 else m.lsu_request_store_value;
        bus_ack = e.d_bus_ack;
        bus_err = e.d_bus_err;
        bus_dat_r = e.d_bus_dat_r;
      }

  unfoldable pub dcache_in : Cache.Wires
  dcache_in =
      let crossing =
        advances && store_finished p e c && not (mem_single_line_access p e c) && p.has_dcache in
      record {
        flush_all = crossing;
        invalidate_valid = crossing;
        invalidate_addr = c.memory.addr;
        store_update_valid =
            advances && store_finished p e c && mem_single_line_access p e c && p.has_dcache;
        store_update_addr = c.memory.addr;
        store_update_sel = mem_shifted_sel p e c;
        store_update_data = mem_shifted_store_data p e c;
        fill_valid =
            advances
            && memory_to_retire p e c
            && not (cached_memory_response p e c)
            && dcache_cacheable_fill p e c;
        fill_addr = c.memory.addr;
        fill_data = (lsu_out p e c).response_load_value;
      }

  unfoldable pub tlb_in : Tlb.Wires
  tlb_in = record {
    flush_all = Registers.tlb_flush p.registers (special_wires p e c);
    fill_valid = walk_leaf_success p e c;
    fill = Walker.tlb_fill c.walk.walk;
  }

  unfoldable pub next_state : PipelineState
  next_state =
      if c.machine.halted
      then PipelineState.halted
      else if c.machine.locked_up
          || fetch_error p e c
          || paging_without_mmu p e c
          || memory_error p e c
      then PipelineState.locked_up
      else if c.walk.active
      then (if c.walk.processing then PipelineState.walk_process else PipelineState.walk)
      else if c.memory.valid && not c.memory.phys_valid
      then PipelineState.mem_translate
      else if not c.fetch.phys_valid
      then PipelineState.fetch_translate
      else if c.vector_load.active && not c.vector_load.phys_valid
      then PipelineState.interrupt_vector_translate
      else if c.vector_load.active
      then PipelineState.vector_load
      else if c.retire.valid
      then PipelineState.retire
      else if c.memory.valid
      then PipelineState.memory
      else if c.execute.valid
      then PipelineState.execute
      else if c.decode.valid
      then PipelineState.decode
      else if (frontend_out p e c).request_inflight
      then PipelineState.stalled
      else PipelineState.fetch

  -- The components after the cycle, with the fault that is taken up in the next one, where no entry
  -- begins.
  unfoldable pub components : Core → Core
  components n = record n {
    frontend = Frontend.step p.bus_timeout_cycles frontend_in c.frontend;
    lsu = Lsu.step p.bus_timeout_cycles lsu_in c.lsu;
    dcache = Cache.step dcache_index_bits dcache_in c.dcache;
    tlb = if p.enable_tlb then Tlb.step p.tlb tlb_in c.tlb else c.tlb;
    special_regs = Registers.step p.registers (special_wires p e c) c.special_regs;
    pending_fault =
        if entry_start p e c then record c.pending_fault { pending = false } else next_fault p e c;
  }

  -- What every cycle but the first writes: the result that retires and the state shown.
  unfoldable pub retired : Core → Core
  retired n = record n {
    machine = write_back c.retire c.machine;
    state = next_state;
    reservation = record c.reservation {
      valid =
          if execute_to_retire p e c && (execute_out p e c).clear_reservation
          then false
          else c.reservation.valid;
    };
  }

  -- Register 0 is cleared where it is not 0.
  unfoldable pub zero_cleared : Core → Core
  zero_cleared n =
      if c.machine.regs 0 == 0
      then n
      else record n { machine = record n.machine { regs = update n.machine.regs 0 0 } }

  -- The cycle after the reset.
  unfoldable pub boot : Core → Core
  boot n = record n {
    machine = record n.machine { regs = update (update n.machine.regs 1 e.boot_r1) 13 e.boot_r13 };
    state = PipelineState.fetch;
  }

  unfoldable pub step : Core
  unfolding components retired boot
  step =
      if is_reset c.state
      then boot (components c)
      else zero_cleared (act p e c (branch p e c) (retired (components c)))

-- The core after some cycles, for the inputs of each cycle to come.
unfoldable pub after : Params → ℕ → (ℕ → Inputs) → Core → Core
after p zero es c = c
after p (suc n) es c = after p n (λ k. es (suc k)) (step p (es 0) c)
