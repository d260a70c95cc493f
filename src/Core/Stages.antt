-- ===== src/Core/Stages.antt =====
-- The wires of the v3 core, hdl/little64_cores/v3/core.py: what each component answers in a cycle, and
-- how a memory access ends or goes on.
use little.Base.{
  ℕ, ◌+◌, Bool, true, false, not, ◌&&◌, ◌||◌, leb, ◌==◌, if◌then◌else◌, slice, bit_and,
}
use little.Core.State.{Params, Core, Inputs, MemoryFinal}
use little.Frontend
use little.Lsu
use little.Cache
use little.Tlb
use little.Retire.{RetireEntry}
use little.MemoryStage
use little.Isa.{cpu_control_paging_enable}

-- The data cache has 4 lines.
abbrev pub dcache_index_bits : ℕ
dcache_index_bits = 2

-- The entry that a finished memory access makes for the retire stage.
unfoldable pub memory_final_entry : MemoryFinal → RetireEntry
memory_final_entry f = record {
  valid = f.valid;
  reg_write = f.reg_write;
  reg_index = f.reg_index;
  reg_value = f.reg_value;
  aux_reg_write = f.aux_reg_write;
  aux_reg_index = f.aux_reg_index;
  aux_reg_value = f.aux_reg_value;
  flags_write = f.flags_write;
  flags_value = f.flags_value;
  cpu_control_write = false;
  cpu_control_value = 0;
  next_pc = f.next_pc;
  commit = true;
  commit_pc = f.commit_pc;
  halt = false;
  lockup = false;
  trap = false;
  trap_cause = 0;
}

module _ (p : Params) (e : Inputs) (c : Core) where
  unfoldable pub paging_enabled : Bool
  paging_enabled = not (bit_and c.special_regs.cpu_control cpu_control_paging_enable == 0)

  -- `cpu_control[17]`.
  unfoldable pub user_mode : Bool
  user_mode = slice c.special_regs.cpu_control 17 18 == 1

  -- What the frontend offers. It does not read the other inputs for it.
  unfoldable pub frontend_out : Frontend.Outputs
  frontend_out =
      Frontend.outputs p.bus_timeout_cycles
        (record {
          pc = c.fetch.phys_addr;
          invalidate = false;
          update_line_valid = false;
          update_line_data = 0;
          bus_ack = e.i_bus_ack;
          bus_err = e.i_bus_err;
          bus_dat_r = e.i_bus_dat_r;
        })
        c.frontend

  -- What the load/store unit answers. It does not read the request for it.
  unfoldable pub lsu_out : Lsu.Outputs
  lsu_out =
      Lsu.outputs p.bus_timeout_cycles
        (record {
          request_valid = false;
          request_addr = 0;
          request_width_bytes = 0;
          request_write = false;
          request_store_value = 0;
          bus_ack = e.d_bus_ack;
          bus_err = e.d_bus_err;
          bus_dat_r = e.d_bus_dat_r;
        })
        c.lsu

  unfoldable pub tlb_lookup : Tlb.Lookup
  tlb_lookup =
      if p.enable_tlb then Tlb.lookup p.tlb c.tlb c.fetch.translate_virtual_addr else record {
        hit = false;
        paddr = 0;
        perm = record { read = false; write = false; execute = false; user = false };
      }

  unfoldable pub dcache_lookup : Cache.Lookup
  dcache_lookup =
      if p.has_dcache
      then Cache.lookup dcache_index_bits c.dcache c.memory.addr
      else record { hit = false; load = 0 }

  -- The access falls into one line.
  unfoldable pub mem_single_line_access : Bool
  mem_single_line_access = leb (slice c.memory.addr 0 3 + c.memory.width_bytes) 8

  unfoldable pub dcache_cacheable_load : Bool
  dcache_cacheable_load =
      p.has_dcache
      && c.memory.valid
      && c.memory.phys_valid
      && not c.memory.write
      && not c.memory.request_started
      && mem_single_line_access

  unfoldable pub dcache_cacheable_fill : Bool
  dcache_cacheable_fill =
      p.has_dcache
      && c.memory.valid
      && c.memory.phys_valid
      && not c.memory.write
      && (c.memory.width_bytes == 8)
      && (slice c.memory.addr 0 3 == 0)

  -- The load is served by the data cache.
  unfoldable pub cached_memory_response : Bool
  cached_memory_response = dcache_cacheable_load && dcache_lookup.hit

  -- The inputs of the memory stage; no access is its where the cache serves it, or where the walker
  -- or the load of a vector has the load/store unit.
  unfoldable pub memory_in : MemoryStage.Inputs
  memory_in =
      let m = c.memory in
      record {
        valid = m.valid && m.phys_valid && not cached_memory_response;
        request_started = m.request_started;
        addr = m.addr;
        width_bytes = m.width_bytes;
        write = m.write;
        store_value = m.store_value;
        reg_write = m.reg_write;
        reg_index = m.reg_index;
        flags_write = m.flags_write;
        flags_value = m.flags_value;
        next_pc = m.next_pc;
        commit_pc = m.commit_pc;
        post_reg_write = m.post_reg_write;
        post_reg_index = m.post_reg_index;
        post_reg_value = m.post_reg_value;
        post_reg_delta = m.post_reg_delta;
        post_reg_use_load_result = m.post_reg_use_load_result;
        chain_store = m.chain_store;
        chain_store_addr = m.chain_store_addr;
        chain_store_use_load_result = m.chain_store_use_load_result;
        chain_store_value = m.chain_store_value;
        lsu_request_ready = lsu_out.request_ready && not c.vector_load.active && not c.walk.active;
        lsu_response_valid =
            lsu_out.response_valid && not c.vector_load.active && not c.walk.active;
        lsu_response_error = lsu_out.response_error;
        lsu_response_load_value = lsu_out.response_load_value;
      }

  unfoldable pub memory_out : MemoryStage.Outputs
  unfolding memory_in
  memory_out = MemoryStage.outputs memory_in

  unfoldable pub memory_error : Bool
  memory_error =
      c.memory.valid && not cached_memory_response && memory_out.complete && lsu_out.response_error

  unfoldable pub memory_to_retire : Bool
  memory_to_retire =
      c.memory.valid
      && ((cached_memory_response && not c.memory.chain_store)
          || (memory_out.final_response && not lsu_out.response_error))

  unfoldable pub memory_redirect : Bool
  memory_redirect =
      c.memory_final.valid && not (c.memory_final.next_pc == c.memory_final.commit_next_pc)

  unfoldable pub memory_chain_continue : Bool
  memory_chain_continue =
      c.memory.valid
      && ((cached_memory_response && c.memory.chain_store)
          || (not cached_memory_response && memory_out.chain_continue))
