-- ===== src/Core/Finished.antt =====
-- What a memory access of the v3 core leaves when it is answered, hdl/little64_cores/v3/core.py: from
-- the data cache, or from the load/store unit; and how a store reaches the lines held elsewhere.
pub mod Cached
use little.Base.{
  ℕ, ◌+◌, ◌*◌, ◌/◌, ◌%◌, ◌^◌, ◌-◌, Bool, true, false, not, ◌&&◌, ◌||◌, leb, ◌==◌, if◌then◌else◌,
  slice, bit_and,
}
use little.Core.State.{Params, Core, Inputs, MemoryState, MemoryFinal}
use little.Core.Stages.{
  dcache_lookup, cached_memory_response, memory_out, lsu_out, memory_to_retire,
  mem_single_line_access,
}
use little.Cache.{merge_bytes}
use little.Lsu.{of_width}

-- `mem_base_sel`, the bytes of an access that begins a line.
abbrev mem_base_sel : ℕ → ℕ
mem_base_sel width =
    if width == 1
    then 0x01
    else if width == 2
    then 0x03
    else if width == 4
    then 0x0f
    else if width == 8
    then 0xff
    else 0x00

module _ (p : Params) (e : Inputs) (c : Core) where
  unfoldable pub mem_byte_offset : ℕ
  mem_byte_offset = slice c.memory.addr 0 3

  unfoldable pub mem_shifted_sel : ℕ
  mem_shifted_sel = mem_base_sel c.memory.width_bytes * 2 ^ mem_byte_offset % 2 ^ 8

  unfoldable pub mem_shifted_store_data : ℕ
  mem_shifted_store_data = c.memory.store_value * 2 ^ (mem_byte_offset * 8) % 2 ^ 64

  -- The value of a load from the line in the data cache.
  unfoldable pub dcache_load_result : ℕ
  dcache_load_result =
      of_width c.memory.width_bytes ((dcache_lookup p e c).load / 2 ^ (mem_byte_offset * 8))

  unfoldable pub cached_memory_post_value : ℕ
  cached_memory_post_value =
      if c.memory.post_reg_use_load_result
      then (dcache_load_result + c.memory.post_reg_delta) % 2 ^ 64
      else c.memory.post_reg_value

  unfoldable pub cached_memory_next_pc : ℕ
  cached_memory_next_pc =
      if c.memory.post_reg_write && (c.memory.post_reg_index == 15)
      then cached_memory_post_value
      else if c.memory.reg_write && (c.memory.reg_index == 15)
      then dcache_load_result
      else c.memory.next_pc

  -- The fields of a finished access that do not depend on which registers it writes.
  abbrev finished_with : Bool → ℕ → ℕ → Bool → ℕ → ℕ → ℕ → MemoryFinal
  finished_with reg_write reg_index reg_value aux_reg_write aux_reg_index aux_reg_value next_pc =
      record {
        valid = true;
        next_pc = next_pc;
        commit_next_pc = c.memory.next_pc;
        reg_write = reg_write;
        reg_index = reg_index;
        reg_value = reg_value;
        aux_reg_write = aux_reg_write;
        aux_reg_index = aux_reg_index;
        aux_reg_value = aux_reg_value;
        commit_pc = c.memory.commit_pc;
        flags_write = c.memory.flags_write;
        flags_value = c.memory.flags_value;
      }

  -- A load that the data cache serves.
  unfoldable pub cached_result : MemoryFinal
  cached_result =
      let m = c.memory in
      if m.post_reg_write
      then if m.reg_write
        then if m.post_reg_index == m.reg_index
          then finished_with true m.reg_index cached_memory_post_value false 0 0
              cached_memory_next_pc
          else finished_with true m.reg_index dcache_load_result true m.post_reg_index
              cached_memory_post_value cached_memory_next_pc
        else finished_with true m.post_reg_index cached_memory_post_value false 0 0
            cached_memory_next_pc
      else finished_with m.reg_write m.reg_index dcache_load_result false 0 0 cached_memory_next_pc

  -- The registers of a finished access.
  unfoldable pub memory_result : MemoryFinal
  memory_result =
      let r = (memory_out p e c).result in
      if cached_memory_response p e c
      then cached_result
      else finished_with r.reg_write r.reg_index r.reg_value r.aux_reg_write r.aux_reg_index
          r.aux_reg_value r.next_pc

  unfoldable pub chain_continue_store_value : ℕ
  chain_continue_store_value =
      if cached_memory_response p e c
      then (if c.memory.chain_store_use_load_result
          then dcache_load_result
          else c.memory.chain_store_value)
      else (memory_out p e c).next_chain_store_value

  -- The line of the fetch frontend after a store to it.
  unfoldable pub unified_line_update_value : ℕ
  unified_line_update_value =
      merge_bytes 8 mem_shifted_sel mem_shifted_store_data c.frontend.line_data

  -- The access goes to the line that the fetch frontend holds.
  unfoldable pub line_match : Bool
  line_match =
      c.frontend.line_valid && (bit_and c.memory.addr 0xffff_ffff_ffff_fff8 == c.frontend.line_base)

  -- A store that is finished over the bus.
  unfoldable pub store_finished : Bool
  store_finished = memory_to_retire p e c && not (cached_memory_response p e c) && c.memory.write

  unfoldable pub store_overlaps_reservation : Bool
  store_overlaps_reservation =
      c.reservation.valid
      && memory_to_retire p e c
      && c.memory.write
      && not (c.memory.width_bytes == 0)
      && leb c.memory.virtual_addr ((c.reservation.addr + 7) % 2 ^ 64)
      && leb c.reservation.addr
          ((c.memory.virtual_addr + c.memory.width_bytes + 2 ^ 64 - 1) % 2 ^ 64)
