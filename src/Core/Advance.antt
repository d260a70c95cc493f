-- ===== src/Core/Advance.antt =====
-- The advance of the pipeline of the v3 core, hdl/little64_cores/v3/core.py: the assignments of a cycle
-- in which nothing else is done, in their order. Each function takes the registers of the cycle, which
-- the assignments read, and those assigned so far.
use little.Base.{ℕ, ◌+◌, ◌%◌, ◌^◌, Bool, true, false, not, ◌&&◌, ◌||◌, if◌then◌else◌}
use little.Core.State.{Params, Core, Inputs}
use little.Core.Stages.{
  paging_enabled, frontend_out, memory_out, memory_error, memory_to_retire, memory_redirect,
  memory_chain_continue, memory_final_entry,
}
use little.Core.Handover.{
  execute_to_memory, execute_to_retire, execute_out, execute_redirect, execute_flush_younger,
  decode_advance, decode_in,
}
use little.Core.Translate.{walk_request_start, access_read}
use little.Core.Traps.{trap_start, vector_request_start}
use little.Core.Finished.{memory_result, chain_continue_store_value, store_overlaps_reservation}
use little.Retire.{execute_entry}
use little.Decode.{operands}
use little.Walker.{access_write, access_execute}
use little.Core.Clearing.{clear_memory_stage, clear_retire_stage, redirect_fetch}

module _ (p : Params) (e : Inputs) (c : Core) where
  unfoldable pub frontend_accept : Bool
  frontend_accept =
      c.fetch.phys_valid
      && (frontend_out p e c).instruction_valid
      && not (execute_flush_younger p e c)
      && not (memory_redirect p e c)
      && not c.vector_load.active
      && not (trap_start p e c)

  unfoldable pub fetch_accept : Bool
  fetch_accept = frontend_accept && (not c.decode.valid || decode_advance p e c)

  abbrev pub next_fetch_pc : ℕ
  next_fetch_pc = (c.fetch.pc + 2) % 2 ^ 64

  -- A finished access, with the reservation that it sets or that it breaks.
  unfoldable pub finish_memory : Core → Core
  finish_memory n =
      if memory_to_retire p e c
      then record n {
        reservation = record {
          valid =
              not (store_overlaps_reservation p e c)
              && (c.memory.set_reservation || n.reservation.valid);
          addr = if c.memory.set_reservation then c.memory.reservation_addr else n.reservation.addr;
        };
        memory_final = memory_result p e c;
      }
      else n

  -- A result that turns out to jump: what follows it is dropped.
  abbrev follow_memory_redirect : Core → Core
  follow_memory_redirect n = redirect_fetch p e c c.memory_final.next_pc (
      clear_memory_stage c (record n {
        decode = record n.decode { valid = false; instruction = 0 };
        execute = record n.execute { valid = false; instruction = 0 };
      }))

  -- What enters the retire stage: the finished access, or else a finished execution.
  unfoldable pub fill_retire : Core → Core
  fill_retire n =
      if c.memory_final.valid
      then (let filled : Core = record n {
        retire = memory_final_entry c.memory_final;
        memory_final = record n.memory_final {
          valid = if memory_to_retire p e c then n.memory_final.valid else false;
        };
      } in
          if memory_redirect p e c then follow_memory_redirect filled else filled)
      else if execute_to_retire p e c
      then record n { retire = execute_entry c.execute.valid c.execute.pc (execute_out p e c) }
      else n

  -- The store that follows the load of its instruction.
  abbrev chain_memory : Core → Core
  chain_memory n = record n {
    memory = record n.memory {
      request_started = false;
      virtual_addr = c.memory.chain_store_addr;
      addr = c.memory.chain_store_addr;
      phys_valid = not (paging_enabled p e c);
      width_bytes = 8;
      write = true;
      store_value = chain_continue_store_value p e c;
      reg_write = false;
      reg_index = 0;
      chain_store = false;
      chain_store_addr = 0;
      chain_store_use_load_result = false;
      chain_store_value = 0;
      flags_write = false;
      flags_value = c.machine.flags;
      set_reservation = false;
      reservation_addr = 0;
    };
    fetch = record n.fetch {
      translate_virtual_addr = c.memory.chain_store_addr;
      translate_access = access_write;
    };
  }

  -- The access of the instruction in the execute stage.
  abbrev begin_memory : Core → Core
  begin_memory n =
      let o = execute_out p e c in
      record n {
        memory = record {
          valid = true;
          request_started = false;
          virtual_addr = o.memory_addr;
          addr = o.memory_addr;
          phys_valid = not (paging_enabled p e c);
          width_bytes = o.memory_width_bytes;
          write = o.memory_write;
          store_value = o.memory_store_value;
          reg_write = o.memory_reg_write;
          reg_index = o.memory_reg_index;
          flags_write = o.memory_flags_write;
          flags_value = o.memory_flags_value;
          set_reservation = o.memory_set_reservation;
          reservation_addr = o.memory_reservation_addr;
          next_pc = o.memory_next_pc;
          commit_pc = c.execute.pc;
          fault_pc = c.execute.pc;
          post_reg_write = o.memory_post_reg_write;
          post_reg_index = o.memory_post_reg_index;
          post_reg_value = o.memory_post_reg_value;
          post_reg_delta = o.memory_post_reg_delta;
          post_reg_use_load_result = o.memory_post_reg_use_load_result;
          chain_store = o.memory_chain_store;
          chain_store_addr = o.memory_chain_store_addr;
          chain_store_use_load_result = o.memory_chain_store_use_load_result;
          chain_store_value = o.memory_chain_store_value;
        };
        fetch = record n.fetch {
          translate_virtual_addr = o.memory_addr;
          translate_access = if o.memory_write then access_write else access_read;
        };
      }

  unfoldable pub move_memory : Core → Core
  move_memory n =
      if memory_chain_continue p e c
      then chain_memory n
      else if memory_to_retire p e c || memory_error p e c
      then record (clear_memory_stage c n) {
        fetch = record n.fetch {
          translate_virtual_addr = c.fetch.pc;
          translate_access = access_execute;
        };
      }
      else if execute_to_memory p e c
      then begin_memory n
      else if c.memory.valid && (memory_out p e c).start_request
      then record n { memory = record n.memory { request_started = true } }
      else n

  -- The requests of the load of a vector and of the walk are taken.
  unfoldable pub note_requests : Core → Core
  note_requests n = record n {
    vector_load = record n.vector_load {
      started = if vector_request_start p e c then true else n.vector_load.started;
    };
    walk = record n.walk { started = if walk_request_start p e c then true else n.walk.started };
  }

  unfoldable pub move_decode : Core → Core
  move_decode n =
      let o = operands (decode_in p e c) in
      if decode_advance p e c
      then record n {
        execute = record {
          valid = true;
          instruction = c.decode.instruction;
          pc = c.decode.pc;
          post_increment_pc = c.decode.post_increment_pc;
          operand_a = o.operand_a;
          operand_b = o.operand_b;
          flags = o.flags;
        };
      }
      else if c.execute.valid && (execute_to_memory p e c || execute_to_retire p e c)
      then record n { execute = record n.execute { valid = false; instruction = 0 } }
      else n

  unfoldable pub fill_decode : Core → Core
  fill_decode n =
      if execute_flush_younger p e c
      then record n { decode = record n.decode { valid = false; instruction = 0 } }
      else if fetch_accept
      then record n {
        decode = record {
          valid = true;
          instruction = (frontend_out p e c).instruction_word;
          pc = c.fetch.pc;
          post_increment_pc = next_fetch_pc;
        };
      }
      else if decode_advance p e c
      then record n { decode = record n.decode { valid = false; instruction = 0 } }
      else n

  unfoldable pub move_fetch : Core → Core
  move_fetch n =
      if execute_redirect p e c
      then redirect_fetch p e c (execute_out p e c).next_pc n
      else if fetch_accept
      then redirect_fetch p e c next_fetch_pc n
      else n

  unfoldable pub advance : Core → Core
  unfolding finish_memory fill_retire move_memory note_requests move_decode fill_decode move_fetch
  advance n = move_fetch (
      fill_decode (
        move_decode
          (note_requests (move_memory (fill_retire (finish_memory (clear_retire_stage c n)))))))
