-- ===== src/Core/Control.antt =====
-- The cycle of the v3 core, hdl/little64_cores/v3/core.py: what the control does in a cycle, of which
-- the first that applies is taken, and the registers after each.
use little.Base.{ℕ, true, false, not, ◌&&◌, ◌||◌, ◌==◌, if◌then◌else◌}
use little.Core.State.{
  Params, Core, Inputs, WalkResume, resume_fetch, resume_memory, resume_vector, VectorLoad,
}
use little.Core.Stages.{paging_enabled, lsu_out, memory_error}
use little.Core.Handover.{fetch_error, paging_without_mmu}
use little.Core.Translate.{
  vector_translate_ready, vector_translate_complete, vector_translate_lockup,
  memory_translate_ready, memory_translate_complete, memory_fault, fetch_translate_ready,
  fetch_translate_complete, fetch_fault, translated_phys, walk_response_valid, walk_response_error,
  walk_fault, walk_fault_lockup, walk_leaf_success, access_read,
}
use little.Core.Traps.{
  trap_preempt_lockup, entry_start, entry_epc, vector_entry_addr, vector_response_valid,
  vector_arrived,
}
use little.Core.Advance.{advance}
use little.Core.Clearing.{
  clear_inflight, clear_instruction_latches, clear_retire_stage, redirect_fetch,
}
use little.Retire.{retire}
use little.Walker.{walk_result_phys, descended, access_write, access_execute}

-- The branches of the control, in the order in which they are tried.
pub data Branch : Type 0 where
  stopped bus_lockup vector_lockup : Branch
  vector_translated memory_translated fetch_translated : Branch
  vector_walk memory_walk fetch_walk : Branch
  preempt_lockup entry : Branch
  walk_response walk_leaf walk_descend vector_response : Branch
  retire_stop advancing : Branch

module _ (p : Params) (e : Inputs) (c : Core) where
  unfoldable pub branch : Branch
  branch =
      if c.machine.halted || c.machine.locked_up
      then stopped
      else if fetch_error p e c || paging_without_mmu p e c || memory_error p e c
      then bus_lockup
      else if vector_translate_lockup p e c || walk_fault_lockup p e c
      then vector_lockup
      else if vector_translate_complete p e c
      then vector_translated
      else if memory_translate_complete p e c
      then memory_translated
      else if fetch_translate_complete p e c
      then fetch_translated
      else if vector_translate_ready p e c && paging_enabled p e c
      then vector_walk
      else if memory_translate_ready p e c && paging_enabled p e c && not (memory_fault p e c)
      then memory_walk
      else if fetch_translate_ready p e c && paging_enabled p e c && not (fetch_fault p e c)
      then fetch_walk
      else if trap_preempt_lockup p e c
      then preempt_lockup
      else if entry_start p e c
      then entry
      else if walk_response_valid p e c
      then walk_response
      else if walk_leaf_success p e c
      then walk_leaf
      else if c.walk.processing && not (walk_fault p e c)
      then walk_descend
      else if vector_response_valid p e c
      then vector_response
      else if (retire c.retire).halt_request || (retire c.retire).lockup_request
      then retire_stop
      else advancing

  abbrev pub walk_ended : Core → Core
  walk_ended n = record n {
    walk = record n.walk { active = false; processing = false; started = false };
  }

  abbrev lock_up : Core → Core
  lock_up n = record n { machine = record n.machine { locked_up = true } }

  abbrev squashed : Core → Core
  squashed n = clear_instruction_latches (clear_inflight n)

  -- `vector_load_active` and the other registers of the load of a vector, but for those saved.
  abbrev vector_dropped : VectorLoad → VectorLoad
  vector_dropped v = record v {
    active = false;
    started = false;
    virtual_addr = 0;
    addr = 0;
    phys_valid = false;
  }

  abbrev vector_cleared : Core → Core
  vector_cleared n = record n {
    vector_load = record (vector_dropped n.vector_load) { epc = 0; flags = 0 };
  }

  -- A walk from the top of the table.
  abbrev pub walk_from : ℕ → ℕ → WalkResume → Core → Core
  walk_from addr access kind n = record n {
    walk = record {
      active = true;
      processing = false;
      started = false;
      walk = record {
        virtual_addr = addr;
        table_addr = c.special_regs.page_table_root_physical;
        level = 2;
        access = access;
        pte_latched = 0;
      };
      resume_kind = kind;
    };
  }

  -- Where the physical address goes that a walk has found.
  abbrev pub resume : WalkResume → ℕ → Core → Core
  resume resume_fetch phys n = record n {
    fetch = record n.fetch { phys_addr = phys; phys_valid = true };
  }
  resume resume_vector phys n = record n {
    vector_load = record n.vector_load { addr = phys; phys_valid = true };
  }
  resume resume_memory phys n = record n {
    memory = record n.memory { addr = phys; phys_valid = true };
  }

  -- The load of the vector begins.
  abbrev pub enter : Core → Core
  enter n = record (walk_ended (squashed n)) {
    vector_load = record {
      active = true;
      started = false;
      virtual_addr = vector_entry_addr p e c;
      addr = vector_entry_addr p e c;
      phys_valid = not (paging_enabled p e c);
      epc = entry_epc p e c;
      flags = c.machine.flags;
    };
    fetch = record n.fetch {
      translate_virtual_addr = vector_entry_addr p e c;
      translate_access = access_read;
    };
  }

  -- The handler begins.
  abbrev start_handler : ℕ → Core → Core
  start_handler handler n =
      let m = n.machine in
      redirect_fetch p e c handler (record (clear_retire_stage c n) {
        vector_load = vector_dropped n.vector_load;
        machine = record m { regs = λ i. if i == 15 then handler else m.regs i };
      })

  -- The registers after each branch, from those that the branches share.
  unfoldable pub act : Branch → Core → Core
  act stopped n = walk_ended (clear_inflight n)
  act bus_lockup n = lock_up (walk_ended (squashed n))
  act vector_lockup n = lock_up (vector_cleared (walk_ended (squashed n)))
  act vector_translated n =
      resume resume_vector (translated_phys p e c c.vector_load.virtual_addr) n
  act memory_translated n = resume resume_memory (translated_phys p e c c.memory.virtual_addr) n
  act fetch_translated n =
      resume resume_fetch (translated_phys p e c c.fetch.translate_virtual_addr) n
  act vector_walk n = walk_from c.vector_load.virtual_addr access_read resume_vector n
  act memory_walk n =
      walk_from c.memory.virtual_addr (if c.memory.write then access_write else access_read)
        resume_memory n
  act fetch_walk n = walk_from c.fetch.translate_virtual_addr access_execute resume_fetch n
  act preempt_lockup n = lock_up (walk_ended (squashed n))
  act entry n = enter n
  act walk_response n =
      if walk_response_error p e c then lock_up (walk_ended (squashed n)) else record n {
        walk = record n.walk {
          processing = true;
          walk = record c.walk.walk { pte_latched = (lsu_out p e c).response_load_value };
        };
      }
  act walk_leaf n = resume c.walk.resume_kind (walk_result_phys c.walk.walk) (walk_ended n)
  act walk_descend n = record n {
    walk = record n.walk { processing = false; started = false; walk = descended c.walk.walk };
  }
  act vector_response n =
      if vector_arrived p e c
      then start_handler (lsu_out p e c).response_load_value n
      else lock_up (vector_cleared (squashed n))
  act retire_stop n = squashed n
  act advancing n = advance p e c n
