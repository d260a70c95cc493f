-- ===== src/Core/Translate.antt =====
-- The translation of addresses in the v3 core, hdl/little64_cores/v3/core.py: the checks before a page
-- walk for the fetch, for a memory access and for the load of a vector, and the state of the walk.
use little.Base.{ℕ, Bool, not, ◌&&◌, ◌||◌, ◌==◌, if◌then◌else◌, slice, bit_and}
use little.Core.State.{Params, Core, Inputs, WalkResume, resume_vector}
use little.Core.Stages.{paging_enabled, user_mode, tlb_lookup, lsu_out}
use little.Fields.{is_canonical39, encode_aux}
use little.Isa.{exec_align, page_fault_canonical, page_fault_reserved}
use little.Walker
use little.Walker.{access_write, access_execute}

abbrev pub access_read : ℕ
access_read = 0

abbrev aux_subtype_none : ℕ
aux_subtype_none = 0

abbrev pub aux_subtype_reserved_bit : ℕ
aux_subtype_reserved_bit = 4

abbrev aux_subtype_canonical : ℕ
aux_subtype_canonical = 5

-- The cause and the detail of an address that is not canonical, or of a table that is not aligned.
unfoldable pub address_fault_cause : ℕ → ℕ
address_fault_cause addr =
    if not (is_canonical39 addr) then page_fault_canonical else page_fault_reserved

unfoldable pub address_fault_aux : ℕ → ℕ
address_fault_aux addr =
    if not (is_canonical39 addr)
    then encode_aux aux_subtype_canonical 2
    else encode_aux aux_subtype_reserved_bit 2

abbrev is_vector : WalkResume → Bool
is_vector resume_vector = Bool.true
is_vector _ = Bool.false

module _ (p : Params) (e : Inputs) (c : Core) where
  unfoldable pub tlb_hit_ok : Bool
  tlb_hit_ok =
      Walker.tlb_hit_ok (user_mode p e c) c.fetch.translate_access (tlb_lookup p e c).hit
        (tlb_lookup p e c).perm

  -- `(page_table_root_physical & 0xFFF) == 0`.
  unfoldable pub root_aligned : Bool
  root_aligned = bit_and c.special_regs.page_table_root_physical 0xfff == 0

  -- An address that the buffer translates, or that needs no translation.
  unfoldable pub is_translated : ℕ → Bool
  is_translated addr =
      not (paging_enabled p e c) || (is_canonical39 addr && root_aligned && tlb_hit_ok)

  -- An address that no walk can begin with.
  unfoldable pub is_refused : ℕ → Bool
  is_refused addr = paging_enabled p e c && (not (is_canonical39 addr) || not root_aligned)

  unfoldable pub translated_phys : ℕ → ℕ
  translated_phys addr = if paging_enabled p e c then (tlb_lookup p e c).paddr else addr

  unfoldable pub memory_translate_ready : Bool
  memory_translate_ready =
      c.memory.valid
      && not c.memory.phys_valid
      && not c.walk.active
      && not c.vector_load.active
      && not c.pending_fault.pending

  unfoldable pub memory_translate_complete : Bool
  memory_translate_complete = memory_translate_ready && is_translated c.memory.virtual_addr

  unfoldable pub memory_fault : Bool
  memory_fault = memory_translate_ready && is_refused c.memory.virtual_addr

  unfoldable pub vector_translate_ready : Bool
  vector_translate_ready =
      c.vector_load.active
      && not c.vector_load.phys_valid
      && not c.walk.active
      && not c.pending_fault.pending

  unfoldable pub vector_translate_complete : Bool
  vector_translate_complete = vector_translate_ready && is_translated c.vector_load.virtual_addr

  unfoldable pub vector_translate_lockup : Bool
  vector_translate_lockup = vector_translate_ready && is_refused c.vector_load.virtual_addr

  -- The fetch is translated when the pipeline is empty.
  unfoldable pub fetch_translate_ready : Bool
  fetch_translate_ready =
      not c.fetch.phys_valid
      && not c.walk.active
      && not c.decode.valid
      && not c.execute.valid
      && not c.memory.valid
      && not c.retire.valid
      && not c.vector_load.active
      && not c.pending_fault.pending

  -- `translate_virtual_addr[0]`.
  unfoldable pub fetch_misaligned : Bool
  fetch_misaligned = slice c.fetch.translate_virtual_addr 0 1 == 1

  unfoldable pub fetch_translate_complete : Bool
  fetch_translate_complete =
      fetch_translate_ready && not fetch_misaligned && is_translated c.fetch.translate_virtual_addr

  unfoldable pub fetch_fault : Bool
  fetch_fault =
      fetch_translate_ready && (fetch_misaligned || is_refused c.fetch.translate_virtual_addr)

  unfoldable pub fetch_fault_cause : ℕ
  fetch_fault_cause =
      if fetch_misaligned then exec_align else address_fault_cause c.fetch.translate_virtual_addr

  unfoldable pub fetch_fault_aux : ℕ
  fetch_fault_aux =
      if fetch_misaligned
      then encode_aux aux_subtype_none 0
      else address_fault_aux c.fetch.translate_virtual_addr

  unfoldable pub walk_request_valid : Bool
  walk_request_valid = c.walk.active && not c.walk.processing && not c.walk.started

  unfoldable pub walk_request_start : Bool
  walk_request_start = walk_request_valid && (lsu_out p e c).request_ready

  unfoldable pub walk_response_valid : Bool
  walk_response_valid = c.walk.active && not c.walk.processing && (lsu_out p e c).response_valid

  unfoldable pub walk_response_error : Bool
  walk_response_error = walk_response_valid && (lsu_out p e c).response_error

  unfoldable pub walk_fault : Bool
  walk_fault = c.walk.processing && Walker.walk_fault (user_mode p e c) c.walk.walk

  unfoldable pub walk_leaf_success : Bool
  walk_leaf_success = c.walk.processing && Walker.walk_leaf_success (user_mode p e c) c.walk.walk

  unfoldable pub walk_fault_trap : Bool
  walk_fault_trap = walk_fault && not (is_vector c.walk.resume_kind)

  unfoldable pub walk_fault_lockup : Bool
  walk_fault_lockup = walk_fault && is_vector c.walk.resume_kind
