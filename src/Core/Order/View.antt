-- ===== src/Core/Order/View.antt =====
-- The registers of the v3 core that its order depends on: the valid bits and the program counters of
-- the stages. Each part of an advance of the pipeline acts on them alone.
use little.Base.{
  ℕ, Bool, true, false, not, ◌&&◌, ◌||◌, if◌then◌else◌, Bool-cases, inl, inr, ◌≡◌, refl, ap, ◌∙◌,
}
use little.Core.State.{Params, Core, Inputs, DecodeLatch, ExecuteLatch, WalkResume, PipelineState}
use little.Registers.{Registers}
use little.Core.Stages.{
  paging_enabled, memory_to_retire, memory_redirect, memory_chain_continue, memory_error,
  memory_out, memory_final_entry, frontend_out,
}
use little.Core.Handover.{
  execute_to_memory, execute_to_retire, execute_out, execute_redirect, execute_flush_younger,
  decode_advance, decode_in,
}
use little.Core.Finished.{memory_result}
use little.Core.Advance.{
  advance, fetch_accept, next_fetch_pc, finish_memory, fill_retire, move_memory, note_requests,
  move_decode, fill_decode, move_fetch,
}
use little.Core.Clearing.{clear_retire_stage}
use little.Decode.{operands}
use little.Retire.{RetireEntry, Machine, execute_entry}

pub record View : Type 0 where
  pub decode : DecodeLatch
  pub execute : ExecuteLatch
  pub memory_valid : Bool
  pub memory_pc : ℕ
  pub memory_next : ℕ
  pub final_valid : Bool
  pub final_pc : ℕ
  pub final_next : ℕ
  pub final_jump : ℕ
  pub retire : RetireEntry
  pub fetch_pc : ℕ
  pub machine : Machine
  pub pending : Bool
  pub vector_active : Bool
  pub vector_phys : Bool
  pub memory_phys : Bool
  pub line_valid : Bool
  pub walk_active : Bool
  pub walk_processing : Bool
  pub walk_kind : WalkResume
  pub special_regs : Registers
  pub state : PipelineState

abbrev pub view : Core → View
view c = record {
  decode = c.decode;
  execute = c.execute;
  memory_valid = c.memory.valid;
  memory_pc = c.memory.commit_pc;
  memory_next = c.memory.next_pc;
  final_valid = c.memory_final.valid;
  final_pc = c.memory_final.commit_pc;
  final_next = c.memory_final.commit_next_pc;
  final_jump = c.memory_final.next_pc;
  retire = c.retire;
  fetch_pc = c.fetch.pc;
  machine = c.machine;
  pending = c.pending_fault.pending;
  vector_active = c.vector_load.active;
  vector_phys = c.vector_load.phys_valid;
  memory_phys = c.memory.phys_valid;
  line_valid = c.frontend.line_valid;
  walk_active = c.walk.active;
  walk_processing = c.walk.processing;
  walk_kind = c.walk.resume_kind;
  special_regs = c.special_regs;
  state = c.state;
}

-- What a latch is when its instruction is dropped.
abbrev no_decode : DecodeLatch → DecodeLatch
no_decode d = record d { valid = false; instruction = 0 }

abbrev no_execute : ExecuteLatch → ExecuteLatch
no_execute x = record x { valid = false; instruction = 0 }

module _ (p : Params) (e : Inputs) (c : Core) where
  abbrev finish_memory_view : View → View
  finish_memory_view v =
      let r = memory_result p e c in
      let done = memory_to_retire p e c in
      record v {
        final_valid = if done then r.valid else v.final_valid;
        final_pc = if done then r.commit_pc else v.final_pc;
        final_next = if done then r.commit_next_pc else v.final_next;
        final_jump = if done then r.next_pc else v.final_jump;
      }

  -- A finished access whose instruction jumps drops what follows it.
  abbrev pub drops : Bool
  drops = if c.memory_final.valid then memory_redirect p e c else false

  abbrev fill_retire_view : View → View
  fill_retire_view v = record v {
    retire =
        if c.memory_final.valid
        then memory_final_entry c.memory_final
        else if execute_to_retire p e c
        then execute_entry c.execute.valid c.execute.pc (execute_out p e c)
        else v.retire;
    final_valid =
        if c.memory_final.valid
        then (if memory_to_retire p e c then v.final_valid else false)
        else v.final_valid;
    decode = if drops then no_decode v.decode else v.decode;
    execute = if drops then no_execute v.execute else v.execute;
    memory_valid = if drops then false else v.memory_valid;
    memory_pc = if drops then 0 else v.memory_pc;
    memory_next = if drops then 0 else v.memory_next;
    fetch_pc = if drops then c.memory_final.next_pc else v.fetch_pc;
    memory_phys = if drops then false else v.memory_phys;
  }

  -- A value of the memory stage: kept for a chained store, cleared at the end, or a new one.
  abbrev of_memory {ℓ} : {A : Type ℓ} → A → A → A → A
  of_memory kept cleared fresh =
      if memory_chain_continue p e c
      then kept
      else if memory_to_retire p e c || memory_error p e c
      then cleared
      else if execute_to_memory p e c
      then fresh
      else kept

  abbrev move_memory_view : View → View
  move_memory_view v = record v {
    memory_valid = of_memory v.memory_valid false true;
    memory_pc = of_memory v.memory_pc 0 c.execute.pc;
    memory_next = of_memory v.memory_next 0 (execute_out p e c).memory_next_pc;
    memory_phys =
        if memory_chain_continue p e c
        then not (paging_enabled p e c)
        else of_memory v.memory_phys false (not (paging_enabled p e c));
  }

  -- The instruction in the execute stage moves on.
  abbrev pub execute_leaves : Bool
  execute_leaves = c.execute.valid && (execute_to_memory p e c || execute_to_retire p e c)

  abbrev move_decode_view : View → View
  move_decode_view v = record v {
    execute =
        if decode_advance p e c
        then record {
          valid = true;
          instruction = c.decode.instruction;
          pc = c.decode.pc;
          post_increment_pc = c.decode.post_increment_pc;
          operand_a = (operands (decode_in p e c)).operand_a;
          operand_b = (operands (decode_in p e c)).operand_b;
          flags = (operands (decode_in p e c)).flags;
        }
        else if execute_leaves
        then no_execute v.execute
        else v.execute;
  }

  abbrev fill_decode_view : View → View
  fill_decode_view v = record v {
    decode =
        if execute_flush_younger p e c
        then no_decode v.decode
        else if fetch_accept p e c
        then record {
          valid = true;
          instruction = (frontend_out p e c).instruction_word;
          pc = c.fetch.pc;
          post_increment_pc = next_fetch_pc p e c;
        }
        else if decode_advance p e c
        then no_decode v.decode
        else v.decode;
  }

  abbrev move_fetch_view : View → View
  move_fetch_view v = record v {
    fetch_pc =
        if execute_redirect p e c
        then (execute_out p e c).next_pc
        else if fetch_accept p e c
        then next_fetch_pc p e c
        else v.fetch_pc;
  }

  finish_memory-view : (n : Core) → view (finish_memory p e c n) ≡ finish_memory_view (view n)
  unfolding finish_memory
  finish_memory-view n = elim (Bool-cases (memory_to_retire p e c)) [
    | inl h ↦ rw h refl
    | inr h ↦ rw h refl
  ]

  fill_retire-view : (n : Core) → view (fill_retire p e c n) ≡ fill_retire_view (view n)
  unfolding fill_retire
  fill_retire-view n = elim (Bool-cases c.memory_final.valid) [
    | inl f ↦ elim (Bool-cases (memory_redirect p e c)) [
      | inl h ↦ rw (h, f) refl
      | inr h ↦ rw (h, f) refl
    ]
    | inr f ↦ elim (Bool-cases (execute_to_retire p e c)) [
      | inl h ↦ rw (h, f) refl
      | inr h ↦ rw (h, f) refl
    ]
  ]

  move_memory-view : (n : Core) → view (move_memory p e c n) ≡ move_memory_view (view n)
  unfolding move_memory
  move_memory-view n = elim (Bool-cases (memory_chain_continue p e c)) [
    | inl h ↦ rw h refl
    | inr h ↦ elim (Bool-cases (memory_to_retire p e c || memory_error p e c)) [
      | inl k ↦ rw (h, k) refl
      | inr k ↦ elim (Bool-cases (execute_to_memory p e c)) [
        | inl l ↦ rw (h, k, l) refl
        | inr l ↦ elim (Bool-cases (c.memory.valid && (memory_out p e c).start_request)) [
          | inl r ↦ rw (h, k, l, r) refl
          | inr r ↦ rw (h, k, l, r) refl
        ]
      ]
    ]
  ]

  note_requests-view : (n : Core) → view (note_requests p e c n) ≡ view n
  unfolding note_requests
  note_requests-view n = refl

  move_decode-view : (n : Core) → view (move_decode p e c n) ≡ move_decode_view (view n)
  unfolding move_decode
  move_decode-view n = elim (Bool-cases (decode_advance p e c)) [
    | inl h ↦ rw h refl
    | inr h ↦ elim (Bool-cases execute_leaves) [ inl k ↦ rw (h, k) refl | inr k ↦ rw (h, k) refl ]
  ]

  fill_decode-view : (n : Core) → view (fill_decode p e c n) ≡ fill_decode_view (view n)
  unfolding fill_decode
  fill_decode-view n = elim (Bool-cases (execute_flush_younger p e c)) [
    | inl h ↦ rw h refl
    | inr h ↦ elim (Bool-cases (fetch_accept p e c)) [
      | inl k ↦ rw (h, k) refl
      | inr k ↦ elim (Bool-cases (decode_advance p e c)) [
        | inl l ↦ rw (h, k, l) refl
        | inr l ↦ rw (h, k, l) refl
      ]
    ]
  ]

  move_fetch-view : (n : Core) → view (move_fetch p e c n) ≡ move_fetch_view (view n)
  unfolding move_fetch
  move_fetch-view n = elim (Bool-cases (execute_redirect p e c)) [
    | inl h ↦ rw h refl
    | inr h ↦ elim (Bool-cases (fetch_accept p e c)) [
      | inl k ↦ rw (h, k) refl
      | inr k ↦ rw (h, k) refl
    ]
  ]

  -- The view after an advance.
  abbrev pub advanced : Core → View
  advanced n = move_fetch_view (
      fill_decode_view (
        move_decode_view (
          move_memory_view
            (fill_retire_view (finish_memory_view (view (clear_retire_stage c n)))))))

  pub advance-view : (n : Core) → view (advance p e c n) ≡ advanced n
  unfolding advance
  advance-view n =
      let a = clear_retire_stage c n in
      let b = finish_memory p e c a in
      let d = fill_retire p e c b in
      let f = move_memory p e c d in
      let g = note_requests p e c f in
      let h = move_decode p e c g in
      let k = fill_decode p e c h in
      move_fetch-view k
      ∙ ap move_fetch_view (
          fill_decode-view h
          ∙ ap fill_decode_view (
              move_decode-view g
              ∙ ap move_decode_view (
                  note_requests-view f
                  ∙ move_memory-view d
                  ∙ ap move_memory_view
                      (fill_retire-view b ∙ ap fill_retire_view (finish_memory-view a)))))
