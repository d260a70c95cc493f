-- ===== src/Core/Order/Retiring.antt =====
-- The older instructions in the pipeline of the v3 core over an advance: those that retire, that have
-- finished an access, in the memory stage and in the execute stage.
use little.Base.{true, false, ◌||◌, ◌≡◌, inl, arith}
use little.Core.State.{Params, Core, Inputs}
use little.Core.Traps.{entry_start, next_fault}
use little.Core.Stages.{memory_redirect, memory_error, memory_final_entry}
use little.Core.Handover.{execute_flush_younger, execute_out}
use little.Core.Finished.{memory_result, cached_result}
use little.Core.Cycle.{components, retired}
use little.Core.Order.View.{View, view, advanced, execute_leaves}
use little.Core.Order.Waiting.{stops}
use little.Core.Order.Signals.{
  settled_out, to_memory, to_retire, redirecting, not_redirecting, finished, chained, advancing_lem,
  accepting, not_flushing, straight,
}
use little.Core.Order.Invariant.{
  InOrder, after_retire, after_final, after_memory, write_back-committed, write_back-idle,
  write_back-stopped, RetiresInOrder, ends_order, none_younger, is_broken,
}
use little.Retire.{execute_entry, retire}

module _ (p : Params) (e : Inputs) (c : Core) (inv : InOrder (settled_out p e c) (view c))
    (no_error : memory_error p e c ≡ false) (no_entry : entry_start p e c ≡ false)
    (running : c.machine.halted || c.machine.locked_up ≡ false)
    (calm : c.pending_fault.pending ≡ true → c.vector_load.active ≡ true) where
  abbrev pub next : View
  unfolding components retired
  next = advanced p e c (retired p e c (components p e c c))

  result_lem :
      ((memory_result p e c).valid ≡ true)
      × ((memory_result p e c).commit_pc ≡ c.memory.commit_pc)
      × ((memory_result p e c).commit_next_pc ≡ c.memory.next_pc)
  unfolding memory_result cached_result
  result_lem = ground arith

  pub next-final_in_order : next.final_valid ≡ true → next.final_pc ≡ after_retire next
  unfolding components retired memory_final_entry execute_entry
  next-final_in_order h = ground (
    arith,
    finished p e c,
    result_lem,
    inv.final_alone,
    inv.memory_in_order,
    inv.ends,
    to_retire p e c,
    write_back-committed c.retire c.machine,
    write_back-idle c.retire c.machine,
  )

  pub next-retires : next.retire.valid ≡ true → next.retire.commit ≡ true → RetiresInOrder next
  unfolding components retired memory_final_entry execute_entry
  next-retires h k = inl (
      ground (
        arith,
        inv.final_in_order,
        inv.execute_in_order,
        inv.ends,
        to_retire p e c,
        write_back-committed c.retire c.machine,
        write_back-idle c.retire c.machine,
      ))

  pub next-commits :
      next.retire.valid ≡ true
      → next.retire.commit ≡ true
      → next.retire.trap || next.retire.halt || next.retire.lockup ≡ false
  unfolding components retired memory_final_entry execute_entry
  next-commits h k = ground arith

  pub next-ends :
      ends_order next ≡ true
      → (next.retire.trap || next.retire.halt || next.retire.lockup ≡ true)
        × (none_younger next ≡ true)
  unfolding components retired memory_final_entry execute_entry execute_flush_younger
  next-ends h =
      ground (
        arith,
        to_retire p e c,
        finished p e c,
        chained p e c,
        accepting p e c,
        advancing_lem p e c,
      )

  pub next-control :
      next.retire.valid ≡ true
      → next.retire.cpu_control_write ≡ true
      → (next.memory_valid ≡ false) × (next.final_valid ≡ false)
  unfolding components retired memory_final_entry execute_entry
  next-control h k = ground (arith, to_retire p e c, finished p e c, chained p e c)

  pub next-final_alone : next.final_valid ≡ true → next.memory_valid ≡ false
  unfolding components retired
  next-final_alone h = ground (arith, finished p e c, result_lem, inv.final_alone)

  pub next-memory_in_order : next.memory_valid ≡ true → next.memory_pc ≡ after_final next
  unfolding components retired memory_final_entry execute_entry
  next-memory_in_order h = ground (
    arith,
    finished p e c,
    to_memory p e c,
    to_retire p e c,
    not_redirecting p e c,
    inv.final_alone,
    inv.memory_in_order,
    inv.execute_in_order,
    inv.ends,
    write_back-committed c.retire c.machine,
    write_back-idle c.retire c.machine,
  )

  pub next-vector_alone :
      next.vector_active ≡ true → (none_younger next ≡ true) × (next.retire.valid ≡ false)
  unfolding components retired memory_final_entry execute_entry
  next-vector_alone h = ground (
    arith,
    inv.vector_alone,
    finished p e c,
    chained p e c,
    to_memory p e c,
    to_retire p e c,
    accepting p e c,
    advancing_lem p e c,
  )

  -- Where the order is not given up after the advance, it was not before.
  pub unbroken : is_broken next ≡ false → is_broken (view c) ≡ false
  unfolding components retired next_fault retire
  unbroken h = ground (arith, inv.ends, write_back-stopped c.retire c.machine)

  -- The address predicted to follow the memory stage, where the execute stage keeps its instruction.
  pub after_memory_of_stay :
      ends_order (view c) ≡ false
      → memory_redirect p e c ≡ false
      → execute_leaves p e c ≡ false
      → after_memory next ≡ after_memory (view c)
  unfolding components retired memory_final_entry execute_entry
  after_memory_of_stay h k l = ground (
    arith,
    finished p e c,
    to_memory p e c,
    to_retire p e c,
    not_redirecting p e c,
    inv.final_alone,
    result_lem,
    write_back-committed c.retire c.machine,
    write_back-idle c.retire c.machine,
  )

  -- The same where it hands its instruction on, which does not end the order.
  pub after_memory_of_leave :
      execute_leaves p e c ≡ true
      → stops (execute_out p e c) ≡ false
      → after_memory next ≡ (execute_out p e c).next_pc
  unfolding components retired memory_final_entry execute_entry
  after_memory_of_leave h k = ground (
    arith,
    finished p e c,
    chained p e c,
    to_memory p e c,
    to_retire p e c,
    inv.final_alone,
    result_lem,
  )

  -- The same where a finished access jumps.
  pub after_memory_of_drop :
      memory_redirect p e c ≡ true → after_memory next ≡ c.memory_final.next_pc
  unfolding components retired memory_final_entry execute_entry
  after_memory_of_drop h =
      ground
        (arith, finished p e c, to_memory p e c, redirecting p e c, inv.final_alone, result_lem)

  -- An instruction that stops ends the order when it leaves the execute stage.
  pub ends_of_leave :
      execute_leaves p e c ≡ true → stops (execute_out p e c) ≡ true → ends_order next ≡ true
  unfolding components retired memory_final_entry execute_entry
  ends_of_leave h k = ground (arith, to_memory p e c, to_retire p e c)

  pub next-execute_in_order : next.execute.valid ≡ true → next.execute.pc ≡ after_memory next
  unfolding components retired
  next-execute_in_order h = ground (
    arith,
    after_memory_of_stay,
    after_memory_of_leave,
    advancing_lem p e c,
    not_flushing p e c,
    straight p e c,
    inv.ends,
    inv.vector_alone,
    inv.execute_in_order,
    inv.decode_in_order,
    redirecting p e c,
  )
