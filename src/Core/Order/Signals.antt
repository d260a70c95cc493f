-- ===== src/Core/Order/Signals.antt =====
-- What the signals of the v3 core that move instructions say of its registers.
use little.Base.{true, false, ◌||◌, ◌≡◌, refl, ◌∙◌, sym, arith}
use little.Core.State.{Params, Core, Inputs}
use little.Core.Stages.{
  memory_to_retire, memory_redirect, memory_chain_continue, memory_out, memory_in,
}
use little.Core.Handover.{
  execute_to_memory, execute_to_retire, execute_out, execute_in, special_write_access_fault,
  execute_memory_start, execute_redirect, execute_flush_younger, execute_slot_available,
  decode_advance,
}
use little.Core.Advance.{fetch_accept, frontend_accept}
use little.Core.Order.Waiting.{
  Persists, execute-Persists, stops, memory_start-with_fault, execute-IsPlainAccess,
}
use little.Execute.{execute, ExecuteOutputs}
use little.MemoryStage

module _ (p : Params) (e : Inputs) (c : Core) where
  -- The execute stage's answer, where no write of a special register is refused.
  abbrev pub settled_out : ExecuteOutputs
  unfolding execute_in
  settled_out = execute (execute_in p e c false)

  -- The answer to a write of a special register changes it only towards a trap.
  pub settled : Persists settled_out (execute_out p e c)
  unfolding execute_in execute_out
  settled =
      let i = execute_in p e c false in
      execute-Persists
        (record {
          interrupt_eflags = i.interrupt_eflags;
          interrupt_cpu_control = i.interrupt_cpu_control;
          ll_reservation_valid = i.ll_reservation_valid;
          ll_reservation_addr = i.ll_reservation_addr;
          special_read_data = i.special_read_data;
          special_write_access_fault = special_write_access_fault p e c;
        })
        i refl

  start_lem : execute_memory_start p e c ≡ (execute_out p e c).memory_start
  unfolding execute_memory_start execute_out execute_in
  start_lem = sym (memory_start-with_fault _ (execute_in p e c false))

  pub record GoesToMemory : Type 0 where
    pub from_execute : c.execute.valid ≡ true
    pub memory_free : c.memory.valid ≡ false
    pub not_redirected : memory_redirect p e c ≡ false
    pub access_next : (execute_out p e c).memory_next_pc ≡ c.execute.post_increment_pc
    pub plain_next : (execute_out p e c).next_pc ≡ c.execute.post_increment_pc
    pub plain_stops : stops (execute_out p e c) ≡ false

  pub to_memory : execute_to_memory p e c ≡ true → GoesToMemory
  unfolding execute_to_memory execute_out execute_in
  to_memory h =
      let started : (execute_out p e c).memory_start ≡ true = sym start_lem ∙ ground arith in
      let plain = execute-IsPlainAccess (execute_in p e c (special_write_access_fault p e c)) in
      record {
        from_execute = ground arith;
        memory_free = ground arith;
        not_redirected = ground arith;
        access_next = plain.access_next started;
        plain_next = plain.plain_next started;
        plain_stops = plain.plain_stops started;
      }

  pub to_retire :
      execute_to_retire p e c ≡ true
      → (c.execute.valid ≡ true)
        × (c.memory.valid ≡ false)
        × (c.memory_final.valid ≡ false)
        × (memory_redirect p e c ≡ false)
        × (execute_to_memory p e c ≡ false)
  unfolding execute_to_retire execute_to_memory
  to_retire h = ground arith

  pub redirecting : memory_redirect p e c ≡ true → c.memory_final.valid ≡ true
  unfolding memory_redirect
  redirecting h = ground arith

  pub not_redirecting :
      c.memory_final.valid ≡ true
      → memory_redirect p e c ≡ false
      → c.memory_final.next_pc ≡ c.memory_final.commit_next_pc
  unfolding memory_redirect
  not_redirecting f h = ground arith

  pub finished :
      memory_to_retire p e c ≡ true
      → (c.memory.valid ≡ true) × (memory_chain_continue p e c ≡ false)
  unfolding memory_to_retire memory_chain_continue memory_out MemoryStage.outputs memory_in
  finished h = ground arith

  pub chained : memory_chain_continue p e c ≡ true → c.memory.valid ≡ true
  unfolding memory_chain_continue
  chained h = ground arith

  pub advancing_lem :
      decode_advance p e c ≡ true
      → (c.decode.valid ≡ true)
        × (execute_flush_younger p e c ≡ false)
        × (memory_redirect p e c ≡ false)
        × (c.execute.valid ≡ true → (execute_to_memory p e c || execute_to_retire p e c) ≡ true)
  unfolding decode_advance execute_slot_available
  advancing_lem h = ground arith

  pub accepting :
      fetch_accept p e c ≡ true
      → (execute_flush_younger p e c ≡ false)
        × (memory_redirect p e c ≡ false)
        × (c.vector_load.active ≡ false)
        × (c.decode.valid ≡ true → decode_advance p e c ≡ true)
  unfolding fetch_accept frontend_accept
  accepting h = ground arith

  pub jumping :
      execute_redirect p e c ≡ true
      → (c.execute.valid ≡ true)
        × (memory_redirect p e c ≡ false)
        × (execute_flush_younger p e c ≡ true)
        × (stops (execute_out p e c) ≡ false)
  unfolding execute_redirect execute_flush_younger
  jumping h = ground arith

  pub flushing :
      execute_flush_younger p e c ≡ true
      → execute_redirect p e c ≡ false
      → (c.execute.valid ≡ true) × (stops (execute_out p e c) ≡ true)
  unfolding execute_flush_younger
  flushing h k = ground arith

  pub not_flushing :
      execute_flush_younger p e c ≡ false
      → c.execute.valid ≡ true
      → (execute_redirect p e c ≡ false) × (stops (execute_out p e c) ≡ false)
  unfolding execute_flush_younger
  not_flushing h k = ground arith

  pub straight :
      c.execute.valid ≡ true
      → memory_redirect p e c ≡ false
      → execute_redirect p e c ≡ false
      → stops (execute_out p e c) ≡ false
      → (execute_out p e c).next_pc ≡ c.execute.post_increment_pc
  unfolding execute_redirect
  straight h k l s = ground arith
