-- ===== src/Core/Order/Branches.antt =====
-- The program order of the v3 core over the cycles that hold the pipeline or empty it.
use little.Base.{Bool, true, false, ◌||◌, ◌==◌, ◌≡◌, ◌⊎◌, inl, inr, Bool-cases, arith}
use little.Core.State.{Params, Core, Inputs, WalkResume}
use little.Core.Traps.{entry_start, next_fault, trap_start, irq_start, trap_preempt_lockup}
use little.Core.Cycle.{components, retired, zero_cleared}
use little.Core.Order.View.{View, view}
use little.Core.Order.Waiting.{stops}
use little.Core.Order.Signals.{settled_out}
use little.Core.Order.Invariant.{
  InOrder, is_broken, none_younger, write_back-committed, write_back-idle, write_back-stopped,
}
use little.Execute.{ExecuteOutputs}
use little.Retire.{retire}

module _ (p : Params) (e : Inputs) (c : Core) where
  -- The conditions of a branch that leaves the instructions in the pipeline.
  pub record Keeps : Type 0 where
    pub running : c.machine.halted || c.machine.locked_up ≡ false
    pub calm : c.pending_fault.pending ≡ true → c.vector_load.active ≡ true
    pub quiet : entry_start p e c ≡ true → (c.retire.valid ≡ false) × (c.execute.valid ≡ false)

  pub early :
      c.machine.halted || c.machine.locked_up ≡ false → c.pending_fault.pending ≡ false → Keeps
  unfolding entry_start trap_start irq_start
  early r h = record { running = r; calm = ground arith; quiet = ground arith }

  pub late :
      c.machine.halted || c.machine.locked_up ≡ false
      → trap_preempt_lockup p e c ≡ false
      → entry_start p e c ≡ false
      → Keeps
  unfolding entry_start trap_start irq_start
  late r t h = record { running = r; calm = ground arith; quiet = ground arith }

  -- The registers before the control acts.
  abbrev pub begun : Core
  unfolding components retired
  begun = retired p e c (components p e c c)

  unbroken :
      InOrder (settled_out p e c) (view c)
      → Keeps
      → is_broken (view begun) ≡ false
      → is_broken (view c) ≡ false
  unfolding components retired next_fault retire
  unbroken inv k b =
      ground (arith, inv.ends, k.calm, k.quiet, write_back-stopped c.retire c.machine)

  -- Fetch has gone behind the instruction in the execute stage, of which `o` says where it goes.
  abbrev pub FetchedBehind : ExecuteOutputs → Type 0
  FetchedBehind o =
      (c.fetch.pc ≡ c.execute.post_increment_pc) ⊎ ((stops o ≡ true) ⊎ (c.fetch.pc ≡ o.next_pc))

  pub held-InOrder :
      (w : ExecuteOutputs)
      → InOrder (settled_out p e c) (view c)
      → Keeps
      → (c.execute.valid ≡ true → FetchedBehind (settled_out p e c) → FetchedBehind w)
      → InOrder w (view begun)
  unfolding components retired
  held-InOrder w inv k carries =
      let u = unbroken inv k in
      let done = write_back-committed c.retire c.machine in
      let idle = write_back-idle c.retire c.machine in
      record {
        retires = λ h l. inr (ground (arith, done));
        commits = inv.commits;
        ends = inv.ends;
        control = inv.control;
        final_alone = inv.final_alone;
        final_in_order = λ h. ground (arith, inv.final_in_order, inv.ends, done, idle);
        memory_in_order = λ h. ground (arith, inv.memory_in_order, inv.ends, done, idle);
        execute_in_order = λ h. ground (arith, inv.execute_in_order, inv.ends, done, idle);
        vector_alone = inv.vector_alone;
        decode_in_order = λ b h. ground (arith, u b, inv.decode_in_order, inv.ends, done, idle);
        fetch_after_decode = λ b h. inv.fetch_after_decode (u b) h;
        fetch_after_memory =
            λ b h l. ground (arith, u b, inv.fetch_after_memory, inv.ends, done, idle);
        fetch_after_execute = λ b h l. carries l (inv.fetch_after_execute (u b) h l);
      }

-- A pipeline without instructions.
pub emptied-InOrder :
    (w : ExecuteOutputs) (v : View)
    → none_younger v ≡ true
    → v.retire.valid ≡ false
    → (is_broken v ≡ false → v.fetch_pc ≡ v.machine.regs 15)
    → InOrder w v
emptied-InOrder w v h k f = record {
  retires = λ x y. ground arith;
  commits = λ x y. ground arith;
  ends = λ x. ground arith;
  control = λ x y. ground arith;
  final_alone = λ x. ground arith;
  final_in_order = λ x. ground arith;
  memory_in_order = λ x. ground arith;
  execute_in_order = λ x. ground arith;
  vector_alone = λ x. ground arith;
  decode_in_order = λ b x. ground arith;
  fetch_after_decode = λ b x. ground arith;
  fetch_after_memory = λ b x y. ground (arith, f);
  fetch_after_execute = λ b x y. ground arith;
}

-- The clearing of register 0 does not matter to the order.
pub zero_cleared-InOrder :
    (p : Params) (e : Inputs) (c n : Core) (w : ExecuteOutputs)
    → InOrder w (view n)
    → InOrder w (view (zero_cleared p e c n))
unfolding zero_cleared
zero_cleared-InOrder p e c n w i = elim (Bool-cases (c.machine.regs 0 == 0)) [
  | inl z ↦ rw z i
  | inr z ↦ rw z (record {
    retires = i.retires;
    commits = i.commits;
    ends = i.ends;
    control = i.control;
    final_alone = i.final_alone;
    final_in_order = i.final_in_order;
    memory_in_order = i.memory_in_order;
    execute_in_order = i.execute_in_order;
    vector_alone = i.vector_alone;
    decode_in_order = i.decode_in_order;
    fetch_after_decode = i.fetch_after_decode;
    fetch_after_memory = i.fetch_after_memory;
    fetch_after_execute = i.fetch_after_execute;
  })
]

-- The physical addresses and the walk do not matter either.
pub walk-InOrder :
    (w : ExecuteOutputs) (v : View) (vector_phys memory_phys line_valid active processing : Bool)
    (kind : WalkResume)
    → InOrder w v
    → InOrder w (record v {
      vector_phys = vector_phys;
      memory_phys = memory_phys;
      line_valid = line_valid;
      walk_active = active;
      walk_processing = processing;
      walk_kind = kind;
    })
walk-InOrder w v vector_phys memory_phys line_valid active processing kind i = record {
  retires = i.retires;
  commits = i.commits;
  ends = i.ends;
  control = i.control;
  final_alone = i.final_alone;
  final_in_order = i.final_in_order;
  memory_in_order = i.memory_in_order;
  execute_in_order = i.execute_in_order;
  vector_alone = i.vector_alone;
  decode_in_order = i.decode_in_order;
  fetch_after_decode = i.fetch_after_decode;
  fetch_after_memory = i.fetch_after_memory;
  fetch_after_execute = i.fetch_after_execute;
}
