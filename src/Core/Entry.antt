-- ===== src/Core/Entry.antt =====
-- The start of an interrupt in the v3 core.
pub mod Bits
use little.Base.{
  ap, ◌∙◌, Option, some, none, bit_and, bit_or, ◌*◌, ◌%◌, ◌^◌, ◌≤◌, ◌<◌, ℕ, true, false, ◌||◌, ◌==◌,
  ◌≡◌, ◌≢◌, ◌⊎◌, refl, sym, Bool-cases, inl, inr, arith,
}
use little.Core.State.{Params, Core, Inputs}
use little.Core.Stages.{memory_error}
use little.Core.Handover.{
  fetch_error, paging_without_mmu, execute_special_write_commit, execute_to_retire,
}
use little.Core.Translate.{
  fetch_translate_ready, fetch_translate_complete, fetch_fault, is_refused, is_translated,
  memory_translate_ready, memory_translate_complete, vector_translate_ready,
  vector_translate_complete, vector_translate_lockup, walk_fault, walk_fault_lockup,
}
use little.Core.Traps.{
  is_some, value_or_zero, pending_irq, pending_irq_vector, irq_line_pending_mask, entry_vector,
  irq_start, trap_start, entry_start, next_fault, special_wires, trap_cpu_control_value,
  trap_preempt_lockup,
}
use little.Core.Control
use little.Core.Control.{Branch, branch, act}
use little.Core.Cycle.{step, components, retired, zero_cleared}
use little.Core.Order.Branches.{begun}
use little.Core.Order.Owners.{acted}
use little.Core.Order.Commit.{reached, reached-IsSound}
use little.Registers
use mathlib.Core.Path.{subst}
use little.Core.Entry.Bits.{
  IsLowest, IsHandling, first_pending-IsLowest, entered, entered-IsHandling,
}
use little.Registers.{masked, accepted, core_write, trap_step}
use little.Retire.{retire, write_back, write_register}

-- Neither stopped nor about to stop for an error of the bus.
abbrev pub Runs : Params → Inputs → Core → Type 0
Runs p e c =
    (c.machine.halted || c.machine.locked_up ≡ false)
    × (fetch_error p e c ≡ false)
    × (paging_without_mmu p e c ≡ false)

module _ (p : Params) (e : Inputs) (c : Core) where
  -- The control takes the interrupt up only where the fetch address is translated.
  branch_of_irq :
      Runs p e c
      → (c.walk.processing ≡ true → c.walk.active ≡ true)
      → irq_start p e c ≡ true
      → c.fetch.phys_valid ≡ true
      → branch p e c ≡ Control.entry
  unfolding branch irq_start trap_start entry_start trap_preempt_lockup memory_error
      vector_translate_lockup vector_translate_complete vector_translate_ready
      memory_translate_complete memory_translate_ready fetch_translate_complete
      fetch_translate_ready walk_fault_lockup walk_fault
  branch_of_irq r w h t = ground arith

  branch_of_late_irq :
      Runs p e c
      → (c.walk.processing ≡ true → c.walk.active ≡ true)
      → irq_start p e c ≡ true
      → c.fetch.phys_valid ≡ false
      → (branch p e c ≡ Control.fetch_translated) ⊎ (branch p e c ≡ Control.fetch_walk)
  unfolding branch irq_start memory_error vector_translate_lockup vector_translate_complete
      vector_translate_ready memory_translate_complete memory_translate_ready
      fetch_translate_complete fetch_translate_ready walk_fault_lockup walk_fault next_fault
      fetch_fault is_refused is_translated
  branch_of_late_irq r w h t = elim (Bool-cases (fetch_translate_complete p e c)) [
    | inl done ↦ inl (ground arith)
    | inr more ↦ inr (ground arith)
  ]

  -- The special registers are told of the interrupt in either case.
  entered_registers :
      irq_start p e c ≡ true
      → ((begun p e c).special_regs.cpu_control ≡ masked (trap_cpu_control_value p e c))
        × ((begun p e c).special_regs.interrupt_cpu_control ≡ masked c.special_regs.cpu_control)
  unfolding components retired special_wires entry_start irq_start execute_special_write_commit
      execute_to_retire Registers.step accepted core_write trap_step
  entered_registers h = ground arith

some_vector : (o : Option ℕ) → is_some o ≡ true → o ≡ some (value_or_zero o)
some_vector (some v) h = refl
some_vector none h = absurd (cc)

-- The lines that are pending, from the line at bit 1 on, and not masked.
abbrev pending_lines : Params → Inputs → Core → ℕ
pending_lines p e c =
    bit_and (bit_or c.special_regs.interrupt_states_high (e.irq_lines % 2 ^ p.irq_input_count * 2))
      c.special_regs.interrupt_mask_high

module _ (p : Params) (e : Inputs) (c : Core) (count : p.irq_input_count ≤ 63)
    (h : irq_start p e c ≡ true) where
  chosen-IsLowest :
      IsLowest p.irq_input_count (pending_lines p e c) (value_or_zero (pending_irq p e c))
  unfolding irq_start pending_irq irq_line_pending_mask
  chosen-IsLowest =
      first_pending-IsLowest p.irq_input_count (pending_lines p e c)
        (value_or_zero (pending_irq p e c)) (some_vector (pending_irq p e c) (ground arith))

  chosen_small : value_or_zero (pending_irq p e c) < 2 ^ 7
  chosen_small = omega (arith, chosen-IsLowest.vector_is, chosen-IsLowest.counted)

  chosen_control :
      trap_cpu_control_value p e c
      ≡ entered (value_or_zero (pending_irq p e c)) c.special_regs.cpu_control chosen_small
  unfolding trap_cpu_control_value entry_vector pending_irq_vector trap_start irq_start
  chosen_control = ground arith

  begun-IsHandling :
      IsHandling
        (value_or_zero (pending_irq p e c))
        c.special_regs.cpu_control
        (begun p e c).special_regs.cpu_control
  begun-IsHandling =
      subst (IsHandling (value_or_zero (pending_irq p e c)) c.special_regs.cpu_control)
        (sym ((entered_registers p e c h).0 ∙ ap masked chosen_control))
        (entered-IsHandling (value_or_zero (pending_irq p e c)) c.special_regs.cpu_control
          chosen_small)

-- What an interrupt does when it starts.
pub record Enters (p : Params) (e : Inputs) (c n : Core) : Type 0 where
  pub vector : ℕ
  pub vector_lowest : IsLowest p.irq_input_count (pending_lines p e c) vector
  pub handling : IsHandling vector c.special_regs.cpu_control n.special_regs.cpu_control
  pub control_saved : n.special_regs.interrupt_cpu_control ≡ masked c.special_regs.cpu_control
  pub vector_begun : n.vector_load.active ≡ c.fetch.phys_valid

zero_cleared-Enters :
    (p : Params) (e : Inputs) (c n : Core) → Enters p e c n → Enters p e c (zero_cleared p e c n)
unfolding zero_cleared
zero_cleared-Enters p e c n h = elim (Bool-cases (c.machine.regs 0 == 0)) [
  | inl z ↦ rw z h
  | inr z ↦ rw z (record {
    vector = h.vector;
    vector_lowest = h.vector_lowest;
    handling = h.handling;
    control_saved = h.control_saved;
    vector_begun = h.vector_begun;
  })
]

acted-Enters :
    (p : Params) (e : Inputs) (c : Core)
    → p.irq_input_count ≤ 63
    → Runs p e c
    → (c.walk.processing ≡ true → c.walk.active ≡ true)
    → irq_start p e c ≡ true
    → Enters p e c (act p e c (branch p e c) (begun p e c))
unfolding act components retired
acted-Enters p e c count r w h =
    let told = entered_registers p e c h in
    elim (Bool-cases c.fetch.phys_valid) [
      | inl t ↦ rw (branch_of_irq p e c r w h t) (record {
        vector = value_or_zero (pending_irq p e c);
        vector_lowest = chosen-IsLowest p e c count h;
        handling = begun-IsHandling p e c count h;
        control_saved = told.1;
        vector_begun = sym t;
      })
      | inr t ↦ elim (branch_of_late_irq p e c r w h t) [
        | inl b ↦ rw b (record {
          vector = value_or_zero (pending_irq p e c);
          vector_lowest = chosen-IsLowest p e c count h;
          handling = begun-IsHandling p e c count h;
          control_saved = told.1;
          vector_begun = ground (arith, unvectored p e c h);
        })
        | inr b ↦ rw b (record {
          vector = value_or_zero (pending_irq p e c);
          vector_lowest = chosen-IsLowest p e c count h;
          handling = begun-IsHandling p e c count h;
          control_saved = told.1;
          vector_begun = ground (arith, unvectored p e c h);
        })
      ]
    ]
  where
    unvectored :
        (p : Params) (e : Inputs) (c : Core) → irq_start p e c ≡ true → c.vector_load.active ≡ false
    unvectored p e c h = unfold irq_start in ground (arith, h)

-- With at most 63 interrupt lines, in every state of a run from power-up: an interrupt that starts
-- while the core runs is that of the lowest line that is pending and not masked. The control register
-- then has interrupts off, the bit for an interrupt set, the vector of the line, user mode off and
-- paging as it was, and the old one is saved; but the load of the handler's address begins exactly if
-- the fetch address is translated in that cycle.
pub irq_start-Enters :
    (p : Params) (n : ℕ) (es : ℕ → Inputs) (e : Inputs)
    → p.irq_input_count ≤ 63
    → Runs p e (reached p n es)
    → irq_start p e (reached p n es) ≡ true
    → Enters p e (reached p n es) (step p e (reached p n es))
unfolding step
irq_start-Enters p n es e count r h =
    let c = reached p n es in
    let s = reached-IsSound p n es in
    rw s.started
      (zero_cleared-Enters p e c _ (acted-Enters p e c count r (s.owners e r.0).processes h))

-- A core that has dropped what was in flight, with the registers of another.
pub record Dropped (c n : Core) : Type 0 where
  pub final_gone : n.memory_final.valid ≡ false
  pub retire_gone : n.retire.valid ≡ false
  pub registers_same : (i : ℕ) → i ≢ 0 → n.machine.regs i ≡ c.machine.regs i
  pub nothing_committed : n.machine.commit_valid ≡ false

acted-Dropped :
    (p : Params) (e : Inputs) (c : Core)
    → irq_start p e c ≡ true
    → Dropped c (zero_cleared p e c (acted p e c Control.entry))
unfolding act components retired zero_cleared irq_start write_back retire write_register
acted-Dropped p e c h = elim (Bool-cases (c.machine.regs 0 == 0)) [
  | inl z ↦ rw z (record {
    final_gone = refl;
    retire_gone = refl;
    registers_same = λ i k. ground arith;
    nothing_committed = ground arith;
  })
  | inr z ↦ rw z (record {
    final_gone = refl;
    retire_gone = refl;
    registers_same = λ i k. ground arith;
    nothing_committed = ground arith;
  })
]

-- In every state of a run from power-up, an interrupt that starts while the core runs and the fetch
-- address is translated drops what is in flight and writes no register but register 0, so a finished
-- memory access that has not retired yet never writes its result.
pub irq_start-Dropped :
    (p : Params) (n : ℕ) (es : ℕ → Inputs) (e : Inputs)
    → Runs p e (reached p n es)
    → irq_start p e (reached p n es) ≡ true
    → (reached p n es).fetch.phys_valid ≡ true
    → Dropped (reached p n es) (step p e (reached p n es))
unfolding step
irq_start-Dropped p n es e r h t =
    let c = reached p n es in
    let s = reached-IsSound p n es in
    rw (s.started, branch_of_irq p e c r (s.owners e r.0).processes h t) (acted-Dropped p e c h)
