-- ===== src/Core/Faults.antt =====
-- What the special registers of the v3 core hold after an instruction that traps.
use little.Base.{ℕ, true, false, ◌==◌, if◌then◌else◌, ◌≡◌, ap, ◌∙◌, arith}
use little.Core.State.{Params, Core, Inputs, Fault}
use little.Core.Traps.{entry_start, trap_start, irq_start, next_fault, special_wires, is_reset}
use little.Core.Cycle.{step, components, retired}
use little.Core.Around.{step_around}
use little.Core.Order.Branches.{begun}
use little.Core.Order.Commit.{reached, reached-IsSound, step-IsSound}
use little.Registers.{Registers}
use little.Registers.Interrupts.{trap_entry_wins}
use little.Retire.{retire}

-- The fault of a trapping instruction waits in the next cycle.
pub record IsWaiting (c n : Core) : Type 0 where
  pub is_pending : n.pending_fault.pending ≡ true
  pub pc_is : n.pending_fault.pc ≡ c.retire.commit_pc
  pub cause_is : n.pending_fault.cause ≡ c.retire.trap_cause

begun-IsWaiting :
    (p : Params) (e : Inputs) (c : Core)
    → c.retire.valid ≡ true
    → c.retire.trap ≡ true
    → c.pending_fault.pending ≡ false
    → IsWaiting c (begun p e c)
unfolding components retired entry_start trap_start irq_start next_fault retire
begun-IsWaiting p e c v t free = ground arith

step-IsWaiting :
    (p : Params) (e : Inputs) (c : Core)
    → is_reset c.state ≡ false
    → IsWaiting c (begun p e c)
    → IsWaiting c (step p e c)
step-IsWaiting p e c running w =
    let same = (step_around p e c running).same_fault in
    record {
      is_pending = ap (λ (f : Fault). f.pending) same ∙ w.is_pending;
      pc_is = ap (λ (f : Fault). f.pc) same ∙ w.pc_is;
      cause_is = ap (λ (f : Fault). f.cause) same ∙ w.cause_is;
    }

-- The trap registers after an instruction that trapped, from the registers before they were written.
pub record Records (c : Core) (before after : Registers) : Type 0 where
  pub pc_recorded : after.trap_pc ≡ c.retire.commit_pc
  pub cause_recorded :
      after.trap_cause ≡ (if before.trap_cause == 0 then c.retire.trap_cause else before.trap_cause)

begun-Records :
    (p : Params) (e : Inputs) (c n : Core)
    → is_reset n.state ≡ false
    → IsWaiting c n
    → Records c n.special_regs (begun p e n).special_regs
unfolding components retired special_wires
begun-Records p e c n running w =
    let told =
      trap_entry_wins p.registers (special_wires p e n) n.special_regs
        (ground (arith, w.is_pending)) in
    record {
      pc_recorded = ground (arith, told.pc_is, w.pc_is);
      cause_recorded = ground (arith, told.cause_is, w.cause_is);
    }

-- In every state of a run from power-up: where an instruction that traps is in the retire stage and
-- no earlier fault waits, two cycles later the trap registers have its address and its cause, unless
-- they had a cause after the first cycle, which is kept; whatever software writes to them in the
-- second cycle.
pub trap-Recorded :
    (p : Params) (n : ℕ) (es : ℕ → Inputs) (e e' : Inputs)
    → (reached p n es).retire.valid ≡ true
    → (reached p n es).retire.trap ≡ true
    → (reached p n es).pending_fault.pending ≡ false
    → Records
        (reached p n es)
        (step p e (reached p n es)).special_regs
        (step p e' (step p e (reached p n es))).special_regs
trap-Recorded p n es e e' v t free =
    let c = reached p n es in
    let s = reached-IsSound p n es in
    let later = step-IsSound p e c s in
    let waiting = step-IsWaiting p e c s.started (begun-IsWaiting p e c v t free) in
    let told = begun-Records p e' c (step p e c) later.started waiting in
    let same = (step_around p e' (step p e c) later.started).same_registers in
    record {
      pc_recorded = ap (λ (r : Registers). r.trap_pc) same ∙ told.pc_recorded;
      cause_recorded = ap (λ (r : Registers). r.trap_cause) same ∙ told.cause_recorded;
    }
