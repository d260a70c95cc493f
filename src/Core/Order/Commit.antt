-- ===== src/Core/Order/Commit.antt =====
-- The order in which the v3 core commits instructions, over all runs from power-up.
use little.Base.{
  ℕ, zero, suc, true, false, ◌||◌, ◌==◌, ◌≡◌, refl, ◌∙◌, ap, Bool-cases, inl, inr, arith,
}
use little.Core.State.{Params, Core, Inputs}
use little.Core.PowerUp.{power_up}
use little.Core.Traps.{is_reset, irq_start, trap_start, entry_epc}
use little.Core.Control.{branch}
use little.Core.Cycle.{step, after, components, retired, boot, zero_cleared}
use little.Core.Order.View.{view}
use little.Core.Order.Signals.{settled_out}
use little.Core.Order.Invariant.{InOrder, RetiresInOrder}
use little.Core.Order.Branches.{begun, emptied-InOrder, zero_cleared-InOrder}
use little.Core.Order.Walking.{idle-WalkOwns}
use little.Core.Order.Owners.{acted, Owns, acted-Owns}
use little.Core.Order.Program.{acted-InOrder}
use little.Core.Stopped.{next_state_shown}
use little.Core.Around.{acted_around, zero_cleared_around}

zero_cleared-Owns :
    (p : Params) (e : Inputs) (c n : Core)
    → Owns p e c (view n)
    → Owns p e c (view (zero_cleared p e c n))
unfolding zero_cleared
zero_cleared-Owns p e c n o = elim (Bool-cases (c.machine.regs 0 == 0)) [
  | inl h ↦ rw h o
  | inr h ↦ rw h (λ r.
      let t = o r in
      record {
        for_memory = t.for_memory;
        for_fetch = t.for_fetch;
        for_vector = t.for_vector;
        processes = t.processes;
      })
]

shown : (p : Params) (e : Inputs) (c : Core) → is_reset (begun p e c).state ≡ false
unfolding components retired
shown p e c = next_state_shown p e c

-- The core after its first cycle, at any time.
pub record IsSound (p : Params) (c : Core) : Type 0 where
  pub started : is_reset c.state ≡ false
  pub order : (e : Inputs) → InOrder (settled_out p e c) (view c)
  pub owners : (e : Inputs) → Owns p e c (view c)

pub step-IsSound : (p : Params) (e : Inputs) (c : Core) → IsSound p c → IsSound p (step p e c)
unfolding step
step-IsSound p e c s =
    let b = branch p e c in
    let n = acted p e c b in
    let z = zero_cleared p e c n in
    let around = zero_cleared_around p e c n in
    let inside = acted_around p e c b in
    let registers : z.special_regs ≡ (begun p e c).special_regs =
      around.around.same_registers ∙ inside.same_registers in
    rw s.started (record {
      started = ap is_reset (around.around.same_state ∙ inside.same_state) ∙ shown p e c;
      order = λ e'.
          zero_cleared-InOrder p e c n (settled_out p e' z) (
            acted-InOrder p e c e' z (s.order e) (s.owners e) registers b refl around.same_execute);
      owners = λ e'. zero_cleared-Owns p e c n (acted-Owns p e c b refl (s.order e) (s.owners e));
    })

boot-IsSound : (p : Params) (e : Inputs) → IsSound p (step p e (power_up p))
unfolding step power_up boot components
boot-IsSound p e = record {
  started = refl;
  order = λ e'. emptied-InOrder _ _ refl refl (λ b. refl);
  owners = λ e' r. idle-WalkOwns _ refl refl;
}

after-IsSound :
    (p : Params) (n : ℕ) (es : ℕ → Inputs) (c : Core) → IsSound p c → IsSound p (after p n es c)
unfolding after
after-IsSound p zero es c s = s
after-IsSound p (suc n) es c s =
    after-IsSound p n (λ k. es (suc k)) (step p (es 0) c) (step-IsSound p (es 0) c s)

-- The core after power-up and then some more cycles than one.
abbrev pub reached : Params → ℕ → (ℕ → Inputs) → Core
reached p n es = after p (suc n) es (power_up p)

pub reached-IsSound : (p : Params) (n : ℕ) (es : ℕ → Inputs) → IsSound p (reached p n es)
unfolding after
reached-IsSound p n es =
    after-IsSound p n (λ k. es (suc k)) (step p (es 0) (power_up p)) (boot-IsSound p (es 0))

-- In every state that a run from power-up comes to after its first cycle, an instruction that
-- retires and commits is the one at the program counter; or it retires once more, after it committed
-- in the cycle before with the same address, and the program counter is what it leaves.
pub retires_in_order :
    (p : Params) (n : ℕ) (es : ℕ → Inputs)
    → (reached p n es).retire.valid ≡ true
    → (reached p n es).retire.commit ≡ true
    → RetiresInOrder (view (reached p n es))
retires_in_order p n es = ((reached-IsSound p n es).order (es 0)).retires

-- In every such state in which an interrupt starts while the core runs and no finished memory access
-- waits to retire, the address to return to is the program counter.
pub interrupt_epc_lem :
    (p : Params) (n : ℕ) (es : ℕ → Inputs) (e : Inputs)
    → irq_start p e (reached p n es) ≡ true
    → (reached p n es).machine.halted || (reached p n es).machine.locked_up ≡ false
    → (reached p n es).memory_final.valid ≡ false
    → entry_epc p e (reached p n es) ≡ (reached p n es).machine.regs 15
unfolding irq_start entry_epc trap_start
interrupt_epc_lem p n es e h r f =
    let i = (reached-IsSound p n es).order e in ground (arith, i.fetch_after_memory)
