-- ===== src/Core/Privilege.antt =====
-- What an instruction in user mode can do to the control of the v3 core.
use little.Base.{true, false, ◌&&◌, ◌≡◌, ap, ◌∙◌, arith}
use little.Base.Bits.{bit_and_pow}
use little.Core.State.{Params, Core, Inputs}
use little.Core.Stages.{user_mode}
use little.Core.Handover.{execute_in, execute_out, special_write_access_fault}
use little.Core.Traps.{entry_start, special_wires, is_reset}
use little.Core.Cycle.{step, components, retired}
use little.Core.Around.{step_around}
use little.Execute.{is_user}
use little.Instructions.Outcome.{user_execute-IsUnprivileged}
use little.Registers.{Registers}
use little.Registers.Control.{user_control_stays}
use little.Retire.{retire}

-- The instruction in the execute stage asks for no halt and no write of the control register, and
-- over the cycle the control register and the root of the page table stay.
pub record IsConfined (p : Params) (e : Inputs) (c n : Core) : Type 0 where
  pub no_halt : (execute_out p e c).halt ≡ false
  pub no_control_write : (execute_out p e c).cpu_control_write ≡ false
  pub control_same : n.special_regs.cpu_control ≡ c.special_regs.cpu_control
  pub root_same : n.special_regs.page_table_root_physical ≡ c.special_regs.page_table_root_physical

module _ (p : Params) (e : Inputs) (c : Core) (user : user_mode p e c ≡ true) where
  user_input : is_user (execute_in p e c (special_write_access_fault p e c)) ≡ true
  unfolding user_mode execute_in
  user_input = ground (arith, bit_and_pow 17 c.special_regs.cpu_control)

  -- In a cycle of the v3 core in user mode in which no trap or interrupt is entered and no older
  -- instruction retires a write of the control register: the instruction in the execute stage neither
  -- halts the core nor returns from an interrupt, and whatever it writes to the special registers, the
  -- control register and the root of the page table stay as they are.
  pub user_step-IsConfined :
      is_reset c.state ≡ false
      → entry_start p e c ≡ false
      → (c.retire.valid && c.retire.cpu_control_write) ≡ false
      → IsConfined p e c (step p e c)
  unfolding execute_out special_wires retire components retired
  user_step-IsConfined running no_entry no_older =
      let (halt, control) =
        user_execute-IsUnprivileged (execute_in p e c (special_write_access_fault p e c))
          user_input in
      let (control_kept, root_kept) =
        user_control_stays p.registers (special_wires p e c) c.special_regs user (ground arith) in
      let same = (step_around p e c running).same_registers in
      record {
        no_halt = halt;
        no_control_write = control;
        control_same = ap (λ (r : Registers). r.cpu_control) same ∙ control_kept;
        root_same = ap (λ (r : Registers). r.page_table_root_physical) same ∙ root_kept;
      }
