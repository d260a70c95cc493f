-- ===== src/Core/Order/Settled.antt =====
-- While an instruction waits in the execute stage of the v3 core, the control register and the saved
-- program counter stay as they are, and so does where the instruction goes.
use little.Base.{false, ◌&&◌, ◌≡◌, refl, sym, arith}
use little.Core.State.{Params, Core, Inputs}
use little.Core.Stages.{user_mode}
use little.Core.Handover.{execute_in, execute_special_write_commit}
use little.Core.Traps.{special_wires, entry_start, vector_arrived, vector_response_valid}
use little.Core.Order.Waiting.{Persists, Varying, vary, execute-Persists}
use little.Core.Order.Signals.{settled_out}
use little.Execute.{ExecuteInputs, execute}
use mathlib.Core.Path.{subst}
use little.Registers
use little.Registers.{accepted, core_write, trap_step, trap_software_write}
use little.Retire.{retire}

module _ (p : Params) (e : Inputs) (c : Core) where
  stays_without_write :
      (r : Registers.RegisterConfig) (w : Registers.Wires) (s : Registers.Registers)
      → w.write_stb ≡ false
      → w.core_cpu_control_write ≡ false
      → w.core_interrupt_epc_write ≡ false
      → ((Registers.step r w s).cpu_control ≡ s.cpu_control)
        × ((Registers.step r w s).interrupt_epc ≡ s.interrupt_epc)
  unfolding Registers.step accepted core_write trap_step
  stays_without_write r w s a b d = ground arith

  pub registers_stay :
      execute_special_write_commit p e c ≡ false
      → entry_start p e c ≡ false
      → c.vector_load.active ≡ false
      → c.retire.valid && c.retire.cpu_control_write ≡ false
      → ((Registers.step p.registers (special_wires p e c) c.special_regs).cpu_control
          ≡ c.special_regs.cpu_control)
        × ((Registers.step p.registers (special_wires p e c) c.special_regs).interrupt_epc
            ≡ c.special_regs.interrupt_epc)
  unfolding special_wires retire vector_arrived vector_response_valid
  registers_stay h k v r =
      stays_without_write p.registers (special_wires p e c) c.special_regs (ground arith)
        (ground arith) (ground arith)

  pub settled_stays :
      (e' : Inputs) (c' : Core)
      → c'.execute ≡ c.execute
      → c'.special_regs.cpu_control ≡ c.special_regs.cpu_control
      → c'.special_regs.interrupt_epc ≡ c.special_regs.interrupt_epc
      → Persists (settled_out p e c) (settled_out p e' c')
  unfolding execute_in user_mode
  settled_stays e' c' x k s =
      let i = execute_in p e' c' false in
      let now = execute_in p e c false in
      let v : Varying = record {
        interrupt_eflags = i.interrupt_eflags;
        interrupt_cpu_control = i.interrupt_cpu_control;
        ll_reservation_valid = i.ll_reservation_valid;
        ll_reservation_addr = i.ll_reservation_addr;
        special_read_data = i.special_read_data;
        special_write_access_fault = false;
      } in
      let same : i ≡ vary v now = cc in
      subst (λ (j : ExecuteInputs). Persists (settled_out p e c) (execute j)) (sym same)
        (execute-Persists v now refl)
