-- ===== src/Registers/Interrupts.antt =====
-- The pending interrupts and the trap registers.
use little.Base.{ℕ, Bool, true, false, Option, some, ◌≡◌, refl, arith, bit_or, if◌then◌else◌}
use little.Base.Bits.{bit_or-zero}
use little.Isa.{SpecialRegister, to_special}
use little.Registers.{
  RegisterConfig, Registers, Wires, accepted, trap_software_write, trap_step, core_write,
  software_write, step,
}

abbrev pub names_states_high : Option SpecialRegister → Bool
names_states_high (some SpecialRegister.interrupt_states_high) = true
names_states_high _ = false

states_high-trap_software_write :
    (o : Option SpecialRegister) (v : ℕ) (r : Registers)
    → (trap_software_write o v r).interrupt_states_high ≡ r.interrupt_states_high
unfolding trap_software_write
states_high-trap_software_write (some SpecialRegister.trap_cause) v r = refl
states_high-trap_software_write _ v r = refl

states_high-software_write :
    (c : RegisterConfig) (w : Wires) (o : Option SpecialRegister) (r : Registers)
    → (software_write c w o r).interrupt_states_high ≡ (
        if names_states_high o
        then bit_or w.write_data w.interrupt_states_high_set
        else r.interrupt_states_high)
unfolding software_write
states_high-software_write c w (some SpecialRegister.cpu_control) r = ground arith
states_high-software_write c w _ r = ground arith

states_high-trap_step :
    (w : Wires) (r : Registers) → (trap_step w r).interrupt_states_high ≡ r.interrupt_states_high
unfolding trap_step
states_high-trap_step w r =
    ground (arith, states_high-trap_software_write (to_special w.write_selector) w.write_data r)

states_high-core_write :
    (w : Wires) (r : Registers) → (core_write w r).interrupt_states_high ≡ r.interrupt_states_high
unfolding core_write
states_high-core_write w r = refl

-- The pending interrupts after a cycle. Those that arrive are added if software writes nothing, and
-- to the value written if it writes this register; if it writes any other register, they are not
-- added.
pub interrupt_states_high-step :
    (c : RegisterConfig) (w : Wires) (r : Registers)
    → (step c w r).interrupt_states_high ≡ (
        if accepted w
        then (if names_states_high (to_special w.write_selector)
            then bit_or w.write_data w.interrupt_states_high_set
            else r.interrupt_states_high)
        else bit_or r.interrupt_states_high w.interrupt_states_high_set)
unfolding step
interrupt_states_high-step c w r =
    let o = to_special w.write_selector in
    ground (
      arith,
      states_high-trap_step w r,
      states_high-core_write w (trap_step w r),
      states_high-software_write c w o (core_write w (trap_step w r)),
      bit_or-zero r.interrupt_states_high,
    )

-- What the trap registers hold.
pub record TrapIs (r : Registers) (cause fault_addr access pc aux : ℕ) : Type 0 where
  pub cause_is : r.trap_cause ≡ cause
  pub fault_addr_is : r.trap_fault_addr ≡ fault_addr
  pub access_is : r.trap_access ≡ access
  pub pc_is : r.trap_pc ≡ pc
  pub aux_is : r.trap_aux ≡ aux

trap_is_kept :
    (c : RegisterConfig) (w : Wires) (o : Option SpecialRegister) (r : Registers)
    → ((software_write c w o r).trap_cause ≡ r.trap_cause)
      × ((software_write c w o r).trap_fault_addr ≡ r.trap_fault_addr)
      × ((software_write c w o r).trap_access ≡ r.trap_access)
      × ((software_write c w o r).trap_pc ≡ r.trap_pc)
      × ((software_write c w o r).trap_aux ≡ r.trap_aux)
unfolding software_write
trap_is_kept c w (some SpecialRegister.cpu_control) r = ground arith
trap_is_kept c w _ r = ground arith

trap_after_core :
    (w : Wires) (r : Registers)
    → w.core_trap_write ≡ true
    → TrapIs
        (core_write w (trap_step w r))
        w.core_trap_cause_data
        w.core_trap_fault_addr_data
        w.core_trap_access_data
        w.core_trap_pc_data
        w.core_trap_aux_data
unfolding trap_step core_write
trap_after_core w r t = simp t (record {
  cause_is = refl;
  fault_addr_is = refl;
  access_is = refl;
  pc_is = refl;
  aux_is = refl;
})

-- Where the core writes the five trap registers, they take its values in that cycle, whatever
-- software writes in it.
pub trap_entry_wins :
    (c : RegisterConfig) (w : Wires) (r : Registers)
    → w.core_trap_write ≡ true
    → TrapIs
        (step c w r)
        w.core_trap_cause_data
        w.core_trap_fault_addr_data
        w.core_trap_access_data
        w.core_trap_pc_data
        w.core_trap_aux_data
unfolding step
trap_entry_wins c w r t = ground (
  arith,
  trap_after_core w r t,
  trap_is_kept c w (to_special w.write_selector) (core_write w (trap_step w r)),
)
