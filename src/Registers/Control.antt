-- ===== src/Registers/Control.antt =====
-- `CPU_CONTROL`, the page-table root, and the flush of the translation buffer.
use little.Registers.Access.{user_selector}
use little.Base.{Bool-cases, inl, inr, true, ℕ, false, Option, some, ◌≡◌, refl, arith}
use little.Base.Bits.{bit_and_mask_twice}
use little.Isa.{SpecialRegister, to_special, cpu_control_writable_mask}
use little.Registers.{
  accepted, RegisterConfig, Registers, Wires, masked, trap_software_write, trap_step, core_write,
  software_write, step, flushes, tlb_flush,
}

-- The registers that only the writable bits may enter.
pub record IsMasked (r : Registers) : Type 0 where
  pub cpu_control : masked r.cpu_control ≡ r.cpu_control
  pub interrupt_cpu_control : masked r.interrupt_cpu_control ≡ r.interrupt_cpu_control

-- The trap bank leaves every other register as it is.
module _ (v : ℕ) (r : Registers) where
  trap_software_write_frame :
      (o : Option SpecialRegister)
      → ((trap_software_write o v r).cpu_control ≡ r.cpu_control)
        × ((trap_software_write o v r).page_table_root_physical ≡ r.page_table_root_physical)
        × ((trap_software_write o v r).interrupt_cpu_control ≡ r.interrupt_cpu_control)
  unfolding trap_software_write
  trap_software_write_frame (some SpecialRegister.trap_cause) = (refl, refl, refl)
  trap_software_write_frame _ = (refl, refl, refl)

module _ (w : Wires) (r : Registers) where
  trap_step_frame :
      ((trap_step w r).cpu_control ≡ r.cpu_control)
      × ((trap_step w r).page_table_root_physical ≡ r.page_table_root_physical)
      × ((trap_step w r).interrupt_cpu_control ≡ r.interrupt_cpu_control)
  unfolding trap_step
  trap_step_frame =
      ground (arith, trap_software_write_frame w.write_data r (to_special w.write_selector))

  core_write-IsMasked : IsMasked r → IsMasked (core_write w r)
  unfolding core_write
  core_write-IsMasked h = ground (
    arith,
    bit_and_mask_twice w.core_cpu_control_data cpu_control_writable_mask,
    bit_and_mask_twice w.core_interrupt_cpu_control_data cpu_control_writable_mask,
  )

  software_write-IsMasked :
      (c : RegisterConfig) (o : Option SpecialRegister)
      → IsMasked r
      → IsMasked (software_write c w o r)
  unfolding software_write
  software_write-IsMasked c (some SpecialRegister.cpu_control) h =
      ground (arith, bit_and_mask_twice w.write_data cpu_control_writable_mask)
  software_write-IsMasked c (some SpecialRegister.interrupt_cpu_control) h =
      ground (arith, bit_and_mask_twice w.write_data cpu_control_writable_mask)
  software_write-IsMasked c _ h = ground arith

-- A cycle keeps the reserved bits of both control registers clear, whoever writes them.
pub step-IsMasked :
    (c : RegisterConfig) (w : Wires) (r : Registers) → IsMasked r → IsMasked (step c w r)
unfolding step
step-IsMasked c w r h =
    let t = trap_step w r in
    let (e, root, i) = trap_step_frame w r in
    let k : IsMasked t = record {
      cpu_control = ground arith;
      interrupt_cpu_control = ground arith;
    } in
    let m = core_write-IsMasked w t k in
    ground (arith, software_write-IsMasked w (core_write w t) c (to_special w.write_selector) m)

unflushed_write :
    (c : RegisterConfig) (w : Wires) (r : Registers) (o : Option SpecialRegister)
    → w.core_cpu_control_write ≡ false
    → flushes c w o ≡ false
    → ((software_write c w o r).cpu_control ≡ r.cpu_control)
      × ((software_write c w o r).page_table_root_physical ≡ r.page_table_root_physical)
unfolding software_write flushes
unflushed_write c w r (some SpecialRegister.cpu_control) n f = ground arith
unflushed_write c w r _ n f = ground arith

unflushed_core :
    (w : Wires) (r : Registers)
    → w.core_cpu_control_write ≡ false
    → ((core_write w r).cpu_control ≡ r.cpu_control)
      × ((core_write w r).page_table_root_physical ≡ r.page_table_root_physical)
unfolding core_write
unflushed_core w r n = ground arith

-- In a cycle that does not flush the translation buffer, what decides a translation stays: the
-- control register, with its paging and user bits, and the root of the page table.
control_stays_of_no_flush :
    (c : RegisterConfig) (w : Wires) (r : Registers)
    → tlb_flush c w ≡ false
    → ((step c w r).cpu_control ≡ r.cpu_control)
      × ((step c w r).page_table_root_physical ≡ r.page_table_root_physical)
unfolding step tlb_flush
control_stays_of_no_flush c w r f = ground (
  arith,
  trap_step_frame w r,
  unflushed_core w (trap_step w r),
  unflushed_write c w (core_write w (trap_step w r)) (to_special w.write_selector),
)

user_no_flush :
    (c : RegisterConfig) (w : Wires)
    → w.user_mode ≡ true
    → w.core_cpu_control_write ≡ false
    → tlb_flush c w ≡ false
unfolding tlb_flush flushes
user_no_flush c w u n = elim (Bool-cases (accepted w)) [
  | inl a ↦ rw (a, user_selector w u a) (ground arith)
  | inr a ↦ rw a (ground arith)
]

-- Neither does a write from user mode change them.
pub user_control_stays :
    (c : RegisterConfig) (w : Wires) (r : Registers)
    → w.user_mode ≡ true
    → w.core_cpu_control_write ≡ false
    → ((step c w r).cpu_control ≡ r.cpu_control)
      × ((step c w r).page_table_root_physical ≡ r.page_table_root_physical)
user_control_stays c w r u n = control_stays_of_no_flush c w r (user_no_flush c w u n)
