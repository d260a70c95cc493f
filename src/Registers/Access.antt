-- ===== src/Registers/Access.antt =====
-- Who can write which special register, and what a later read returns.
use little.Base.{
  ℕ, true, false, ◌⊎◌, some, ◌≡◌, refl, arith, bit_or, ◌==◌, ==→eq, if◌then◌else◌, Bool-cases, inl,
  inr,
}
use little.Base.Bits.{bit_and_mask_twice}
use little.Isa.{SpecialRegister, to_special, special_value, cpu_control_writable_mask}
use little.Registers.{
  RegisterConfig, Registers, Wires, masked, write_access_fault, accepted, trap_read,
  trap_software_write, trap_step, read_register, read_data, core_write, software_write, step,
}

-- Every special register is found under its number.
pub to_special-special_value : (s : SpecialRegister) → to_special (special_value s) ≡ some s
unfolding to_special
to_special-special_value SpecialRegister.cpu_control = refl
to_special-special_value _ = refl

pub user_selector :
    (w : Wires)
    → w.user_mode ≡ true
    → accepted w ≡ true
    → to_special w.write_selector ≡ some SpecialRegister.thread_pointer
unfolding accepted write_access_fault
user_selector w u a =
    rw (==→eq w.write_selector (special_value SpecialRegister.thread_pointer) (ground arith))
      (to_special-special_value SpecialRegister.thread_pointer)

accepted_quiet : (w : Wires) → accepted (record w { write_stb = false }) ≡ false
unfolding accepted
accepted_quiet w = refl

-- The same cycle without software's write.
abbrev pub quiet : Wires → Wires
quiet w = record w { write_stb = false }

-- What user code may not change. Pending interrupts are the subject of
-- `interrupt_states_high-step`.
abbrev pub protected : Registers → Registers
protected r = record r { thread_pointer = 0; interrupt_states_high = 0 }

trap_step-quiet :
    (w : Wires) (r : Registers)
    → (accepted w ≡ false) ⊎ (to_special w.write_selector ≡ some SpecialRegister.thread_pointer)
    → trap_step w r ≡ trap_step (quiet w) r
unfolding trap_step trap_software_write
trap_step-quiet w r (inl n) = simp (n, accepted_quiet)
trap_step-quiet w r (inr t) = elim (Bool-cases (accepted w)) [
  | inl a ↦ simp (a, t, accepted_quiet)
  | inr n ↦ simp (n, accepted_quiet)
]

user_write_accepted :
    (c : RegisterConfig) (w : Wires) (r : Registers)
    → accepted w ≡ true
    → to_special w.write_selector ≡ some SpecialRegister.thread_pointer
    → trap_step w r ≡ trap_step (quiet w) r
    → protected (step c w r) ≡ protected (step c (quiet w) r)
unfolding step software_write
user_write_accepted c w r a t same = elim (Bool-cases (w.interrupt_states_high_set == 0)) [
  | inl z ↦ simp (a, t, same, accepted_quiet, z) (unfold core_write in refl)
  | inr z ↦ simp (a, t, same, accepted_quiet, z) (unfold core_write in refl)
]

user_write_refused :
    (c : RegisterConfig) (w : Wires) (r : Registers)
    → accepted w ≡ false
    → trap_step w r ≡ trap_step (quiet w) r
    → protected (step c w r) ≡ protected (step c (quiet w) r)
unfolding step
user_write_refused c w r a same = simp (a, same, accepted_quiet) (unfold core_write in refl)

-- In user mode software's write changes nothing but the thread pointer and the pending interrupts:
-- every other register is after the cycle what it is without the write.
pub user_write_isolated :
    (c : RegisterConfig) (w : Wires) (r : Registers)
    → w.user_mode ≡ true
    → protected (step c w r) ≡ protected (step c (quiet w) r)
user_write_isolated c w r u = elim (Bool-cases (accepted w)) [
  | inl a ↦
      (let t = user_selector w u a in
        let same = trap_step-quiet w r (inr t) in user_write_accepted c w r a t same)
  | inr n ↦ user_write_refused c w r n (trap_step-quiet w r (inl n))
]

-- What software's write leaves to be read: control bits are masked, the registers of an option that
-- is not configured read as 0, and pending interrupts join those that arrive in the cycle.
pub left_by_write : RegisterConfig → Wires → SpecialRegister → ℕ
left_by_write c w SpecialRegister.cpu_control = masked w.write_data
left_by_write c w SpecialRegister.interrupt_cpu_control = masked w.write_data
left_by_write c w SpecialRegister.page_table_root_physical =
    if c.enable_mmu then w.write_data else 0
left_by_write c w SpecialRegister.boot_info_frame_physical =
    if c.optional_platform_registers then w.write_data else 0
left_by_write c w SpecialRegister.boot_source_page_size =
    if c.optional_platform_registers then w.write_data else 0
left_by_write c w SpecialRegister.boot_source_page_count =
    if c.optional_platform_registers then w.write_data else 0
left_by_write c w SpecialRegister.hypercall_caps =
    if c.optional_platform_registers then w.write_data else 0
left_by_write c w SpecialRegister.interrupt_states_high =
    bit_or w.write_data w.interrupt_states_high_set
left_by_write c w _ = w.write_data

written_back :
    (c : RegisterConfig) (w : Wires) (s : SpecialRegister) (r : Registers)
    → w.core_cpu_control_write ≡ false
    → w.core_interrupt_cpu_control_write ≡ false
    → w.core_interrupt_eflags_write ≡ false
    → read_register c
        (some s)
        (software_write c w (some s) (core_write w (trap_software_write (some s) w.write_data r)))
      ≡ left_by_write c w s
unfolding read_register trap_read software_write trap_software_write core_write left_by_write
written_back c w SpecialRegister.cpu_control r a b e =
    ground (arith, bit_and_mask_twice w.write_data cpu_control_writable_mask)
written_back c w SpecialRegister.interrupt_cpu_control r a b e =
    ground (arith, bit_and_mask_twice w.write_data cpu_control_writable_mask)
written_back c w _ r a b e = ground arith

-- A read in the cycle after an accepted write that the core does not override returns what the
-- write leaves, for every special register.
pub read_data-step_write :
    (c : RegisterConfig) (w : Wires) (s : SpecialRegister) (r : Registers)
    → accepted w ≡ true
    → w.write_selector ≡ special_value s
    → w.core_cpu_control_write ≡ false
    → w.core_interrupt_cpu_control_write ≡ false
    → w.core_interrupt_eflags_write ≡ false
    → w.core_trap_write ≡ false
    → read_data c w.write_selector (step c w r) ≡ left_by_write c w s
unfolding step trap_step read_data
read_data-step_write c w s r ok e a b f t =
    simp (ok, t, e, to_special-special_value) (written_back c w s r a b f)
