-- ===== src/Retire/Order.antt =====
-- What the write-back of one entry leaves in the registers.
use little.Base.{
  ℕ, Bool, true, false, not, ◌&&◌, ◌==◌, if◌then◌else◌, ◌≡◌, ◌≢◌, refl, ◌∙◌, update, update_ne,
  arith,
}
use little.Retire.{RetireEntry, Machine, write_register, retire, write_back}

-- The two writes of an entry are to different registers.
unfoldable pub IsSplit : RetireEntry → Type 0
IsSplit e =
    (e.valid && e.reg_write ≡ true)
    → (e.valid && e.aux_reg_write ≡ true)
    → e.reg_index ≢ e.aux_reg_index

-- Register `j` after the write-back of `e`, read off the entry.
abbrev pub forwarded : RetireEntry → ℕ → ℕ → ℕ
forwarded e j old =
    if j == 0
    then old
    else if e.valid && e.reg_write && (e.reg_index == j)
    then e.reg_value
    else if e.valid && e.aux_reg_write && (e.aux_reg_index == j)
    then e.aux_reg_value
    else old

pub read_after_write :
    (write : Bool) (index value : ℕ) (regs : ℕ → ℕ) (j : ℕ)
    → write_register write index value regs j
      ≡ (if write && not (index == 0) && (index == j) then value else regs j)
unfolding write_register
read_after_write true index value regs j = ground arith
read_after_write false index value regs j = refl

not_program_counter :
    (b : Bool) (regs : ℕ → ℕ) (pc : ℕ) {j : ℕ}
    → j ≢ 15
    → (if b then update regs 15 pc else regs) j ≡ regs j
not_program_counter true regs pc ne = update_ne regs pc ne
not_program_counter false regs pc ne = refl

two_writes :
    (e : RetireEntry) (j old : ℕ)
    → IsSplit e
    → (if e.valid && e.aux_reg_write && not (e.aux_reg_index == 0) && (e.aux_reg_index == j)
        then e.aux_reg_value
        else if e.valid && e.reg_write && not (e.reg_index == 0) && (e.reg_index == j)
        then e.reg_value
        else old)
      ≡ forwarded e j old
unfolding IsSplit
two_writes e j old split = ground arith

pub write_back-forwarded :
    (e : RetireEntry) (m : Machine) (j : ℕ)
    → j ≢ 15
    → IsSplit e
    → (write_back e m).regs j ≡ forwarded e j (m.regs j)
unfolding write_back retire
write_back-forwarded e m j ne split =
    not_program_counter (e.valid && e.halt) _ e.next_pc ne
    ∙ not_program_counter (e.valid && e.commit) _ e.next_pc ne
    ∙ read_after_write (e.valid && e.aux_reg_write) e.aux_reg_index e.aux_reg_value _ j
    ∙ rw (read_after_write (e.valid && e.reg_write) e.reg_index e.reg_value m.regs j)
        (simp (two_writes e j (m.regs j) split))
