-- ===== src/MemoryStage/Results.antt =====
-- The entry that a memory access leaves writes the registers that its two writes would, in order.
use little.Base.{
  ℕ, true, false, not, ◌&&◌, ◌==◌, if◌then◌else◌, ◌≡◌, ◌≢◌, refl, sym, ◌∙◌, inl, inr, Bool-cases,
  ==→eq, arith, update,
}
use little.Retire.{RetireEntry, Machine, write_back, retire, write_register}
use little.Retire.Order.{IsSplit, read_after_write, forwarded, write_back-forwarded}
use little.MemoryStage.{Inputs, result, response_post_value, response_next_pc, final_response}

-- No entry of the memory stage writes a register twice.
pub result-IsSplit : (i : Inputs) → IsSplit (result i)
unfolding IsSplit result
result-IsSplit i = ground arith

-- The registers after a load and the update of a second register, one after the other, where the
-- program counter moves on first.
abbrev pub in_order : Inputs → (ℕ → ℕ) → ℕ → ℕ
in_order i regs =
    write_register i.post_reg_write i.post_reg_index (response_post_value i)
      (write_register i.reg_write i.reg_index i.lsu_response_load_value (update regs 15 i.next_pc))

in_order-read :
    (i : Inputs) (regs : ℕ → ℕ) (j : ℕ)
    → in_order i regs j ≡ (
        if i.post_reg_write && not (i.post_reg_index == 0) && (i.post_reg_index == j)
        then response_post_value i
        else if i.reg_write && not (i.reg_index == 0) && (i.reg_index == j)
        then i.lsu_response_load_value
        else if j == 15
        then i.next_pc
        else regs j)
in_order-read i regs j =
    read_after_write i.post_reg_write i.post_reg_index (response_post_value i) _ j
    ∙ rw
        (read_after_write i.reg_write i.reg_index i.lsu_response_load_value
          (update regs 15 i.next_pc) j)
        refl

answered-forwarded :
    (i : Inputs) (j old : ℕ)
    → j ≢ 15
    → (result i).valid ≡ true
    → forwarded (result i) j old ≡ (
        if i.post_reg_write && not (i.post_reg_index == 0) && (i.post_reg_index == j)
        then response_post_value i
        else if i.reg_write && not (i.reg_index == 0) && (i.reg_index == j)
        then i.lsu_response_load_value
        else if j == 15
        then i.next_pc
        else old)
unfolding result
answered-forwarded i j old ne ok = ground arith

result-next_pc :
    (i : Inputs)
    → (result i).next_pc ≡ (
        if i.post_reg_write && not (i.post_reg_index == 0) && (i.post_reg_index == 15)
        then response_post_value i
        else if i.reg_write && not (i.reg_index == 0) && (i.reg_index == 15)
        then i.lsu_response_load_value
        else i.next_pc)
unfolding result response_next_pc
result-next_pc i = ground arith

result-fields :
    (i : Inputs)
    → ((result i).valid ≡ final_response i && not i.lsu_response_error)
      × ((result i).commit ≡ final_response i && not i.lsu_response_error)
      × ((result i).halt ≡ false)
unfolding result
result-fields i = ground arith

committed-next_pc :
    (e : RetireEntry) (m : Machine)
    → e.valid ≡ true
    → e.commit ≡ true
    → e.halt ≡ false
    → (write_back e m).regs 15 ≡ e.next_pc
unfolding write_back retire
committed-next_pc e m v c h = ground arith

-- An access that ends without an error leaves every register as its writes do, one after the other.
pub write_back-in_order :
    (i : Inputs) (m : Machine) (j : ℕ)
    → (final_response i && not i.lsu_response_error) ≡ true
    → (write_back (result i) m).regs j ≡ in_order i m.regs j
write_back-in_order i m j ok = elim (Bool-cases (j == 15)) [
  | inl at_pc ↦ rw (==→eq j 15 at_pc) (
      committed-next_pc (result i) m (valid ∙ ok) (commit ∙ ok) halt
      ∙ result-next_pc i
      ∙ sym (in_order-read i m.regs 15))
  | inr other ↦
      write_back-forwarded (result i) m j (apart other) (result-IsSplit i)
      ∙ answered-forwarded i j (m.regs j) (apart other) (valid ∙ ok)
      ∙ sym (in_order-read i m.regs j)
]
  where
    valid : (result i).valid ≡ final_response i && not i.lsu_response_error
    valid = (result-fields i).0

    commit : (result i).commit ≡ final_response i && not i.lsu_response_error
    commit = (result-fields i).1

    halt : (result i).halt ≡ false
    halt = (result-fields i).2

    apart : (j == 15) ≡ false → j ≢ 15
    apart differs same = ground arith
