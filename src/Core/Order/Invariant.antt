-- ===== src/Core/Order/Invariant.antt =====
-- The program order in the pipeline of the v3 core: each stage holds the instruction that was
-- predicted to follow the one before it.
use little.Base.{ℕ, Bool, true, false, not, ◌&&◌, ◌||◌, if◌then◌else◌, ◌≡◌, ◌⊎◌, arith}
use little.Core.Order.View.{View}
use little.Core.Order.Waiting.{stops}
use little.Execute.{ExecuteOutputs}
use little.Retire.{RetireEntry, Machine, write_back, retire, write_register}

-- The address after the instruction that retires, or after those retired.
abbrev pub after_retire : View → ℕ
after_retire v = if v.retire.valid && v.retire.commit then v.retire.next_pc else v.machine.regs 15

-- The addresses that were predicted to follow the results of the memory stage, the instruction in it,
-- and that in the execute stage.
abbrev pub after_final : View → ℕ
after_final v = if v.final_valid then v.final_next else after_retire v

abbrev pub after_memory : View → ℕ
after_memory v = if v.memory_valid then v.memory_next else after_final v

abbrev pub after_execute : View → ℕ
after_execute v = if v.execute.valid then v.execute.post_increment_pc else after_memory v

-- An instruction retires that ends the order: it traps, halts or locks up.
abbrev pub ends_order : View → Bool
ends_order v = v.retire.valid && not v.retire.commit

-- The order of what is fetched is given up: the core has stopped, or a trap is on its way.
abbrev pub is_broken : View → Bool
is_broken v =
    v.machine.halted || v.machine.locked_up || v.pending || v.vector_active || ends_order v

abbrev pub none_younger : View → Bool
none_younger v =
    not v.decode.valid && not v.execute.valid && not v.memory_valid && not v.final_valid

-- The instruction that retires is the one that the program counter is at, or it retires once more.
abbrev pub RetiresInOrder : View → Type 0
RetiresInOrder v =
    (v.retire.commit_pc ≡ v.machine.regs 15)
    ⊎ ((v.machine.commit_valid ≡ true)
        × (v.machine.commit_pc ≡ v.retire.commit_pc)
        × (v.machine.regs 15 ≡ v.retire.next_pc))

-- `w` is what the execute stage says of the instruction that it holds.
pub record InOrder (w : ExecuteOutputs) (v : View) : Type 0 where
  pub retires : v.retire.valid ≡ true → v.retire.commit ≡ true → RetiresInOrder v
  pub commits :
      v.retire.valid ≡ true
      → v.retire.commit ≡ true
      → v.retire.trap || v.retire.halt || v.retire.lockup ≡ false
  pub ends :
      ends_order v ≡ true
      → (v.retire.trap || v.retire.halt || v.retire.lockup ≡ true) × (none_younger v ≡ true)
  pub control :
      v.retire.valid ≡ true
      → v.retire.cpu_control_write ≡ true
      → (v.memory_valid ≡ false) × (v.final_valid ≡ false)
  pub final_alone : v.final_valid ≡ true → v.memory_valid ≡ false
  pub final_in_order : v.final_valid ≡ true → v.final_pc ≡ after_retire v
  pub memory_in_order : v.memory_valid ≡ true → v.memory_pc ≡ after_final v
  pub execute_in_order : v.execute.valid ≡ true → v.execute.pc ≡ after_memory v
  pub vector_alone : v.vector_active ≡ true → (none_younger v ≡ true) × (v.retire.valid ≡ false)
  pub decode_in_order : is_broken v ≡ false → v.decode.valid ≡ true → v.decode.pc ≡ after_execute v
  pub fetch_after_decode :
      is_broken v ≡ false → v.decode.valid ≡ true → v.fetch_pc ≡ v.decode.post_increment_pc
  pub fetch_after_memory :
      is_broken v ≡ false
      → v.decode.valid ≡ false
      → v.execute.valid ≡ false
      → v.fetch_pc ≡ after_memory v
  pub fetch_after_execute :
      is_broken v ≡ false
      → v.decode.valid ≡ false
      → v.execute.valid ≡ true
      → (v.fetch_pc ≡ v.execute.post_increment_pc) ⊎ ((stops w ≡ true) ⊎ (v.fetch_pc ≡ w.next_pc))

-- What the write-back does to the program counter and to the state that it shows.
pub write_back-committed :
    (r : RetireEntry) (m : Machine)
    → r.valid ≡ true
    → r.commit ≡ true
    → ((write_back r m).regs 15 ≡ r.next_pc)
      × ((write_back r m).commit_valid ≡ true)
      × ((write_back r m).commit_pc ≡ r.commit_pc)
unfolding write_back retire
write_back-committed r m v c = ground arith

pub write_back-idle :
    (r : RetireEntry) (m : Machine) → r.valid ≡ false → (write_back r m).regs 15 ≡ m.regs 15
unfolding write_back retire write_register
write_back-idle r m v = ground arith

pub write_back-stopped :
    (r : RetireEntry) (m : Machine)
    → ((write_back r m).halted ≡ ((r.valid && r.halt) || m.halted))
      × ((write_back r m).locked_up ≡ ((r.valid && r.lockup) || m.locked_up))
unfolding write_back retire
write_back-stopped r m = ground arith
