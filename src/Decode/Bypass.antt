-- ===== src/Decode/Bypass.antt =====
-- The operands that decode reads past the writes in flight.
use little.Base.{ℕ, false, ◌≡◌, ◌≢◌, refl, ◌∙◌, ap, sym, arith}
use little.Fields.{instruction_rd, instruction_rs1}
use little.Retire.{RetireEntry, Machine, write_back, retire}
use little.Retire.Order.{IsSplit, forwarded, write_back-forwarded}
use little.Decode.{Inputs, operand, current_flags, operands}

-- The machine once the three older instructions have written back, the oldest first.
abbrev pub settled : Inputs → Machine → Machine
settled i m = write_back i.execute (write_back i.memory_final (write_back i.retire m))

-- The wires show the machine's registers, no entry writes one register twice, and the result of the
-- execute stage has no auxiliary write.
pub record IsInFlight (i : Inputs) (m : Machine) : Type 0 where
  pub same_regs : i.regs ≡ m.regs
  pub same_flags : i.arch_flags ≡ m.flags
  pub zero_register : m.regs 0 ≡ 0
  pub split_memory : IsSplit i.memory_final
  pub split_retire : IsSplit i.retire
  pub single_execute : i.execute.aux_reg_write ≡ false

single-IsSplit : (e : RetireEntry) → e.aux_reg_write ≡ false → IsSplit e
unfolding IsSplit
single-IsSplit e none_aux = ground arith

operand-forwarded :
    (i : Inputs) (j : ℕ)
    → i.execute.aux_reg_write ≡ false
    → i.regs 0 ≡ 0
    → operand i j
      ≡ forwarded i.execute j (forwarded i.memory_final j (forwarded i.retire j (i.regs j)))
unfolding operand
operand-forwarded i j single at_zero = ground arith

settled-forwarded :
    (i : Inputs) (m : Machine) (j : ℕ)
    → IsInFlight i m
    → j ≢ 15
    → (settled i m).regs j
      ≡ forwarded i.execute j (forwarded i.memory_final j (forwarded i.retire j (m.regs j)))
settled-forwarded i m j flight ne =
    write_back-forwarded i.execute _ j ne (single-IsSplit i.execute flight.single_execute)
    ∙ ap (forwarded i.execute j) (write_back-forwarded i.memory_final _ j ne flight.split_memory)
    ∙ ap (λ (r : ℕ). forwarded i.execute j (forwarded i.memory_final j r))
        (write_back-forwarded i.retire m j ne flight.split_retire)

operand-settled :
    (i : Inputs) (m : Machine) (j : ℕ)
    → IsInFlight i m
    → j ≢ 15
    → operand i j ≡ (settled i m).regs j
operand-settled i m j flight ne =
    operand-forwarded i j flight.single_execute
      (ap (λ (r : ℕ → ℕ). r 0) flight.same_regs ∙ flight.zero_register)
    ∙ ap
        (λ (r : ℕ → ℕ).
          forwarded i.execute j (forwarded i.memory_final j (forwarded i.retire j (r j))))
        flight.same_regs
    ∙ sym (settled-forwarded i m j flight ne)

flags-settled :
    (i : Inputs) (m : Machine) → i.arch_flags ≡ m.flags → current_flags i ≡ (settled i m).flags
unfolding current_flags write_back retire
flags-settled i m same = ground arith

-- Where an instruction names no program counter, its operands and flags are those of the machine in
-- which the three older instructions have written back in program order.
pub operands-settled :
    (i : Inputs) (m : Machine)
    → IsInFlight i m
    → instruction_rd i.instruction ≢ 15
    → instruction_rs1 i.instruction ≢ 15
    → operands i ≡ record {
      operand_a = (settled i m).regs (instruction_rd i.instruction);
      operand_b = (settled i m).regs (instruction_rs1 i.instruction);
      flags = (settled i m).flags;
    }
unfolding operands
operands-settled i m flight rd rs1 =
    rw
      (
        operand-settled i m (instruction_rd i.instruction) flight rd,
        operand-settled i m (instruction_rs1 i.instruction) flight rs1,
        flags-settled i m flight.same_flags,
      )
      refl
