-- ===== src/Instructions/Outcome.antt =====
-- What an instruction can ask for at once, and what user code cannot.
use little.Base.{Bool, true, false, ◌==◌, if◌then◌else◌, Option, some, none, ◌≡◌, refl, arith}
use little.Execute.{
  ExecuteInputs, ExecuteOutputs, is_user, defaults, ujmp, ldi, execute_ls_reg, execute_ls_pc,
  execute_gp, execute, trap_with, special_write_stb, is_ssr,
}
use little.Fields.{instruction_top2, instruction_top3, instruction_ls_opcode, instruction_gp_opcode}
use little.Isa.{LsOpcode, GpOpcode, load, add, ssr, to_ls, to_gp, invalid_instruction}

-- No register, flags, control register or reservation is written, and no memory access starts.
pub record IsQuiet (o : ExecuteOutputs) : Type 0 where
  pub no_reg : o.reg_write ≡ false
  pub no_flags : o.flags_write ≡ false
  pub no_control : o.cpu_control_write ≡ false
  pub no_reservation : o.clear_reservation ≡ false
  pub no_memory : o.memory_start ≡ false

-- A trap, a halt and a memory access exclude one another; the first two write nothing of what the
-- stage itself asks for, and the last writes nothing before the memory answers. The stage never asks
-- for a lockup.
pub record IsExclusive (o : ExecuteOutputs) : Type 0 where
  pub trap_quiet : o.trap ≡ true → IsQuiet o × (o.halt ≡ false)
  pub halt_quiet : o.halt ≡ true → IsQuiet o
  pub memory_first :
      o.memory_start ≡ true
      → (o.reg_write ≡ false)
        × (o.flags_write ≡ false)
        × (o.cpu_control_write ≡ false)
        × (o.clear_reservation ≡ false)
  pub no_lockup : o.lockup ≡ false

either :
    (P : ExecuteOutputs → Type 0) (b : Bool) {x y : ExecuteOutputs}
    → P x
    → P y
    → P (if b then x else y)
either P true p q = p
either P false p q = q

-- A property of what each group of instructions does is a property of the stage.
pub by_group :
    (P : ExecuteOutputs → Type 0) (i : ExecuteInputs)
    → P (defaults i)
    → P (ldi i)
    → ((op : LsOpcode) → P (execute_ls_reg op i))
    → ((op : LsOpcode) → P (execute_ls_pc op i))
    → P (ujmp i)
    → ((op : Option GpOpcode) → P (execute_gp op i))
    → P (execute i)
unfolding execute
by_group P i d l r c u g =
    either P i.valid
      (either P (instruction_top2 i.instruction == 2) l (
        either P (instruction_top2 i.instruction == 0)
          (r (to_ls (instruction_ls_opcode i.instruction)))
          (either P (instruction_top2 i.instruction == 1)
            (c (to_ls (instruction_ls_opcode i.instruction)))
            (either P (instruction_top3 i.instruction == 7) u (
              either P (instruction_top3 i.instruction == 6)
                (g (to_gp (instruction_gp_opcode i.instruction))) (invalid_of (g none)))))))
      d
  where
    invalid_of : P (execute_gp none i) → P (trap_with invalid_instruction i)
    invalid_of p = unfold execute_gp in p

execute_gp-IsExclusive : (op : Option GpOpcode) (i : ExecuteInputs) → IsExclusive (execute_gp op i)
unfolding execute_gp
execute_gp-IsExclusive (some add) i = ground arith
execute_gp-IsExclusive _ i = ground arith

execute_ls_reg-IsExclusive : (op : LsOpcode) (i : ExecuteInputs) → IsExclusive (execute_ls_reg op i)
unfolding execute_ls_reg
execute_ls_reg-IsExclusive load i = ground arith
execute_ls_reg-IsExclusive _ i = ground arith

execute_ls_pc-IsExclusive : (op : LsOpcode) (i : ExecuteInputs) → IsExclusive (execute_ls_pc op i)
unfolding execute_ls_pc
execute_ls_pc-IsExclusive load i = ground arith
execute_ls_pc-IsExclusive _ i = ground arith

outputs-IsExclusive : (i : ExecuteInputs) → IsExclusive (execute i)
outputs-IsExclusive i =
    by_group IsExclusive i (ground arith) (ground arith) (λ op. execute_ls_reg-IsExclusive op i)
      (λ op. execute_ls_pc-IsExclusive op i) (ground arith) (λ op. execute_gp-IsExclusive op i)

-- What an instruction does that asks for a write of a special register.
SpecialWriteOnly : ExecuteInputs → ExecuteOutputs → Type 0
SpecialWriteOnly i o =
    (o.trap ≡ i.special_write_access_fault) × (o.halt ≡ false) × (o.memory_start ≡ false)

gp-SpecialWriteOnly :
    (op : Option GpOpcode) (i : ExecuteInputs)
    → is_ssr op ≡ true
    → SpecialWriteOnly i (execute_gp op i)
unfolding execute_gp SpecialWriteOnly
gp-SpecialWriteOnly (some ssr) i h = ground arith
gp-SpecialWriteOnly _ i h = ground arith

execute-SpecialWriteOnly :
    (i : ExecuteInputs) → special_write_stb i ≡ true → SpecialWriteOnly i (execute i)
unfolding execute special_write_stb SpecialWriteOnly
execute-SpecialWriteOnly i h =
    ground (arith, gp-SpecialWriteOnly (to_gp (instruction_gp_opcode i.instruction)) i)

-- What a trap, a halt and a memory access leave of the write of a special register.
pub record IsRefused (i : ExecuteInputs) (o : ExecuteOutputs) : Type 0 where
  pub trap_refused :
      o.trap ≡ true → special_write_stb i ≡ true → i.special_write_access_fault ≡ true
  pub no_trap_accepted :
      special_write_stb i ≡ true → i.special_write_access_fault ≡ true → o.trap ≡ true
  pub halt_refused : o.halt ≡ true → special_write_stb i ≡ false
  pub memory_refused : o.memory_start ≡ true → special_write_stb i ≡ false

-- Of a trap, a halt and a memory access every instruction asks for one at most, and never for a
-- lockup; the first two write no register, flags, control register or reservation, and a memory
-- access writes none of them at once. A halt and a memory access ask for no write of a special
-- register either, and one that does traps exactly if the register file refuses the write.
pub execute-IsExclusive : (i : ExecuteInputs) → IsExclusive (execute i) × IsRefused i (execute i)
unfolding SpecialWriteOnly
execute-IsExclusive i = (
  outputs-IsExclusive i,
  record {
    trap_refused = λ t w. ground (arith, execute-SpecialWriteOnly i w);
    no_trap_accepted = λ w f. ground (arith, execute-SpecialWriteOnly i w);
    halt_refused = λ h. ground (arith, execute-SpecialWriteOnly i);
    memory_refused = λ h. ground (arith, execute-SpecialWriteOnly i);
  },
)

-- What user code must not do.
abbrev pub IsUnprivileged : ExecuteOutputs → Type 0
IsUnprivileged o = (o.halt ≡ false) × (o.cpu_control_write ≡ false)

execute_gp-IsUnprivileged :
    (op : Option GpOpcode) (i : ExecuteInputs) → is_user i ≡ true → IsUnprivileged (execute_gp op i)
unfolding execute_gp
execute_gp-IsUnprivileged (some add) i u = ground arith
execute_gp-IsUnprivileged _ i u = ground arith

execute_ls_reg-IsUnprivileged :
    (op : LsOpcode) (i : ExecuteInputs) → IsUnprivileged (execute_ls_reg op i)
unfolding execute_ls_reg
execute_ls_reg-IsUnprivileged load i = (refl, refl)
execute_ls_reg-IsUnprivileged _ i = (refl, refl)

execute_ls_pc-IsUnprivileged :
    (op : LsOpcode) (i : ExecuteInputs) → IsUnprivileged (execute_ls_pc op i)
unfolding execute_ls_pc
execute_ls_pc-IsUnprivileged load i = (refl, refl)
execute_ls_pc-IsUnprivileged _ i = (refl, refl)

-- In user mode no instruction asks the core to halt or to write its control register, as IRET does.
pub user_execute-IsUnprivileged :
    (i : ExecuteInputs) → is_user i ≡ true → IsUnprivileged (execute i)
user_execute-IsUnprivileged i u =
    by_group IsUnprivileged i (refl, refl) (refl, refl) (λ op. execute_ls_reg-IsUnprivileged op i)
      (λ op. execute_ls_pc-IsUnprivileged op i) (refl, refl)
      (λ op. execute_gp-IsUnprivileged op i u)
