-- ===== src/Core/Order/Waiting.antt =====
-- What the execute stage says of an instruction that waits in it: the values that other instructions
-- may change in the meantime do not change where it goes.
use little.Base.{
  ℕ, Bool, true, false, ◌||◌, ◌==◌, if◌then◌else◌, Option, some, ◌≡◌, refl, sym, ◌∙◌, ◌⊎◌, inl, inr,
  Bool-cases, arith,
}
use little.Execute.{
  ExecuteInputs, ExecuteOutputs, execute_ls_reg, execute_ls_pc, execute_gp, execute,
  special_write_stb, is_ssr,
}
use little.Instructions.Outcome.{by_group}
use little.Fields.{instruction_top2, instruction_top3, instruction_ls_opcode, instruction_gp_opcode}
use little.Isa.{LsOpcode, GpOpcode, load, add, to_ls, to_gp}

-- The instruction does not hand on to another: it traps, halts or locks up.
abbrev pub stops : ExecuteOutputs → Bool
stops o = o.trap || o.halt || o.lockup

-- The values of an input that may change while an instruction waits.
pub record Varying : Type 0 where
  pub interrupt_eflags : ℕ
  pub interrupt_cpu_control : ℕ
  pub ll_reservation_valid : Bool
  pub ll_reservation_addr : ℕ
  pub special_read_data : ℕ
  pub special_write_access_fault : Bool

abbrev pub vary : Varying → ExecuteInputs → ExecuteInputs
vary v i = record i {
  interrupt_eflags = v.interrupt_eflags;
  interrupt_cpu_control = v.interrupt_cpu_control;
  ll_reservation_valid = v.ll_reservation_valid;
  ll_reservation_addr = v.ll_reservation_addr;
  special_read_data = v.special_read_data;
  special_write_access_fault = v.special_write_access_fault;
}

-- What of an earlier answer `x` still holds of a later one `y`.
pub record Persists (x y : ExecuteOutputs) : Type 0 where
  pub stops_stay : stops x ≡ true → stops y ≡ true
  pub next_same : stops y ≡ false → y.next_pc ≡ x.next_pc

-- Where fetch has gone behind a waiting instruction, it still has in the next cycle.
pub carried :
    {f post : ℕ} {x y : ExecuteOutputs}
    → Persists x y
    → (f ≡ post) ⊎ ((stops x ≡ true) ⊎ (f ≡ x.next_pc))
    → (f ≡ post) ⊎ ((stops y ≡ true) ⊎ (f ≡ y.next_pc))
carried k (inl h) = inl h
carried k (inr (inl s)) = inr (inl (k.stops_stay s))
carried {y} k (inr (inr q)) = elim (Bool-cases (stops y)) [
  | inl s ↦ inr (inl s)
  | inr r ↦ inr (inr (q ∙ sym (k.next_same r)))
]

-- An access goes on behind its instruction, which does nothing else.
pub record IsPlainAccess (i : ExecuteInputs) (o : ExecuteOutputs) : Type 0 where
  pub access_next : o.memory_start ≡ true → o.memory_next_pc ≡ i.pre_post_increment_pc
  pub plain_next : o.memory_start ≡ true → o.next_pc ≡ i.pre_post_increment_pc
  pub plain_stops : o.memory_start ≡ true → stops o ≡ false

either2 :
    (R : ExecuteOutputs → ExecuteOutputs → Type 0) (b : Bool) (x y z w : ExecuteOutputs)
    → R x z
    → R y w
    → R (if b then x else y) (if b then z else w)
either2 R true x y z w h k = h
either2 R false x y z w h k = k

module _ (v : Varying) (i : ExecuteInputs) (waiting : i.special_write_access_fault ≡ false) where
  gp-Persists : (op : Option GpOpcode) → Persists (execute_gp op i) (execute_gp op (vary v i))
  unfolding execute_gp
  gp-Persists (some add) = ground arith
  gp-Persists _ = ground arith

  ls_reg-Persists : (op : LsOpcode) → Persists (execute_ls_reg op i) (execute_ls_reg op (vary v i))
  unfolding execute_ls_reg
  ls_reg-Persists load = ground arith
  ls_reg-Persists _ = ground arith

  ls_pc-Persists : (op : LsOpcode) → Persists (execute_ls_pc op i) (execute_ls_pc op (vary v i))
  unfolding execute_ls_pc
  ls_pc-Persists load = ground arith
  ls_pc-Persists _ = ground arith

  pub execute-Persists : Persists (execute i) (execute (vary v i))
  unfolding execute
  execute-Persists =
      either2 Persists i.valid _ _ _ _
        (either2 Persists (instruction_top2 i.instruction == 2) _ _ _ _ (ground arith) (
          either2 Persists (instruction_top2 i.instruction == 0) _ _ _ _
            (ls_reg-Persists (to_ls (instruction_ls_opcode i.instruction)))
            (either2 Persists (instruction_top2 i.instruction == 1) _ _ _ _
              (ls_pc-Persists (to_ls (instruction_ls_opcode i.instruction)))
              (either2 Persists (instruction_top3 i.instruction == 7) _ _ _ _ (ground arith) (
                either2 Persists (instruction_top3 i.instruction == 6) _ _ _ _
                  (gp-Persists (to_gp (instruction_gp_opcode i.instruction))) (ground arith))))))
        (ground arith)

module _ (f : Bool) (i : ExecuteInputs) where
  abbrev with_fault : ExecuteInputs
  with_fault = record i { special_write_access_fault = f }

  abbrev StartsAlike : ExecuteOutputs → ExecuteOutputs → Type 0
  StartsAlike x y = y.memory_start ≡ x.memory_start

  gp-StartsAlike : (op : Option GpOpcode) → StartsAlike (execute_gp op i) (execute_gp op with_fault)
  unfolding execute_gp
  gp-StartsAlike (some add) = ground arith
  gp-StartsAlike _ = ground arith

  ls_reg-StartsAlike :
      (op : LsOpcode) → StartsAlike (execute_ls_reg op i) (execute_ls_reg op with_fault)
  unfolding execute_ls_reg
  ls_reg-StartsAlike load = ground arith
  ls_reg-StartsAlike _ = ground arith

  ls_pc-StartsAlike :
      (op : LsOpcode) → StartsAlike (execute_ls_pc op i) (execute_ls_pc op with_fault)
  unfolding execute_ls_pc
  ls_pc-StartsAlike load = ground arith
  ls_pc-StartsAlike _ = ground arith

  -- The request of an access does not depend on the answer to a write of a special register.
  pub memory_start-with_fault : (execute with_fault).memory_start ≡ (execute i).memory_start
  unfolding execute
  memory_start-with_fault =
      either2 StartsAlike i.valid _ _ _ _
        (either2 StartsAlike (instruction_top2 i.instruction == 2) _ _ _ _ refl (
          either2 StartsAlike (instruction_top2 i.instruction == 0) _ _ _ _
            (ls_reg-StartsAlike (to_ls (instruction_ls_opcode i.instruction)))
            (either2 StartsAlike (instruction_top2 i.instruction == 1) _ _ _ _
              (ls_pc-StartsAlike (to_ls (instruction_ls_opcode i.instruction)))
              (either2 StartsAlike (instruction_top3 i.instruction == 7) _ _ _ _ refl (
                either2 StartsAlike (instruction_top3 i.instruction == 6) _ _ _ _
                  (gp-StartsAlike (to_gp (instruction_gp_opcode i.instruction))) refl)))))
        refl

gp-IsPlainAccess : (op : Option GpOpcode) (i : ExecuteInputs) → IsPlainAccess i (execute_gp op i)
unfolding execute_gp
gp-IsPlainAccess (some add) i = ground arith
gp-IsPlainAccess _ i = ground arith

ls_reg-IsPlainAccess : (op : LsOpcode) (i : ExecuteInputs) → IsPlainAccess i (execute_ls_reg op i)
unfolding execute_ls_reg
ls_reg-IsPlainAccess load i = ground arith
ls_reg-IsPlainAccess _ i = ground arith

ls_pc-IsPlainAccess : (op : LsOpcode) (i : ExecuteInputs) → IsPlainAccess i (execute_ls_pc op i)
unfolding execute_ls_pc
ls_pc-IsPlainAccess load i = ground arith
ls_pc-IsPlainAccess _ i = ground arith

pub execute-IsPlainAccess : (i : ExecuteInputs) → IsPlainAccess i (execute i)
execute-IsPlainAccess i =
    by_group (IsPlainAccess i) i (ground arith) (ground arith) (λ op. ls_reg-IsPlainAccess op i)
      (λ op. ls_pc-IsPlainAccess op i) (ground arith) (λ op. gp-IsPlainAccess op i)

-- A write of a special register goes on to the next instruction, or traps where it is refused.
gp-GoesOn :
    (op : Option GpOpcode) (i : ExecuteInputs)
    → i.special_write_access_fault ≡ false
    → is_ssr op ≡ true
    → (stops (execute_gp op i) ≡ false) × ((execute_gp op i).next_pc ≡ i.pre_post_increment_pc)
unfolding execute_gp
gp-GoesOn (some add) i f h = ground arith
gp-GoesOn _ i f h = ground arith

special_write-goes_on :
    (i : ExecuteInputs)
    → i.special_write_access_fault ≡ false
    → special_write_stb i ≡ true
    → (stops (execute i) ≡ false) × ((execute i).next_pc ≡ i.pre_post_increment_pc)
unfolding execute special_write_stb
special_write-goes_on i f h =
    ground (arith, gp-GoesOn (to_gp (instruction_gp_opcode i.instruction)) i)
