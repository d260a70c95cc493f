-- ===== src/Predictor/Targets.antt =====
-- The static predictions against what the execute stage computes.
use little.Base.{
  ℕ, ◌+◌, ◌%◌, ◌^◌, Bool, true, false, if◌then◌else◌, test_bit, ltb, slice, ap, Bool-cases, ◌<◌,
  ◌≡◌, refl, ◌⊎◌, inl, inr, ◌∙◌, sym, arith,
}
use little.Isa.{LsOpcode, to_ls, ls_value, jump_z}
use little.Fields.{instruction_ls_opcode, ls_condition}
use little.Execute.{ExecuteInputs, ExecuteOutputs, execute, execute_ls_pc, ujmp, ls_jump_target}
use little.Predictor.{backward_taken, is_pc_rel_cond_branch, is_ujmp}

-- The instruction is at `pc`.
pub record IsAt (i : ExecuteInputs) (pc : ℕ) : Type 0 where
  pub is_valid : i.valid ≡ true
  pub incremented : i.pre_post_increment_pc ≡ (pc + 2) % 2 ^ 64

execute-ujmp :
    (i : ExecuteInputs) → i.valid ≡ true → is_ujmp i.instruction ≡ true → execute i ≡ ujmp i
unfolding execute
execute-ujmp i v u = ground arith

execute-cond :
    (i : ExecuteInputs)
    → i.valid ≡ true
    → is_pc_rel_cond_branch i.instruction ≡ true
    → execute i ≡ execute_ls_pc (to_ls (instruction_ls_opcode i.instruction)) i
unfolding execute
execute-cond i v u = ground arith

jump_next_pc :
    (op : LsOpcode) (i : ExecuteInputs)
    → ltb (ls_value op) (ls_value jump_z) ≡ false
    → (execute_ls_pc op i).next_pc
      ≡ (if ls_condition i.flags op then ls_jump_target i else i.pre_post_increment_pc)
unfolding execute_ls_pc
jump_next_pc jump_z i high = refl
jump_next_pc _ i high = ground arith

ls_value-to_ls : (n : ℕ) → n < 16 → ls_value (to_ls n) ≡ n
unfolding to_ls
ls_value-to_ls n lt = ground arith

-- The branch is unconditional, or its condition is what the sign of its offset suggests.
abbrev pub IsGuessed : ExecuteInputs → Type 0
IsGuessed i =
    (is_ujmp i.instruction ≡ true)
    ⊎ (ls_condition i.flags (to_ls (instruction_ls_opcode i.instruction))
        ≡ test_bit i.instruction 9)

opcode_bound : (x : ℕ) → slice x 10 14 < 16
opcode_bound x = omega arith

cond_next_pc :
    (i : ExecuteInputs)
    → i.valid ≡ true
    → is_pc_rel_cond_branch i.instruction ≡ true
    → (execute i).next_pc ≡ (
        if ls_condition i.flags (to_ls (instruction_ls_opcode i.instruction))
        then ls_jump_target i
        else i.pre_post_increment_pc)
cond_next_pc i v c =
    ap (λ (o : ExecuteOutputs). o.next_pc) (execute-cond i v c)
    ∙ jump_next_pc (to_ls (instruction_ls_opcode i.instruction)) i (
        rw (ls_value-to_ls (instruction_ls_opcode i.instruction) (opcode_bound i.instruction))
          (ground arith))

predicted-ujmp :
    (i : ExecuteInputs) (pc : ℕ)
    → i.pre_post_increment_pc ≡ (pc + 2) % 2 ^ 64
    → is_ujmp i.instruction ≡ true
    → (backward_taken i.instruction pc).predicted_next_pc ≡ (ujmp i).next_pc
unfolding backward_taken
predicted-ujmp i pc incremented u = simp (u, incremented) refl

predicted-cond :
    (i : ExecuteInputs) (pc : ℕ)
    → i.pre_post_increment_pc ≡ (pc + 2) % 2 ^ 64
    → is_ujmp i.instruction ≡ false
    → is_pc_rel_cond_branch i.instruction ≡ true
    → (backward_taken i.instruction pc).predicted_next_pc
      ≡ (if test_bit i.instruction 9 then ls_jump_target i else i.pre_post_increment_pc)
unfolding backward_taken
predicted-cond i pc incremented u c = simp (u, c, incremented) refl

branch_kind :
    (x pc : ℕ)
    → (backward_taken x pc).is_branch ≡ true
    → is_ujmp x ≡ false
    → is_pc_rel_cond_branch x ≡ true
unfolding backward_taken
branch_kind x pc branch u = ground arith

guess_of_cond :
    (i : ExecuteInputs)
    → IsGuessed i
    → is_ujmp i.instruction ≡ false
    → ls_condition i.flags (to_ls (instruction_ls_opcode i.instruction)) ≡ test_bit i.instruction 9
guess_of_cond i (inl u) f = absurd (ground arith)
guess_of_cond i (inr g) f = g

-- A branch that goes as guessed is predicted where the execute stage sends it.
backward_taken-next_pc :
    (i : ExecuteInputs) (pc : ℕ)
    → IsAt i pc
    → (backward_taken i.instruction pc).is_branch ≡ true
    → IsGuessed i
    → (backward_taken i.instruction pc).predicted_next_pc ≡ (execute i).next_pc
backward_taken-next_pc i pc at branch guessed = elim (Bool-cases (is_ujmp i.instruction)) [
  | inl u ↦
      predicted-ujmp i pc at.incremented u
      ∙ sym (ap (λ (o : ExecuteOutputs). o.next_pc) (execute-ujmp i at.is_valid u))
  | inr f ↦ conditional f (branch_kind i.instruction pc branch f)
]
  where
    conditional :
        is_ujmp i.instruction ≡ false
        → is_pc_rel_cond_branch i.instruction ≡ true
        → (backward_taken i.instruction pc).predicted_next_pc ≡ (execute i).next_pc
    conditional f c =
        predicted-cond i pc at.incremented f c
        ∙ ap (λ (b : Bool). if b then ls_jump_target i else i.pre_post_increment_pc)
            (sym (guess_of_cond i guessed f))
        ∙ sym (cond_next_pc i at.is_valid c)
