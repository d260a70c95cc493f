-- ===== src/Core/Stopped.antt =====
-- The v3 core once it has halted or locked up.
pub mod BusError
use little.Base.{ℕ, zero, suc, Bool, true, false, ◌||◌, ◌==◌, ◌≡◌, refl, ◌∙◌, arith}
use little.Base.{Bool-cases, inl, inr, ==→eq}
use little.Core.State.{Params, Core, Inputs}
use little.Core.Traps.{is_reset}
use little.Core.Control.{branch, act, walk_ended}
use little.Core.Clearing.{clear_inflight}
use little.Core.Cycle.{step, after, components, retired, zero_cleared, next_state}
use little.Retire.{write_back, retire, write_register, Machine, RetireEntry}

abbrev pub has_stopped : Core → Bool
has_stopped c = c.machine.halted || c.machine.locked_up

module _ (p : Params) (e : Inputs) (c : Core) where
  step_of_stopped :
      is_reset c.state ≡ false
      → has_stopped c ≡ true
      → step p e c
        ≡ zero_cleared p e c
            (walk_ended p e c (clear_inflight (retired p e c (components p e c c))))
  unfolding step branch act
  step_of_stopped running halt = rw (running, halt) refl

-- Nothing is in flight, and the core shows that it has stopped.
record IsDrained (c : Core) : Type 0 where
  pub has_stopped_lem : has_stopped c ≡ true
  pub running : is_reset c.state ≡ false
  pub register_zero : c.machine.regs 0 ≡ 0
  pub decode_empty : c.decode.valid ≡ false
  pub execute_empty : c.execute.valid ≡ false
  pub memory_empty : c.memory.valid ≡ false
  pub memory_final_empty : c.memory_final.valid ≡ false
  pub retire_empty : c.retire.valid ≡ false

write_register-zero :
    (write : Bool) (index value : ℕ) (regs : ℕ → ℕ)
    → regs 0 ≡ 0
    → write_register write index value regs 0 ≡ 0
unfolding write_register
write_register-zero write index value regs h = ground arith

write_back-register_zero :
    (r : RetireEntry) (m : Machine) → m.regs 0 ≡ 0 → (write_back r m).regs 0 ≡ 0
unfolding write_back
write_back-register_zero r m h =
    let a = retire r in
    ground (
      arith,
      write_register-zero a.write_reg a.write_reg_index a.write_reg_value m.regs,
      write_register-zero a.write_aux_reg a.write_aux_reg_index a.write_aux_reg_value
          (write_register a.write_reg a.write_reg_index a.write_reg_value m.regs),
    )

-- A cycle leaves register 0 as 0, if what it does before the end keeps it so.
zero_cleared-register_zero :
    (p : Params) (e : Inputs) (c n : Core)
    → (c.machine.regs 0 ≡ 0 → n.machine.regs 0 ≡ 0)
    → (zero_cleared p e c n).machine.regs 0 ≡ 0
unfolding zero_cleared
zero_cleared-register_zero p e c n h = elim (Bool-cases (c.machine.regs 0 == 0)) [
  | inl z ↦ rw z (h (==→eq _ _ z))
  | inr z ↦ rw z refl
]

pub next_state_shown : (p : Params) (e : Inputs) (c : Core) → is_reset (next_state p e c) ≡ false
unfolding next_state
next_state_shown p e c = ground arith

-- One cycle in which the core has stopped drops whatever was in flight.
step-IsDrained :
    (p : Params) (e : Inputs) (c : Core)
    → is_reset c.state ≡ false
    → has_stopped c ≡ true
    → IsDrained (step p e c)
unfolding zero_cleared retired components write_back retire
step-IsDrained p e c running halt = rw (step_of_stopped p e c running halt) (record {
  has_stopped_lem = ground arith;
  running = ground (arith, next_state_shown p e c);
  register_zero = zero_cleared-register_zero p e c _ (write_back-register_zero c.retire c.machine);
  decode_empty = ground arith;
  execute_empty = ground arith;
  memory_empty = ground arith;
  memory_final_empty = ground arith;
  retire_empty = ground arith;
})

-- What a program can see of a stopped core: the registers, the flags, and that nothing commits.
pub record IsFrozenFrom (m n : Machine) : Type 0 where
  pub regs_same : (i : ℕ) → n.regs i ≡ m.regs i
  pub flags_same : n.flags ≡ m.flags
  pub halted_same : n.halted ≡ m.halted
  pub locked_up_same : n.locked_up ≡ m.locked_up
  pub nothing_commits : n.commit_valid ≡ false

step-IsFrozenFrom :
    (p : Params) (e : Inputs) (c : Core) → IsDrained c → IsFrozenFrom c.machine (step p e c).machine
unfolding zero_cleared retired components write_back retire write_register
step-IsFrozenFrom p e c d = rw (step_of_stopped p e c d.running d.has_stopped_lem) (record {
  regs_same = λ i. ground (arith, d.retire_empty, d.register_zero);
  flags_same = ground (arith, d.retire_empty);
  halted_same = ground (arith, d.retire_empty);
  locked_up_same = ground (arith, d.retire_empty);
  nothing_commits = ground (arith, d.retire_empty);
})

after-IsFrozenFrom :
    (p : Params) (n : ℕ) (es : ℕ → Inputs) (c : Core)
    → IsDrained c
    → IsFrozenFrom c.machine (after p (suc n) es c).machine
unfolding after
after-IsFrozenFrom p zero es c d = step-IsFrozenFrom p (es 0) c d
after-IsFrozenFrom p (suc n) es c d =
    let first = step-IsFrozenFrom p (es 0) c d in
    let rest =
      after-IsFrozenFrom p n (λ k. es (suc k)) (step p (es 0) c)
        (step-IsDrained p (es 0) c d.running d.has_stopped_lem) in
    record {
      regs_same = λ i. rest.regs_same i ∙ first.regs_same i;
      flags_same = rest.flags_same ∙ first.flags_same;
      halted_same = rest.halted_same ∙ first.halted_same;
      locked_up_same = rest.locked_up_same ∙ first.locked_up_same;
      nothing_commits = rest.nothing_commits;
    }

-- A core that has halted or locked up changes its registers and flags in the cycle at hand at most:
-- from the next one on they stay, whatever the inputs are, interrupts included, and nothing commits.
pub stopped-stays :
    (p : Params) (es : ℕ → Inputs) (c : Core)
    → is_reset c.state ≡ false
    → has_stopped c ≡ true
    → (n : ℕ) → IsFrozenFrom (step p (es 0) c).machine (after p (suc (suc n)) es c).machine
unfolding after
stopped-stays p es c running halt n =
    after-IsFrozenFrom p n (λ k. es (suc k)) (step p (es 0) c)
      (step-IsDrained p (es 0) c running halt)
