-- ===== src/Core/Stopped/BusError.antt =====
-- A memory access of the v3 core that the bus answers with an error.
use little.Base.{ℕ, suc, true, false, ◌≡◌, ◌∙◌, arith}
use little.Core.State.{Params, Core, Inputs}
use little.Core.Stages.{lsu_out, cached_memory_response, memory_error, memory_out, memory_in}
use little.Core.Traps.{is_reset}
use little.Core.Control
use little.Core.Control.{branch, act}
use little.Core.Cycle.{step, after, components, retired, zero_cleared}
use little.Core.Stopped.{
  has_stopped, IsDrained, zero_cleared-register_zero, write_back-register_zero, next_state_shown,
  after-IsFrozenFrom,
}
use little.MemoryStage
use little.Retire.{Machine, write_back}

-- The load/store unit answers the access of the memory stage with an error.
pub record IsAnsweredWithError (p : Params) (e : Inputs) (c : Core) : Type 0 where
  pub accessing : c.memory.valid ≡ true
  pub translated : c.memory.phys_valid ≡ true
  pub not_cached : cached_memory_response p e c ≡ false
  pub no_walk : c.walk.active ≡ false
  pub no_vector : c.vector_load.active ≡ false
  pub answered : (lsu_out p e c).response_valid ≡ true
  pub with_error : (lsu_out p e c).response_error ≡ true

-- What the core shows afterwards, from what it shows after the write-back of the cycle.
pub record IsLockedFrom (m n : Machine) : Type 0 where
  pub regs_same : (i : ℕ) → n.regs (suc i) ≡ m.regs (suc i)
  pub flags_same : n.flags ≡ m.flags
  pub halted_same : n.halted ≡ m.halted
  pub locked : n.locked_up ≡ true
  pub nothing_commits : n.commit_valid ≡ false

module _ (p : Params) (e : Inputs) (c : Core) (running : is_reset c.state ≡ false)
    (going : has_stopped c ≡ false) (failed : IsAnsweredWithError p e c) where
  error_branch : branch p e c ≡ Control.bus_lockup
  unfolding branch memory_error memory_out memory_in MemoryStage.outputs
  error_branch = ground (
    arith, failed.accessing, failed.translated, failed.not_cached, failed.no_walk, failed.no_vector,
    failed.answered, failed.with_error,
  )

  error-IsDrained : IsDrained (step p e c)
  unfolding step act zero_cleared retired components
  error-IsDrained =
      rw (running, error_branch)
        (record {
          has_stopped_lem = ground arith;
          running = ground (arith, next_state_shown p e c);
          register_zero =
              zero_cleared-register_zero p e c _ (write_back-register_zero c.retire c.machine);
          decode_empty = ground arith;
          execute_empty = ground arith;
          memory_empty = ground arith;
          memory_final_empty = ground arith;
          retire_empty = ground arith;
        })

  error_step :
      ((i : ℕ) → (step p e c).machine.regs (suc i) ≡ (write_back c.retire c.machine).regs (suc i))
      × ((step p e c).machine.flags ≡ (write_back c.retire c.machine).flags)
      × ((step p e c).machine.halted ≡ (write_back c.retire c.machine).halted)
      × ((step p e c).machine.locked_up ≡ true)
  unfolding step act zero_cleared retired components
  error_step =
      rw (running, error_branch) ((λ i. ground arith), ground arith, ground arith, ground arith)

-- Where the bus answers a memory access of a running v3 core with an error, the core locks up: from
-- the next cycle on, whatever the inputs are, registers and flags are for ever what the older
-- instruction that retires in this cycle leaves, and nothing commits; no part of the failed access
-- comes into them.
pub bus_error-IsLockedFrom :
    (p : Params) (es : ℕ → Inputs) (c : Core)
    → is_reset c.state ≡ false
    → has_stopped c ≡ false
    → IsAnsweredWithError p (es 0) c
    → (n : ℕ) → IsLockedFrom (write_back c.retire c.machine) (after p (suc (suc n)) es c).machine
unfolding after
bus_error-IsLockedFrom p es c running going failed n =
    let first = error_step p (es 0) c running going failed in
    let rest =
      after-IsFrozenFrom p n (λ k. es (suc k)) (step p (es 0) c)
        (error-IsDrained p (es 0) c running going failed) in
    record {
      regs_same = λ i. rest.regs_same (suc i) ∙ first.0 i;
      flags_same = rest.flags_same ∙ first.1;
      halted_same = rest.halted_same ∙ first.2;
      locked = rest.locked_up_same ∙ first.3;
      nothing_commits = rest.nothing_commits;
    }
