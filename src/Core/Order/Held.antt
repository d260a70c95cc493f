-- ===== src/Core/Order/Held.antt =====
-- An instruction of the v3 core that waits in the execute stage, over a cycle.
use little.Base.{true, false, ◌≡◌, ◌∙◌, ap, arith}
use little.Core.State.{Params, Core, Inputs}
use little.Core.Traps.{entry_start}
use little.Core.Stages.{memory_redirect}
use little.Core.Handover.{
  execute_special_write_commit, execute_to_retire, execute_to_memory, decode_advance,
}
use little.Core.Cycle.{components, retired}
use little.Core.Order.View.{view, advanced, execute_leaves}
use little.Core.Order.Waiting.{Persists, carried}
use little.Core.Order.Signals.{settled_out}
use little.Core.Order.Settled.{registers_stay, settled_stays}
use little.Core.Order.Invariant.{InOrder}
use little.Core.Order.Branches.{Keeps, begun, FetchedBehind}
use little.Registers.{Registers}

module _ (p : Params) (e : Inputs) (c : Core) where
  -- An instruction that waits for the memory stage goes on where it did.
  pub waits_for_memory :
      (e' : Inputs) (c' : Core)
      → InOrder (settled_out p e c) (view c)
      → Keeps p e c
      → (c.execute.valid ≡ true → c.memory.valid ≡ true)
      → c'.execute ≡ c.execute
      → c'.special_regs ≡ (begun p e c).special_regs
      → c.execute.valid ≡ true
      → FetchedBehind p e c (settled_out p e c)
      → FetchedBehind p e c (settled_out p e' c')
  unfolding components retired execute_special_write_commit execute_to_retire
  waits_for_memory e' c' i k m x s valid f =
      let stays =
        registers_stay p e c (ground (arith, m)) (ground (arith, k.quiet))
          (ground (arith, i.vector_alone)) (ground (arith, i.control, m)) in
      carried
        (settled_stays p e c e' c' x (ap (λ (r : Registers). r.cpu_control) s ∙ stays.0)
          (ap (λ (r : Registers). r.interrupt_epc) s ∙ stays.1))
        f

  -- An instruction that has nothing before it moves on.
  moves_on :
      c.execute.valid ≡ true
      → c.memory.valid ≡ false
      → c.memory_final.valid ≡ false
      → execute_leaves p e c ≡ true
  unfolding execute_to_memory execute_to_retire memory_redirect
  moves_on x m f = ground arith

  pub waits_in_advance :
      (e' : Inputs) (c' : Core)
      → InOrder (settled_out p e c) (view c)
      → entry_start p e c ≡ false
      → c'.execute ≡ (advanced p e c (begun p e c)).execute
      → c'.special_regs ≡ (begun p e c).special_regs
      → decode_advance p e c ≡ false
      → execute_leaves p e c ≡ false
      → (advanced p e c (begun p e c)).execute.valid ≡ true
      → Persists (settled_out p e c) (settled_out p e' c')
  unfolding components retired execute_special_write_commit
  waits_in_advance e' c' i n x s stays held valid =
      let there : c.execute.valid ≡ true = ground arith in
      let same : (advanced p e c (begun p e c)).execute ≡ c.execute = ground arith in
      let quiet =
        registers_stay p e c (ground arith) n (ground (arith, i.vector_alone))
          (ground (arith, i.control, moves_on)) in
      settled_stays p e c e' c' (x ∙ same) (ap (λ (r : Registers). r.cpu_control) s ∙ quiet.0)
        (ap (λ (r : Registers). r.interrupt_epc) s ∙ quiet.1)
