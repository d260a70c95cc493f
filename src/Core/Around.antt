-- ===== src/Core/Around.antt =====
-- What the control of the v3 core leaves alone in a cycle.
use little.Base.{false, ◌==◌, ◌≡◌, refl, ◌∙◌, ap, Bool-cases, inl, inr, arith}
use little.Core.State.{Params, Core, Inputs, WalkResume, resume_fetch, resume_memory, resume_vector}
use little.Core.Traps.{is_reset, vector_arrived}
use little.Core.Translate.{walk_response_error}
use little.Core.Control
use little.Core.Control.{Branch, branch, act, resume, walk_ended}
use little.Core.Cycle.{step, components, retired, zero_cleared}
use little.Core.Order.View.{View, advance-view}
use little.Core.Order.Branches.{begun}
use little.Core.Order.Owners.{acted}
use little.Walker.{walk_result_phys}
use little.Core.Clearing.{clear_retire_stage}
use little.Core.Advance.{
  advance, finish_memory, fill_retire, move_memory, note_requests, move_decode, fill_decode,
  move_fetch,
}

module _ (p : Params) (e : Inputs) (c n : Core) where
  abbrev SameFault : (Core → Core) → Type 0
  SameFault f = (f n).pending_fault ≡ n.pending_fault

  finish_memory-pending_fault : SameFault (finish_memory p e c)
  unfolding finish_memory
  finish_memory-pending_fault = ground arith

  fill_retire-pending_fault : SameFault (fill_retire p e c)
  unfolding fill_retire
  fill_retire-pending_fault = ground arith

  move_memory-pending_fault : SameFault (move_memory p e c)
  unfolding move_memory
  move_memory-pending_fault = ground arith

  note_requests-pending_fault : SameFault (note_requests p e c)
  unfolding note_requests
  note_requests-pending_fault = ground arith

  move_decode-pending_fault : SameFault (move_decode p e c)
  unfolding move_decode
  move_decode-pending_fault = ground arith

  fill_decode-pending_fault : SameFault (fill_decode p e c)
  unfolding fill_decode
  fill_decode-pending_fault = ground arith

  move_fetch-pending_fault : SameFault (move_fetch p e c)
  unfolding move_fetch
  move_fetch-pending_fault = ground arith

advance-pending_fault :
    (p : Params) (e : Inputs) (c n : Core) → (advance p e c n).pending_fault ≡ n.pending_fault
unfolding advance
advance-pending_fault p e c n =
    let n1 = finish_memory p e c (clear_retire_stage c n) in
    let n2 = fill_retire p e c n1 in
    let n3 = move_memory p e c n2 in
    let n4 = note_requests p e c n3 in
    let n5 = move_decode p e c n4 in
    let n6 = fill_decode p e c n5 in
    move_fetch-pending_fault p e c n6
    ∙ fill_decode-pending_fault p e c n5
    ∙ move_decode-pending_fault p e c n4
    ∙ note_requests-pending_fault p e c n3
    ∙ move_memory-pending_fault p e c n2
    ∙ fill_retire-pending_fault p e c n1
    ∙ finish_memory-pending_fault p e c (clear_retire_stage c n)

-- The special registers, the state shown and the fault taken up are written before the control acts.
pub record SameAround (c n : Core) : Type 0 where
  pub same_registers : n.special_regs ≡ c.special_regs
  pub same_state : n.state ≡ c.state
  pub same_fault : n.pending_fault ≡ c.pending_fault

pub acted_around :
    (p : Params) (e : Inputs) (c : Core) (b : Branch) → SameAround (begun p e c) (acted p e c b)
unfolding act components retired
acted_around p e c Control.walk_response = elim (Bool-cases (walk_response_error p e c)) [
  | inl h ↦ rw h (record { same_registers = refl; same_state = refl; same_fault = refl })
  | inr h ↦ rw h (record { same_registers = refl; same_state = refl; same_fault = refl })
]
acted_around p e c Control.walk_leaf = resumed c.walk.resume_kind
  where
    resumed :
        (k : WalkResume)
        → SameAround
            (begun p e c)
            (resume p e c k (walk_result_phys c.walk.walk) (walk_ended p e c (begun p e c)))
    resumed resume_fetch = record { same_registers = refl; same_state = refl; same_fault = refl }
    resumed resume_memory = record { same_registers = refl; same_state = refl; same_fault = refl }
    resumed resume_vector = record { same_registers = refl; same_state = refl; same_fault = refl }
acted_around p e c Control.vector_response = elim (Bool-cases (vector_arrived p e c)) [
  | inl h ↦ rw h (record { same_registers = refl; same_state = refl; same_fault = refl })
  | inr h ↦ rw h (record { same_registers = refl; same_state = refl; same_fault = refl })
]
acted_around p e c Control.advancing =
    let v = advance-view p e c (begun p e c) in
    record {
      same_registers = ap (λ (v : View). v.special_regs) v;
      same_state = ap (λ (v : View). v.state) v;
      same_fault = advance-pending_fault p e c (begun p e c);
    }
acted_around p e c _ = record { same_registers = refl; same_state = refl; same_fault = refl }

pub record ZeroAround (n z : Core) : Type 0 where
  pub same_execute : z.execute ≡ n.execute
  pub around : SameAround n z

pub zero_cleared_around :
    (p : Params) (e : Inputs) (c n : Core) → ZeroAround n (zero_cleared p e c n)
unfolding zero_cleared
zero_cleared_around p e c n = elim (Bool-cases (c.machine.regs 0 == 0)) [
  | inl h ↦ rw h (record {
    same_execute = refl;
    around = record { same_registers = refl; same_state = refl; same_fault = refl };
  })
  | inr h ↦ rw h (record {
    same_execute = refl;
    around = record { same_registers = refl; same_state = refl; same_fault = refl };
  })
]

-- The same over a whole cycle.
pub step_around :
    (p : Params) (e : Inputs) (c : Core)
    → is_reset c.state ≡ false
    → SameAround (begun p e c) (step p e c)
unfolding step
step_around p e c running =
    let inside = acted_around p e c (branch p e c) in
    let z = zero_cleared_around p e c (acted p e c (branch p e c)) in
    rw running (record {
      same_registers = z.around.same_registers ∙ inside.same_registers;
      same_state = z.around.same_state ∙ inside.same_state;
      same_fault = z.around.same_fault ∙ inside.same_fault;
    })
