-- ===== src/Core/Order/Owners.antt =====
-- The owners of a page walk of the v3 core after each branch of its control.
use little.Base.{true, false, ◌||◌, if◌then◌else◌, ◌≡◌, refl, sym, ◌⊎◌, inl, inr, Bool-cases, arith}
use mathlib.Core.Path.{subst}
use little.Core.State.{Params, Core, Inputs, WalkResume, resume_fetch, resume_memory, resume_vector}
use little.Core.Traps.{vector_arrived}
use little.Core.Translate.{
  walk_response_error, vector_translate_ready, memory_translate_ready, fetch_translate_ready,
  access_read,
}
use little.Walker.{access_write, access_execute, walk_result_phys}
use little.Core.Control
use little.Core.Control.{Branch, branch, act, resume, walk_ended}
use little.Core.Cycle.{components, retired}
use little.Core.Order.View.{View, view, advance-view}
use little.Core.Order.Signals.{settled_out}
use little.Core.Order.Invariant.{InOrder, write_back-stopped}
use little.Core.Order.Branches.{Keeps, begun}
use little.Core.Order.Walking.{
  WalkOwns, idle-WalkOwns, held-WalkOwns, advanced-WalkOwns, memory_walk-WalkOwns,
  fetch_walk-WalkOwns, vector_walk-WalkOwns,
}
use little.Core.Order.Conditions

module _ (p : Params) (e : Inputs) (c : Core) where
  -- The registers of a core whose pipeline was squashed, with the fetch address or a reason not to
  -- go on.
  abbrev pub acted : Branch → Core
  acted b = act p e c b (begun p e c)

  ready_walk :
      (vector_translate_ready p e c ≡ true) ⊎ (memory_translate_ready p e c ≡ true)
      → c.walk.active ≡ false
  unfolding vector_translate_ready memory_translate_ready
  ready_walk (inl h) = ground arith
  ready_walk (inr h) = ground arith

  pub vector_ready : vector_translate_ready p e c ≡ true → c.vector_load.active ≡ true
  unfolding vector_translate_ready
  vector_ready h = ground arith

  pub memory_ready : memory_translate_ready p e c ≡ true → c.memory.valid ≡ true
  unfolding memory_translate_ready
  memory_ready h = ground arith

  pub fetch_ready : fetch_translate_ready p e c ≡ true → c.execute.valid ≡ false
  unfolding fetch_translate_ready
  fetch_ready h = ground arith

  leaf_ended :
      (k : WalkResume)
      → WalkOwns
          (view (resume p e c k (walk_result_phys c.walk.walk) (walk_ended p e c (begun p e c))))
  unfolding components retired
  leaf_ended resume_fetch = idle-WalkOwns _ refl refl
  leaf_ended resume_memory = idle-WalkOwns _ refl refl
  leaf_ended resume_vector = idle-WalkOwns _ refl refl

  -- The walks after each branch, as long as the core runs.
  abbrev pub Owns : View → Type 0
  Owns v = v.machine.halted || v.machine.locked_up ≡ false → WalkOwns v

  held_walk : Keeps p e c → Owns (view c) → WalkOwns (view (begun p e c))
  held_walk k o = held-WalkOwns p e c (o k.running)

  pub acted-Owns :
      (b : Branch)
      → branch p e c ≡ b
      → InOrder (settled_out p e c) (view c)
      → Owns (view c)
      → Owns (view (acted b))
  unfolding act components retired
  acted-Owns Control.stopped h i o r = idle-WalkOwns _ refl refl
  acted-Owns Control.bus_lockup h i o r = idle-WalkOwns _ refl refl
  acted-Owns Control.vector_lockup h i o r = idle-WalkOwns _ refl refl
  acted-Owns Control.vector_translated h i o r =
      let k = Conditions.of_vector_translated p e c h in
      idle-WalkOwns _ (ready_walk (inl k.1))
        (ground (arith, ready_walk (inl k.1), (o k.0.running).processes))
  acted-Owns Control.memory_translated h i o r =
      let k = Conditions.of_memory_translated p e c h in
      idle-WalkOwns _ (ready_walk (inr k.1))
        (ground (arith, ready_walk (inr k.1), (o k.0.running).processes))
  acted-Owns Control.fetch_translated h i o r =
      held_walk (Conditions.of_fetch_translated p e c h).0 o
  acted-Owns Control.vector_walk h i o r =
      vector_walk-WalkOwns p e c c.vector_load.virtual_addr access_read
        (Conditions.of_vector_walk p e c h).1
  acted-Owns Control.memory_walk h i o r =
      memory_walk-WalkOwns p e c c.memory.virtual_addr
        (if c.memory.write then access_write else access_read) (Conditions.of_memory_walk p e c h).1
  acted-Owns Control.fetch_walk h i o r =
      fetch_walk-WalkOwns p e c c.fetch.translate_virtual_addr access_execute
        (Conditions.of_fetch_walk p e c h).1
  acted-Owns Control.preempt_lockup h i o r = idle-WalkOwns _ refl refl
  acted-Owns Control.entry h i o r = idle-WalkOwns _ refl refl
  acted-Owns Control.walk_response h i o r =
      let k = Conditions.of_walk_response p e c h in
      elim (Bool-cases (walk_response_error p e c)) [
        | inl bad ↦ rw bad (idle-WalkOwns _ refl refl)
        | inr good ↦
            let t = held_walk k.0 o in
            rw good (record {
              for_memory = t.for_memory;
              for_fetch = t.for_fetch;
              for_vector = t.for_vector;
              processes = λ x. k.1;
            })
      ]
  acted-Owns Control.walk_leaf h i o r = leaf_ended c.walk.resume_kind
  acted-Owns Control.walk_descend h i o r =
      let t = held_walk (Conditions.of_walk_descend p e c h).0 o in
      record {
        for_memory = t.for_memory;
        for_fetch = t.for_fetch;
        for_vector = t.for_vector;
        processes = λ x. ground arith;
      }
  acted-Owns Control.vector_response h i o r =
      let k = Conditions.of_vector_response p e c h in
      let t = held-WalkOwns p e c (o k.0) in
      elim (Bool-cases (vector_arrived p e c)) [
        | inl good ↦ rw good (record {
          for_memory = λ x y. ground (arith, t.for_memory x y, i.vector_alone);
          for_fetch = t.for_fetch;
          for_vector = λ x y. ground (arith, t.for_vector x y);
          processes = t.processes;
        })
        | inr bad ↦ absurd (ground (arith, r))
      ]
  acted-Owns Control.retire_stop h i o r =
      absurd (
        ground (arith, r, Conditions.of_retire_stop p e c h, write_back-stopped c.retire c.machine))
  acted-Owns Control.advancing h i o r =
      let k = Conditions.of_advancing p e c h in
      subst WalkOwns (sym (advance-view p e c (begun p e c)))
        (advanced-WalkOwns p e c k.1 i.final_alone (o k.0.running))
