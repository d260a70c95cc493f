-- ===== src/Core/Order/Program.antt =====
-- The program order of the v3 core after each branch of its control.
use little.Base.{true, false, ◌≡◌, refl, sym, ◌∙◌, ap, inl, inr, Bool-cases, arith}
use mathlib.Core.Path.{subst}
use little.Core.State.{Params, Core, Inputs, WalkResume, resume_fetch, resume_memory, resume_vector}
use little.Core.Traps.{vector_arrived}
use little.Core.Translate.{walk_response_error}
use little.Walker.{walk_result_phys}
use little.Core.Control
use little.Core.Control.{Branch, branch, act, resume, walk_ended}
use little.Core.Cycle.{components, retired}
use little.Core.Order.View.{View, view, advance-view}
use little.Core.Order.Signals.{settled_out}
use little.Core.Order.Invariant.{InOrder, none_younger, write_back-stopped}
use little.Core.Order.Branches.{Keeps, begun, held-InOrder, emptied-InOrder, walk-InOrder}
use little.Core.Order.Conditions
use little.Core.Order.Owners.{acted, Owns, vector_ready, memory_ready, fetch_ready}
use little.Core.Order.Held.{waits_for_memory, waits_in_advance}
use little.Core.Order.Advancing.{next-InOrder}
use little.Execute.{ExecuteOutputs}

module _ (p : Params) (e : Inputs) (c : Core) where
  -- The order after each branch; `c'` has the execute stage and the special registers after it.
  module _ (e' : Inputs) (c' : Core) (i : InOrder (settled_out p e c) (view c))
      (o : Owns p e c (view c)) (s : c'.special_regs ≡ (begun p e c).special_regs) where
    abbrev w : ExecuteOutputs
    w = settled_out p e' c'

    held :
        Keeps p e c
        → (c.execute.valid ≡ true → c.memory.valid ≡ true)
        → c'.execute ≡ c.execute
        → InOrder w (view (begun p e c))
    held k m x = held-InOrder p e c w i k (waits_for_memory p e c e' c' i k m x s)

    walk_holds : Keeps p e c → c.walk.active ≡ true → c.execute.valid ≡ true → c.memory.valid ≡ true
    walk_holds k a x = kind_holds c.walk.resume_kind refl
      where
        kind_holds : (r : WalkResume) → c.walk.resume_kind ≡ r → c.memory.valid ≡ true
        kind_holds resume_memory q = ((o k.running).for_memory a q).0
        kind_holds resume_fetch q = ground (arith, (o k.running).for_fetch a q)
        kind_holds resume_vector q = ground (arith, (o k.running).for_vector a q, i.vector_alone)

    locked :
        (v : View)
        → none_younger v ≡ true
        → v.retire.valid ≡ false
        → v.machine.locked_up ≡ true
        → InOrder w v
    locked v n r l = emptied-InOrder w v n r (λ b. ground arith)

    leaf_order :
        Keeps p e c
        → c.walk.active ≡ true
        → (r : WalkResume)
        → c'.execute
          ≡ (resume p e c r (walk_result_phys c.walk.walk) (walk_ended p e c (begun p e c))).execute
        → InOrder w
            (view (resume p e c r (walk_result_phys c.walk.walk) (walk_ended p e c (begun p e c))))
    unfolding components retired
    leaf_order k a resume_fetch x = walk-InOrder w _ _ _ _ _ _ _ (held k (walk_holds k a) x)
    leaf_order k a resume_memory x = walk-InOrder w _ _ _ _ _ _ _ (held k (walk_holds k a) x)
    leaf_order k a resume_vector x = walk-InOrder w _ _ _ _ _ _ _ (held k (walk_holds k a) x)

    pub acted-InOrder :
        (b : Branch)
        → branch p e c ≡ b
        → c'.execute ≡ (acted p e c b).execute
        → InOrder w (view (acted p e c b))
    unfolding act components retired
    acted-InOrder Control.stopped h x = emptied-InOrder w _ refl refl (λ b.
        ground (arith, b, Conditions.of_stopped p e c h, write_back-stopped c.retire c.machine))
    acted-InOrder Control.bus_lockup h x = locked _ refl refl refl
    acted-InOrder Control.vector_lockup h x = locked _ refl refl refl
    acted-InOrder Control.vector_translated h x =
        let k = Conditions.of_vector_translated p e c h in
        walk-InOrder w _ _ _ _ _ _ _
          (held k.0 (λ q. ground (arith, vector_ready p e c k.1, i.vector_alone)) x)
    acted-InOrder Control.memory_translated h x =
        let k = Conditions.of_memory_translated p e c h in
        walk-InOrder w _ _ _ _ _ _ _ (held k.0 (λ q. memory_ready p e c k.1) x)
    acted-InOrder Control.fetch_translated h x =
        let k = Conditions.of_fetch_translated p e c h in
        held k.0 (λ q. ground (arith, fetch_ready p e c k.1)) x
    acted-InOrder Control.vector_walk h x =
        let k = Conditions.of_vector_walk p e c h in
        walk-InOrder w _ _ _ _ _ _ _
          (held k.0 (λ q. ground (arith, vector_ready p e c k.1, i.vector_alone)) x)
    acted-InOrder Control.memory_walk h x =
        let k = Conditions.of_memory_walk p e c h in
        walk-InOrder w _ _ _ _ _ _ _ (held k.0 (λ q. memory_ready p e c k.1) x)
    acted-InOrder Control.fetch_walk h x =
        let k = Conditions.of_fetch_walk p e c h in
        walk-InOrder w _ _ _ _ _ _ _ (held k.0 (λ q. ground (arith, fetch_ready p e c k.1)) x)
    acted-InOrder Control.preempt_lockup h x = locked _ refl refl refl
    acted-InOrder Control.entry h x = emptied-InOrder w _ refl refl (λ b. ground (arith, b))
    acted-InOrder Control.walk_response h x =
        let k = Conditions.of_walk_response p e c h in
        elim (Bool-cases (walk_response_error p e c)) [
          | inl bad ↦ rw bad (locked _ refl refl refl)
          | inr good ↦
              rw good (walk-InOrder w _ _ _ _ _ _ _ (held k.0 (walk_holds k.0 k.1) (rw good at x)))
        ]
    acted-InOrder Control.walk_leaf h x =
        let k = Conditions.of_walk_leaf p e c h in
        leaf_order k.0 ((o k.0.running).processes k.1) c.walk.resume_kind x
    acted-InOrder Control.walk_descend h x =
        let k = Conditions.of_walk_descend p e c h in
        walk-InOrder w _ _ _ _ _ _ _ (held k.0 (walk_holds k.0 ((o k.0.running).processes k.1)) x)
    acted-InOrder Control.vector_response h x =
        let k = Conditions.of_vector_response p e c h in
        elim (Bool-cases (vector_arrived p e c)) [
          | inl good ↦ rw good (emptied-InOrder w _ (i.vector_alone k.1).0 refl (λ b. refl))
          | inr bad ↦ rw bad (locked _ refl refl refl)
        ]
    acted-InOrder Control.retire_stop h x = emptied-InOrder w _ refl refl (λ b.
        ground (arith, b, Conditions.of_retire_stop p e c h, write_back-stopped c.retire c.machine))
    acted-InOrder Control.advancing h x =
        let k = Conditions.of_advancing p e c h in
        let moved = advance-view p e c (begun p e c) in
        subst (InOrder w) (sym moved) (
          next-InOrder p e c i k.1 k.2 k.0.running k.0.calm w
            (waits_in_advance p e c e' c' i k.2 (x ∙ ap (λ (v : View). v.execute) moved) s))
