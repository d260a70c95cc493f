-- ===== src/Core/Order/Conditions.antt =====
-- What each branch of the control of the v3 core says of the registers and signals of its cycle.
use little.Base.{true, false, ◌&&◌, ◌||◌, ◌≡◌, arith}
use little.Core.State.{Params, Core, Inputs}
use little.Core.Stages.{memory_error}
use little.Core.Translate.{
  vector_translate_ready, vector_translate_complete, memory_translate_ready,
  memory_translate_complete, fetch_translate_ready, fetch_translate_complete, walk_response_valid,
  walk_leaf_success,
}
use little.Core.Traps.{entry_start, vector_response_valid}
use little.Core.Control
use little.Core.Control.{Branch, branch}
use little.Core.Order.Branches.{Keeps, early, late}
use little.Retire.{retire}

module _ (p : Params) (e : Inputs) (c : Core) where
  pub of_stopped : branch p e c ≡ Control.stopped → c.machine.halted || c.machine.locked_up ≡ true
  unfolding branch
  of_stopped h = ground arith

  of_entry : branch p e c ≡ Control.entry → entry_start p e c ≡ true
  unfolding branch
  of_entry h = ground arith

  pub of_retire_stop :
      branch p e c ≡ Control.retire_stop
      → (c.retire.valid && c.retire.halt) || (c.retire.valid && c.retire.lockup) ≡ true
  unfolding branch retire
  of_retire_stop h = ground arith

  pub of_vector_translated :
      branch p e c ≡ Control.vector_translated → Keeps p e c × (vector_translate_ready p e c ≡ true)
  unfolding branch vector_translate_complete vector_translate_ready
  of_vector_translated h = (early p e c (ground arith) (ground arith), ground arith)

  pub of_memory_translated :
      branch p e c ≡ Control.memory_translated → Keeps p e c × (memory_translate_ready p e c ≡ true)
  unfolding branch memory_translate_complete memory_translate_ready
  of_memory_translated h = (early p e c (ground arith) (ground arith), ground arith)

  pub of_fetch_translated :
      branch p e c ≡ Control.fetch_translated → Keeps p e c × (fetch_translate_ready p e c ≡ true)
  unfolding branch fetch_translate_complete fetch_translate_ready
  of_fetch_translated h = (early p e c (ground arith) (ground arith), ground arith)

  pub of_vector_walk :
      branch p e c ≡ Control.vector_walk → Keeps p e c × (vector_translate_ready p e c ≡ true)
  unfolding branch vector_translate_ready
  of_vector_walk h = (early p e c (ground arith) (ground arith), ground arith)

  pub of_memory_walk :
      branch p e c ≡ Control.memory_walk → Keeps p e c × (memory_translate_ready p e c ≡ true)
  unfolding branch memory_translate_ready
  of_memory_walk h = (early p e c (ground arith) (ground arith), ground arith)

  pub of_fetch_walk :
      branch p e c ≡ Control.fetch_walk → Keeps p e c × (fetch_translate_ready p e c ≡ true)
  unfolding branch fetch_translate_ready
  of_fetch_walk h = (early p e c (ground arith) (ground arith), ground arith)

  pub of_walk_response : branch p e c ≡ Control.walk_response → Keeps p e c × (c.walk.active ≡ true)
  unfolding branch walk_response_valid
  of_walk_response h = (late p e c (ground arith) (ground arith) (ground arith), ground arith)

  pub of_walk_leaf : branch p e c ≡ Control.walk_leaf → Keeps p e c × (c.walk.processing ≡ true)
  unfolding branch walk_leaf_success
  of_walk_leaf h = (late p e c (ground arith) (ground arith) (ground arith), ground arith)

  pub of_walk_descend :
      branch p e c ≡ Control.walk_descend → Keeps p e c × (c.walk.processing ≡ true)
  unfolding branch
  of_walk_descend h = (late p e c (ground arith) (ground arith) (ground arith), ground arith)

  pub of_vector_response :
      branch p e c ≡ Control.vector_response
      → (c.machine.halted || c.machine.locked_up ≡ false)
        × (c.vector_load.active ≡ true)
        × (c.vector_load.phys_valid ≡ true)
  unfolding branch vector_response_valid
  of_vector_response h = ground arith

  pub of_advancing :
      branch p e c ≡ Control.advancing
      → Keeps p e c × (memory_error p e c ≡ false) × (entry_start p e c ≡ false)
  unfolding branch
  of_advancing h =
      (late p e c (ground arith) (ground arith) (ground arith), ground arith, ground arith)
