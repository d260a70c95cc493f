-- ===== src/Core/Order/Walking.antt =====
-- Who waits for a page walk of the v3 core: while one goes on, the access or the fetch that it is for
-- stays where it is.
use little.Base.{ℕ, true, false, not, ◌&&◌, ◌||◌, ◌≡◌, arith}
use little.Core.State.{Params, Core, Inputs, resume_fetch, resume_memory, resume_vector}
use little.Core.Stages.{
  memory_error, memory_to_retire, memory_chain_continue, memory_out, memory_in,
  cached_memory_response, dcache_cacheable_load, frontend_out,
}
use little.Core.Translate.{vector_translate_ready, memory_translate_ready, fetch_translate_ready}
use little.Core.Advance.{fetch_accept, frontend_accept}
use little.Core.Control.{walk_from}
use little.Core.Cycle.{components, retired, frontend_in, is_fetch}
use little.Core.Order.View.{View, view, advanced}
use little.Core.Order.Signals.{to_memory, redirecting, advancing_lem}
use little.Core.Order.Branches.{begun}
use little.Frontend
use little.MemoryStage

pub record WalkOwns (v : View) : Type 0 where
  pub for_memory :
      v.walk_active ≡ true
      → v.walk_kind ≡ resume_memory
      → (v.memory_valid ≡ true) × (v.memory_phys ≡ false)
  pub for_fetch :
      v.walk_active ≡ true
      → v.walk_kind ≡ resume_fetch
      → (v.decode.valid ≡ false) × (v.execute.valid ≡ false) × (v.line_valid ≡ false)
  pub for_vector :
      v.walk_active ≡ true
      → v.walk_kind ≡ resume_vector
      → (v.vector_active ≡ true) × (v.vector_phys ≡ false)
  pub processes : v.walk_processing ≡ true → v.walk_active ≡ true

pub idle-WalkOwns : (v : View) → v.walk_active ≡ false → v.walk_processing ≡ false → WalkOwns v
idle-WalkOwns v h k = record {
  for_memory = λ x y. ground arith;
  for_fetch = λ x y. ground arith;
  for_vector = λ x y. ground arith;
  processes = λ x. ground arith;
}

invalidated_line :
    (timeout : ℕ) (i : Frontend.Inputs) (s : Frontend.Frontend)
    → i.invalidate ≡ true
    → (Frontend.step timeout i s).line_valid ≡ false
unfolding Frontend.step
invalidated_line timeout i s h = ground arith

module _ (p : Params) (e : Inputs) (c : Core) where
  -- The line of the frontend is dropped while the fetch waits for its address.
  line_dropped :
      not c.fetch.phys_valid || (c.walk.active && is_fetch c.walk.resume_kind) ≡ true
      → (Frontend.step p.bus_timeout_cycles (frontend_in p e c) c.frontend).line_valid ≡ false
  unfolding frontend_in
  line_dropped h =
      invalidated_line p.bus_timeout_cycles (frontend_in p e c) c.frontend (ground arith)

  accepting_line : fetch_accept p e c ≡ true → c.frontend.line_valid ≡ true
  unfolding fetch_accept frontend_accept frontend_out Frontend.outputs
  accepting_line h = ground arith

  -- An access without its physical address is not answered.
  unanswered :
      c.memory.phys_valid ≡ false
      → (memory_to_retire p e c ≡ false) × (memory_chain_continue p e c ≡ false)
  unfolding memory_to_retire memory_chain_continue memory_out memory_in cached_memory_response
      dcache_cacheable_load MemoryStage.outputs
  unanswered h = ground arith

  pub held-WalkOwns : WalkOwns (view c) → WalkOwns (view (begun p e c))
  unfolding components retired
  held-WalkOwns own = record {
    for_memory = own.for_memory;
    for_fetch = λ h k. ground (arith, own.for_fetch h k, line_dropped);
    for_vector = own.for_vector;
    processes = own.processes;
  }

  pub advanced-WalkOwns :
      memory_error p e c ≡ false
      → (c.memory_final.valid ≡ true → c.memory.valid ≡ false)
      → WalkOwns (view c)
      → WalkOwns (advanced p e c (begun p e c))
  unfolding components retired
  advanced-WalkOwns fine alone own = record {
    for_memory = λ h k.
        ground (arith, own.for_memory h k, alone, unanswered, to_memory p e c, redirecting p e c);
    for_fetch =
        λ h k. ground (arith, own.for_fetch h k, line_dropped, accepting_line, advancing_lem p e c);
    for_vector = own.for_vector;
    processes = own.processes;
  }

  pub memory_walk-WalkOwns :
      (a x : ℕ)
      → memory_translate_ready p e c ≡ true
      → WalkOwns (view (walk_from p e c a x resume_memory (begun p e c)))
  unfolding components retired memory_translate_ready
  memory_walk-WalkOwns a x r = record {
    for_memory = λ h k. ground arith;
    for_fetch = λ h k. ground arith;
    for_vector = λ h k. ground arith;
    processes = λ h. ground arith;
  }

  pub fetch_walk-WalkOwns :
      (a x : ℕ)
      → fetch_translate_ready p e c ≡ true
      → WalkOwns (view (walk_from p e c a x resume_fetch (begun p e c)))
  unfolding components retired fetch_translate_ready
  fetch_walk-WalkOwns a x r = record {
    for_memory = λ h k. ground arith;
    for_fetch = λ h k. ground (arith, line_dropped);
    for_vector = λ h k. ground arith;
    processes = λ h. ground arith;
  }

  pub vector_walk-WalkOwns :
      (a x : ℕ)
      → vector_translate_ready p e c ≡ true
      → WalkOwns (view (walk_from p e c a x resume_vector (begun p e c)))
  unfolding components retired vector_translate_ready
  vector_walk-WalkOwns a x r = record {
    for_memory = λ h k. ground arith;
    for_fetch = λ h k. ground arith;
    for_vector = λ h k. ground arith;
    processes = λ h. ground arith;
  }
