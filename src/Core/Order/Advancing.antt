-- ===== src/Core/Order/Advancing.antt =====
-- The program order of the v3 core over an advance of its pipeline.
use little.Base.{true, false, ◌||◌, ◌≡◌, ◌⊎◌, inl, inr, Bool-cases, arith}
use little.Core.State.{Params, Core, Inputs}
use little.Core.Traps.{entry_start}
use little.Core.Stages.{memory_redirect, memory_error}
use little.Core.Handover.{
  execute_flush_younger, execute_redirect, execute_out, execute_in, execute_to_retire,
  decode_advance, special_write_access_fault, execute_special_write_commit,
}
use little.Core.Cycle.{components, retired}
use little.Core.Order.View.{View, view, execute_leaves}
use little.Core.Order.Waiting.{stops, Persists}
use little.Execute.{ExecuteOutputs}
use little.Core.Order.Signals.{
  settled_out, settled, redirecting, advancing_lem, accepting, jumping, flushing, not_flushing,
  straight,
}
use little.Core.Order.Invariant.{InOrder, after_memory, after_execute, is_broken}
use little.Core.Order.Retiring.{
  next, next-final_in_order, next-retires, next-commits, next-ends, next-control, next-final_alone,
  next-memory_in_order, next-vector_alone, unbroken, after_memory_of_stay, after_memory_of_leave,
  after_memory_of_drop, ends_of_leave, next-execute_in_order,
}

module _ (p : Params) (e : Inputs) (c : Core) (inv : InOrder (settled_out p e c) (view c))
    (no_error : memory_error p e c ≡ false) (no_entry : entry_start p e c ≡ false)
    (running : c.machine.halted || c.machine.locked_up ≡ false)
    (calm : c.pending_fault.pending ≡ true → c.vector_load.active ≡ true) where
  abbrev now : View
  now = next p e c inv no_error no_entry running calm

  -- Where the execute stage neither jumps nor stops, fetch has gone on behind it.
  fetched_behind :
      is_broken (view c) ≡ false
      → c.decode.valid ≡ false
      → c.execute.valid ≡ true
      → memory_redirect p e c ≡ false
      → execute_flush_younger p e c ≡ false
      → c.fetch.pc ≡ c.execute.post_increment_pc
  fetched_behind b d x m f =
      let same = settled p e c in
      ground (
        arith,
        inv.fetch_after_execute b d x,
        same.stops_stay,
        same.next_same,
        not_flushing p e c,
        straight p e c,
      )

  next-decode_in_order :
      is_broken now ≡ false → now.decode.valid ≡ true → now.decode.pc ≡ after_execute now
  unfolding components retired
  next-decode_in_order b h = ground (
    arith,
    unbroken p e c inv no_error no_entry running calm b,
    after_memory_of_stay p e c inv no_error no_entry running calm,
    after_memory_of_leave p e c inv no_error no_entry running calm,
    advancing_lem p e c,
    accepting p e c,
    not_flushing p e c,
    straight p e c,
    inv.decode_in_order,
    inv.fetch_after_decode,
    inv.fetch_after_memory,
    fetched_behind,
    redirecting p e c,
  )

  next-fetch_after_decode :
      is_broken now ≡ false → now.decode.valid ≡ true → now.fetch_pc ≡ now.decode.post_increment_pc
  unfolding components retired
  next-fetch_after_decode b h = ground (
    arith,
    unbroken p e c inv no_error no_entry running calm b,
    accepting p e c,
    jumping p e c,
    advancing_lem p e c,
    inv.fetch_after_decode,
    redirecting p e c,
  )

  next-fetch_after_memory :
      is_broken now ≡ false
      → now.decode.valid ≡ false
      → now.execute.valid ≡ false
      → now.fetch_pc ≡ after_memory now
  unfolding components retired
  next-fetch_after_memory b d x = ground (
    arith,
    unbroken p e c inv no_error no_entry running calm b,
    ends_of_leave p e c inv no_error no_entry running calm,
    after_memory_of_stay p e c inv no_error no_entry running calm,
    after_memory_of_leave p e c inv no_error no_entry running calm,
    after_memory_of_drop p e c inv no_error no_entry running calm,
    advancing_lem p e c,
    accepting p e c,
    jumping p e c,
    flushing p e c,
    not_flushing p e c,
    straight p e c,
    fetched_behind,
    inv.fetch_after_memory,
    redirecting p e c,
  )

  -- An instruction that waits writes no special register, so nothing is refused.
  waiting_out : execute_to_retire p e c ≡ false → execute_out p e c ≡ settled_out p e c
  unfolding execute_out execute_in special_write_access_fault execute_special_write_commit
  waiting_out h = rw h (ground arith)

  -- An instruction that waits, with what the execute stage says of it in the now cycle.
  waits_on :
      (w : ExecuteOutputs)
      → (execute_leaves p e c ≡ false → now.execute.valid ≡ true → Persists (settled_out p e c) w)
      → is_broken now ≡ false
      → now.decode.valid ≡ false
      → now.execute.valid ≡ true
      → decode_advance p e c ≡ false
      → (now.fetch_pc ≡ now.execute.post_increment_pc)
        ⊎ ((stops w ≡ true) ⊎ (now.fetch_pc ≡ w.next_pc))
  unfolding components retired
  waits_on w persists b d x stays =
      let held : execute_leaves p e c ≡ false = ground arith in
      let same = persists held x in
      let whole : c.execute.valid ≡ true = ground arith in
      let kept : memory_redirect p e c ≡ false = ground (arith, redirecting p e c) in
      let out : execute_out p e c ≡ settled_out p e c = waiting_out (ground arith) in
      let stop = same.stops_stay in
      let go = same.next_same in
      elim (Bool-cases (stops w)) [
        | inl ended ↦ inr (inl ended)
        | inr runs ↦ elim (Bool-cases (execute_redirect p e c)) [
          | inl jumps ↦ inr (inr (ground (arith, out, go)))
          | inr straight_on ↦
              let quiet : execute_flush_younger p e c ≡ false =
                ground (arith, flushing p e c, out, stop) in
              let empty : c.decode.valid ≡ false = ground arith in
              let still : now.fetch_pc ≡ c.fetch.pc = ground arith in
              inl (
                ground (
                  arith,
                  fetched_behind (unbroken p e c inv no_error no_entry running calm b) empty whole
                      kept quiet,
                ))
        ]
      ]

  next-fetch_after_execute :
      (w : ExecuteOutputs)
      → (decode_advance p e c ≡ false
          → execute_leaves p e c ≡ false
          → now.execute.valid ≡ true
          → Persists (settled_out p e c) w)
      → is_broken now ≡ false
      → now.decode.valid ≡ false
      → now.execute.valid ≡ true
      → (now.fetch_pc ≡ now.execute.post_increment_pc)
        ⊎ ((stops w ≡ true) ⊎ (now.fetch_pc ≡ w.next_pc))
  unfolding components retired
  next-fetch_after_execute w waits b d x = elim (Bool-cases (decode_advance p e c)) [
    | inl moved ↦ inl (
        ground (
          arith,
          unbroken p e c inv no_error no_entry running calm b,
          accepting p e c,
          jumping p e c,
          advancing_lem p e c,
          inv.fetch_after_decode,
          redirecting p e c,
        ))
    | inr stays ↦ waits_on w (waits stays) b d x stays
  ]

  -- The order after the advance, where what waits still goes where it did.
  pub next-InOrder :
      (w : ExecuteOutputs)
      → (decode_advance p e c ≡ false
          → execute_leaves p e c ≡ false
          → now.execute.valid ≡ true
          → Persists (settled_out p e c) w)
      → InOrder w now
  next-InOrder w waits = record {
    retires = next-retires p e c inv no_error no_entry running calm;
    commits = next-commits p e c inv no_error no_entry running calm;
    ends = next-ends p e c inv no_error no_entry running calm;
    control = next-control p e c inv no_error no_entry running calm;
    final_alone = next-final_alone p e c inv no_error no_entry running calm;
    final_in_order = next-final_in_order p e c inv no_error no_entry running calm;
    memory_in_order = next-memory_in_order p e c inv no_error no_entry running calm;
    execute_in_order = next-execute_in_order p e c inv no_error no_entry running calm;
    vector_alone = next-vector_alone p e c inv no_error no_entry running calm;
    decode_in_order = next-decode_in_order;
    fetch_after_decode = next-fetch_after_decode;
    fetch_after_memory = next-fetch_after_memory;
    fetch_after_execute = next-fetch_after_execute w waits;
  }
