-- ===== src/V4/Frontend.antt =====
-- The fetch frontend of the v4 core, hdl/little64_cores/v4/frontend.py: a direct-mapped cache of
-- lines of four instructions, with a buffer for the next line, which is fetched ahead.
-- The memories are functions of the index; the cache has 2 ^ index_bits lines.
pub mod Coherence
pub mod Liveness
use little.Base.{
  ℕ, zero, suc, ◌+◌, ◌*◌, ◌/◌, ◌%◌, ◌^◌, Bool, true, false, not, ◌&&◌, ◌||◌, ltb, ◌==◌,
  if◌then◌else◌, update,
}
use little.Frontend.{line_base_requested, word_select, slot_index, Inputs, Outputs}

pub record Frontend : Type 0 where
  pub valid_bits : ℕ → Bool
  pub tag_mem : ℕ → ℕ
  pub data_mem : ℕ → ℕ
  pub request_valid : Bool
  pub request_cancelled : Bool
  pub request_line_base : ℕ
  pub request_is_prefetch : Bool
  pub prefetch_valid : Bool
  pub prefetch_base : ℕ
  pub prefetch_data : ℕ
  pub watchdog_counter : ℕ
  pub line_valid : Bool
  pub line_base : ℕ
  pub line_data : ℕ

abbrev pub next_line_base : ℕ → ℕ
next_line_base pc = (line_base_requested pc + 8) % 2 ^ 64

abbrev pub prefetch_hit : Inputs → Frontend → Bool
prefetch_hit i s = s.prefetch_valid && (s.prefetch_base == line_base_requested i.pc)

module _ (index_bits : ℕ) where
  -- The place of the line at an address, and what of its number is kept beside it.
  abbrev pub index_of : ℕ → ℕ
  index_of base = base / 2 ^ 3 % 2 ^ index_bits

  abbrev pub tag_of : ℕ → ℕ
  tag_of base = base / 2 ^ 3 / 2 ^ index_bits

  unfoldable pub has_line : Frontend → ℕ → Bool
  has_line s base = s.valid_bits (index_of base) && (s.tag_mem (index_of base) == tag_of base)

  abbrev pub line_hit : Inputs → Frontend → Bool
  line_hit i s = has_line s (line_base_requested i.pc)

  abbrev pub selected_line_data : Inputs → Frontend → ℕ
  selected_line_data i s =
      if prefetch_hit i s then s.prefetch_data else s.data_mem (index_of (line_base_requested i.pc))

  abbrev pub prefetch_needed : Inputs → Frontend → Bool
  prefetch_needed i s =
      not (slot_index i.pc == 0)
      && not s.request_valid
      && not (has_line s (next_line_base i.pc))
      && not (s.prefetch_valid && (s.prefetch_base == next_line_base i.pc))

  -- A write of the cache: the address of the line, and its data.
  unfoldable pub write_line : ℕ → ℕ → Frontend → Frontend
  write_line base new s = record s {
    tag_mem = update s.tag_mem (index_of base) (tag_of base);
    data_mem = update s.data_mem (index_of base) new;
  }

  -- The rest takes `bus_timeout_cycles`; 0 is a frontend without a watchdog.
  module _ (timeout : ℕ) where
    abbrev pub watchdog_fire : Frontend → Bool
    watchdog_fire s = ltb 0 timeout && (s.request_valid && (s.watchdog_counter == timeout))

    abbrev pub effective_err : Inputs → Frontend → Bool
    effective_err i s = i.bus_err || watchdog_fire s

    unfoldable pub outputs : Inputs → Frontend → Outputs
    outputs i s = record {
      instruction_valid = line_hit i s || prefetch_hit i s;
      instruction_word = word_select (selected_line_data i s) (slot_index i.pc);
      instruction_pc = i.pc;
      fetch_phys_addr = line_base_requested i.pc;
      fetch_error =
          s.request_valid
          && not s.request_cancelled
          && not s.request_is_prefetch
          && effective_err i s;
      request_inflight = s.request_valid;
      bus_adr = s.request_line_base;
      bus_cyc = s.request_valid;
    }

    -- The first use of a line fetched ahead moves it into the cache.
    abbrev pub promotes : Inputs → Frontend → Bool
    promotes i s = not i.invalidate && prefetch_hit i s && not (line_hit i s)

    abbrev pub answered : Inputs → Frontend → Bool
    answered i s = s.request_valid && (i.bus_ack || effective_err i s)

    -- An answer that is no error and still wanted.
    abbrev pub accepts : Inputs → Frontend → Bool
    accepts i s =
        answered i s
        && i.bus_ack
        && not (effective_err i s)
        && not s.request_cancelled
        && not i.invalidate

    abbrev pub updates : Inputs → Frontend → Bool
    updates i s = not i.invalidate && i.update_line_valid && line_hit i s

    -- The one write port of the cache: of the assignments to it the last one that is made holds.
    unfoldable pub after_write : Inputs → Frontend → Frontend
    unfolding write_line
    after_write i s =
        if updates i s
        then write_line (line_base_requested i.pc) i.update_line_data s
        else if accepts i s && not s.request_is_prefetch
        then write_line s.request_line_base i.bus_dat_r s
        else if promotes i s
        then write_line (line_base_requested i.pc) s.prefetch_data s
        else s

    unfoldable pub next_valid_bits : Inputs → Frontend → ℕ → Bool
    next_valid_bits i s =
        if accepts i s && not s.request_is_prefetch
        then update s.valid_bits (index_of s.request_line_base) true
        else if promotes i s
        then update s.valid_bits (index_of (line_base_requested i.pc)) true
        else if i.invalidate
        then (λ _. false)
        else s.valid_bits

    abbrev pub starts_demand : Inputs → Frontend → Bool
    starts_demand i s =
        not i.invalidate && not (line_hit i s || prefetch_hit i s) && not s.request_valid

    abbrev pub starts_prefetch : Inputs → Frontend → Bool
    starts_prefetch i s = not i.invalidate && line_hit i s && prefetch_needed i s

    abbrev pub next_counter : Inputs → Frontend → ℕ
    next_counter i s =
        if ltb 0 timeout
          && (s.request_valid && (not i.bus_ack && (not i.bus_err && not (watchdog_fire s))))
        then s.watchdog_counter + 1
        else 0

    -- One clock cycle.
    unfoldable pub step : Inputs → Frontend → Frontend
    step i s = record {
      valid_bits = next_valid_bits i s;
      tag_mem = (after_write i s).tag_mem;
      data_mem = (after_write i s).data_mem;
      request_valid =
          if starts_demand i s || starts_prefetch i s
          then true
          else if answered i s
          then false
          else s.request_valid;
      request_cancelled =
          if starts_demand i s || starts_prefetch i s
          then false
          else if answered i s
          then false
          else if i.invalidate
          then s.request_valid
          else s.request_cancelled;
      request_line_base =
          if starts_demand i s
          then line_base_requested i.pc
          else if starts_prefetch i s
          then next_line_base i.pc
          else s.request_line_base;
      request_is_prefetch =
          if starts_demand i s
          then false
          else if starts_prefetch i s
          then true
          else if answered i s
          then false
          else s.request_is_prefetch;
      prefetch_valid =
          if accepts i s && s.request_is_prefetch
          then true
          else if i.invalidate
          then false
          else s.prefetch_valid;
      prefetch_base =
          if accepts i s && s.request_is_prefetch then s.request_line_base else s.prefetch_base;
      prefetch_data = if accepts i s && s.request_is_prefetch then i.bus_dat_r else s.prefetch_data;
      watchdog_counter = next_counter i s;
      line_valid = not i.invalidate && (line_hit i s || prefetch_hit i s);
      line_base = if i.invalidate then s.line_base else line_base_requested i.pc;
      line_data = if i.invalidate then s.line_data else selected_line_data i s;
    }

    -- The state after some cycles, for the inputs of each cycle to come.
    unfoldable pub after : ℕ → (ℕ → Inputs) → Frontend → Frontend
    after zero is s = s
    after (suc n) is s = after n (λ k. is (suc k)) (step (is 0) s)
