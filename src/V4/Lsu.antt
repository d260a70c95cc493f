-- ===== src/V4/Lsu.antt =====
-- The load/store unit of the v4 core, hdl/little64_cores/v4/lsu.py: that of v3 without the cycle in
-- which a beat starts, so that the first cycle of a beat can be its last.
pub mod Access
use little.Base.{
  ℕ, zero, suc, ◌+◌, ◌-◌, ◌*◌, ◌/◌, ◌%◌, ◌^◌, Bool, true, false, not, ◌&&◌, ◌||◌, ltb, ◌==◌,
  if◌then◌else◌, slice,
}
use little.Lsu.{
  LsuState, idle, first, second, Inputs, Outputs, is_active, is_second, base_sel, word_aligned_addr,
  next_word_addr, of_width,
}

pub record Lsu : Type 0 where
  pub state : LsuState
  pub latched_addr : ℕ
  pub latched_width : ℕ
  pub latched_write : Bool
  pub latched_store_value : ℕ
  pub first_data : ℕ
  pub watchdog_counter : ℕ

abbrev pub byte_offset : Lsu → ℕ
byte_offset s = slice s.latched_addr 0 3

abbrev pub shifted_sel : Lsu → ℕ
shifted_sel s = base_sel s.latched_width * 2 ^ byte_offset s

abbrev pub shifted_dat_w : Lsu → ℕ
shifted_dat_w s = s.latched_store_value * 2 ^ (byte_offset s * 8)

abbrev pub split_needed : Lsu → Bool
split_needed s = not (slice (shifted_sel s) 8 16 == 0)

abbrev pub single_read_data : Lsu → ℕ → ℕ
single_read_data s dat_r = dat_r / 2 ^ (byte_offset s * 8)

abbrev pub combined_read_data : Lsu → ℕ → ℕ
combined_read_data s dat_r =
    s.first_data / 2 ^ (byte_offset s * 8)
    + dat_r % 2 ^ (byte_offset s * 8) * 2 ^ (64 - byte_offset s * 8)

-- The rest takes `bus_timeout_cycles`; 0 is a unit without a watchdog.
module _ (timeout : ℕ) where
  abbrev pub watchdog_fire : Lsu → Bool
  watchdog_fire s = ltb 0 timeout && (is_active s.state && (s.watchdog_counter == timeout))

  abbrev pub effective_err : Inputs → Lsu → Bool
  effective_err i s = i.bus_err || watchdog_fire s

  abbrev next_counter : Inputs → Lsu → ℕ
  next_counter i s =
      if ltb 0 timeout
        && (is_active s.state && (not i.bus_ack && (not i.bus_err && not (watchdog_fire s))))
      then s.watchdog_counter + 1
      else 0

  -- What the state machine does in one of its active states. The end of an access is `idle`.
  after_beat : LsuState → Inputs → Lsu → Lsu
  after_beat idle i s =
      if i.request_valid
      then record s {
        latched_addr = i.request_addr;
        latched_width = i.request_width_bytes;
        latched_write = i.request_write;
        latched_store_value = i.request_store_value;
        state = first;
      }
      else s
  after_beat first i s =
      if effective_err i s
      then record s { state = idle }
      else if i.bus_ack
      then (if split_needed s
          then record s { first_data = i.bus_dat_r; state = second }
          else record s { state = idle })
      else s
  after_beat second i s =
      if effective_err i s
      then record s { state = idle }
      else if i.bus_ack
      then record s { state = idle }
      else s

  -- One clock cycle.
  unfoldable pub step : Inputs → Lsu → Lsu
  unfolding after_beat
  step i s = record (after_beat s.state i s) { watchdog_counter = next_counter i s }

  -- A beat that is answered, by the bus or the watchdog.
  abbrev pub answered : Inputs → Lsu → Bool
  answered i s = effective_err i s || i.bus_ack

  -- Whether the answer ends the access: an error does, and an acknowledged last beat.
  ends : LsuState → Inputs → Lsu → Bool
  ends idle i s = false
  ends first i s = answered i s && (effective_err i s || not (split_needed s))
  ends second i s = answered i s

  load_value : LsuState → Inputs → Lsu → ℕ
  load_value idle i s = 0
  load_value first i s = of_width s.latched_width (single_read_data s i.bus_dat_r)
  load_value second i s = of_width s.latched_width (combined_read_data s i.bus_dat_r)

  unfoldable pub outputs : Inputs → Lsu → Outputs
  unfolding ends load_value
  outputs i s = record {
    request_ready = not (is_active s.state);
    response_valid = ends s.state i s;
    response_error = ends s.state i s && effective_err i s;
    response_load_value =
        if ends s.state i s && not (effective_err i s) then load_value s.state i s else 0;
    bus_adr =
        if is_second s.state
        then next_word_addr s.latched_addr
        else word_aligned_addr s.latched_addr;
    bus_dat_w =
        if is_second s.state then slice (shifted_dat_w s) 64 128 else slice (shifted_dat_w s) 0 64;
    bus_sel = if is_second s.state then slice (shifted_sel s) 8 16 else slice (shifted_sel s) 0 8;
    bus_cyc = is_active s.state;
    bus_we = s.latched_write && is_active s.state;
  }

  -- The state after some cycles, for the inputs of each cycle to come.
  unfoldable pub after : ℕ → (ℕ → Inputs) → Lsu → Lsu
  after zero is s = s
  after (suc n) is s = after n (λ k. is (suc k)) (step (is 0) s)
