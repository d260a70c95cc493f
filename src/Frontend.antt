-- ===== src/Frontend.antt =====
-- The fetch frontend, hdl/little64_cores/v3/frontend.py: one line of eight bytes with four
-- instruction words, refilled over the instruction bus when the program counter leaves it.
pub mod Coherence
pub mod Watchdog
use little.Base.{
  ℕ, zero, suc, ◌+◌, ◌-◌, ◌*◌, ◌/◌, ◌%◌, ◌^◌, Bool, true, false, not, ◌&&◌, ◌||◌, ltb, ◌==◌,
  if◌then◌else◌, slice, bit_and,
}

abbrev pub fetch_line_mask : ℕ
fetch_line_mask = 0xffff_ffff_ffff_fff8

pub record Frontend : Type 0 where
  pub line_valid : Bool
  pub line_base : ℕ
  pub line_data : ℕ
  pub request_valid : Bool
  pub request_cancelled : Bool
  pub request_line_base : ℕ
  pub watchdog_counter : ℕ

-- The inputs of one clock cycle, with the answer of the instruction bus.
pub record Inputs : Type 0 where
  pub pc : ℕ
  pub invalidate : Bool
  pub update_line_valid : Bool
  pub update_line_data : ℕ
  pub bus_ack : Bool
  pub bus_err : Bool
  pub bus_dat_r : ℕ

pub record Outputs : Type 0 where
  pub instruction_valid : Bool
  pub instruction_word : ℕ
  pub instruction_pc : ℕ
  pub fetch_phys_addr : ℕ
  pub fetch_error : Bool
  pub request_inflight : Bool
  pub bus_adr : ℕ
  pub bus_cyc : Bool

abbrev pub line_base_requested : ℕ → ℕ
line_base_requested pc = bit_and pc fetch_line_mask

-- `line_data.word_select(slot, 16)`.
abbrev pub word_select : ℕ → ℕ → ℕ
word_select line slot = line / 2 ^ (16 * slot) % 2 ^ 16

abbrev pub slot_index : ℕ → ℕ
slot_index pc = slice pc 1 3

abbrev pub line_hit : Inputs → Frontend → Bool
line_hit i s = s.line_valid && (s.line_base == line_base_requested i.pc)

-- The rest takes `bus_timeout_cycles`; 0 is a frontend without a watchdog.
module _ (timeout : ℕ) where
  abbrev pub watchdog_fire : Frontend → Bool
  watchdog_fire s = ltb 0 timeout && (s.request_valid && (s.watchdog_counter == timeout))

  abbrev pub effective_err : Inputs → Frontend → Bool
  effective_err i s = i.bus_err || watchdog_fire s

  abbrev next_counter : Inputs → Frontend → ℕ
  next_counter i s =
      if ltb 0 timeout
        && (s.request_valid && (not i.bus_ack && (not i.bus_err && not (watchdog_fire s))))
      then s.watchdog_counter + 1
      else 0

  unfoldable pub outputs : Inputs → Frontend → Outputs
  outputs i s = record {
    instruction_valid = line_hit i s;
    instruction_word = word_select s.line_data (slot_index i.pc);
    instruction_pc = i.pc;
    fetch_phys_addr = line_base_requested i.pc;
    fetch_error = s.request_valid && (not s.request_cancelled && effective_err i s);
    request_inflight = s.request_valid;
    bus_adr = s.request_line_base;
    bus_cyc = s.request_valid;
  }

  -- An invalidation drops the line, and marks a request in flight.
  abbrev invalidated : Inputs → Frontend → Frontend
  invalidated i s =
      if i.invalidate
      then record s { line_valid = false; request_cancelled = s.request_valid }
      else s

  -- The answer to a request: its line, unless it is an error or not wanted any more.
  abbrev answer : Inputs → Frontend → Frontend
  answer i s =
      if i.bus_ack && (not (effective_err i s) && (not s.request_cancelled && not i.invalidate))
      then record s {
        request_valid = false;
        request_cancelled = false;
        line_valid = true;
        line_base = s.request_line_base;
        line_data = i.bus_dat_r;
      }
      else record s { request_valid = false; request_cancelled = false; line_valid = false }

  -- One clock cycle. The later assignments of the source hold over those of the invalidation.
  unfoldable pub step : Inputs → Frontend → Frontend
  step i s =
      record (if s.request_valid && (i.bus_ack || effective_err i s)
        then answer i s
        else if not i.invalidate && i.update_line_valid
        then record (invalidated i s) { line_data = i.update_line_data }
        else if not i.invalidate && (not (line_hit i s) && not s.request_valid)
        then record (invalidated i s) {
          request_valid = true;
          request_cancelled = false;
          request_line_base = line_base_requested i.pc;
        }
        else invalidated i s) { watchdog_counter = next_counter i s }

  -- The state after some cycles, for the inputs of each cycle to come.
  unfoldable pub after : ℕ → (ℕ → Inputs) → Frontend → Frontend
  after zero is s = s
  after (suc n) is s = after n (λ k. is (suc k)) (step (is 0) s)
