-- ===== src/Tests/Bus.antt =====
-- The load/store unit and the fetch frontend at concrete inputs.
use little.Base.{ℕ, zero, suc, ◌+◌, ◌*◌, ◌<◌, true, false, ◌≡◌, refl, arith}
use little.Lsu
use little.Lsu.{Lsu, idle, first, second, is_active}
use little.Lsu.Load.{load_bytes, short}
use little.Lsu.Access.{IsHonest, first_response-load_bytes}
use little.Lsu.Watchdog.{response_within}
use little.Frontend
use little.Frontend.{Frontend, line_base_requested, word_select, slot_index}
use little.Frontend.Coherence.{Reach, reset, cycle, quiet, instruction_word-current}

abbrev words : ℕ → ℕ
words a = 0x1122_3344_5566_7788

abbrev resting : Lsu
resting = record {
  state = idle;
  latched_addr = 0;
  latched_width = 0;
  latched_write = false;
  latched_store_value = 0;
  first_data = 0;
  beat_started = false;
  watchdog_counter = 0;
}

-- A request for the two bytes that end one word and begin the next, on a bus that acknowledges in
-- every cycle.
abbrev crossing : Lsu.Inputs
crossing = record {
  request_valid = true;
  request_addr = 0x1007;
  request_width_bytes = 2;
  request_write = false;
  request_store_value = 0;
  bus_ack = true;
  bus_err = false;
  bus_dat_r = 0x1122_3344_5566_7788;
}

abbrev always : ℕ → Lsu.Inputs
always k = crossing

always-IsHonest :
    (k : ℕ)
    → IsHonest words
        (λ a. omega arith)
        0x1007
        2
        (omega arith)
        short
        8
        (always (suc k))
        (Lsu.after 8 (suc k) always resting)
unfolding IsHonest
always-IsHonest k q = refl

always_silent :
    (k : ℕ)
    → k < 3
    → (Lsu.outputs 8 (always (suc k)) (Lsu.after 8 (suc k) always resting)).response_valid ≡ false
unfolding Lsu.outputs Lsu.after Lsu.step
always_silent zero l = refl
always_silent (suc zero) l = refl
always_silent (suc (suc zero)) l = refl
always_silent (suc (suc (suc k))) l = absurd (omega arith)

answered_last : (Lsu.outputs 8 crossing (Lsu.after 8 4 always resting)).response_valid ≡ true
unfolding Lsu.outputs Lsu.after Lsu.step
answered_last = refl

sound_last : (Lsu.outputs 8 crossing (Lsu.after 8 4 always resting)).response_error ≡ false
unfolding Lsu.outputs Lsu.after Lsu.step
sound_last = refl

first_response-load_bytes_example :
    (Lsu.outputs 8 crossing (Lsu.after 8 4 always resting)).response_load_value
    ≡ load_bytes words 0x1007 2
first_response-load_bytes_example =
    first_response-load_bytes words (λ a. omega arith) 0x1007 2 (omega arith) short 8 always resting
      3 refl refl refl refl always-IsHonest always_silent answered_last sound_last

abbrev loading : Lsu
loading = record resting { state = first; latched_addr = 0x1007; latched_width = 2 }

-- A bus that never answers.
abbrev silent : Lsu.Inputs
silent = record crossing { bus_ack = false }

response_within_example :
    (n : ℕ) × (n < 2 * 8 + 4)
    × ((Lsu.outputs 8 silent (Lsu.after 8 n (λ k. silent) loading)).response_valid ≡ true)
response_within_example = response_within 8 (omega arith) (λ k. silent) loading refl (omega arith)

abbrev lines : ℕ → ℕ
lines a = 0x1122_3344_5566_7788

abbrev cold : Frontend
cold = record {
  line_valid = false;
  line_base = 0;
  line_data = 0;
  request_valid = false;
  request_cancelled = false;
  request_line_base = 0;
  watchdog_counter = 0;
}

abbrev fetching : Frontend.Inputs
fetching = record {
  pc = 0x100a;
  invalidate = false;
  update_line_valid = false;
  update_line_data = 0;
  bus_ack = false;
  bus_err = false;
  bus_dat_r = 0x1122_3344_5566_7788;
}

abbrev requested : Frontend
requested = Frontend.step 4 fetching cold

abbrev refilled : Frontend
refilled = Frontend.step 4 (record fetching { bus_ack = true }) requested

requested-Reach : Reach 4 requested lines lines
requested-Reach =
    cycle cold lines lines fetching lines (reset cold lines lines refl refl) (λ q. refl)
      (quiet refl refl (λ h. refl) (λ h. refl))

refilled-Reach : Reach 4 refilled lines lines
unfolding Frontend.step
refilled-Reach =
    cycle requested lines lines (record fetching { bus_ack = true }) lines requested-Reach
      (λ q. refl) (quiet refl refl (λ h. refl) (λ h. refl))

refilled_valid : (Frontend.outputs 4 fetching refilled).instruction_valid ≡ true
unfolding Frontend.outputs Frontend.step
refilled_valid = refl

instruction_word-current_example :
    (Frontend.outputs 4 fetching refilled).instruction_word
    ≡ word_select (lines (line_base_requested 0x100a)) (slot_index 0x100a)
instruction_word-current_example = instruction_word-current 4 fetching refilled-Reach refilled_valid

abbrev waiting : Frontend
waiting = record cold { request_valid = true }
