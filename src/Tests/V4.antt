-- ===== src/Tests/V4.antt =====
-- The frontend, the load/store unit and the decode stage of the v4 core at concrete inputs.
use little.Base.{ℕ, zero, suc, ◌+◌, ◌*◌, ◌<◌, ◌≤◌, ◌||◌, true, false, ◌≡◌, ◌≢◌, ◌↔◌, refl, arith}
use little.Frontend
use little.Frontend.{line_base_requested, word_select, slot_index}
use little.V4
use little.V4.Frontend.{Frontend}
use little.V4.Frontend.Coherence.{Reach, reset, cycle, quiet, line_start, instruction_word-fresh}
use little.V4.Frontend.Liveness.{fetch-answered_within}
use little.Lsu
use little.Lsu.{idle}
use little.Lsu.Load.{load_bytes, short}
use little.V4.Lsu.{Lsu}
use little.V4.Lsu.Access.{IsHonest, first_answer-load_bytes}
use little.Decode
use little.Isa.{to_ls}
use little.Execute.{ExecuteInputs, execute, execute_ls_pc}
use little.Retire.{RetireEntry}
use little.Predictor.{backward_taken}
use little.V4.Decode.Steering.{backward, mispredict_iff_fetched_wrong}

abbrev lines : ℕ → ℕ
lines a = 0x1122_3344_5566_7788 + a

abbrev cold : Frontend
cold = record {
  valid_bits = λ k. false;
  tag_mem = λ k. 0;
  data_mem = λ k. 0;
  request_valid = false;
  request_cancelled = false;
  request_line_base = 0;
  request_is_prefetch = false;
  prefetch_valid = false;
  prefetch_base = 0;
  prefetch_data = 0;
  watchdog_counter = 0;
  line_valid = false;
  line_base = 0;
  line_data = 0;
}

abbrev fetching : Frontend.Inputs
fetching = record {
  pc = 0x100a;
  invalidate = false;
  update_line_valid = false;
  update_line_data = 0;
  bus_ack = false;
  bus_err = false;
  bus_dat_r = 0x1122_3344_5566_7989;
}

abbrev requested : Frontend
requested = V4.Frontend.step 4 8 fetching cold

abbrev refilled : Frontend
refilled = V4.Frontend.step 4 8 (record fetching { bus_ack = true }) requested

requested-Reach : Reach 4 8 requested lines lines
requested-Reach =
    cycle cold lines lines fetching lines (reset cold lines lines (λ k. refl) refl refl) (λ q. cc)
      (quiet refl refl (λ a. refl))

refilled-Reach : Reach 4 8 refilled lines lines
unfolding V4.Frontend.step V4.Frontend.has_line
refilled-Reach =
    cycle requested lines lines (record fetching { bus_ack = true }) lines requested-Reach
      (λ q. refl) (quiet refl refl (λ a. refl))

refilled_valid : (V4.Frontend.outputs 4 8 fetching refilled).instruction_valid ≡ true
unfolding V4.Frontend.outputs V4.Frontend.step V4.Frontend.has_line V4.Frontend.write_line
    V4.Frontend.after_write V4.Frontend.next_valid_bits
refilled_valid = refl

instruction_word-fresh_example :
    (V4.Frontend.outputs 4 8 fetching refilled).instruction_word
    ≡ word_select (lines (line_start (line_base_requested 0x100a))) (slot_index 0x100a)
instruction_word-fresh_example = instruction_word-fresh 4 8 fetching refilled-Reach refilled_valid

fetch-answered_within_example :
    (n : ℕ) × (n ≤ 2 * 8 + 5)
    × (((V4.Frontend.outputs 4 8 fetching
            (V4.Frontend.after 4 8 n (λ k. fetching) cold)).instruction_valid
          || (V4.Frontend.outputs 4 8 fetching
              (V4.Frontend.after 4 8 n (λ k. fetching) cold)).fetch_error)
        ≡ true)
fetch-answered_within_example =
    fetch-answered_within 4 8 (λ k. fetching) 0x100a cold (omega arith) (λ n. refl) (λ n. refl)
      (omega arith)

abbrev words : ℕ → ℕ
words a = 0x1122_3344_5566_7788

abbrev resting : Lsu
resting = record {
  state = idle;
  latched_addr = 0;
  latched_width = 0;
  latched_write = false;
  latched_store_value = 0;
  first_data = 0;
  watchdog_counter = 0;
}

-- A request for the two bytes that end one word and begin the next, on a bus that acknowledges in
-- every cycle.
abbrev crossing : Lsu.Inputs
crossing = record {
  request_valid = true;
  request_addr = 0x1007;
  request_width_bytes = 2;
  request_write = false;
  request_store_value = 0;
  bus_ack = true;
  bus_err = false;
  bus_dat_r = 0x1122_3344_5566_7788;
}

crossing-IsHonest :
    (k : ℕ)
    → IsHonest words
        (λ a. omega arith)
        0x1007
        2
        (omega arith)
        short
        8
        crossing
        (V4.Lsu.after 8 (suc k) (λ n. crossing) resting)
crossing-IsHonest k q = refl

crossing_silent :
    (k : ℕ)
    → k < 1
    → (V4.Lsu.outputs 8 crossing (V4.Lsu.after 8 (suc k) (λ n. crossing) resting)).response_valid
      ≡ false
unfolding V4.Lsu.outputs V4.Lsu.after V4.Lsu.step
crossing_silent zero l = refl
crossing_silent (suc k) l = absurd (omega arith)

crossing_answered :
    (V4.Lsu.outputs 8 crossing (V4.Lsu.after 8 2 (λ n. crossing) resting)).response_valid ≡ true
unfolding V4.Lsu.outputs V4.Lsu.after V4.Lsu.step
crossing_answered = refl

crossing_sound :
    (V4.Lsu.outputs 8 crossing (V4.Lsu.after 8 2 (λ n. crossing) resting)).response_error ≡ false
unfolding V4.Lsu.outputs V4.Lsu.after V4.Lsu.step
crossing_sound = refl

first_answer-load_bytes_example :
    (V4.Lsu.outputs 8 crossing (V4.Lsu.after 8 2 (λ n. crossing) resting)).response_load_value
    ≡ load_bytes words 0x1007 2
first_answer-load_bytes_example =
    first_answer-load_bytes words (λ a. omega arith) 0x1007 2 (omega arith) short 8 (λ n. crossing)
      resting 1 refl refl refl refl crossing-IsHonest crossing_silent crossing_answered
      crossing_sound

abbrev none_pending : Decode.Pending
none_pending = record { valid = false; index = 0 }

abbrev nothing : RetireEntry
nothing = record {
  valid = false;
  reg_write = false;
  reg_index = 0;
  reg_value = 0;
  aux_reg_write = false;
  aux_reg_index = 0;
  aux_reg_value = 0;
  flags_write = false;
  flags_value = 0;
  cpu_control_write = false;
  cpu_control_value = 0;
  next_pc = 0;
  commit = false;
  commit_pc = 0;
  halt = false;
  lockup = false;
  trap = false;
  trap_cause = 0;
}

-- A jump back to itself if the flag of zero is set, at 0x1000, which is not set.
abbrev decoded : V4.Decode.Inputs
decoded = record {
  base = record {
    regs = λ i. 0;
    arch_flags = 0;
    instruction = 0x6fff;
    execute = nothing;
    memory_final = nothing;
    retire = nothing;
    pending_load_execute = none_pending;
    pending_load_memory = none_pending;
    pending_write_execute = none_pending;
    pending_write_memory = none_pending;
  };
  pc = 0x1000;
  post_increment_pc = 0x1002;
}

abbrev executed : ExecuteInputs
executed = record {
  valid = true;
  instruction = 0x6fff;
  pc = 0x1000;
  pre_post_increment_pc = 0x1002;
  operand_a = 0;
  operand_b = 0;
  flags = 0;
  cpu_control = 0x20000;
  interrupt_epc = 0;
  interrupt_eflags = 0;
  interrupt_cpu_control = 0;
  ll_reservation_valid = false;
  ll_reservation_addr = 0;
  special_read_data = 0;
  special_read_access_fault = false;
  special_write_access_fault = false;
}

mispredict_iff_fetched_wrong_example :
    (V4.Decode.execute_mispredict true false
        (execute executed)
        (V4.Decode.decode backward_taken decoded).predicted_next_pc
      ≡ true)
    ↔ ((execute executed).next_pc ≢ V4.Decode.fetched_next_pc backward_taken decoded)
unfolding execute execute_ls_pc to_ls
mispredict_iff_fetched_wrong_example =
    mispredict_iff_fetched_wrong backward_taken decoded (execute executed) backward refl refl refl
      refl
