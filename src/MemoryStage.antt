-- ===== src/MemoryStage.antt =====
-- The memory stage of hdl/little64_cores/v3/memory_stage.py: the request that it makes of the
-- load/store unit, and the entry that the answer leaves for the retire stage.
pub mod Results
use little.Base.{ℕ, ◌+◌, ◌%◌, ◌^◌, Bool, true, false, not, ◌&&◌, ◌==◌, if◌then◌else◌}
use little.Retire.{RetireEntry}

pub record Inputs : Type 0 where
  pub valid : Bool
  pub request_started : Bool
  pub addr : ℕ
  pub width_bytes : ℕ
  pub write : Bool
  pub store_value : ℕ
  pub reg_write : Bool
  pub reg_index : ℕ
  pub flags_write : Bool
  pub flags_value : ℕ
  pub next_pc : ℕ
  pub commit_pc : ℕ
  pub post_reg_write : Bool
  pub post_reg_index : ℕ
  pub post_reg_value : ℕ
  pub post_reg_delta : ℕ
  pub post_reg_use_load_result : Bool
  pub chain_store : Bool
  pub chain_store_addr : ℕ
  pub chain_store_use_load_result : Bool
  pub chain_store_value : ℕ
  pub lsu_request_ready : Bool
  pub lsu_response_valid : Bool
  pub lsu_response_error : Bool
  pub lsu_response_load_value : ℕ

pub record Outputs : Type 0 where
  pub lsu_request_valid : Bool
  pub lsu_request_addr : ℕ
  pub lsu_request_width_bytes : ℕ
  pub lsu_request_write : Bool
  pub lsu_request_store_value : ℕ
  pub start_request : Bool
  pub complete : Bool
  pub final_response : Bool
  pub chain_continue : Bool
  pub next_chain_addr : ℕ
  pub next_chain_store_value : ℕ
  pub result : RetireEntry

abbrev pub complete : Inputs → Bool
complete i = i.valid && i.lsu_response_valid

abbrev pub final_response : Inputs → Bool
final_response i = complete i && not i.chain_store

-- What a stack pointer or another second register becomes.
unfoldable pub response_post_value : Inputs → ℕ
response_post_value i =
    if i.post_reg_use_load_result
    then (i.lsu_response_load_value + i.post_reg_delta) % 2 ^ 64
    else i.post_reg_value

unfoldable pub response_next_pc : Inputs → ℕ
response_next_pc i =
    if i.post_reg_write && (i.post_reg_index == 15)
    then response_post_value i
    else if i.reg_write && (i.reg_index == 15)
    then i.lsu_response_load_value
    else i.next_pc

-- The entry with given register writes, which are the only fields that the cases share out.
abbrev pub result_with : Inputs → Bool → ℕ → ℕ → Bool → ℕ → ℕ → RetireEntry
result_with i reg_write reg_index reg_value aux_reg_write aux_reg_index aux_reg_value = record {
  valid = final_response i && not i.lsu_response_error;
  reg_write = reg_write;
  reg_index = reg_index;
  reg_value = reg_value;
  aux_reg_write = aux_reg_write;
  aux_reg_index = aux_reg_index;
  aux_reg_value = aux_reg_value;
  flags_write = i.flags_write;
  flags_value = i.flags_value;
  cpu_control_write = false;
  cpu_control_value = 0;
  next_pc = response_next_pc i;
  commit = final_response i && not i.lsu_response_error;
  commit_pc = i.commit_pc;
  halt = false;
  lockup = false;
  trap = false;
  trap_cause = 0;
}

unfoldable pub result : Inputs → RetireEntry
result i =
    if i.post_reg_write
    then if i.reg_write
      then if i.post_reg_index == i.reg_index
        then result_with i true i.reg_index (response_post_value i) false 0 0
        else result_with i true i.reg_index i.lsu_response_load_value true i.post_reg_index
            (response_post_value i)
      else result_with i true i.post_reg_index (response_post_value i) false 0 0
    else result_with i i.reg_write i.reg_index i.lsu_response_load_value false 0 0

unfoldable pub outputs : Inputs → Outputs
outputs i = record {
  lsu_request_valid = i.valid && not i.request_started;
  lsu_request_addr = i.addr;
  lsu_request_width_bytes = i.width_bytes;
  lsu_request_write = i.write;
  lsu_request_store_value = i.store_value;
  start_request = i.valid && not i.request_started && i.lsu_request_ready;
  complete = complete i;
  final_response = final_response i;
  chain_continue = complete i && i.chain_store && not i.lsu_response_error;
  next_chain_addr = i.chain_store_addr;
  next_chain_store_value =
      if i.chain_store_use_load_result then i.lsu_response_load_value else i.chain_store_value;
  result = result i;
}
