-- ===== src/Core/State.antt =====
-- The registers of the v3 core, hdl/little64_cores/v3/core.py, with the bundles of
-- hdl/little64_cores/v3/bundles.py and the states of hdl/little64_cores/v3/state.py.
use little.Base.{ℕ, Bool}
use little.Frontend.{Frontend}
use little.Lsu.{Lsu}
use little.Cache.{Cache}
use little.Tlb
use little.Tlb.{Tlb}
use little.Registers.{Registers, RegisterConfig}
use little.Retire.{Machine, RetireEntry}
use little.Walker.{Walk}

-- What the core depends on of its configuration. The data cache has 4 lines where there is one.
pub record Params : Type 0 where
  pub registers : RegisterConfig
  pub enable_tlb : Bool
  pub tlb : Tlb.Params
  pub has_dcache : Bool
  pub is_unified : Bool
  pub bus_timeout_cycles : ℕ
  pub irq_input_count : ℕ
  pub reset_vector : ℕ

pub data PipelineState : Type 0 where
  reset fetch fetch_translate decode execute mem_translate memory retire : PipelineState
  interrupt_vector_translate vector_load walk walk_process : PipelineState
  stalled halted locked_up : PipelineState

pub data WalkResume : Type 0 where
  resume_fetch resume_memory resume_vector : WalkResume

pub record Fault : Type 0 where
  pub pending : Bool
  pub cause : ℕ
  pub pc : ℕ
  pub fault_addr : ℕ
  pub access : ℕ
  pub aux : ℕ

-- The fetch address, and the address that is being translated.
pub record Fetch : Type 0 where
  pub pc : ℕ
  pub phys_addr : ℕ
  pub phys_valid : Bool
  pub translate_virtual_addr : ℕ
  pub translate_access : ℕ

pub record DecodeLatch : Type 0 where
  pub valid : Bool
  pub instruction : ℕ
  pub pc : ℕ
  pub post_increment_pc : ℕ

pub record ExecuteLatch : Type 0 where
  pub valid : Bool
  pub instruction : ℕ
  pub pc : ℕ
  pub post_increment_pc : ℕ
  pub operand_a : ℕ
  pub operand_b : ℕ
  pub flags : ℕ

pub record MemoryState : Type 0 where
  pub valid : Bool
  pub request_started : Bool
  pub virtual_addr : ℕ
  pub addr : ℕ
  pub phys_valid : Bool
  pub width_bytes : ℕ
  pub write : Bool
  pub store_value : ℕ
  pub reg_write : Bool
  pub reg_index : ℕ
  pub flags_write : Bool
  pub flags_value : ℕ
  pub set_reservation : Bool
  pub reservation_addr : ℕ
  pub next_pc : ℕ
  pub commit_pc : ℕ
  pub fault_pc : ℕ
  pub post_reg_write : Bool
  pub post_reg_index : ℕ
  pub post_reg_value : ℕ
  pub post_reg_delta : ℕ
  pub post_reg_use_load_result : Bool
  pub chain_store : Bool
  pub chain_store_addr : ℕ
  pub chain_store_use_load_result : Bool
  pub chain_store_value : ℕ

-- A finished memory access on its way to the retire stage.
pub record MemoryFinal : Type 0 where
  pub valid : Bool
  pub next_pc : ℕ
  pub commit_next_pc : ℕ
  pub reg_write : Bool
  pub reg_index : ℕ
  pub reg_value : ℕ
  pub aux_reg_write : Bool
  pub aux_reg_index : ℕ
  pub aux_reg_value : ℕ
  pub commit_pc : ℕ
  pub flags_write : Bool
  pub flags_value : ℕ

-- The load of a handler's address from the vector table.
pub record VectorLoad : Type 0 where
  pub active : Bool
  pub started : Bool
  pub virtual_addr : ℕ
  pub addr : ℕ
  pub phys_valid : Bool
  pub epc : ℕ
  pub flags : ℕ

pub record WalkState : Type 0 where
  pub active : Bool
  pub processing : Bool
  pub started : Bool
  pub walk : Walk
  pub resume_kind : WalkResume

pub record Reservation : Type 0 where
  pub valid : Bool
  pub addr : ℕ

pub record Core : Type 0 where
  pub frontend : Frontend
  pub lsu : Lsu
  pub dcache : Cache
  pub tlb : Tlb
  pub special_regs : Registers
  pub state : PipelineState
  pub machine : Machine
  pub fetch : Fetch
  pub decode : DecodeLatch
  pub execute : ExecuteLatch
  pub memory : MemoryState
  pub memory_final : MemoryFinal
  pub retire : RetireEntry
  pub vector_load : VectorLoad
  pub walk : WalkState
  pub pending_fault : Fault
  pub reservation : Reservation

-- The inputs of one clock cycle: the interrupt lines, the values for the boot registers, and what
-- the two buses answer.
pub record Inputs : Type 0 where
  pub irq_lines : ℕ
  pub boot_r1 : ℕ
  pub boot_r13 : ℕ
  pub i_bus_ack : Bool
  pub i_bus_err : Bool
  pub i_bus_dat_r : ℕ
  pub d_bus_ack : Bool
  pub d_bus_err : Bool
  pub d_bus_dat_r : ℕ
