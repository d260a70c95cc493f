-- ===== src/Core.antt =====
-- The v3 core, hdl/little64_cores/v3/core.py: the registers of its pipeline and the cycle that
-- connects the components.
pub mod State
pub mod PowerUp
pub mod Stages
pub mod Handover
pub mod Translate
pub mod Traps
pub mod Finished
pub mod Clearing
pub mod Advance
pub mod Control
pub mod Cycle
pub mod Around
pub mod Stopped
pub mod Faults
pub mod Privilege
pub mod Order
pub mod Entry
