-- ===== src/Core/Order.antt =====
-- The order in which the v3 core commits instructions.
pub mod View
mod Waiting
mod Signals
pub mod Invariant
mod Retiring
mod Advancing
mod Settled
pub mod Branches
mod Walking
pub mod Conditions
pub mod Owners
mod Held
mod Program
pub mod Commit
