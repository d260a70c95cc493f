-- ===== src/Instructions.antt =====
-- What the instructions of the execute stage do, against descriptions that do not follow its code.
pub mod Outcome
pub mod Arithmetic
pub mod Compare
pub mod Immediate
