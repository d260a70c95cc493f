-- ===== src/V4.antt =====
-- The parts of the v4 core that differ from those of the v3 core.
pub mod Frontend
pub mod Lsu
pub mod Decode
