-- ===== src/Tests.antt =====
-- Each theorem that has a hypothesis at one concrete input.
mod Storage
mod Bus
mod Control
mod Paging
mod Stages
mod Arithmetic
mod V4
mod Boot
mod Core
