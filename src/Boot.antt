-- ===== src/Boot.antt =====
-- The images that a system boots Linux from, hdl/little64_cores/litex_linux_boot.py.
pub mod Bytes
pub mod Results
pub mod Fat
pub mod Directory
pub mod Partition
pub mod Elf
pub mod Flash
