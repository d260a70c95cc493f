-- ===== src/Lib.antt =====
-- A model of the Little-64 processor cores, hdl/little64_cores, and what holds of it.
--
-- The cores are hardware descriptions in Python. A component has registers, which change once per
-- clock cycle, and outputs that follow from the registers and the inputs of the cycle. The model has
-- a record for the registers, one for the inputs, a function `step` for the cycle and a function
-- `outputs` or `lookup` for the outputs; where the description assigns a register twice, the later
-- assignment holds, and `step` says so. Stages without registers are functions. Numbers are naturals,
-- cut to the width of their signal where the source cuts them; bits that are one signal are Booleans.
-- An array of registers is a function of the index.
--
-- The parts, and the files that model them:
--   Isa          hdl/little64_cores/isa.py: opcodes, trap vectors, special register numbers
--   Fields       v3/helpers.py: instruction fields, sign extension, flags, branch conditions
--   Frontend     v3/frontend.py: the line of four instructions, refilled over the instruction bus
--   Decode       v3/decode_stage.py: operands with bypasses, hazards
--   Shift, Execute, Instructions
--                v3/execute_stage.py: what each instruction does
--   MemoryStage  v3/memory_stage.py: the access of an instruction and the entry that it leaves
--   Lsu          v3/lsu.py: the bus accesses of the memory stage, in one beat or two
--   Cache        v3/cache.py: the data cache beside the load/store unit
--   Tlb          v3/tlb.py: the translation buffer
--   Registers    v3/special_registers.py: the special registers, which execute reads and writes and
--                in which the core records traps
--   Retire       v3/retire_stage.py, and the write-back of v3/core.py
--   Walker       mmu.py and the page walker of v3/core.py, which fills the translation buffer
--   Predictor    v4/predictor.py: the branch predictors, against the execute stage
--   Core         v3/core.py: the cycle of the v3 core, with v3/bundles.py and v3/state.py. State has its
--                registers, PowerUp their first values, Stages what the components answer, Handover
--                what moves on, Translate the addresses and walks, Traps the faults and interrupts,
--                Finished what a memory access leaves, Clearing and Advance the pipeline, Control the
--                branches, of which one is taken in a cycle, and Cycle all of it (`step`). Order,
--                Entry, Faults, Privilege, Around and Stopped have proofs over its cycles and runs
--   V4           v4/frontend.py, v4/lsu.py and v4/decode_stage.py: the parts of v4 that differ from
--                v3, in the same form; the load/store unit is compared with that of v3
--   Boot         litex_linux_boot.py: the boot partition with its FAT file system, the kernel's image
--                from its ELF file, and the flash image
--   Config       config.py: the checks of a configuration
-- The paths v3, v4, mmu.py and config.py are below hdl/little64_cores. An instruction goes from the
-- frontend through decode and execute; a load or store goes on through the memory stage, which asks
-- the cache or the load/store unit; its entry retires and writes the registers. The v4 core uses the
-- same cache, translation buffer, special registers, execute, memory and retire stages. A system
-- around a core starts Linux from the boot partition or the flash image.
--
-- Base has the shared Boolean tests, bit operations and their laws, and Tests has each theorem at a
-- concrete input.
--
-- Parameters: the sizes of the translation buffer and the cache and the number of watchdog cycles
-- are arguments. Buses, memory and the rest of the core are inputs, and the assumptions on them are
-- hypotheses: that the bus answers with words of memory, and that the lines which a frontend or the
-- data cache holds or waits for change in memory only as the core tells them. For a line that a
-- frontend only waits for, the cores do not tell. Runs are sequences of inputs, one for each cycle. The page walk takes the number
-- of levels that it may still read; from level n it needs n + 1, and never runs out. The size of the
-- table of the boot partition takes two rounds, and the loop that writes a file one round more than the
-- file has bytes, which is enough.
--
-- The v3 core takes what the two buses answer in each cycle, the interrupt lines and the values of the
-- boot registers as inputs, and starts from the values that its signals have after power-up. Outputs
-- for debugging are left out.
--
-- Not modelled: the control of the v4 core; the v2 and basic cores; the LiteX integration, which is
-- wiring of other packages; the disk around the boot partition and the choice of its files; the
-- command-line tools. The emulator and the target software are not Python.
mod Base
pub mod Isa
pub mod Fields
pub mod Tlb
pub mod Cache
pub mod Registers
pub mod Lsu
pub mod Frontend
pub mod Shift
pub mod Execute
pub mod Instructions
pub mod Retire
pub mod MemoryStage
pub mod Decode
pub mod Walker
pub mod Predictor
pub mod Core
pub mod Config
pub mod V4
pub mod Boot
mod Tests
