-- ===== src/Cpu.antt =====
-- emulator/cpu6301.h and .cc: the HD6301 processor.
pub mod Alu
pub mod State
pub mod Access
pub mod Instruction
pub mod Table
pub mod Run
pub mod Flags
pub mod WideFlags
pub mod Branches
pub mod Borrow
pub mod Shifts
pub mod Interrupts
pub mod Validity
pub mod Snapshot
