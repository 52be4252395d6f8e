-- ===== src/Cpu/Table.antt =====
-- `instructions_`: the table that the constructor of the processor fills (emulator/cpu6301.cc).
pub mod Inherent
pub mod Modify
pub mod Arithmetic
pub mod Accumulator
pub mod Wide
