-- ===== src/Cpu/Validity/Table.antt =====
-- Every `exec` closure keeps the registers within their types, a part of the table at a time.
pub mod Inherent
pub mod Modify
pub mod Arithmetic
pub mod Accumulator
pub mod Wide
