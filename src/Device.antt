-- ===== src/Device.antt =====
-- The devices inside and around the processor (emulator/).
pub mod Interrupt
pub mod Timer
pub mod Port
pub mod Serial
pub mod Spi
pub mod Uart
pub mod Keyboard
pub mod SdCard
pub mod Via
pub mod Glue
