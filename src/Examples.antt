-- ===== src/Examples.antt =====
-- Concrete inputs: tests of the definitions, and the theorems at them.
mod Flat
mod CpuRuns
mod FlatLaws
mod Arithmetic
mod Processor
mod Display
mod Devices
mod Serials
mod Bus
mod Board
mod Listing
mod Adapter
mod Memories
mod Pico
mod Dumps
mod Shown
mod Wired
