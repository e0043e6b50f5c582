-- ===== src/Invariant.antt =====
-- Well-formed states: every number that the emulator keeps fits its width.
pub mod Defs
pub mod Bytes
pub mod Classes
pub mod Devices
pub mod Access
pub mod Trap
pub mod Alu
pub mod Memory
pub mod Control
pub mod Csr
pub mod System
pub mod Execute
pub mod Checks
pub mod Run
pub mod Commands
pub mod MemoryCommands
pub mod Debugger
pub mod Create
pub mod Boot
