-- ===== src/Gdb.antt =====
-- gdbstub.py: the stub of the GDB remote protocol.
pub mod Packet
pub mod Receive
pub mod Session
pub mod Registers
pub mod Memory
pub mod Control
pub mod Monitor
pub mod Dispatch
