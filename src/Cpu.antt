-- ===== src/Cpu.antt =====
-- cpu.py: the CPU, its opcode handlers, traps and the machine timer.
pub mod Word
pub mod Trap
pub mod Alu
pub mod Division
pub mod Memory
pub mod Control
pub mod Csr
pub mod System
pub mod Amo
pub mod Execute
pub mod Cache
pub mod TrapReturn
pub mod Reservation
pub mod Interrupt
pub mod ZeroRegister
pub mod Create
