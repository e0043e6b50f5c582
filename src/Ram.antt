-- ===== src/Ram.antt =====
-- ram.py: the five RAM classes.
pub mod Bytes
pub mod Plain
pub mod Safe
pub mod Offset
pub mod Mmio
pub mod SafeMmio
pub mod Access
pub mod RoundTrip
pub mod Specification
pub mod Refinement
pub mod Create
pub mod Binary
pub mod Writes
