-- ===== src/State.antt =====
-- The state of the emulator: the attributes of `CPU` (cpu.py), of the RAM classes (ram.py) and of
-- the memory-mapped timer (peripherals.py), and the exceptions that a method may raise.
mod Monad
pub mod Leaves
pub use Monad.*
use riscv_python.Prelude.{ℕ, Bool, Option, List, ◌==◌, if◌then◌else◌}
use riscv_python.Prelude.Int.{ℤ}

-- What `decode_cache` holds: the fields of an instruction word.
pub record Decoded : Type 0 where
  pub opcode : ℕ
  pub rd : ℕ
  pub funct3 : ℕ
  pub rs1 : ℕ
  pub rs2 : ℕ
  pub funct7 : ℕ

-- What `decode_cache_compressed` holds: the fields and the expanded instruction.
pub record Expanded : Type 0 where
  pub decoded : Decoded
  pub expanded_inst : ℕ

-- The attributes of `CPU`. Registers, CSRs and caches are functions of the index or key;
-- `logger` is whether a logger was given.
pub record Cpu : Type 0 where
  pub registers : ℕ → ℕ
  pub pc : ℕ
  pub next_pc : ℕ
  pub csrs : ℕ → ℕ
  pub mtime : ℕ
  pub mtimecmp : ℕ
  pub mtime_countdown : ℤ
  pub mtime_lo_updated : Bool
  pub mtime_hi_updated : Bool
  pub mtimecmp_lo_updated : Bool
  pub mtimecmp_hi_updated : Bool
  pub mtip : Bool
  pub reservation_valid : Bool
  pub reservation_addr : ℕ
  pub rvc_enabled : Bool
  pub alignment_mask : ℕ
  pub decode_cache : ℕ → Option Decoded
  pub decode_cache_compressed : ℕ → Option Expanded
  pub logger : Bool

-- The attributes of `MMIOTimer`.
pub record MmioTimer : Type 0 where
  pub mtime_lo : ℕ
  pub mtime_hi : ℕ
  pub mtime_lo_updated : Bool
  pub mtime_hi_updated : Bool

-- The memory-mapped devices of peripherals.py.
pub data Peripheral : Type 0 where
  mmio_timer : MmioTimer → Peripheral

-- The five RAM classes.
pub data RamClass : Type 0 where
  plain safe safe_offset mmio safe_mmio : RamClass

-- The attributes of the RAM classes. `memory` is the bytearray, of `memory_len` bytes, which is
-- `size` and the padding. `base_addr` belongs to `SafeRAMOffset`; `mmio_ranges` to the classes
-- with memory-mapped devices, and lists the devices registered there.
pub record Ram : Type 0 where
  pub ram_class : RamClass
  pub memory : ℕ → ℕ
  pub memory_len : ℕ
  pub size : ℕ
  pub base_addr : ℕ
  pub mmio_ranges : List Peripheral

-- The processor and the memory, and the end of the heap, an attribute of `Machine` that loading a
-- program sets and the system call sbrk moves.
pub record System : Type 0 where
  pub cpu : Cpu
  pub ram : Ram
  pub heap_end : Option ℕ

-- `f[k] = v`
unfoldable pub update {ℓ} : {A : Type ℓ} → (ℕ → A) → ℕ → A → ℕ → A
update f k v j = if k == j then v else f j

-- `cpu.registers[rd] = v`
unfoldable pub set_reg : ℕ → ℕ → System → System
unfolding update
set_reg rd v s = record s { cpu = record s.cpu { registers = update s.cpu.registers rd v } }

-- `cpu.csrs[csr] = v`
unfoldable pub set_csr : ℕ → ℕ → System → System
unfolding update
set_csr csr v s = record s { cpu = record s.cpu { csrs = update s.cpu.csrs csr v } }

-- `cpu.next_pc = v`
unfoldable pub set_next_pc : ℕ → System → System
set_next_pc v s = record s { cpu = record s.cpu { next_pc = v } }

-- `cpu.reservation_valid = b`
unfoldable pub set_reservation_valid : Bool → System → System
set_reservation_valid b s = record s { cpu = record s.cpu { reservation_valid = b } }
