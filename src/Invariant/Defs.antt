-- ===== src/Invariant/Defs.antt =====
-- Well-formed states, and the updates that keep them.
use riscv_python.Prelude.{ℕ, ◌^◌, ◌<◌, ◌≡◌, Option, some, List, [], ◌∷◌, arith, Bool}
use riscv_python.State.{
  System, Decoded, Expanded, Cpu, Ram, Peripheral, mmio_timer, update, set_reg, set_csr,
  set_next_pc,
}
use riscv_python.State.{set_reservation_valid}

-- The two halves of `mtime` that a timer holds back.
abbrev pub FitsPeripheral : Peripheral → Type 0
FitsPeripheral (mmio_timer t) = (t.mtime_lo < 2 ^ 32) × (t.mtime_hi < 2 ^ 32)

abbrev pub FitPeripherals : List Peripheral → Type 0
FitPeripherals [] = Unit
FitPeripherals (p ∷ ps) = FitsPeripheral p × FitPeripherals ps

-- Every element of a function is below a bound.
abbrev pub AllBelow : ℕ → (ℕ → ℕ) → Type 0
AllBelow n f = (k : ℕ) → f k < n

pub record IsWfRam (r : Ram) : Type 0 where
  pub memory : AllBelow (2 ^ 8) r.memory
  pub devices : FitPeripherals r.mmio_ranges

-- The fields of an instruction word have the widths that they have in the word.
pub record FitsDecoded (d : Decoded) : Type 0 where
  pub opcode : d.opcode < 2 ^ 7
  pub rd : d.rd < 2 ^ 5
  pub funct3 : d.funct3 < 2 ^ 3
  pub rs1 : d.rs1 < 2 ^ 5
  pub rs2 : d.rs2 < 2 ^ 5
  pub funct7 : d.funct7 < 2 ^ 7

-- Every field of what is cached fits its width, and so does an expanded instruction.
pub record CachesFit (words : ℕ → Option Decoded) (halves : ℕ → Option Expanded) : Type 0 where
  pub at_word : (k : ℕ) (d : Decoded) → words k ≡ some d → FitsDecoded d
  pub at_half :
      (k : ℕ) (e : Expanded)
      → halves k ≡ some e
      → (e.expanded_inst < 2 ^ 32) × FitsDecoded e.decoded

-- Registers, CSRs and addresses have 32 bits, the timer 64, and the caches hold fitting decodings.
pub record IsWfCpu (cpu : Cpu) : Type 0 where
  pub registers : AllBelow (2 ^ 32) cpu.registers
  pub csrs : AllBelow (2 ^ 32) cpu.csrs
  pub pc : cpu.pc < 2 ^ 32
  pub next_pc : cpu.next_pc < 2 ^ 32
  pub mtime : cpu.mtime < 2 ^ 64
  pub mtimecmp : cpu.mtimecmp < 2 ^ 64
  pub caches : CachesFit cpu.decode_cache cpu.decode_cache_compressed

pub record IsWf (s : System) : Type 0 where
  pub cpu : IsWfCpu s.cpu
  pub open cpu use *
  pub ram : IsWfRam s.ram

pub AllBelow-update :
    (n : ℕ) (f : ℕ → ℕ) (j v : ℕ) → AllBelow n f → v < n → AllBelow n (update f j v)
unfolding update
AllBelow-update n f j v h hv k = ground (arith, h k)

pub set_reg-IsWf : (rd v : ℕ) (s : System) → v < 2 ^ 32 → IsWf s → IsWf (set_reg rd v s)
unfolding set_reg
set_reg-IsWf rd v s hv h = record {
  cpu = record {
    caches = h.caches;
    registers = AllBelow-update (2 ^ 32) s.cpu.registers rd v h.registers hv;
    csrs = h.csrs;
    pc = h.pc;
    next_pc = h.next_pc;
    mtime = h.mtime;
    mtimecmp = h.mtimecmp;
  };
  ram = h.ram;
}

pub set_csr-IsWf : (csr v : ℕ) (s : System) → v < 2 ^ 32 → IsWf s → IsWf (set_csr csr v s)
unfolding set_csr
set_csr-IsWf csr v s hv h = record {
  cpu = record {
    caches = h.caches;
    registers = h.registers;
    csrs = AllBelow-update (2 ^ 32) s.cpu.csrs csr v h.csrs hv;
    pc = h.pc;
    next_pc = h.next_pc;
    mtime = h.mtime;
    mtimecmp = h.mtimecmp;
  };
  ram = h.ram;
}

pub set_next_pc-IsWf : (v : ℕ) (s : System) → v < 2 ^ 32 → IsWf s → IsWf (set_next_pc v s)
unfolding set_next_pc
set_next_pc-IsWf v s hv h = record {
  cpu = record {
    caches = h.caches;
    registers = h.registers;
    csrs = h.csrs;
    pc = h.pc;
    next_pc = hv;
    mtime = h.mtime;
    mtimecmp = h.mtimecmp;
  };
  ram = h.ram;
}

pub set_reservation_valid-IsWf : (b : Bool) (s : System) → IsWf s → IsWf (set_reservation_valid b s)
unfolding set_reservation_valid
set_reservation_valid-IsWf b s h = record {
  cpu = record {
    caches = h.caches;
    registers = h.registers;
    csrs = h.csrs;
    pc = h.pc;
    next_pc = h.next_pc;
    mtime = h.mtime;
    mtimecmp = h.mtimecmp;
  };
  ram = h.ram;
}
