-- ===== src/Invariant/Boot.antt =====
-- From the constructors over the loading of a program to its run.
use riscv_python.Prelude.{none, ℕ, ◌^◌, ◌<◌, ◌≡◌, Bool, List, [], ◌∷◌}
use riscv_python.State.{RamClass, System, Cpu, Ram, ok}
use riscv_python.State.Leaves.{Leaves}
use riscv_python.Ram.Writes.{AllBytes}
use riscv_python.Machine.Loader.{Machine, Segment, ElfFile, new_machine}
use riscv_python.Machine.Checks.{StartChecks}
use riscv_python.Ram.Create.{Init, new_ram}
use riscv_python.Cpu.Create.{new_cpu}
use riscv_python.Invariant.Defs.{IsWf}

-- The machine's emulator is well formed.
abbrev Wf : Machine → Type 0
Wf m = IsWf m.system

-- An ELF file as elftools reads it: the segments hold bytes, and the entry point has 32 bits.
abbrev AllSegments : List Segment → Type 0
AllSegments [] = Unit
AllSegments (g ∷ gs) = AllBytes g.content × AllSegments gs

pub record IsElf32 (elf : ElfFile) : Type 0 where
  pub segments : AllSegments elf.segments
  pub entry : elf.e_entry < 2 ^ 32

-- The emulator as riscv-emu.py sets it up: the constructors of the processor, the memory and the
-- machine have raised nothing.
pub record IsSetUp (m : Machine) : Type 0 where
  pub getrandbits : ℕ → ℕ
  pub class : RamClass
  pub size : ℕ
  pub base_addr : ℕ
  pub init_ram : Init
  pub init_regs : Init
  pub rvc : Bool
  pub logger : Bool
  pub logs : Bool
  pub start_checks : StartChecks
  pub cpu : Cpu
  pub ram : Ram
  pub ram_created : new_ram getrandbits class size base_addr init_ram ≡ ok ram
  pub cpu_created : new_cpu getrandbits rvc init_regs logger ≡ ok cpu
  pub machine_created :
      new_machine logs logger start_checks (record { cpu = cpu; ram = ram; heap_end = none }) ≡ ok m
