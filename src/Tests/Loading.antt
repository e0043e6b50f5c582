-- ===== src/Tests/Loading.antt =====
-- The properties of the loading of programs, at one machine.
use riscv_python.Prelude.{
  ℕ, ◌≡◌, ◌≤◌, ◌<◌, ◌%◌, refl, true, false, none, some, inr, List, [], ◌∷◌, arith,
}
use riscv_python.State.{ok, safe}
use riscv_python.Text.{Text, codes}
use riscv_python.Ram.Create.{ram_with}
use riscv_python.Ram.Writes.{Holds, IsApart}
use riscv_python.Cpu.Create.{cpu_with}
use riscv_python.Machine.Checks.{unset}
use riscv_python.Machine.Loader.{Machine, ElfFile, setup_argv, load_elf}
use riscv_python.Machine.Loader.Segments.{writes, load_elf-Holds}
use riscv_python.Machine.Loader.Layout.{args_end}
use riscv_python.Machine.Loader.Argv.{Argv, table_end, setup_argv-Argv}
use riscv_python.Tests.{ram, ram-IsWf, machine}

abbrev loader : Machine
loader = record {
  system = record machine { heap_end = some 16 };
  stack_top = none;
  stack_bottom = none;
  text_start = none;
  text_end = none;
  text_snapshot = none;
  symbol_dict = λ addr. none;
  main_addr = none;
  start_checks = unset;
}

abbrev two_args : List Text
two_args = codes "a" ∷ codes "bc" ∷ []

room : table_end 16 two_args ≤ 64
unfolding args_end
room = omega arith

setup_argv-Argv_example :
    (let (r, m') = setup_argv two_args loader in
      (r ≡ ok tt)
      × (m'.system.cpu.registers 10 ≡ 2)
      × Argv m'.system (m'.system.cpu.registers 11) two_args
      × ((e : ℕ) × (m'.system.heap_end ≡ some e) × (e % 8 ≡ 0) × (table_end 16 two_args ≤ e))
      × ((k : ℕ) → k < 16 → m'.system.ram.memory k ≡ loader.system.ram.memory k))
setup_argv-Argv_example =
    setup_argv-Argv two_args 16 loader (omega arith) (refl, omega arith) ram-IsWf.memory
      (omega arith) refl room

-- A file with two segments to load and a note.
abbrev file : ElfFile
file = record {
  segments =
      record { is_load = true; p_paddr = 8; content = 0x13 ∷ 0 ∷ 0 ∷ 0 ∷ [] }
      ∷ record { is_load = false; p_paddr = 0; content = 1 ∷ [] }
      ∷ record { is_load = true; p_paddr = 16; content = 7 ∷ [] }
      ∷ [];
  e_entry = 8;
  symtab = some (record { name = codes "__heap_start"; st_value = 32; is_func = false } ∷ []);
  text = some (8, 4);
}

abbrev file_writes : List (ℕ × List ℕ)
file_writes = (8, 0x13 ∷ 0 ∷ 0 ∷ 0 ∷ []) ∷ (16, 7 ∷ []) ∷ []

load_elf-Holds_example :
    (let (r, m') = load_elf file true true loader in
      (r ≡ ok tt)
      × Holds m'.system.ram.memory (writes file.segments)
      × ((k : ℕ) → IsApart k 1 (writes file.segments) → m'.system.ram.memory k ≡ ram.memory k)
      × (m'.system.cpu ≡ record machine.cpu { pc = 8 }))
unfolding writes
load_elf-Holds_example =
    load_elf-Holds file true true loader (refl, omega arith) (omega arith)
      ((inr (omega arith), tt), (tt, tt))

-- A machine as the constructors make it.
abbrev created : Machine
created = record loader {
  system = record {
    cpu = cpu_with true true (λ i. 0);
    ram = ram_with safe 64 0 (λ i. 0);
    heap_end = none;
  };
}

-- One ecall, at the entry point.
abbrev calling : ElfFile
calling = record file {
  segments = record { is_load = true; p_paddr = 8; content = 0x73 ∷ 0 ∷ 0 ∷ 0 ∷ [] } ∷ [];
}
