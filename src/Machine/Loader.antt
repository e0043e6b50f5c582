-- ===== src/Machine/Loader.antt =====
-- The loading of programs by class `Machine` in machine.py: `load_flatbinary`, `load_elf` and
-- `setup_argv`. The file is given by its content, and an ELF file by what the package elftools reads
-- from it. Log messages are left out.
pub mod Segments
pub mod Table
pub mod Layout
pub mod Argv
use riscv_python.Prelude.{
  ℕ, ◌+◌, ◌*◌, ◌/◌, Bool, true, false, not, ◌&&◌, Option, none, some, List, [], ◌∷◌, ◌++◌,
  if◌then◌else◌,
}
use riscv_python.State.{
  System, Result, ok, err, Exec, machine_error, type_error, value_error, update, raise, pure, ◌>>=◌,
  ◌>>◌, apply,
}
use riscv_python.Ram.Bytes.{slice, length}
use riscv_python.Ram.Access.{store_binary, store_word}
use riscv_python.Text.{Text, codes, same_text, encode_utf_8}
use riscv_python.Machine.Checks.{StartChecks, unset, auto, at_main, first_call}

-- The attributes of `Machine` that belong to the program, with the processor and the memory.
pub record Machine : Type 0 where
  pub system : System
  pub stack_top : Option ℕ
  pub stack_bottom : Option ℕ
  pub text_start : Option ℕ
  pub text_end : Option ℕ
  pub text_snapshot : Option (List ℕ)
  pub symbol_dict : ℕ → Option Text
  pub main_addr : Option ℕ
  pub start_checks : StartChecks

-- The constructor; `logs` is whether tracing or the logging of registers is asked for, which raises
-- SetupError without a logger.
unfoldable pub new_machine : Bool → Bool → StartChecks → System → Result Machine
new_machine logs logger start_checks s =
    if logs && not logger
    then err machine_error
    else ok (record {
      system = s;
      stack_top = none;
      stack_bottom = none;
      text_start = none;
      text_end = none;
      text_snapshot = none;
      symbol_dict = λ addr. none;
      main_addr = none;
      start_checks = start_checks;
    })

-- A symbol of `.symtab`; `is_func` is whether its type is STT_FUNC.
pub record Symbol : Type 0 where
  pub name : Text
  pub st_value : ℕ
  pub is_func : Bool

-- A segment; `is_load` is whether its type is PT_LOAD, and `content` is `segment.data()`.
pub record Segment : Type 0 where
  pub is_load : Bool
  pub p_paddr : ℕ
  pub content : List ℕ

-- An ELF file; `text` has `sh_addr` and `sh_size` of the section `.text`.
pub record ElfFile : Type 0 where
  pub segments : List Segment
  pub e_entry : ℕ
  pub symtab : Option (List Symbol)
  pub text : Option (ℕ × ℕ)

-- A method of the memory.
abbrev pub in_system : {A : Type 0} → Exec System A → Exec Machine A
in_system f m = let (r, s) = f m.system in (r, record m { system = s })

abbrev pub set_pc : ℕ → Machine → Machine
set_pc pc m = record m { system = record m.system { cpu = record m.system.cpu { pc = pc } } }

abbrev pub set_heap_end : ℕ → Machine → Machine
set_heap_end e m = record m { system = record m.system { heap_end = some e } }

-- `start_checks` after loading, with what `None` and `auto` stand for.
abbrev start_checks_or : StartChecks → StartChecks → StartChecks
start_checks_or c unset = c
start_checks_or c auto = c
start_checks_or c d = d

-- A flat binary has no symbol `main`.
abbrev without_main : StartChecks → Exec Machine (Unit {0})
without_main at_main m = (err machine_error, m)
without_main c m = (ok tt, record m { start_checks = start_checks_or first_call c })

unfoldable pub load_flatbinary : List ℕ → Exec Machine (Unit {0})
load_flatbinary binary m =
    (do in_system (store_binary 0 binary); apply (set_pc 0); (λ m. without_main m.start_checks m)) m

unfoldable pub load_segments : List Segment → Exec Machine (Unit {0})
load_segments [] m = (ok tt, m)
load_segments (segment ∷ segments) m =
    let rest = load_segments segments in
    if segment.is_load
    then (in_system (store_binary segment.p_paddr segment.content) >> rest) m
    else rest m

-- The symbols that mark the boundaries; a later one replaces an earlier one.
unfoldable pub read_symbol : Symbol → Machine → Machine
read_symbol sym m =
    if same_text sym.name (codes "__heap_start")
    then set_heap_end sym.st_value m
    else if same_text sym.name (codes "__stack_top")
    then record m { stack_top = some sym.st_value }
    else if same_text sym.name (codes "__stack_bottom")
    then record m { stack_bottom = some sym.st_value }
    else if same_text sym.name (codes "main")
    then record m { main_addr = some sym.st_value }
    else m

unfoldable pub read_symbols : List Symbol → Machine → Machine
unfolding read_symbol
read_symbols [] m = m
read_symbols (sym ∷ syms) m = read_symbols syms (read_symbol sym m)

-- The names of functions for tracing.
unfoldable pub read_functions : List Symbol → Machine → Machine
unfolding update
read_functions [] m = m
read_functions (sym ∷ syms) m = read_functions syms (
    if not (same_text sym.name []) && sym.is_func
    then record m { symbol_dict = update m.symbol_dict sym.st_value (some sym.name) }
    else m)

unfoldable pub read_symtab : Bool → Option (List Symbol) → Machine → Machine
unfolding read_symbols read_functions
read_symtab load_symbols none m = m
read_symtab load_symbols (some syms) m =
    let read = read_symbols syms m in if load_symbols then read_functions syms read else read

-- The boundaries of the text segment, and its snapshot.
unfoldable pub read_text : Bool → Option (ℕ × ℕ) → Machine → Machine
unfolding slice
read_text check_text none m = m
read_text check_text (some (addr, size)) m = record m {
  text_start = some addr;
  text_end = some (addr + size);
  text_snapshot =
      if check_text then some (slice m.system.ram addr (addr + size)) else m.text_snapshot;
}

unfoldable pub load_elf : ElfFile → Bool → Bool → Exec Machine (Unit {0})
unfolding load_segments read_symtab read_text
load_elf elf load_symbols check_text = do
  load_segments elf.segments
  apply (set_pc elf.e_entry)
  apply (read_symtab load_symbols elf.symtab)
  apply (read_text check_text elf.text)
  apply (λ m. record m { start_checks = start_checks_or at_main m.start_checks })

-- `(n + 3) & ~3` and `(n + 7) & ~7`
abbrev pub align_up : ℕ → ℕ → ℕ
align_up k n = (n + k) / (k + 1) * (k + 1)

-- Arithmetic with `heap_end`, which is `None` without a symbol for it.
abbrev pub with_heap_end : {A : Type 0} → Option ℕ → (ℕ → Exec Machine A) → Exec Machine A
with_heap_end none f m = (err type_error, m)
with_heap_end (some addr) f m = f addr m

abbrev pub encode_or_error : Option (List ℕ) → Exec Machine (List ℕ)
encode_or_error none = raise value_error
encode_or_error (some bytes) = pure bytes

-- The strings, one after the other, and their addresses. `heap_end` goes on by the length of the
-- text in characters.
unfoldable pub store_args : List Text → Exec Machine (List ℕ)
store_args [] m = (ok [], m)
store_args (arg ∷ args) m =
    let rest = store_args args in
    (do
      bytes ← encode_or_error (encode_utf_8 arg)
      (λ m.
          with_heap_end m.system.heap_end
            (λ addr. do
              in_system (store_binary addr (bytes ++ 0 ∷ []))
              apply (set_heap_end (align_up 3 (addr + length arg + 1)))
              pointers ← rest
              pure (addr ∷ pointers))
            m))
      m

-- The table of pointers.
unfoldable pub store_table : List ℕ → Exec Machine (Unit {0})
store_table [] m = (ok tt, m)
store_table (ptr ∷ ptrs) m =
    let rest = store_table ptrs in
    with_heap_end m.system.heap_end
      (λ addr. do in_system (store_word addr ptr); apply (set_heap_end (addr + 4)); rest) m

-- Registers a0 and a1, which the source writes with no mask.
abbrev pub set_arguments : ℕ → ℕ → Machine → Machine
set_arguments argc argv m = record m {
  system = record m.system {
    cpu = record m.system.cpu {
      registers = update (update m.system.cpu.registers 10 argc) 11 argv;
    };
  };
}

-- Where `heap_end` is `None` the table of pointers, which is never empty, raises `TypeError`.
unfoldable pub setup_argv : List Text → Exec Machine (Unit {0})
unfolding store_args store_table update
setup_argv argv_list = do
  argv_pointers ← store_args argv_list
  (λ m.
      with_heap_end m.system.heap_end
        (λ argv_table_addr. do
          store_table (argv_pointers ++ 0 ∷ [])
          (λ m. with_heap_end m.system.heap_end (λ end. apply (set_heap_end (align_up 7 end))) m)
          apply (set_arguments (length argv_list) argv_table_addr))
        m)
