-- ===== src/Browser.antt =====
-- advanced/webapp/py/browser_entry.py: the emulator behind the buttons of the web page. The copies of
-- cpu.py, ram.py, rvc.py, the timer and class `Machine` there are the same as those that the other
-- modules are about. The files of the browser are a parameter; log messages are left out.
pub mod Syscalls
pub mod Execution
pub mod Chunks
pub mod Lifecycle
use riscv_python.Prelude.{
  ◌%◌, ℕ, zero, suc, ◌+◌, max, Bool, true, false, not, ◌&&◌, ◌||◌, Option, none, some, List, [],
  ◌∷◌, map, ltb, leb, ◌==◌, if◌then◌else◌,
}
use riscv_python.State.{
  System, Ram, RamClass, plain, safe, mmio, safe_mmio, mmio_timer, Result, ok, err, Fault, Exec,
  execution_terminated, machine_error, memory_access_error, type_error, ◌>>=◌, ◌>>◌, apply,
}
use riscv_python.Ram.Create.{zeroes, ram_with}
use riscv_python.Ram.Mmio.{register_peripheral}
use riscv_python.Ram.Access.{load_word}
use riscv_python.Cpu.Create.{cpu_with}
use riscv_python.Cpu.System.{EcallHandler}
use riscv_python.Cpu.Execute.{execute}
use riscv_python.Cpu.Trap.{timer_update}
use riscv_python.Text.{Text, codes, same_text, drop}
use riscv_python.Ram.Bytes.{length}
use riscv_python.Machine.{advance}
use riscv_python.Machine.Checks.{CheckSettings, unset, check_invariants}
use riscv_python.Machine.Loader.{Machine, ElfFile, load_elf, load_flatbinary, set_pc, set_heap_end}

-- The options of the page that change what runs.
pub record Options : Type 0 where
  pub timer : Bool
  pub rvc : Bool
  pub check_ram : Bool
  pub check_text : Bool
  pub check_inv : Bool
  pub trace_functions : Bool
  pub ram_size : ℕ

-- Why a run has ended: the program's exit, another MachineError, or any other exception.
pub data ExitInfo : Type 0 where
  terminated : ExitInfo
  failed unexpected : Fault → ExitInfo

-- The attributes of `EmulatorState` but the logger, the handler of system calls and `file_type`,
-- which nothing reads. `machine` has the processor and the memory; `check_inv` and `check_enable`
-- are attributes of the machine too.
pub record EmulatorState : Type 0 where
  pub machine : Option Machine
  pub check_inv : Bool
  pub check_enable : Bool
  pub options : Options
  pub running : Bool
  pub instruction_count : ℕ
  pub exit_info : Option ExitInfo
  pub initialized : Bool
  pub file_loaded : Bool
  pub loaded_filepath : Option Text
  pub initial_pc : ℕ
  pub initial_heap_end : ℕ
  pub should_reset_pc : Bool

-- The files: what elftools reads from one, and its bytes, or the exception.
pub record Files : Type 0 where
  pub read_elf : Text → Result ElfFile
  pub read_bytes : Text → Result (List ℕ)

-- The class of the memory; the timer is the only device.
unfoldable pub ram_class_of : Options → RamClass
ram_class_of o =
    if o.timer
    then (if o.check_ram then safe_mmio else mmio)
    else if o.check_ram
    then safe
    else plain

abbrev pub new_timer_ram : Options → Ram
new_timer_ram o =
    let ram = ram_with (ram_class_of o) o.ram_size 0 (λ i. 0) in
    let timer =
      mmio_timer (record {
        mtime_lo = 0;
        mtime_hi = 0;
        mtime_lo_updated = false;
        mtime_hi_updated = false;
      }) in
    if o.timer then register_peripheral timer ram else ram

-- The machine that `initialize` makes; it always has a logger.
abbrev pub initial_machine : Options → Machine
initial_machine o = record {
  system = record { cpu = cpu_with o.rvc true (λ i. 0); ram = new_timer_ram o; heap_end = none };
  stack_top = none;
  stack_bottom = none;
  text_start = none;
  text_end = none;
  text_snapshot = none;
  symbol_dict = λ addr. none;
  main_addr = none;
  start_checks = unset;
}

-- Whether it succeeds; the word view of the memory raises `TypeError` unless the size is one of
-- whole words, when the options are stored already.
unfoldable pub initialize : Options → EmulatorState → Bool × EmulatorState
unfolding ram_class_of register_peripheral
initialize o e =
    if (o.ram_size + 4) % 4 == 0
    then (
      true,
      record e {
        options = o;
        machine = some (initial_machine o);
        check_inv = o.check_inv;
        check_enable = false;
        initialized = true;
      },
    )
    else (false, record e { options = o })

-- What follows an `initialize` that has not raised.
abbrev pub after_init :
    (EmulatorState → Bool × EmulatorState) → Bool × EmulatorState → Bool × EmulatorState
after_init next (true, e) = next e
after_init next (false, e) = (false, e)

-- `filepath.lower().endswith(suffix)` for a suffix of ASCII letters in lower case.
abbrev lower : ℕ → ℕ
lower c = if leb b'A' c && leb c b'Z' then c + 32 else c

unfoldable pub ends_with : Text → Text → Bool
ends_with suffix [] = same_text suffix []
ends_with suffix (c ∷ s) = same_text suffix (map lower (c ∷ s)) || ends_with suffix s

-- `x or 0`
abbrev or_zero : Option ℕ → ℕ
or_zero none = 0
or_zero (some n) = n

-- The log line about the stack formats `stack_bottom`, which raises `TypeError` if it is `None`,
-- where `stack_top` is a number other than 0.
abbrev log_stack : Option ℕ → Option ℕ → Result (Unit {0})
log_stack (some (suc top)) none = err type_error
log_stack _ _ = ok tt

-- Whether the layout of the program fits into the memory.
unfoldable pub fits : Machine → Bool
fits m = leb (max (or_zero m.stack_top) (or_zero m.system.heap_end)) m.system.ram.size

-- `load_elf` and what follows it: whether the file is accepted.
abbrev pub loaded_elf : Result (Unit {0}) × Machine → Result Bool × Machine
loaded_elf (err f, m) = (err f, m)
loaded_elf (ok _, m) = elim (log_stack m.stack_top m.stack_bottom) [
  | err f ↦ (err f, m)
  | ok _ ↦ (ok (fits m), m)
]

abbrev accepted : Result (Unit {0}) × Machine → Result Bool × Machine
accepted (err f, m) = (err f, m)
accepted (ok _, m) = (ok true, m)

abbrev with_file : {A : Type 0} → Result A → (A → Exec Machine Bool) → Exec Machine Bool
with_file (ok file) f m = f file m
with_file (err e) f m = (err e, m)

-- The choice by the name of the file.
unfoldable pub load_by_type : Files → Options → Text → Exec Machine Bool
unfolding ends_with fits load_elf load_flatbinary
load_by_type files o path m =
    if ends_with (codes ".elf") path
    then with_file (files.read_elf path)
        (λ elf m. loaded_elf (load_elf elf o.trace_functions o.check_text m)) m
    else if ends_with (codes ".bin") path
    then with_file (files.read_bytes path) (λ bytes m. accepted (load_flatbinary bytes m)) m
    else (ok false, m)

-- What `load_file` records of a file that is accepted.
abbrev pub file_ready : Text → Machine → EmulatorState → EmulatorState
file_ready path m e = record e {
  machine = some m;
  initial_pc = m.system.cpu.pc;
  initial_heap_end = or_zero m.system.heap_end;
  loaded_filepath = some path;
  file_loaded = true;
  instruction_count = 0;
  should_reset_pc = true;
}

abbrev pub finish_load : Text → EmulatorState → Result Bool × Machine → Bool × EmulatorState
finish_load path e (ok true, m) = (true, file_ready path m e)
finish_load path e (_, m) = (false, record e { machine = some m })

-- The `try` of `load_file`; without a machine an attribute of `None` is asked for, which raises too.
abbrev pub load_onto : Files → Text → Option Machine → EmulatorState → Bool × EmulatorState
load_onto files path none e = (false, e)
load_onto files path (some m) e = finish_load path e (load_by_type files e.options path m)

unfoldable pub load_into : Files → Text → EmulatorState → Bool × EmulatorState
unfolding load_by_type
load_into files path e = load_onto files path e.machine e

abbrev pub or_else : Option Options → Options → Options
or_else none o = o
or_else (some o') o = o'

abbrev pub unload : EmulatorState → EmulatorState
unload e = record e { initialized = false; file_loaded = false }

-- The options that are given count only if a file is loaded already.
unfoldable pub load_file : Files → Text → Option Options → EmulatorState → Bool × EmulatorState
unfolding initialize load_into
load_file files path options e =
    if not e.initialized
    then (false, e)
    else if e.file_loaded
    then after_init (load_into files path) (initialize (or_else options e.options) (unload e))
    else load_into files path e

-- `start` from the beginning of the program.
abbrev pub from_start : EmulatorState → Machine → Machine
from_start e m = set_heap_end e.initial_heap_end (set_pc e.initial_pc m)

abbrev pub map_machine : (Machine → Machine) → Option Machine → Option Machine
map_machine f none = none
map_machine f (some m) = some (f m)

unfoldable pub begun : EmulatorState → EmulatorState
begun e =
    if e.should_reset_pc
    then record e { machine = map_machine (from_start e) e.machine; instruction_count = 0 }
    else e

-- RuntimeError unless the emulator is ready: none.
unfoldable pub start : EmulatorState → Option EmulatorState
unfolding begun
start e =
    let started = record (begun e) { running = true; exit_info = none; should_reset_pc = false } in
    if not e.initialized || not e.file_loaded then none else some started

unfoldable pub stop : EmulatorState → EmulatorState
stop e = record e { running = false }

-- No path, or an empty one, counts as no file.
abbrev pub reload : Files → Option Text → EmulatorState → Bool × EmulatorState
reload files none e = (false, e)
reload files (some []) e = (false, e)
reload files (some (c ∷ path)) e =
    if e.file_loaded
    then after_init (load_file files (c ∷ path) none) (initialize e.options (unload e))
    else (false, e)

unfoldable pub reset : Files → EmulatorState → Bool × EmulatorState
unfolding initialize load_file
reset files e = reload files e.loaded_filepath e

unfoldable pub update_options : Options → EmulatorState → Bool × EmulatorState
update_options o e =
    if e.initialized then (true, record e { options = o; check_inv = o.check_inv }) else (false, e)
