-- ===== src/Browser/Lifecycle.antt =====
-- The states of the page's emulator that its buttons reach.
pub mod Loading
pub mod Consistency
use riscv_python.Prelude.{
  ℕ, ◌≡◌, ◌∙◌, ◌||◌, refl, Bool, true, false, Option, none, some, if◌then◌else◌, subst, sym, not,
  Bool-cases, inl, inr,
}
use riscv_python.State.{Result, ok, err}
use riscv_python.State.Leaves.{if-keeps}
use riscv_python.Text.{Text}
use riscv_python.Cpu.System.{EcallHandler}
use riscv_python.Machine.Loader.{Machine}
use riscv_python.Browser.{
  Options, EmulatorState, Files, initialize, load_into, load_onto, load_by_type, reload, or_else,
  finish_load, load_file, start, begun, from_start, map_machine, stop, reset, update_options,
  unload,
}
use riscv_python.Browser.Execution.{Progress, end_chunk, run_machine, run_chunk}

-- `options.get` of a key that is not there.
abbrev default_options : Options
default_options = record {
  timer = false;
  rvc = false;
  check_ram = false;
  check_text = false;
  check_inv = false;
  trace_functions = false;
  ram_size = 1048576;
}

-- `EmulatorState()`, before `initialize`.
abbrev pub new_state : EmulatorState
new_state = record {
  machine = none;
  check_inv = false;
  check_enable = false;
  options = default_options;
  running = false;
  instruction_count = 0;
  exit_info = none;
  initialized = false;
  file_loaded = false;
  loaded_filepath = none;
  initial_pc = 0;
  initial_heap_end = 0;
  should_reset_pc = true;
}

-- What a call of the page leads to. A call that raises, as `start` before a file is loaded, leads
-- nowhere.
pub data Step (files : Files) (handle : EcallHandler) : EmulatorState → EmulatorState → Type 0 where
  initializes : (o : Options) (e : EmulatorState) → Step files handle e (initialize o e).1
  loads :
      (path : Text) (o : Option Options) (e e' : EmulatorState)
      → e' ≡ (load_file files path o e).1
      → Step files handle e e'
  starts : (e e' : EmulatorState) → start e ≡ some e' → Step files handle e e'
  stops : (e : EmulatorState) → Step files handle e (stop e)
  resets : (e e' : EmulatorState) → e' ≡ (reset files e).1 → Step files handle e e'
  runs : (n : ℕ) (e e' : EmulatorState) → e' ≡ (run_chunk handle n e).1 → Step files handle e e'
  updates :
      (o : Options) (e e' : EmulatorState) → e' ≡ (update_options o e).1 → Step files handle e e'

pub data Reached (files : Files) (handle : EcallHandler) : EmulatorState → Type 0 where
  at_first : Reached files handle new_state
  after :
      (e e' : EmulatorState)
      → Reached files handle e
      → Step files handle e e'
      → Reached files handle e'

abbrev pub IsSome {ℓ} : {A : Type ℓ} → Option A → Type 0
IsSome none = ⊥
IsSome (some a) = Unit

-- An emulator that is initialized, runs or has a file loaded has a machine; one with a file loaded
-- is initialized and knows the file's name; and one that does not wait for a restart has been
-- started with a machine.
pub record IsConsistent (e : EmulatorState) : Type 0 where
  pub has_machine : e.initialized ≡ true → IsSome e.machine
  pub ready : e.file_loaded ≡ true → e.initialized ≡ true
  pub named : e.file_loaded ≡ true → IsSome e.loaded_filepath
  pub running : e.running ≡ true → IsSome e.machine
  pub resumable : e.should_reset_pc ≡ false → IsSome e.machine
