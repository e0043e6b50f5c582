-- ===== src/Tests/Browser.antt =====
-- The properties of the page's emulator, at one state each.
use riscv_python.Prelude.{ℕ, ◌+◌, ◌≡◌, refl, true, false, none, some, List, [], ◌∷◌, ◌++◌, arith}
use riscv_python.Prelude.Int.{pos}
use riscv_python.State.{ok, set_reg}
use riscv_python.Text.{codes}
use riscv_python.Ram.Bytes.{length, bytes_from, put_bytes}
use riscv_python.Ram.Binary.{set_memory}
use riscv_python.Machine.Loader.{Machine}
use riscv_python.Browser.{EmulatorState, Files, Options, initialize, initial_machine, load_file}
use riscv_python.Browser.Execution.{run_chunk}
use riscv_python.Browser.Chunks.{and_then, Ends, run_chunk-add, run_chunk-Ends}
use riscv_python.Browser.Lifecycle.{
  new_state, Reached, IsConsistent, at_first, after, initializes, loads,
}
use riscv_python.Browser.Lifecycle.Consistency.{Reached-IsConsistent}
use riscv_python.Browser.Syscalls.{PageKernel, handle_read, reg}
use riscv_python.Browser.Syscalls as Page
use riscv_python.Browser.Syscalls.Input.{handle_read-delivers}
use riscv_python.Browser.Syscalls.Native.{
  IsShared, identifies, native_view, page_view, on_page, handle-native,
}
use riscv_python.Syscalls.{Kernel}
use riscv_python.Syscalls.Files as NativeFiles
use riscv_python.Tests.{machine}
use riscv_python.Tests.Syscalls.{host, kernel}

abbrev with_timer : Options
with_timer = record {
  timer = true;
  rvc = true;
  check_ram = true;
  check_text = false;
  check_inv = false;
  trace_functions = false;
  ram_size = 64;
}

-- The example program of the tests, started.
abbrev page_machine : Machine
page_machine = record (initial_machine with_timer) { system = machine }

abbrev running : EmulatorState
running = record new_state {
  machine = some page_machine;
  options = with_timer;
  running = true;
  initialized = true;
  file_loaded = true;
  loaded_filepath = some (codes "a.bin");
  should_reset_pc = false;
}

run_chunk-add_example :
    run_chunk none (1 + 2) running ≡ and_then (run_chunk none 1 running) (run_chunk none 2)
run_chunk-add_example = run_chunk-add none 1 2 page_machine running refl refl

run_chunk-Ends_example : Ends 3 running (run_chunk none 3 running)
run_chunk-Ends_example = run_chunk-Ends none 3 page_machine running refl refl refl refl refl

-- Files of four zero bytes.
abbrev files : Files
files = record {
  read_elf = λ path. ok (record { segments = []; e_entry = 0; symtab = none; text = none });
  read_bytes = λ path. ok (0 ∷ 0 ∷ 0 ∷ 0 ∷ []);
}

abbrev loaded : EmulatorState
loaded = (load_file files (codes "a.bin") none (initialize with_timer new_state).1).1

loaded-Reached : Reached files none loaded
loaded-Reached =
    after (initialize with_timer new_state).1 loaded
      (after new_state (initialize with_timer new_state).1 at_first
        (initializes with_timer new_state))
      (loads (codes "a.bin") none (initialize with_timer new_state).1 loaded refl)

Reached-IsConsistent_example : IsConsistent loaded
Reached-IsConsistent_example = Reached-IsConsistent files none loaded loaded-Reached

-- Three bytes are asked for, of which two are there.
abbrev page : PageKernel ℕ
page = record {
  system = set_reg 10 0 (set_reg 11 16 (set_reg 12 3 machine));
  stack_bottom = some 200;
  umask = 18;
  write_callback = none;
  has_read_callback = true;
  input_buffer = b'o' ∷ b'k' ∷ [];
  page = 0;
}

handle_read-delivers_example :
    (bytes : List ℕ) × (rest : List ℕ) × (page.input_buffer ≡ bytes ++ rest)
    × (length bytes ≡ 2)
    × (bytes_from
          (put_bytes page.system.ram.memory (reg 11 page) bytes)
          (reg 11 page)
          (length bytes)
        ≡ bytes)
    × (handle_read page ≡ (
      ok (pos (length bytes)),
      record page {
        input_buffer = rest;
        system = set_memory (put_bytes page.system.ram.memory (reg 11 page) bytes) page.system;
      },
    ))
unfolding set_reg
handle_read-delivers_example =
    handle_read-delivers page refl refl (refl, omega arith) (omega arith) (omega arith)
      (omega arith)

abbrev asking : Kernel ℕ
asking = record kernel { system = set_reg 17 172 machine }

asking-IsShared : IsShared asking.system
unfolding set_reg
asking-IsShared = identifies refl

handle-native_example :
    native_view (NativeFiles.handle host asking) ≡ page_view (Page.handle (on_page asking page))
handle-native_example = handle-native host asking page asking-IsShared
