-- ===== src/UnitTests.antt =====
-- run_unit_tests.py: one test of the RISC-V suite, which ends by a write to its variable `tohost`.
pub mod Pure
pub mod Verdict
use riscv_python.Prelude.{
  ℕ, zero, suc, ◌*◌, ◌/◌, ◌%◌, ◌==◌, Bool, true, false, not, Option, none, some, List, [], ◌∷◌,
  if◌then◌else◌,
}
use riscv_python.State.{System, ok, Exec, ◌>>=◌, ◌>>◌, apply, pure, safe_offset}
use riscv_python.Text.{Text, codes, same_text}
use riscv_python.Ram.Access.{load_word, store_word}
use riscv_python.Ram.Create.{ram_with}
use riscv_python.Cpu.Create.{cpu_with}
use riscv_python.Cpu.Trap.{trap}
use riscv_python.Cpu.Execute.{execute}
use riscv_python.Machine.{advance, fetch_halves}
use riscv_python.Machine.Checks.{unset}
use riscv_python.Machine.Loader.{Machine, Symbol, ElfFile, in_system, load_elf}

-- What a test shows: its number where it fails. `without_symbol` is the exception for a file that
-- has no table of symbols or no such symbol, and `unfinished` that the rounds have passed.
pub data TestResult : Type 0 where
  passed unfinished without_symbol : TestResult
  failed : ℕ → TestResult

abbrev pub first_symbol : Text → List Symbol → Option ℕ
first_symbol name [] = none
first_symbol name (sym ∷ syms) =
    if same_text sym.name name then some sym.st_value else first_symbol name syms

abbrev pub get_symbol_address : Text → Option (List Symbol) → Option ℕ
get_symbol_address name none = none
get_symbol_address name (some syms) = first_symbol name syms

-- The memory, the processor and the machine of a test; no handler of system calls is set.
abbrev pub test_machine : Machine
test_machine = record {
  system = record {
    cpu = cpu_with true false (λ i. 0);
    ram = ram_with safe_offset (1024 * 1024) 0x80000000 (λ i. 0);
    heap_end = none;
  };
  stack_top = none;
  stack_bottom = none;
  text_start = none;
  text_end = none;
  text_snapshot = none;
  symbol_dict = λ addr. none;
  main_addr = none;
  start_checks = unset;
}

-- A round of the loop: whether the sentinel has been overwritten. A misaligned program counter traps.
unfoldable pub test_round : ℕ → Exec System Bool
unfolding trap advance fetch_halves execute
test_round tohost_addr s =
    if s.cpu.pc % 2 == 1
    then (do trap 0 s.cpu.pc true; apply advance; pure false) s
    else (do
      inst ← fetch_halves
      execute none inst
      apply advance
      word ← load_word tohost_addr
      pure (not (word == 0xFFFFFFFF)))
        s

-- The loop for a number of rounds: whether it has ended.
unfoldable pub test_loop : ℕ → ℕ → Exec System Bool
unfolding test_round
test_loop tohost_addr zero s = (ok false, s)
test_loop tohost_addr (suc n) s =
    let rest = test_loop tohost_addr n in
    (do over ← test_round tohost_addr; (λ s. if over then (ok true, s) else rest s)) s

abbrev pub verdict : ℕ → TestResult
verdict test_result = if test_result == 1 then passed else failed (test_result / 2)

-- What follows the loop.
abbrev pub load_result : ℕ → Bool → Exec Machine TestResult
load_result tohost_addr false = pure unfinished
load_result tohost_addr true = do
  test_result ← in_system (load_word tohost_addr)
  pure (verdict test_result)

abbrev pub run_loaded : ℕ → Option ℕ → Exec Machine TestResult
run_loaded n none = pure without_symbol
run_loaded n (some tohost_addr) = do
  in_system (store_word tohost_addr 0xFFFFFFFF)
  over ← in_system (test_loop tohost_addr n)
  load_result tohost_addr over

unfoldable pub run_test : ℕ → ElfFile → Exec Machine TestResult
unfolding load_elf test_loop
run_test n elf = do
  load_elf elf false false
  run_loaded n (get_symbol_address (codes "tohost") elf.symtab)
