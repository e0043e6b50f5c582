-- ===== src/UnitTests/Verdict.antt =====
-- The rounds of a test of the RISC-V suite as a relation, and the verdict they give.
use riscv_python.Prelude.{
  ℕ, suc, ◌%◌, ◌/◌, ◌==◌, ◌≡◌, refl, ap, ◌∙◌, true, false, not, none, some, if◌then◌else◌, arith,
}
use riscv_python.State.{System, Exec, Result, ok, ◌>>=◌, ◌>>◌, apply, pure}
use riscv_python.Text.{codes}
use riscv_python.Ram.Access.{load_word, store_word}
use riscv_python.Cpu.Trap.{trap}
use riscv_python.Cpu.Execute.{execute}
use riscv_python.Machine.{
  Options, advance, fetch_halves, is_start_misaligned, rounds, run, step_with_checks, update_if,
  check_if,
}
use riscv_python.Machine.Loader.{Machine, ElfFile, load_elf}
use riscv_python.UnitTests.{passed, failed, get_symbol_address, run_test, test_loop, test_round}
use riscv_python.UnitTests.Pure.{load_word-same}

abbrev sentinel : ℕ
sentinel = 0xFFFFFFFF

-- The debug loop of machine.py with compressed instructions and nothing else.
abbrev round_options : Options
round_options = record { timer = false; mmio = false; rvc = true; checks = true; check_inv = none }

-- One instruction as the debug loop of machine.py runs it, without a handler of system calls and
-- without devices.
unfoldable pub machine_round : Exec System (Unit {0})
unfolding run
machine_round = run none (λ s. (ok tt, s)) round_options 1

-- The test that starts in a state ends within a number of rounds in the state `u`, in which the word
-- at the address of `tohost` is `w`.
pub data Ends (tohost_addr w : ℕ) (u : System) : ℕ → System → Type 0 where
  traps :
      (n : ℕ) (s t : System)
      → s.cpu.pc % 2 ≡ 1
      → trap 0 s.cpu.pc true s ≡ (ok tt, t)
      → Ends tohost_addr w u n (advance t)
      → Ends tohost_addr w u (suc n) s
  goes_on :
      (n : ℕ) (s t : System)
      → s.cpu.pc % 2 ≡ 0
      → machine_round s ≡ (ok tt, t)
      → (load_word tohost_addr t).0 ≡ ok sentinel
      → Ends tohost_addr w u n t
      → Ends tohost_addr w u (suc n) s
  stops :
      (n : ℕ) (s : System)
      → s.cpu.pc % 2 ≡ 0
      → machine_round s ≡ (ok tt, u)
      → (load_word tohost_addr u).0 ≡ ok w
      → ¬ (w ≡ sentinel)
      → Ends tohost_addr w u (suc n) s

loaded : (addr w : ℕ) (s : System) → (load_word addr s).0 ≡ ok w → load_word addr s ≡ (ok w, s)
loaded addr w s h =
    let word : Result ℕ = ok w in
    ap (λ (r : Result ℕ). (r, (load_word addr s).1)) h
    ∙ ap (λ (t : System). (word, t)) (load_word-same addr s)

machine_round-instruction :
    (s : System)
    → s.cpu.pc % 2 ≡ 0
    → machine_round s ≡ (do inst ← fetch_halves; execute none inst; apply advance) s
unfolding machine_round is_start_misaligned rounds step_with_checks check_if update_if
machine_round-instruction s h = rw h (ground arith)

test_round-machine_round :
    (addr : ℕ) (s : System)
    → s.cpu.pc % 2 ≡ 0
    → test_round addr s ≡ (do machine_round; word ← load_word addr; pure (not (word == sentinel))) s
unfolding test_round
test_round-machine_round addr s h = rw (machine_round-instruction s h, h) (ground arith)

test_round-trap :
    (addr : ℕ) (s t : System)
    → s.cpu.pc % 2 ≡ 1
    → trap 0 s.cpu.pc true s ≡ (ok tt, t)
    → test_round addr s ≡ (ok false, advance t)
unfolding test_round
test_round-trap addr s t odd trapped = rw (odd, trapped) refl

module _ (addr w : ℕ) (u : System) where
  test_loop-Ends : (n : ℕ) (s : System) → Ends addr w u n s → test_loop addr n s ≡ (ok true, u)
  unfolding test_loop
  test_loop-Ends _ _ (traps n s t odd trapped rest) =
      let later = test_loop-Ends n _ rest in rw (test_round-trap addr s t odd trapped) later
  test_loop-Ends _ _ (goes_on n s t even round word rest) =
      let later = test_loop-Ends n t rest in
      rw (test_round-machine_round addr s even, round, loaded addr sentinel t word) later
  test_loop-Ends _ _ (stops n s even round word other) =
      let differs : (w == sentinel) ≡ false = ground arith in
      rw (test_round-machine_round addr s even, round, loaded addr w u word, differs) refl

  end_word : (n : ℕ) (s : System) → Ends addr w u n s → (load_word addr u).0 ≡ ok w
  end_word _ _ (traps n s t odd trapped rest) = end_word n _ rest
  end_word _ _ (goes_on n s t even round word rest) = end_word n t rest
  end_word _ _ (stops n s even round word other) = word

-- A test of the suite whose file loads, that has a symbol `tohost`, and whose word there takes the
-- sentinel 0xFFFFFFFF gets its verdict from the word that overwrites the sentinel: where its rounds
-- end within `n` with the word `w` at that address, `run_test` passes if `w` is 1 and otherwise
-- fails with the number `w / 2`, and leaves the state in which the rounds have ended. A round at an
-- odd `pc` is a trap that a handler takes, and it ends no test; any other is one round of the debug
-- loop of machine.py without options, which ends the test if the word is no longer the sentinel.
pub run_test-Ends :
    (n w addr : ℕ) (elf : ElfFile) (m loaded_machine : Machine) (s u : System)
    → load_elf elf false false m ≡ (ok tt, loaded_machine)
    → get_symbol_address (codes "tohost") elf.symtab ≡ some addr
    → store_word addr sentinel loaded_machine.system ≡ (ok tt, s)
    → Ends addr w u n s
    → run_test n elf m
      ≡ (ok (if w == 1 then passed else failed (w / 2)), record loaded_machine { system = u })
unfolding run_test
run_test-Ends n w addr elf m loaded_machine s u hl hs hw h =
    let looped = test_loop-Ends addr w u n s h in
    let word = loaded addr w u (end_word addr w u n s h) in rw (hl, hs, hw, looped, word) refl
