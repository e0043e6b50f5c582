-- ===== src/Tests/UnitTests.antt =====
-- The test runner, at one test.
use riscv_python.Prelude.{ℕ, ◌≡◌, refl, ap, ◌%◌, arith, true, false, none, some, [], ◌∷◌}
use riscv_python.State.{System, Result, ok}
use riscv_python.Text.{codes}
use riscv_python.Ram.Access.{load_word, store_word}
use riscv_python.Machine.Loader.{Machine, ElfFile, load_elf}
use riscv_python.UnitTests.{failed, test_machine, run_test}
use riscv_python.UnitTests.Verdict.{Ends, goes_on, stops, machine_round, run_test-Ends}

-- auipc ra, 0 and sw ra, 16(ra), where tohost is.
abbrev test_file : ElfFile
test_file = record {
  segments =
      record {
        is_load = true;
        p_paddr = 0x80000000;
        content = 0x97 ∷ 0 ∷ 0 ∷ 0 ∷ 0x23 ∷ 0xA8 ∷ 0x10 ∷ 0 ∷ [];
      }
      ∷ [];
  e_entry = 0x80000000;
  symtab = some (record { name = codes "tohost"; st_value = 0x80000010; is_func = false } ∷ []);
  text = none;
}

ends : (run_test 2 test_file test_machine).0 ≡ ok (failed 0x40000000)
unfolding run_test riscv_python.Ram.Access.store_binary riscv_python.Ram.Offset.store_binary
    riscv_python.Ram.Access.store_word riscv_python.Ram.Offset.store_word
    riscv_python.Ram.Access.load_half riscv_python.Ram.Offset.load_half
    riscv_python.Ram.Bytes.sign_extend riscv_python.Cpu.Execute.opcode_handler
    riscv_python.Cpu.Alu.exec_auipc riscv_python.Ram.Access.load_word riscv_python.State.set_reg
    riscv_python.State.set_next_pc riscv_python.Ram.Offset.load_word
    riscv_python.Cpu.Memory.exec_stores riscv_python.State.set_reservation_valid
ends = refl

abbrev loaded_machine : Machine
loaded_machine = (load_elf test_file false false test_machine).1

abbrev with_sentinel : System
with_sentinel = (store_word 0x80000010 0xFFFFFFFF loaded_machine.system).1

abbrev after_auipc : System
after_auipc = (machine_round with_sentinel).1

abbrev after_sw : System
after_sw = (machine_round after_auipc).1

overwritten : ¬ (◌≡◌ {A = ℕ} 0x80000000 0xFFFFFFFF)
overwritten e = omega arith

succeeds : (x : Result (Unit {0}) × System) → x.0 ≡ ok tt → x ≡ (ok tt, x.1)
succeeds x h = ap (λ (r : Result (Unit {0})). (r, x.1)) h

-- Of a round: it starts at an even program counter, it succeeds, and the word there is after it.
abbrev IsRound : System → ℕ → Type 0
IsRound s w =
    (s.cpu.pc % 2 ≡ 0)
    × ((machine_round s).0 ≡ ok tt)
    × ((load_word 0x80000010 (machine_round s).1).0 ≡ ok w)

both_rounds : IsRound with_sentinel 0xFFFFFFFF × IsRound after_auipc 0x80000000
unfolding machine_round riscv_python.Ram.Access.store_binary riscv_python.Ram.Offset.store_binary
    load_elf store_word riscv_python.Ram.Offset.store_word riscv_python.Machine.step_with_checks
    riscv_python.Ram.Access.load_half riscv_python.Ram.Offset.load_half
    riscv_python.Ram.Bytes.sign_extend riscv_python.Cpu.Execute.execute
    riscv_python.Cpu.Execute.opcode_handler riscv_python.Cpu.Alu.exec_auipc
    riscv_python.Ram.Access.load_word riscv_python.State.set_reg riscv_python.State.set_next_pc
    riscv_python.Ram.Offset.load_word riscv_python.Cpu.Memory.exec_stores
    riscv_python.State.set_reservation_valid
both_rounds = ((refl, refl, refl), (refl, refl, refl))

two_rounds : Ends 0x80000010 0x80000000 after_sw 2 with_sentinel
two_rounds =
    let (auipc, sw) = both_rounds in
    let (even, round, word) = auipc in
    let (even', round', word') = sw in
    goes_on 1 with_sentinel after_auipc even (succeeds (machine_round with_sentinel) round) word
      (stops 0 after_auipc even' (succeeds (machine_round after_auipc) round') word' overwritten)

run_test-Ends_example :
    run_test 2 test_file test_machine
    ≡ (ok (failed 0x40000000), record loaded_machine { system = after_sw })
unfolding load_elf riscv_python.Ram.Access.store_binary riscv_python.Ram.Offset.store_binary
    store_word riscv_python.Ram.Offset.store_word
run_test-Ends_example =
    run_test-Ends 2 0x80000000 0x80000010 test_file test_machine loaded_machine with_sentinel
      after_sw refl refl refl two_rounds
