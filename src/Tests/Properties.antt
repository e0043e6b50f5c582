-- ===== src/Tests/Properties.antt =====
-- The properties of the memory, of traps, of reservations and of the caches, at one state each.
use riscv_python.Prelude.{List, [], ◌∷◌, ℕ, ◌%◌, ◌^◌, ◌≡◌, refl, true, false, none, arith}
use riscv_python.State.{System, ok, err}
use riscv_python.Bits.{bit, and_not}
use riscv_python.Ram.Bytes.{word_at}
use riscv_python.Cpu.Trap.{trap, timer_update}
use riscv_python.Cpu.System.{exec_mret}
use riscv_python.Cpu.TrapReturn.{exec_mret-trap}
use riscv_python.Cpu.Interrupt.{IsDue, timer_update-IsDue}
use riscv_python.Cpu.Amo.{exec_lr, exec_sc}
use riscv_python.Cpu.Reservation.{exec_sc-exec_lr}
use riscv_python.Cpu.Execute.{decode, cached_decode, cached_expand, execute, opcode_handler}
use riscv_python.Cpu.Alu.{exec_itype}
use riscv_python.Cpu.Control.{is_misaligned}
use riscv_python.Cpu.Cache.{
  HasCoherentCaches, ExpandsTo, cached_decode-HasCoherentCaches, cached_expand-ExpandsTo,
  cached_decode_alias,
}
use riscv_python.Cpu.ZeroRegister.{execute-ZeroesX0}
use riscv_python.Machine.{Options, rounds, run, step_mmio}
use riscv_python.Machine.Expiry.{IsEnabled, HasWaited, IsTaken, rounds-IsTaken}
use riscv_python.Machine.Loops.{IsReady, Next, AreReady, run-checks}
use riscv_python.Ram.Specification.{
  Access, half, word, loads, stores, performed, specified, in_turn,
}
use riscv_python.Ram.Refinement.{in_turn-specified}
use riscv_python.State.{Result, System, safe_mmio, mmio_timer}
use riscv_python.Peripherals.{in_range}
use riscv_python.Tests.{no_devices, ram, ram-IsWf, cpu, machine}

-- A word, part of it as a half word with its sign, and a word that reaches past the end.
abbrev script : List Access
script = stores word 9 0x8001F00D ∷ loads half true 11 ∷ loads word false 61 ∷ []

in_turn-specified_example : in_turn performed script ram ≡ (
    let (answers, m) = in_turn (specified ram.size) script ram.memory in
    (answers, record ram { memory = m }))
in_turn-specified_example = in_turn-specified script ram (omega arith) ram-IsWf.memory

aligned : is_misaligned machine machine.cpu.pc ≡ false
unfolding is_misaligned
aligned = refl

exec_mret-trap_example :
    ((exec_mret (trap 11 0 true machine).1).0 ≡ ok tt)
    × ((exec_mret (trap 11 0 true machine).1).1.cpu.next_pc ≡ machine.cpu.pc)
    × (bit ((exec_mret (trap 11 0 true machine).1).1.cpu.csrs 0x300) 3
        ≡ bit (machine.cpu.csrs 0x300) 3)
    × ((exec_mret (trap 11 0 true machine).1).1.cpu.registers ≡ machine.cpu.registers)
exec_mret-trap_example = exec_mret-trap 11 0 3 machine (omega arith) aligned (omega arith)

machine-IsDue : IsDue machine
machine-IsDue = record { expired = omega arith; mie = refl; mtie = refl; handler = omega arith }

timer_update-IsDue_example :
    ((timer_update machine).0 ≡ ok tt)
    × ((timer_update machine).1.cpu.csrs 0x341 ≡ machine.cpu.next_pc)
    × ((timer_update machine).1.cpu.csrs 0x342 ≡ 0x80000007)
    × ((timer_update machine).1.cpu.next_pc ≡ and_not (machine.cpu.csrs 0x305) 3)
    × (bit ((timer_update machine).1.cpu.csrs 0x300) 3 ≡ 0)
    × (bit ((timer_update machine).1.cpu.csrs 0x300) 7 ≡ 1)
timer_update-IsDue_example = timer_update-IsDue machine machine-IsDue

-- The same machine without any CSR set.
abbrev quiet : System
quiet = record machine { cpu = record cpu { csrs = λ k. 0 } }

exec_sc-exec_lr_example :
    ((exec_sc 8 3 42 (exec_lr 8 2 machine).1).0 ≡ ok tt)
    × ((exec_sc 8 3 42 (exec_lr 8 2 machine).1).1.cpu.registers 3 ≡ 0)
    × ((exec_sc 8 3 42 (exec_lr 8 2 machine).1).1.cpu.reservation_valid ≡ false)
    × (word_at (exec_sc 8 3 42 (exec_lr 8 2 machine).1).1.ram.memory 8 ≡ 42 % 2 ^ 32)
exec_sc-exec_lr_example = exec_sc-exec_lr 8 2 3 42 machine refl (omega arith) (omega arith) ram-IsWf

cpu-HasCoherentCaches : HasCoherentCaches cpu
cpu-HasCoherentCaches = record { at_word = λ k d e. cc; at_half = λ k d e. cc }

cached_decode-HasCoherentCaches_example :
    ((cached_decode 0x00500093 cpu).0 ≡ decode 0x00500093)
    × HasCoherentCaches (cached_decode 0x00500093 cpu).1
cached_decode-HasCoherentCaches_example =
    cached_decode-HasCoherentCaches 0x00500093 cpu refl cpu-HasCoherentCaches

cached_expand-ExpandsTo_example : ExpandsTo 0x0085 (cached_expand 0x0085 cpu)
cached_expand-ExpandsTo_example = cached_expand-ExpandsTo 0x0085 cpu cpu-HasCoherentCaches

-- 0x00500090 is no instruction of the base set, and decodes as 0x00500093.
cached_decode_alias_example :
    (cached_decode 0x00500090 (cached_decode 0x00500093 cpu).1).0 ≡ decode 0x00500093
cached_decode_alias_example = cached_decode_alias 0x00500093 0x00500090 cpu refl refl

executed : (execute none 0x00500093 machine).0 ≡ ok tt
unfolding execute opcode_handler exec_itype
executed = refl

execute-ZeroesX0_example : (execute none 0x00500093 machine).1.cpu.registers 0 ≡ 0
execute-ZeroesX0_example = execute-ZeroesX0 none 0x00500093 machine refl executed

-- The loops with devices; the machine of the tests, with a timer on its bus.
abbrev logging : Options
logging = record { timer = false; mmio = true; rvc = true; checks = false; check_inv = none }

abbrev on_bus : System
on_bus = record machine {
  ram = record ram {
    ram_class = safe_mmio;
    mmio_ranges =
        mmio_timer (record {
          mtime_lo = 0;
          mtime_hi = 0;
          mtime_lo_updated = false;
          mtime_hi_updated = false;
        })
        ∷ [];
  };
}

on_bus-IsReady : IsReady on_bus
unfolding in_range
on_bus-IsReady = record {
  class = refl;
  word = omega arith;
  size = omega arith;
  wf = record { memory = ram-IsWf.memory; devices = (omega arith, tt) };
  off_bus = (refl, tt);
  rvc = refl;
}

ready : (x : Result (Unit {0}) × (System × ℕ)) → Next none no_devices (λ st. Unit) x
ready (ok u, st) = tt
ready (err e, st) = tt

run-checks_example :
    run none no_devices (record logging { checks = true }) 1 on_bus
    ≡ run none no_devices (record logging { checks = false }) 1 on_bus
unfolding AreReady
run-checks_example =
    run-checks none no_devices logging 1 on_bus refl refl
      (on_bus-IsReady, ready (step_mmio none no_devices logging (on_bus, 0)))

-- Three ticks to go.
abbrev waiting : System
waiting = record machine { cpu = record cpu { mtime = 2 } }

rounds-IsTaken_example :
    HasWaited 2 waiting (rounds 2 timer_update waiting)
    × IsTaken waiting (rounds 4 timer_update waiting)
rounds-IsTaken_example = rounds-IsTaken 2 3 waiting enabled refl (omega arith)
  where
    enabled : IsEnabled waiting
    enabled = record { mie = refl; mtie = refl; handler = omega arith }
