-- ===== src/Tests.antt =====
-- Example states, and each property at one of them.
mod Properties
mod Debugger
mod Devices
mod Loading
mod Browser
mod Syscalls
mod UnitTests
use riscv_python.Prelude.{
  ℕ, ◌+◌, ◌*◌, ◌/◌, ◌%◌, ◌^◌, ◌≤◌, ◌<◌, ◌≡◌, ◌≢◌, inl, inr, refl, Bool, true, false, Option, none,
  some, List, [], ◌==◌, if◌then◌else◌, arith,
}
use riscv_python.Prelude.Int.{pos}
use riscv_python.State.{
  System, Cpu, Ram, Exec, Decoded, ok, err, memory_access_error, safe, update, set_reg,
}
use riscv_python.Rvc.{expand_compressed}
use riscv_python.Rvc.Manual.{manual}
use riscv_python.Rvc.Width.{expand_compressed-IsWord}
use riscv_python.Rvc.Equivalence.{expand_compressed-eq-manual}
use riscv_python.Invariant.Defs.{IsWf, IsWfRam, IsWfCpu}
use riscv_python.Machine.{Options, run}
use riscv_python.Cpu.Alu.{signed_div, signed_rem}
use riscv_python.Cpu.Division.{div_manual, rem_manual, signed_div-eq-manual, signed_rem-eq-manual}
use riscv_python.Cpu.Execute.{execute, decode, cached_decode, cached_expand}

-- Two instructions: addi ra, zero, 5 and the compressed c.addi ra, 1.
abbrev program : ℕ → ℕ
program k =
    if k == 0
    then 0x93
    else if k == 2
    then 0x50
    else if k == 4
    then 0x85
    else if k == 5
    then 0x00
    else 0

abbrev pub ram : Ram
ram = record {
  ram_class = safe;
  memory = program;
  memory_len = 68;
  size = 64;
  base_addr = 0;
  mmio_ranges = [];
}

-- The timer interrupt is due, with MIE and MTIE set and the handler at 32.
abbrev some_csrs : ℕ → ℕ
some_csrs k = if k == 0x300 then 8 else if k == 0x304 then 128 else if k == 0x305 then 32 else 0

abbrev pub cpu : Cpu
cpu = record {
  registers = λ k. 0;
  pc = 0;
  next_pc = 4;
  csrs = some_csrs;
  mtime = 7;
  mtimecmp = 5;
  mtime_countdown = pos 0;
  mtime_lo_updated = false;
  mtime_hi_updated = false;
  mtimecmp_lo_updated = false;
  mtimecmp_hi_updated = false;
  mtip = false;
  reservation_valid = false;
  reservation_addr = 0;
  rvc_enabled = true;
  alignment_mask = 1;
  decode_cache = λ k. none;
  decode_cache_compressed = λ k. none;
  logger = false;
}

abbrev pub machine : System
machine = record { cpu = cpu; ram = ram; heap_end = some 100 }

pub ram-IsWf : IsWfRam ram
ram-IsWf = record { memory = λ k. ground arith; devices = tt }

pub machine-IsWf : IsWf machine
machine-IsWf = record {
  cpu = record {
    registers = λ k. omega arith;
    csrs = λ k. ground arith;
    pc = omega arith;
    next_pc = omega arith;
    mtime = omega arith;
    mtimecmp = omega arith;
    caches = record { at_word = λ k d e. cc; at_half = λ k d e. cc };
  };
  ram = ram-IsWf;
}

abbrev pub fast : Options
fast = record { timer = false; mmio = false; rvc = true; checks = false; check_inv = none }

abbrev pub no_devices : Exec System (Unit {0})
no_devices s = (ok tt, s)

-- c.addi ra, 1
expand_compressed-eq-manual_example : expand_compressed 0x0085 ≡ manual 0x0085
expand_compressed-eq-manual_example = expand_compressed-eq-manual 0x0085 (omega arith)

c_addi : expand_compressed 0x0085 ≡ some 0x00108093
unfolding expand_compressed
c_addi = refl

expand_compressed-IsWord_example : (0x00108093 < 2 ^ 32) × (0x00108093 % 4 ≡ 3)
expand_compressed-IsWord_example = expand_compressed-IsWord 0x0085 0x00108093 (omega arith) c_addi

signed_div-eq-manual_example : signed_div 0x80000000 3 ≡ div_manual 0x80000000 3
signed_div-eq-manual_example = signed_div-eq-manual 0x80000000 3 (omega arith) (omega arith)

signed_rem-eq-manual_example : signed_rem 0xFFFFFFF9 2 ≡ rem_manual 0xFFFFFFF9 2
signed_rem-eq-manual_example = signed_rem-eq-manual 0xFFFFFFF9 2 (omega arith) (omega arith)
