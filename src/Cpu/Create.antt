-- ===== src/Cpu/Create.antt =====
-- The constructor of class `CPU` in cpu.py, and `init_registers`.
use riscv_python.Prelude.{ℕ, ◌^◌, ◌-◌, ◌%◌, Bool, false, none, ◌==◌, if◌then◌else◌}
use riscv_python.Prelude.Int.{pos}
use riscv_python.State.{Cpu, Result, ok, err, machine_error}
use riscv_python.Ram.Create.{Init, zeroes, random, by_address, invalid, fill}

-- `init_registers`; any text but `zero`, `random` and a number raises SetupError.
unfoldable pub init_registers : (ℕ → ℕ) → Init → Result (ℕ → ℕ)
init_registers getrandbits zeroes = ok (λ i. 0)
init_registers getrandbits random = ok (λ i. if i == 0 then 0 else getrandbits i % 2 ^ 32)
init_registers getrandbits by_address = err machine_error
init_registers getrandbits invalid = err machine_error
init_registers getrandbits (fill n) = ok (λ i. if i == 0 then 0 else n % 2 ^ 32)

-- The CSRs that do not start at 0; bit 2 of misa is the C extension.
unfoldable pub initial_csrs : Bool → ℕ → ℕ
initial_csrs rvc_enabled csr =
    if csr == 0x301
    then (if rvc_enabled then 0x40001105 else 0x40001101)
    else if csr == 0x300
    then 0x00001800
    else if csr == 0x7C2
    then 0xFFFFFFFF
    else if csr == 0x7C3
    then 0xFFFFFFFF
    else if csr == 0xF12
    then 0x00000001
    else if csr == 0xF13
    then 0x20250400
    else 0

-- The attribute `mtime_countdown`, which the source sets later, starts at 0.
abbrev pub cpu_with : Bool → Bool → (ℕ → ℕ) → Cpu
cpu_with rvc_enabled logger registers = record {
  registers = registers;
  pc = 0;
  next_pc = 0;
  csrs = initial_csrs rvc_enabled;
  mtime = 0;
  mtimecmp = 2 ^ 64 - 1;
  mtime_countdown = pos 0;
  mtime_lo_updated = false;
  mtime_hi_updated = false;
  mtimecmp_lo_updated = false;
  mtimecmp_hi_updated = false;
  mtip = false;
  reservation_valid = false;
  reservation_addr = 0;
  rvc_enabled = rvc_enabled;
  alignment_mask = if rvc_enabled then 1 else 3;
  decode_cache = λ k. none;
  decode_cache_compressed = λ k. none;
  logger = logger;
}

abbrev pub created : Bool → Bool → Result (ℕ → ℕ) → Result Cpu
created rvc_enabled logger (ok registers) = ok (cpu_with rvc_enabled logger registers)
created rvc_enabled logger (err e) = err e

unfoldable pub new_cpu : (ℕ → ℕ) → Bool → Init → Bool → Result Cpu
unfolding init_registers initial_csrs
new_cpu getrandbits rvc_enabled init_regs logger =
    created rvc_enabled logger (init_registers getrandbits init_regs)
