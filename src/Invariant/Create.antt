-- ===== src/Invariant/Create.antt =====
-- The state that the constructors of CPU and of the RAM classes give.
use riscv_python.Prelude.{ℕ, ◌^◌, ◌≤◌, ◌≡◌, refl, Bool, true, false, arith}
use riscv_python.State.Leaves.{if-keeps}
use riscv_python.Prelude.{◌+◌, ◌%◌, ◌==◌}
use riscv_python.State.{Cpu, Ram, RamClass, Result, ok, err}
use riscv_python.Ram.Create.{
  Init, zeroes, random, by_address, invalid, fill, initialize_ram, filled, new_ram,
}
use riscv_python.Cpu.Create.{initial_csrs, created, init_registers, new_cpu}
use riscv_python.Cpu.Cache.{HasCoherentCaches}
use riscv_python.Invariant.Defs.{AllBelow, IsWfCpu, IsWfRam}

-- What holds of a value, if it was created.
abbrev pub OnCreated : {A : Type 0} → (A → Type 0) → Result A → Type 0
OnCreated P (ok a) = P a
OnCreated P (err e) = Unit

-- A well-formed processor at address 0 with coherent caches, whose register x0 is 0.
pub record IsFreshCpu (cpu : Cpu) : Type 0 where
  pub wf : IsWfCpu cpu
  pub coherent : HasCoherentCaches cpu
  pub x0 : cpu.registers 0 ≡ 0
  pub pc : cpu.pc ≡ 0

-- A well-formed memory whose bytearray has the bytes that `size` promises.
pub record IsFreshRam (ram : Ram) : Type 0 where
  pub wf : IsWfRam ram
  pub length : ram.size ≤ ram.memory_len

module _ (getrandbits : ℕ → ℕ) where
  initialize_ram-AllBelow :
      (init : Init) (size : ℕ) → OnCreated (AllBelow (2 ^ 8)) (initialize_ram getrandbits init size)
  unfolding initialize_ram
  initialize_ram-AllBelow zeroes size = λ k. omega arith
  initialize_ram-AllBelow random size = λ k. ground arith
  initialize_ram-AllBelow by_address size = λ k. ground arith
  initialize_ram-AllBelow invalid size = tt
  initialize_ram-AllBelow (fill n) size = λ k. ground arith

  -- A memory that the constructor of any class gives holds bytes, whatever it is filled with, and
  -- is as long as its size says.
  pub new_ram-IsFreshRam :
      (class : RamClass) (size base_addr : ℕ) (init : Init)
      → OnCreated IsFreshRam (new_ram getrandbits class size base_addr init)
  unfolding new_ram
  new_ram-IsFreshRam class size base_addr init =
      if-keeps (OnCreated IsFreshRam) ((size + 4) % 4 == 0) _ _
        (go (initialize_ram getrandbits init size) (initialize_ram-AllBelow init size)) tt
    where
      go :
          (x : Result (ℕ → ℕ))
          → OnCreated (AllBelow (2 ^ 8)) x
          → OnCreated IsFreshRam (filled class size base_addr x)
      go (ok m) h = record { wf = record { memory = h; devices = tt }; length = omega arith }
      go (err e) h = tt

  abbrev FitRegisters : (ℕ → ℕ) → Type 0
  FitRegisters registers = AllBelow (2 ^ 32) registers × (registers 0 ≡ 0)

  init_registers-FitRegisters :
      (init : Init) → OnCreated FitRegisters (init_registers getrandbits init)
  unfolding init_registers
  init_registers-FitRegisters zeroes = (λ k. omega arith, refl)
  init_registers-FitRegisters random = (λ k. ground arith, refl)
  init_registers-FitRegisters by_address = tt
  init_registers-FitRegisters invalid = tt
  init_registers-FitRegisters (fill n) = (λ k. ground arith, refl)

  initial_csrs-lt : (b : Bool) → AllBelow (2 ^ 32) (initial_csrs b)
  unfolding initial_csrs
  initial_csrs-lt true k = ground arith
  initial_csrs-lt false k = ground arith

  pub new_cpu-IsFreshCpu :
      (rvc_enabled : Bool) (init : Init) (logger : Bool)
      → OnCreated IsFreshCpu (new_cpu getrandbits rvc_enabled init logger)
  unfolding new_cpu
  new_cpu-IsFreshCpu rvc init logger =
      go (init_registers getrandbits init) (init_registers-FitRegisters init)
    where
      go :
          (x : Result (ℕ → ℕ))
          → OnCreated FitRegisters x
          → OnCreated IsFreshCpu (created rvc logger x)
      go (err e) h = tt
      go (ok registers) (hr, h0) = record {
        wf = record {
          registers = hr;
          csrs = initial_csrs-lt rvc;
          pc = omega arith;
          next_pc = omega arith;
          mtime = omega arith;
          mtimecmp = omega arith;
          caches = record { at_word = λ k d e. cc; at_half = λ k d e. cc };
        };
        coherent = record { at_word = λ k d e. cc; at_half = λ k d e. cc };
        x0 = h0;
        pc = refl;
      }
