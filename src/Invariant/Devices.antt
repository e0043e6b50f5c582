-- ===== src/Invariant/Devices.antt =====
-- The device accesses keep the timer within 64 bits, and read 32-bit numbers.
use riscv_python.Prelude.{
  ℕ, ◌==◌, ◌*◌, ◌/◌, ◌%◌, ◌^◌, ◌<◌, ◌&&◌, none, some, List, [], ◌∷◌, arith, Bool-cases, inl, inr,
}
use riscv_python.State.{Cpu, MmioTimer, Peripheral, mmio_timer, Result}
use riscv_python.State.Leaves.{
  Leaves, Leaves-ok, Leaves-err, Leaves-if, Leaves-unit, Leaves-bind, Any,
}
use riscv_python.Bits.{bit_or-lt}
use riscv_python.Peripherals.{
  in_range, read32, write32, BusCall, DeviceCall, found, skipped, on_device,
}
use riscv_python.Peripherals.Timer
use riscv_python.Invariant.Defs.{IsWfCpu, FitsPeripheral, FitPeripherals}
use riscv_python.Invariant.Bytes.{Fits}

abbrev FitsTimer : MmioTimer × Cpu → Type 0
FitsTimer (t, cpu) = FitsPeripheral (mmio_timer t) × IsWfCpu cpu

timer_read :
    (addr : ℕ) (t : MmioTimer × Cpu)
    → FitsTimer t
    → Leaves FitsTimer (Fits 32) (Timer.read32 addr t)
unfolding Timer.read32
timer_read addr (t, cpu) h = Leaves-if _ _ _ (Leaves-ok (cpu.mtime % 2 ^ 32) _ (omega arith) h) (
    Leaves-if _ _ _ (Leaves-ok (cpu.mtime / 2 ^ 32) _ (omega (arith, h.1.mtime)) h) (
      Leaves-if _ _ _ (Leaves-ok (cpu.mtimecmp % 2 ^ 32) _ (omega arith) h) (
        Leaves-if _ _ _ (Leaves-ok (cpu.mtimecmp / 2 ^ 32) _ (omega (arith, h.1.mtimecmp)) h)
          (Leaves-err _ _ h))))

set_mtimecmp :
    (cpu : Cpu) (v : ℕ) → v < 2 ^ 64 → IsWfCpu cpu → IsWfCpu (record cpu { mtimecmp = v })
set_mtimecmp cpu v hv h = record {
  caches = h.caches;
  registers = h.registers;
  csrs = h.csrs;
  pc = h.pc;
  next_pc = h.next_pc;
  mtime = h.mtime;
  mtimecmp = hv;
}

timer_write_register :
    (addr v : ℕ) (t : MmioTimer × Cpu)
    → v < 2 ^ 32
    → FitsTimer t
    → Leaves FitsTimer Any (Timer.write_register addr v t)
unfolding Timer.write_register
timer_write_register addr v (t, cpu) hv h =
    let low = bit_or-lt 64 (cpu.mtimecmp / 2 ^ 32 % 2 ^ 32 * 2 ^ 32) (v % 2 ^ 32) in
    let high = bit_or-lt 64 (cpu.mtimecmp % 2 ^ 32) (v % 2 ^ 32 * 2 ^ 32) in
    Leaves-if (addr == Timer.reg_mtimecmp_lo) _ _
      (Leaves-unit _ (h.0, set_mtimecmp cpu _ (low (omega arith) (omega arith)) h.1))
      (Leaves-if (addr == Timer.reg_mtimecmp_hi) _ _
        (Leaves-unit _ (h.0, set_mtimecmp cpu _ (high (omega arith) (omega arith)) h.1))
        (Leaves-if (addr == Timer.reg_mtime_lo) _ _ (Leaves-unit _ ((hv, h.0.1), h.1)) (
          Leaves-if (addr == Timer.reg_mtime_hi) _ _ (Leaves-unit _ ((h.0.0, hv), h.1))
            (Leaves-err _ _ h))))

commit_mtime-FitsTimer : (t : MmioTimer × Cpu) → FitsTimer t → FitsTimer (Timer.commit_mtime t)
unfolding Timer.commit_mtime
commit_mtime-FitsTimer (t, cpu) h = elim (Bool-cases (t.mtime_lo_updated && t.mtime_hi_updated)) [
  | inl both ↦ rw both (
    h.0,
    record {
      caches = h.1.caches;
      registers = h.1.registers;
      csrs = h.1.csrs;
      pc = h.1.pc;
      next_pc = h.1.next_pc;
      mtime = bit_or-lt 64 _ _ (omega arith) (omega arith);
      mtimecmp = h.1.mtimecmp;
    },
  )
  | inr not_both ↦ rw not_both h
]

timer_write :
    (addr v : ℕ) (t : MmioTimer × Cpu)
    → v < 2 ^ 32
    → FitsTimer t
    → Leaves FitsTimer Any (Timer.write32 addr v t)
unfolding Timer.write32
timer_write addr v t hv h =
    Leaves-bind Any _ _ (timer_write_register addr v t hv h)
      λ _ t _ h. Leaves-unit _ (commit_mtime-FitsTimer t h)

abbrev FitsDevice : Peripheral × Cpu → Type 0
FitsDevice (p, cpu) = FitsPeripheral p × IsWfCpu cpu

abbrev pub FitsBus : List Peripheral × Cpu → Type 0
FitsBus (ps, cpu) = FitPeripherals ps × IsWfCpu cpu

of_timer-Leaves :
    {A : Type 0} {Q : A → Type 0} (x : Result A × (MmioTimer × Cpu))
    → Leaves FitsTimer Q x
    → Leaves FitsDevice Q (x.0, (mmio_timer x.1.0, x.1.1))
of_timer-Leaves (r, (t, cpu)) h = record { state = h.state; value = h.value }

device_read :
    (addr : ℕ) (p : Peripheral) (cpu : Cpu)
    → FitsDevice (p, cpu)
    → Leaves FitsDevice (Fits 32) (read32 addr p cpu)
unfolding read32
device_read addr (mmio_timer t) cpu h = of_timer-Leaves _ (timer_read addr (t, cpu) h)

device_write :
    (addr v : ℕ) (p : Peripheral) (cpu : Cpu)
    → v < 2 ^ 32
    → FitsDevice (p, cpu)
    → Leaves FitsDevice Any (write32 addr v p cpu)
unfolding write32
device_write addr v (mmio_timer t) cpu hv h = of_timer-Leaves _ (timer_write addr v (t, cpu) hv h)

-- What the loop over the devices leaves, if one of them has answered.
abbrev pub BusLeaves : {A : Type 0} → (A → Type 0) → BusCall A → Type 0
BusLeaves Q none = Unit
BusLeaves Q (some x) = Leaves FitsBus Q x

module _ {A : Type 0} (Q : A → Type 0) (addr : ℕ) (call : Peripheral → Cpu → DeviceCall A) where
  found-BusLeaves :
      (ps : List Peripheral) (x : DeviceCall A)
      → FitPeripherals ps
      → Leaves FitsDevice Q x
      → BusLeaves Q (found ps x)
  found-BusLeaves ps (r, (p, cpu)) hps h = record {
    state = ((h.state.0, hps), h.state.1);
    value = h.value;
  }

  skipped-BusLeaves :
      (p : Peripheral) (b : BusCall A)
      → FitsPeripheral p
      → BusLeaves Q b
      → BusLeaves Q (skipped p b)
  skipped-BusLeaves p none hp h = tt
  skipped-BusLeaves p (some (r, (ps, cpu))) hp h = record {
    state = ((hp, h.state.0), h.state.1);
    value = h.value;
  }

  pub on_device-BusLeaves :
      ((p : Peripheral) (cpu : Cpu) → FitsDevice (p, cpu) → Leaves FitsDevice Q (call p cpu))
      → (ps : List Peripheral) (cpu : Cpu) → FitsBus (ps, cpu)
      → BusLeaves Q (on_device addr call ps cpu)
  unfolding on_device
  on_device-BusLeaves step [] cpu h = tt
  on_device-BusLeaves step (p ∷ ps) cpu h =
      let rest = on_device-BusLeaves step ps cpu (h.0.1, h.1) in
      elim (Bool-cases (in_range p addr)) [
        | inl hit ↦ rw hit (found-BusLeaves ps _ h.0.1 (step p cpu (h.0.0, h.1)))
        | inr miss ↦ rw miss (skipped-BusLeaves p _ h.0.0 rest)
      ]

pub bus_read :
    (addr : ℕ) (ps : List Peripheral) (cpu : Cpu)
    → FitsBus (ps, cpu)
    → BusLeaves (Fits 32) (on_device addr (read32 addr) ps cpu)
bus_read addr = on_device-BusLeaves (Fits 32) addr (read32 addr) (device_read addr)

pub bus_write :
    (addr v : ℕ) (ps : List Peripheral) (cpu : Cpu)
    → v < 2 ^ 32
    → FitsBus (ps, cpu)
    → BusLeaves Any (on_device addr (write32 addr v) ps cpu)
bus_write addr v ps cpu hv =
    on_device-BusLeaves Any addr (write32 addr v) (λ p cpu. device_write addr v p cpu hv) ps cpu
