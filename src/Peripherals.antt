-- ===== src/Peripherals.antt =====
-- peripherals.py: the memory-mapped devices, and the loop of the RAM classes of ram.py that looks
-- for the device to which an address belongs.
pub mod Timer
pub mod Block
pub mod Uart
use riscv_python.Prelude.{ℕ, Bool, ◌&&◌, Option, none, some, List, [], ◌∷◌, leb, ltb, if◌then◌else◌}
use riscv_python.State.{Cpu, MmioTimer, Peripheral, mmio_timer, Result}

-- What a call of a device leaves: its result, the device and the CPU that the device refers to.
abbrev pub DeviceCall : Type 0 → Type 0
DeviceCall A = Result A × (Peripheral × Cpu)

-- `mmio_addr_base <= addr < mmio_addr_end`
unfoldable pub in_range : Peripheral → ℕ → Bool
in_range (mmio_timer t) addr = leb Timer.reg_base addr && ltb addr Timer.reg_end

abbrev of_timer : {A : Type 0} → Result A × (MmioTimer × Cpu) → DeviceCall A
of_timer (r, (t, cpu)) = (r, (mmio_timer t, cpu))

unfoldable pub read32 : ℕ → Peripheral → Cpu → DeviceCall ℕ
unfolding Timer.read32
read32 addr (mmio_timer t) cpu = of_timer (Timer.read32 addr (t, cpu))

unfoldable pub write32 : ℕ → ℕ → Peripheral → Cpu → DeviceCall (Unit {0})
unfolding Timer.write32
write32 addr value (mmio_timer t) cpu = of_timer (Timer.write32 addr value (t, cpu))

-- What the loop over `mmio_ranges` leaves, or `none` where no device has the address.
abbrev pub BusCall : Type 0 → Type 0
BusCall A = Option (Result A × (List Peripheral × Cpu))

abbrev pub found : {A : Type 0} → List Peripheral → DeviceCall A → BusCall A
found ps (r, (p, cpu)) = some (r, (p ∷ ps, cpu))

abbrev pub skipped : {A : Type 0} → Peripheral → BusCall A → BusCall A
skipped p none = none
skipped p (some (r, (ps, cpu))) = some (r, (p ∷ ps, cpu))

-- The first device in whose range the address lies handles the access.
unfoldable pub on_device :
    {A : Type 0} → ℕ → (Peripheral → Cpu → DeviceCall A) → List Peripheral → Cpu → BusCall A
unfolding in_range
on_device addr call [] cpu = none
on_device addr call (p ∷ ps) cpu =
    if in_range p addr then found ps (call p cpu) else skipped p (on_device addr call ps cpu)
