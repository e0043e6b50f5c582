-- ===== src/Ram/Mmio.antt =====
-- Class `RAM_MMIO` of ram.py: class `RAM` with word accesses to memory-mapped devices. A device
-- may change the CPU, so these methods act on the whole system.
use riscv_python.Prelude.{ℕ, ◌%◌, ◌^◌, none, some, ◌++◌, List, [], ◌∷◌, Bool}
use riscv_python.Prelude.Int.{ℤ}
use riscv_python.State.{System, Ram, Peripheral, Exec}
use riscv_python.Peripherals.{BusCall, on_device, read32, write32}
use riscv_python.Ram.Plain

-- A method that touches the memory only.
unfoldable pub on_ram : {A : Type 0} → Exec Ram A → Exec System A
on_ram m s = let (res, r) = m s.ram in (res, record s { ram = r })

-- The rest of the method, unless a device has answered.
unfoldable pub or_memory : {A : Type 0} → BusCall A → Exec System A → Exec System A
or_memory none rest s = rest s
or_memory (some (res, (ps, cpu))) rest s =
    (res, record s { cpu = cpu; ram = record s.ram { mmio_ranges = ps } })

unfoldable pub register_peripheral : Peripheral → Ram → Ram
register_peripheral p r = record r { mmio_ranges = r.mmio_ranges ++ p ∷ [] }

unfoldable pub load_byte : ℕ → Bool → Exec System ℤ
unfolding on_ram Plain.load_byte
load_byte addr signed = on_ram (Plain.load_byte addr signed)

unfoldable pub load_half : ℕ → Bool → Exec System ℤ
unfolding on_ram Plain.load_half
load_half addr signed = on_ram (Plain.load_half addr signed)

unfoldable pub load_word : ℕ → Exec System ℕ
unfolding on_device read32 or_memory on_ram Plain.load_word
load_word addr s =
    or_memory (on_device addr (read32 addr) s.ram.mmio_ranges s.cpu) (on_ram (Plain.load_word addr))
      s

unfoldable pub store_byte : ℕ → ℕ → Exec System (Unit {0})
unfolding on_ram Plain.store_byte
store_byte addr value = on_ram (Plain.store_byte addr value)

unfoldable pub store_half : ℕ → ℕ → Exec System (Unit {0})
unfolding on_ram Plain.store_half
store_half addr value = on_ram (Plain.store_half addr value)

unfoldable pub store_word : ℕ → ℕ → Exec System (Unit {0})
unfolding on_device write32 or_memory on_ram Plain.store_word
store_word addr value s =
    or_memory (on_device addr (write32 addr (value % 2 ^ 32)) s.ram.mmio_ranges s.cpu)
      (on_ram (Plain.store_word addr (value % 2 ^ 32))) s

unfoldable pub load_binary : ℕ → ℕ → Exec System (List ℕ)
unfolding on_ram Plain.load_binary
load_binary addr n = on_ram (Plain.load_binary addr n)

unfoldable pub store_binary : ℕ → List ℕ → Exec System (Unit {0})
unfolding on_ram Plain.store_binary
store_binary addr binary = on_ram (Plain.store_binary addr binary)

unfoldable pub load_cstring : ℕ → ℕ → Exec System (List ℕ)
unfolding on_ram Plain.load_cstring
load_cstring addr max_len = on_ram (Plain.load_cstring addr max_len)
