-- ===== src/Ram/SafeMmio.antt =====
-- Class `SafeRAM_MMIO` of ram.py: class `SafeRAM` with word accesses to memory-mapped devices. A device
-- may change the CPU, so these methods act on the whole system.
use riscv_python.Prelude.{ℕ, ◌%◌, ◌^◌, ◌++◌, List, [], ◌∷◌, Bool}
use riscv_python.Prelude.Int.{ℤ}
use riscv_python.State.{System, Ram, Peripheral, Exec}
use riscv_python.Peripherals.{on_device, read32, write32}
use riscv_python.Ram.Mmio.{on_ram, or_memory}
use riscv_python.Ram.Safe

unfoldable pub register_peripheral : Peripheral → Ram → Ram
register_peripheral p r = record r { mmio_ranges = r.mmio_ranges ++ p ∷ [] }

unfoldable pub load_byte : ℕ → Bool → Exec System ℤ
unfolding on_ram Safe.load_byte
load_byte addr signed = on_ram (Safe.load_byte addr signed)

unfoldable pub load_half : ℕ → Bool → Exec System ℤ
unfolding on_ram Safe.load_half
load_half addr signed = on_ram (Safe.load_half addr signed)

unfoldable pub load_word : ℕ → Exec System ℕ
unfolding on_device read32 or_memory on_ram Safe.load_word
load_word addr s =
    or_memory (on_device addr (read32 addr) s.ram.mmio_ranges s.cpu) (on_ram (Safe.load_word addr))
      s

unfoldable pub store_byte : ℕ → ℕ → Exec System (Unit {0})
unfolding on_ram Safe.store_byte
store_byte addr value = on_ram (Safe.store_byte addr value)

unfoldable pub store_half : ℕ → ℕ → Exec System (Unit {0})
unfolding on_ram Safe.store_half
store_half addr value = on_ram (Safe.store_half addr value)

unfoldable pub store_word : ℕ → ℕ → Exec System (Unit {0})
unfolding on_device write32 or_memory on_ram Safe.store_word
store_word addr value s =
    or_memory (on_device addr (write32 addr (value % 2 ^ 32)) s.ram.mmio_ranges s.cpu)
      (on_ram (Safe.store_word addr (value % 2 ^ 32))) s

unfoldable pub load_binary : ℕ → ℕ → Exec System (List ℕ)
unfolding on_ram Safe.load_binary
load_binary addr n = on_ram (Safe.load_binary addr n)

unfoldable pub store_binary : ℕ → List ℕ → Exec System (Unit {0})
unfolding on_ram Safe.store_binary
store_binary addr binary = on_ram (Safe.store_binary addr binary)

unfoldable pub load_cstring : ℕ → ℕ → Exec System (List ℕ)
unfolding on_ram Safe.load_cstring
load_cstring addr max_len = on_ram (Safe.load_cstring addr max_len)
