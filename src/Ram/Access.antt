-- ===== src/Ram/Access.antt =====
-- A call `ram.method(...)` on whichever of the five classes of ram.py the memory is.
use riscv_python.Prelude.{ℕ, Bool, List}
use riscv_python.Prelude.Int.{ℤ}
use riscv_python.State.{System, RamClass, plain, safe, safe_offset, mmio, safe_mmio, Ram, Exec}
use riscv_python.Ram.Plain
use riscv_python.Ram.Safe
use riscv_python.Ram.Offset
use riscv_python.Ram.Mmio
use riscv_python.Ram.Mmio.{on_ram}
use riscv_python.Ram.SafeMmio

-- The method of the memory's class.
abbrev pub dispatch :
    {A : Type 0}
    → Exec Ram A
    → Exec Ram A
    → Exec Ram A
    → Exec System A
    → Exec System A
    → RamClass
    → Exec System A
dispatch p s o m sm plain = on_ram p
dispatch p s o m sm safe = on_ram s
dispatch p s o m sm safe_offset = on_ram o
dispatch p s o m sm mmio = m
dispatch p s o m sm safe_mmio = sm

unfoldable pub load_byte : ℕ → Bool → Exec System ℤ
unfolding on_ram
load_byte addr signed st =
    dispatch (Plain.load_byte addr signed) (Safe.load_byte addr signed)
      (Offset.load_byte addr signed) (Mmio.load_byte addr signed) (SafeMmio.load_byte addr signed)
      st.ram.ram_class st

unfoldable pub load_half : ℕ → Bool → Exec System ℤ
unfolding on_ram
load_half addr signed st =
    dispatch (Plain.load_half addr signed) (Safe.load_half addr signed)
      (Offset.load_half addr signed) (Mmio.load_half addr signed) (SafeMmio.load_half addr signed)
      st.ram.ram_class st

unfoldable pub load_word : ℕ → Exec System ℕ
unfolding on_ram
load_word addr st =
    dispatch (Plain.load_word addr) (Safe.load_word addr) (Offset.load_word addr)
      (Mmio.load_word addr) (SafeMmio.load_word addr) st.ram.ram_class st

unfoldable pub store_byte : ℕ → ℕ → Exec System (Unit {0})
unfolding on_ram
store_byte addr v st =
    dispatch (Plain.store_byte addr v) (Safe.store_byte addr v) (Offset.store_byte addr v)
      (Mmio.store_byte addr v) (SafeMmio.store_byte addr v) st.ram.ram_class st

unfoldable pub store_half : ℕ → ℕ → Exec System (Unit {0})
unfolding on_ram
store_half addr v st =
    dispatch (Plain.store_half addr v) (Safe.store_half addr v) (Offset.store_half addr v)
      (Mmio.store_half addr v) (SafeMmio.store_half addr v) st.ram.ram_class st

unfoldable pub store_word : ℕ → ℕ → Exec System (Unit {0})
unfolding on_ram
store_word addr v st =
    dispatch (Plain.store_word addr v) (Safe.store_word addr v) (Offset.store_word addr v)
      (Mmio.store_word addr v) (SafeMmio.store_word addr v) st.ram.ram_class st

unfoldable pub load_cstring : ℕ → ℕ → Exec System (List ℕ)
unfolding on_ram
load_cstring addr max_len st =
    dispatch (Plain.load_cstring addr max_len) (Safe.load_cstring addr max_len)
      (Offset.load_cstring addr max_len) (Mmio.load_cstring addr max_len)
      (SafeMmio.load_cstring addr max_len) st.ram.ram_class st

unfoldable pub load_binary : ℕ → ℕ → Exec System (List ℕ)
unfolding on_ram
load_binary addr n st =
    dispatch (Plain.load_binary addr n) (Safe.load_binary addr n) (Offset.load_binary addr n)
      (Mmio.load_binary addr n) (SafeMmio.load_binary addr n) st.ram.ram_class st

unfoldable pub store_binary : ℕ → List ℕ → Exec System (Unit {0})
unfolding on_ram
store_binary addr binary st =
    dispatch (Plain.store_binary addr binary) (Safe.store_binary addr binary)
      (Offset.store_binary addr binary) (Mmio.store_binary addr binary)
      (SafeMmio.store_binary addr binary) st.ram.ram_class st
