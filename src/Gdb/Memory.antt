-- ===== src/Gdb/Memory.antt =====
-- The memory commands of class `GDBStub` in gdbstub.py: m and M.
pub mod Bytes
pub mod ReadBack
use riscv_python.Prelude.{
  ℕ, zero, suc, ◌+◌, ◌-◌, ◌*◌, ◌%◌, ◌^◌, Bool, Option, none, some, [], ◌∷◌, ◌++◌, ltb,
  if◌then◌else◌,
}
use riscv_python.Prelude.Int.{ℤ, pos, negsuc, pos_part, ◌+ℤ◌, low_bits}
use riscv_python.State.{
  Exec, Result, ok, err, System, RamClass, plain, mmio, safe, safe_offset, safe_mmio,
  memory_access_error, value_error, update, raise, pure, ◌>>=◌, ◌>>◌,
}
use riscv_python.Ram.Access.{load_byte, store_byte}
use riscv_python.Ram.Bytes.{length}
use riscv_python.Text.{Text, codes, take, drop, hex_02, hex_digits, int_16, split_in_two}
use riscv_python.Gdb.Session.{Session, Command, or_e01, reply}

-- Whether the class looks at the address before the bytearray does.
unfoldable pub is_checked : RamClass → Bool
is_checked plain = ltb 1 0
is_checked mmio = ltb 1 0
is_checked safe = ltb 0 1
is_checked safe_offset = ltb 0 1
is_checked safe_mmio = ltb 0 1

-- An access at -(k + 1): the classes with checks refuse it, the bytearrays of the others count it
-- from their end.
unfoldable pub from_end : {A : Type 0} → ℕ → (ℕ → Exec System A) → Exec System A
unfolding is_checked
from_end k access s =
    if is_checked s.ram.ram_class
    then (err memory_access_error, s)
    else if ltb k s.ram.memory_len
    then access (s.ram.memory_len - 1 - k) s
    else (err memory_access_error, s)

-- `self.ram.load_byte(addr, signed=False)`
unfoldable pub load_byte_at : ℤ → Exec System ℤ
unfolding from_end load_byte
load_byte_at (pos addr) = load_byte addr (ltb 1 0)
load_byte_at (negsuc k) = from_end k (λ addr. load_byte addr (ltb 1 0))

-- `self.ram.store_byte(addr, byte)`, which keeps eight bits.
unfoldable pub store_byte_at : ℤ → ℤ → Exec System (Unit {0})
unfolding from_end store_byte
store_byte_at (pos addr) byte = store_byte addr (low_bits byte 8)
store_byte_at (negsuc k) byte = from_end k (λ addr. store_byte addr (low_bits byte 8))

-- `f"{byte:02x}"`
unfoldable pub byte_text : ℤ → Text
unfolding hex_02 hex_digits
byte_text (pos n) = hex_02 n
byte_text (negsuc n) = b'-' ∷ hex_digits (suc n) (suc n) []

-- `n` bytes from `addr` on.
unfoldable pub read_bytes : ℕ → ℤ → Exec System Text
unfolding load_byte_at byte_text
read_bytes zero addr = pure []
read_bytes (suc n) addr = do
  byte ← load_byte_at addr
  rest ← read_bytes n (addr +ℤ pos 1)
  pure (byte_text byte ++ rest)

-- `int(s, 16)` where the exception is caught outside.
abbrev pub number : Text → Exec System ℤ
number s = elim (int_16 s) [ none ↦ raise value_error | some z ↦ pure z ]

unfoldable pub write_bytes : ℕ → ℤ → Text → Exec System (Unit {0})
unfolding store_byte_at
write_bytes zero addr s = pure tt
write_bytes (suc n) addr s = do
  byte ← number (take 2 s)
  store_byte_at addr byte
  write_bytes n (addr +ℤ pos 1) (drop 2 s)

-- `except Exception: return 'E01'`: what was written before stays.
abbrev pub caught : Result Text × System → Session → Result Text × Session
caught (ok text, sys) s = (ok text, record s { system = sys })
caught (err e, sys) s = (ok (codes "E01"), record s { system = sys })

abbrev pub or_any_e01 : Exec System Text → Command
or_any_e01 m s = caught (m s.system) s

-- A negative length makes no round.
unfoldable pub cmd_read_memory : Text → Command
unfolding read_bytes split_in_two
cmd_read_memory params = or_e01 (split_in_two b',' params) λ parts.
    or_e01 (int_16 parts.0)
      λ addr. or_e01 (int_16 parts.1) λ len. or_any_e01 (read_bytes (pos_part len) addr)

-- The test of the length and the loop.
unfoldable pub write_data : ℕ → ℤ → Text → Command
unfolding write_bytes
write_data n addr hex_data s =
    if ltb (length hex_data) (n * 2)
    then reply (codes "E01") s
    else or_any_e01 (do write_bytes n addr hex_data; pure (codes "OK")) s

unfoldable pub cmd_write_memory : Text → Command
unfolding write_data split_in_two
cmd_write_memory params = or_e01 (split_in_two b':' params) λ halves.
    or_e01 (split_in_two b',' halves.0) λ parts.
      or_e01 (int_16 parts.0)
        λ addr. or_e01 (int_16 parts.1) λ len. write_data (pos_part len) addr halves.1
