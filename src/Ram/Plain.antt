-- ===== src/Ram/Plain.antt =====
-- Class `RAM` of ram.py: no address checks beyond the end of the bytearray, no devices.
use riscv_python.Prelude.{ℕ, ◌+◌, ◌-◌, ◌%◌, ◌^◌, min, Bool, List, ◌==◌, if◌then◌else◌}
use riscv_python.Prelude.Int.{ℤ}
use riscv_python.State.{Ram, ok, err, Exec, memory_access_error, ◌>>=◌, pure}
use riscv_python.Ram.Bytes.{
  read_byte, write_byte, read_half, write_half, read_word, write_word, or_access_error, sign_extend,
  slice, put_bytes, length, read_cstring,
}

unfoldable pub load_byte : ℕ → Bool → Exec Ram ℤ
unfolding read_byte or_access_error
load_byte addr signed r =
    or_access_error ((do val ← read_byte addr; pure (sign_extend signed 0x80 val)) r)

unfoldable pub load_half : ℕ → Bool → Exec Ram ℤ
unfolding read_half or_access_error
load_half addr signed r =
    or_access_error ((do val ← read_half addr; pure (sign_extend signed 0x8000 val)) r)

unfoldable pub load_word : ℕ → Exec Ram ℕ
unfolding read_word or_access_error
load_word addr r = or_access_error (read_word addr r)

unfoldable pub store_byte : ℕ → ℕ → Exec Ram (Unit {0})
unfolding write_byte or_access_error
store_byte addr value r = or_access_error (write_byte addr (value % 2 ^ 8) r)

unfoldable pub store_half : ℕ → ℕ → Exec Ram (Unit {0})
unfolding write_half or_access_error
store_half addr value r = or_access_error (write_half addr (value % 2 ^ 16) r)

unfoldable pub store_word : ℕ → ℕ → Exec Ram (Unit {0})
unfolding write_word or_access_error
store_word addr value r = or_access_error (write_word addr (value % 2 ^ 32) r)

unfoldable pub load_binary : ℕ → ℕ → Exec Ram (List ℕ)
unfolding slice
load_binary addr n r = (ok (slice r addr (addr + n)), r)

-- A slice assignment that would change the length of the bytearray raises `BufferError`, since the
-- word view exports its memory.
unfoldable pub store_binary : ℕ → List ℕ → Exec Ram (Unit {0})
unfolding put_bytes
store_binary addr binary r =
    if min (addr + length binary) r.memory_len - min addr r.memory_len == length binary
    then (ok tt, record r { memory = put_bytes r.memory addr binary })
    else (err memory_access_error, r)

unfoldable pub load_cstring : ℕ → ℕ → Exec Ram (List ℕ)
unfolding read_cstring
load_cstring addr max_len = read_cstring addr max_len
