-- ===== src/Ram/Safe.antt =====
-- Class `SafeRAM` of ram.py: every access is checked against `size`.
use riscv_python.Prelude.{ℕ, ◌+◌, ◌%◌, ◌^◌, Bool, List, leb, if◌then◌else◌}
use riscv_python.Prelude.Int.{ℤ, pos}
use riscv_python.State.{Ram, ok, err, Exec, memory_access_error, ◌>>=◌, ◌>>◌, pure}
use riscv_python.Ram.Bytes.{
  read_byte, write_byte, read_half, write_half, read_word, write_word, sign_extend, slice,
  put_bytes, length, read_cstring, check,
}

unfoldable pub load_byte : ℕ → Bool → Exec Ram ℤ
unfolding check read_byte
load_byte addr signed = do
  check (pos addr) 1
  val ← read_byte addr
  pure (sign_extend signed 0x80 val)

unfoldable pub load_half : ℕ → Bool → Exec Ram ℤ
unfolding check read_half
load_half addr signed = do
  check (pos addr) 2
  val ← read_half addr
  pure (sign_extend signed 0x8000 val)

unfoldable pub load_word : ℕ → Exec Ram ℕ
unfolding check read_word
load_word addr = do check (pos addr) 4; read_word addr

unfoldable pub store_byte : ℕ → ℕ → Exec Ram (Unit {0})
unfolding check write_byte
store_byte addr value = do check (pos addr) 1; write_byte addr (value % 2 ^ 8)

unfoldable pub store_half : ℕ → ℕ → Exec Ram (Unit {0})
unfolding check write_half
store_half addr value = do check (pos addr) 2; write_half addr (value % 2 ^ 16)

unfoldable pub store_word : ℕ → ℕ → Exec Ram (Unit {0})
unfolding check write_word
store_word addr value = do check (pos addr) 4; write_word addr (value % 2 ^ 32)

unfoldable pub load_binary : ℕ → ℕ → Exec Ram (List ℕ)
unfolding check slice
load_binary addr n = do check (pos addr) n; λ r. (ok (slice r addr (addr + n)), r)

-- The check keeps the slice within `size`, so that its length is that of `binary`.
unfoldable pub store_binary : ℕ → List ℕ → Exec Ram (Unit {0})
unfolding check put_bytes
store_binary addr binary = do
  check (pos addr) (length binary)
  λ r. (ok tt, record r { memory = put_bytes r.memory addr binary })

unfoldable pub load_cstring : ℕ → ℕ → Exec Ram (List ℕ)
unfolding read_cstring
load_cstring addr max_len r =
    if leb r.size addr then (err memory_access_error, r) else read_cstring addr max_len r
