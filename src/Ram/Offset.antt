-- ===== src/Ram/Offset.antt =====
-- Class `SafeRAMOffset` of ram.py: checked accesses relative to a base address. The address less
-- `base_addr` may be negative, and is not after the check.
use riscv_python.Prelude.{ℕ, ◌+◌, ◌%◌, ◌^◌, Bool, List, ◌||◌, leb, if◌then◌else◌}
use riscv_python.Prelude.Int.{ℤ, pos, pos_part, ◌-ℤ◌, ltb_ℤ}
use riscv_python.State.{Ram, ok, err, Exec, memory_access_error, ◌>>=◌, ◌>>◌, pure}
use riscv_python.Ram.Bytes.{
  read_byte, write_byte, read_half, write_half, read_word, write_word, sign_extend, slice,
  put_bytes, length, read_cstring, check,
}

-- `addr -= self.base_addr` and the check of `n` bytes there.
unfoldable pub rebase : ℕ → ℕ → Exec Ram ℕ
unfolding check
rebase addr n r =
    (do check (pos addr -ℤ pos r.base_addr) n; pure (pos_part (pos addr -ℤ pos r.base_addr))) r

unfoldable pub load_byte : ℕ → Bool → Exec Ram ℤ
unfolding rebase read_byte
load_byte addr signed = do
  addr ← rebase addr 1
  val ← read_byte addr
  pure (sign_extend signed 0x80 val)

unfoldable pub load_half : ℕ → Bool → Exec Ram ℤ
unfolding rebase read_half
load_half addr signed = do
  addr ← rebase addr 2
  val ← read_half addr
  pure (sign_extend signed 0x8000 val)

unfoldable pub load_word : ℕ → Exec Ram ℕ
unfolding rebase read_word
load_word addr = do addr ← rebase addr 4; read_word addr

unfoldable pub store_byte : ℕ → ℕ → Exec Ram (Unit {0})
unfolding rebase write_byte
store_byte addr value = do addr ← rebase addr 1; write_byte addr (value % 2 ^ 8)

unfoldable pub store_half : ℕ → ℕ → Exec Ram (Unit {0})
unfolding rebase write_half
store_half addr value = do addr ← rebase addr 2; write_half addr (value % 2 ^ 16)

unfoldable pub store_word : ℕ → ℕ → Exec Ram (Unit {0})
unfolding rebase write_word
store_word addr value = do addr ← rebase addr 4; write_word addr (value % 2 ^ 32)

unfoldable pub load_binary : ℕ → ℕ → Exec Ram (List ℕ)
unfolding rebase slice
load_binary addr n = do addr ← rebase addr n; λ r. (ok (slice r addr (addr + n)), r)

unfoldable pub store_binary : ℕ → List ℕ → Exec Ram (Unit {0})
unfolding rebase put_bytes
store_binary addr binary = do
  addr ← rebase addr (length binary)
  λ r. (ok tt, record r { memory = put_bytes r.memory addr binary })

unfoldable pub load_cstring : ℕ → ℕ → Exec Ram (List ℕ)
unfolding read_cstring
load_cstring addr max_len r =
    let a = pos addr -ℤ pos r.base_addr in
    if ltb_ℤ a (pos 0) || leb r.size (pos_part a)
    then (err memory_access_error, r)
    else read_cstring (pos_part a) max_len r
