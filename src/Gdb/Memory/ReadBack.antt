-- ===== src/Gdb/Memory/ReadBack.antt =====
-- What M has written, read by m.
use riscv_python.Prelude.{
  ℕ, ◌+◌, ◌*◌, ◌^◌, ◌≤◌, ◌<◌, ◌≡◌, ap, ◌∙◌, some, List, arith, refl, [], ◌∷◌, ◌++◌, suc, ltb, false,
}
use riscv_python.Prelude.Int.{pos}
use riscv_python.State.{ok}
use riscv_python.Ram.Bytes.{length, put_bytes}
use riscv_python.Text.{Text, codes, All, int_16, hex_02-eq-digits, split_in_two}
use riscv_python.Gdb.Session.{Session}
use riscv_python.Gdb.Memory.{cmd_read_memory, cmd_write_memory, write_data}
use riscv_python.Ram.Bytes.{bytes_from}
use riscv_python.Ram.Binary.{IsSafe, set_memory, bytes_from-put_bytes}
use riscv_python.Gdb.Memory.Bytes.{hex_text, write_bytes-safe, read_bytes-safe}

-- The session with bytes in memory from an address on.
unfoldable pub with_bytes : ℕ → List ℕ → Session → Session
unfolding put_bytes
with_bytes a bs s = record s { system = set_memory (put_bytes s.system.ram.memory a bs) s.system }

read_where :
    (at_text a_text n_text : Text) (a n : ℕ) (s : Session)
    → split_in_two b',' at_text ≡ some (a_text, n_text)
    → int_16 a_text ≡ some (pos a)
    → int_16 n_text ≡ some (pos n)
    → IsSafe s.system
    → a + n ≤ s.system.ram.size
    → cmd_read_memory at_text s ≡ (ok (hex_text (bytes_from s.system.ram.memory a n)), s)
unfolding cmd_read_memory
read_where at_text a_text n_text a n s h1 h2 h3 hs ha =
    rw (h1, h2, h3, read_bytes-safe n a s.system hs ha) refl

length-hex_text : (bs : List ℕ) → All (λ b. b < 2 ^ 8) bs → length (hex_text bs) ≡ length bs * 2
unfolding hex_text
length-hex_text [] hb = refl
length-hex_text (b ∷ bs) (h, hb) =
    ap (λ d. length (d ++ hex_text bs)) (hex_02-eq-digits b h)
    ∙ ap (λ n. suc (suc n)) (length-hex_text bs hb)
    ∙ omega arith

write_data-hex_text :
    (bs : List ℕ) (a : ℕ) (s : Session)
    → All (λ b. b < 2 ^ 8) bs
    → IsSafe s.system
    → a + length bs ≤ s.system.ram.size
    → write_data (length bs) (pos a) (hex_text bs) s ≡ (ok (codes "OK"), with_bytes a bs s)
unfolding write_data with_bytes
write_data-hex_text bs a s hb hs ha =
    let no : ltb (length (hex_text bs)) (length bs * 2) ≡ false =
      rw (length-hex_text bs hb) (ground arith) in
    rw (no, write_bytes-safe bs a s.system hb hs ha) refl

write_where :
    (params at_text a_text n_text : Text) (bs : List ℕ) (a : ℕ) (s : Session)
    → split_in_two b':' params ≡ some (at_text, hex_text bs)
    → split_in_two b',' at_text ≡ some (a_text, n_text)
    → int_16 a_text ≡ some (pos a)
    → int_16 n_text ≡ some (pos (length bs))
    → All (λ b. b < 2 ^ 8) bs
    → IsSafe s.system
    → a + length bs ≤ s.system.ram.size
    → cmd_write_memory params s ≡ (ok (codes "OK"), with_bytes a bs s)
unfolding cmd_write_memory with_bytes
write_where params at_text a_text n_text bs a s h0 h1 h2 h3 hb hs ha =
    rw (h0, h1, h2, h3) (write_data-hex_text bs a s hb hs ha)

-- On a memory of class `SafeRAM`: when the data of an M command are the hexadecimal digits of a
-- list of bytes and its length is that of the list, all within the memory, then M answers OK and
-- puts these bytes there, nothing else changes, and an m command with the same address and length
-- answers with the same digits and leaves the session as it is.
pub cmd_read_memory-cmd_write_memory :
    (params at_text a_text n_text : Text) (bs : List ℕ) (a : ℕ) (s : Session)
    → split_in_two b':' params ≡ some (at_text, hex_text bs)
    → split_in_two b',' at_text ≡ some (a_text, n_text)
    → int_16 a_text ≡ some (pos a)
    → int_16 n_text ≡ some (pos (length bs))
    → All (λ b. b < 2 ^ 8) bs
    → IsSafe s.system
    → a + length bs ≤ s.system.ram.size
    → (cmd_write_memory params s ≡ (ok (codes "OK"), with_bytes a bs s))
      × (cmd_read_memory at_text (with_bytes a bs s) ≡ (ok (hex_text bs), with_bytes a bs s))
unfolding with_bytes
cmd_read_memory-cmd_write_memory params at_text a_text n_text bs a s h0 h1 h2 h3 hb hs ha =
    let back = bytes_from-put_bytes bs s.system.ram.memory a in
    (
      write_where params at_text a_text n_text bs a s h0 h1 h2 h3 hb hs ha,
      read_where at_text a_text n_text a (length bs) (with_bytes a bs s) h1 h2 h3 hs ha
          ∙ ap (λ l. (ok (hex_text l), with_bytes a bs s)) back,
    )
