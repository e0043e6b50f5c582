-- ===== src/Ram/Bytes.antt =====
-- The bytearray `memory` and its word view `memory32`, which the RAM classes share.
use riscv_python.Prelude.{
  ℕ, zero, suc, ◌+◌, ◌-◌, ◌*◌, ◌/◌, ◌%◌, ◌^◌, min, bit_or, Bool, Option, none, some, List, [], ◌∷◌,
  ◌||◌, not, ltb, ◌==◌, if◌then◌else◌,
}
use riscv_python.Prelude.Int.{ℤ, pos, ◌-ℤ◌, ltb_ℤ, ◌+ℤ◌}
use riscv_python.State.{
  Ram, Result, ok, err, Exec, index_error, memory_access_error, update, ◌>>=◌, ◌>>◌, pure,
}

-- `memory[addr]`, which raises `IndexError` past the end.
unfoldable pub read_byte : ℕ → Exec Ram ℕ
read_byte addr r = if ltb addr r.memory_len then (ok (r.memory addr), r) else (err index_error, r)

-- `memory[addr] = value`
unfoldable pub write_byte : ℕ → ℕ → Exec Ram (Unit {0})
unfolding update
write_byte addr value r =
    if ltb addr r.memory_len
    then (ok tt, record r { memory = update r.memory addr value })
    else (err index_error, r)

-- The bytes at `addr` as a little-endian word.
unfoldable pub word_at : (ℕ → ℕ) → ℕ → ℕ
word_at m addr = m addr + m (addr + 1) * 2 ^ 8 + m (addr + 2) * 2 ^ 16 + m (addr + 3) * 2 ^ 24

-- The bytes of a word, written at `addr`.
unfoldable pub put_word : (ℕ → ℕ) → ℕ → ℕ → ℕ → ℕ
unfolding update
put_word m addr value =
    update
      (update (update (update m addr (value % 2 ^ 8)) (addr + 1) (value / 2 ^ 8 % 2 ^ 8)) (addr + 2)
        (value / 2 ^ 16 % 2 ^ 8))
      (addr + 3) (value / 2 ^ 24 % 2 ^ 8)

-- `memory32[i]`: the view has `memory_len / 4` words, little-endian on the hosts that are meant.
unfoldable pub read_word_view : ℕ → Exec Ram ℕ
unfolding word_at
read_word_view i r =
    if ltb i (r.memory_len / 4) then (ok (word_at r.memory (4 * i)), r) else (err index_error, r)

-- `memory32[i] = value`
unfoldable pub write_word_view : ℕ → ℕ → Exec Ram (Unit {0})
unfolding put_word
write_word_view i value r =
    if ltb i (r.memory_len / 4)
    then (ok tt, record r { memory = put_word r.memory (4 * i) value })
    else (err index_error, r)

-- `except IndexError: raise MemoryAccessError(...)`
unfoldable pub or_access_error {ℓ} : {A : Type ℓ} → Result A × Ram → Result A × Ram
or_access_error (ok a, r) = (ok a, r)
or_access_error (err index_error, r) = (err memory_access_error, r)
or_access_error (err e, r) = (err e, r)

-- `return val if not signed or val < bound else val - 2 * bound`
unfoldable pub sign_extend : Bool → ℕ → ℕ → ℤ
sign_extend signed bound val =
    if not signed || ltb val bound then pos val else pos val -ℤ pos (2 * bound)

-- `memory[addr] | (memory[addr+1] << 8)`
unfoldable pub read_half : ℕ → Exec Ram ℕ
unfolding read_byte
read_half addr = do b0 ← read_byte addr; b1 ← read_byte (addr + 1); pure (bit_or b0 (b1 * 2 ^ 8))

-- The two stores of a half word, low byte first.
unfoldable pub write_half : ℕ → ℕ → Exec Ram (Unit {0})
unfolding write_byte
write_half addr value = do
  write_byte addr (value % 2 ^ 8)
  write_byte (addr + 1) (value / 2 ^ 8 % 2 ^ 8)

-- The four bytes of an unaligned word.
unfoldable pub read_word_bytes : ℕ → Exec Ram ℕ
unfolding read_byte
read_word_bytes addr = do
  b0 ← read_byte addr
  b1 ← read_byte (addr + 1)
  b2 ← read_byte (addr + 2)
  b3 ← read_byte (addr + 3)
  pure (bit_or (bit_or (bit_or b0 (b1 * 2 ^ 8)) (b2 * 2 ^ 16)) (b3 * 2 ^ 24))

unfoldable pub write_word_bytes : ℕ → ℕ → Exec Ram (Unit {0})
unfolding write_byte
write_word_bytes addr value = do
  write_byte addr (value % 2 ^ 8)
  write_byte (addr + 1) (value / 2 ^ 8 % 2 ^ 8)
  write_byte (addr + 2) (value / 2 ^ 16 % 2 ^ 8)
  write_byte (addr + 3) (value / 2 ^ 24 % 2 ^ 8)

-- `load_word` after any check: the view if the address is aligned, else four bytes.
unfoldable pub read_word : ℕ → Exec Ram ℕ
unfolding read_word_bytes read_word_view
read_word addr r =
    if addr % 2 ^ 2 == 0 then read_word_view (addr / 2 ^ 2) r else read_word_bytes addr r

-- `store_word` after any check and the mask.
unfoldable pub write_word : ℕ → ℕ → Exec Ram (Unit {0})
unfolding write_word_bytes write_word_view
write_word addr value r =
    if addr % 2 ^ 2 == 0
    then write_word_view (addr / 2 ^ 2) value r
    else write_word_bytes addr value r

-- `n` bytes from `addr` on.
unfoldable pub bytes_from : (ℕ → ℕ) → ℕ → ℕ → List ℕ
bytes_from m addr zero = []
bytes_from m addr (suc n) = m addr ∷ bytes_from m (addr + 1) n

-- `memory[addr:end]`, which Python cuts at the end of the bytearray.
unfoldable pub slice : Ram → ℕ → ℕ → List ℕ
unfolding bytes_from
slice r addr end = bytes_from r.memory addr (min end r.memory_len - addr)

unfoldable pub put_bytes : (ℕ → ℕ) → ℕ → List ℕ → ℕ → ℕ
unfolding update
put_bytes m addr [] = m
put_bytes m addr (b ∷ bs) = put_bytes (update m addr b) (addr + 1) bs

abbrev pub length {ℓ} : {A : Type ℓ} → List A → ℕ
length [] = 0
length (x ∷ xs) = suc (length xs)

-- The bytes before the first NUL, or `none` if there is none.
unfoldable pub before_nul : List ℕ → Option (List ℕ)
before_nul [] = none
before_nul (b ∷ bs) =
    let rest : Option (List ℕ) = elim (before_nul bs) [ none ↦ none | some l ↦ some (b ∷ l) ] in
    if b == 0 then some [] else rest

unfoldable pub text_or_error : Option (List ℕ) → Exec Ram (List ℕ)
text_or_error none r = (err memory_access_error, r)
text_or_error (some text) r = (ok text, r)

-- The slice, search and test of `load_cstring`; the decoding of the bytes is left out.
unfoldable pub read_cstring : ℕ → ℕ → Exec Ram (List ℕ)
unfolding slice before_nul text_or_error
read_cstring addr max_len r =
    text_or_error (before_nul (slice r addr (min (addr + max_len) r.size))) r

-- `check`: `addr < 0 or addr + n > self.size`
unfoldable pub check : ℤ → ℕ → Exec Ram (Unit {0})
check addr n r =
    if ltb_ℤ addr (pos 0) || ltb_ℤ (pos r.size) (addr +ℤ pos n)
    then (err memory_access_error, r)
    else (ok tt, r)
