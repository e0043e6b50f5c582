-- ===== src/Ram/RoundTrip.antt =====
-- Stores and loads of `SafeRAM` (ram.py) after each other, and its bounds.
use riscv_python.Prelude.{
  ℕ, ◌+◌, ◌*◌, ◌/◌, ◌%◌, ◌^◌, ◌≤◌, ◌<◌, ◌≡◌, ◌⊎◌, inl, inr, arith, bit_or, refl, Bool,
}
use riscv_python.Prelude.Int.{pos}
use riscv_python.State.{Ram, ok, err, memory_access_error, update}
use riscv_python.Bits.{bit_or_fields_low}
use riscv_python.Ram.Bytes.{
  check, write_byte, read_byte, read_word, write_word, read_word_view, write_word_view,
  read_word_bytes, write_word_bytes, word_at, put_word, sign_extend, read_half, write_half,
}
use riscv_python.Ram.Safe.{load_word, store_word, store_byte, load_byte, store_half, load_half}
use riscv_python.Invariant.Defs.{AllBelow, IsWfRam}
use riscv_python.Invariant.Bytes.{put_word-AllBelow}

-- Inside of `size` the check passes.
pub check-inside : (addr n : ℕ) (r : Ram) → addr + n ≤ r.size → check (pos addr) n r ≡ (ok tt, r)
unfolding check
check-inside addr n r h = ground arith

check-outside :
    (addr n : ℕ) (r : Ram) → r.size < addr + n → check (pos addr) n r ≡ (err memory_access_error, r)
unfolding check
check-outside addr n r h = ground arith

-- The four bytes joined by shifts are the word.
pub join_bytes :
    (b0 b1 b2 b3 : ℕ)
    → b0 < 2 ^ 8
    → b1 < 2 ^ 8
    → b2 < 2 ^ 8
    → bit_or (bit_or (bit_or b0 (b1 * 2 ^ 8)) (b2 * 2 ^ 16)) (b3 * 2 ^ 24)
      ≡ b0 + b1 * 2 ^ 8 + b2 * 2 ^ 16 + b3 * 2 ^ 24
join_bytes b0 b1 b2 b3 h0 h1 h2 =
    let e1 = bit_or_fields_low 8 b1 b0 h0 in
    let e2 = bit_or_fields_low 16 b2 (b1 * 2 ^ 8 + b0) (omega arith) in
    let e3 = bit_or_fields_low 24 b3 (b2 * 2 ^ 16 + (b1 * 2 ^ 8 + b0)) (omega arith) in
    rw (e1, e2, e3) (omega arith)

read_word_bytes-word_at :
    (addr : ℕ) (r : Ram)
    → addr + 4 ≤ r.memory_len
    → AllBelow (2 ^ 8) r.memory
    → read_word_bytes addr r ≡ (ok (word_at r.memory addr), r)
unfolding read_word_bytes read_byte word_at
read_word_bytes-word_at addr r h bytes =
    let joined =
      join_bytes (r.memory addr) (r.memory (addr + 1)) (r.memory (addr + 2)) (r.memory (addr + 3))
        (bytes _) (bytes _) (bytes _) in
    ground (arith, joined)

read_word-word_at :
    (addr : ℕ) (r : Ram)
    → addr + 4 ≤ r.memory_len
    → AllBelow (2 ^ 8) r.memory
    → read_word addr r ≡ (ok (word_at r.memory addr), r)
unfolding read_word read_word_view
read_word-word_at addr r h bytes =
    let aligned : addr % 2 ^ 2 ≡ 0 → 4 * (addr / 2 ^ 2) ≡ addr = λ e. omega arith in
    ground (arith, aligned, read_word_bytes-word_at addr r h bytes)

write_word-put_word :
    (addr v : ℕ) (r : Ram)
    → addr + 4 ≤ r.memory_len
    → write_word addr v r ≡ (ok tt, record r { memory = put_word r.memory addr v })
unfolding write_word write_word_view write_word_bytes write_byte put_word
write_word-put_word addr v r h =
    let aligned : addr % 2 ^ 2 ≡ 0 → 4 * (addr / 2 ^ 2) ≡ addr = λ e. omega arith in
    ground (arith, aligned)

pub put_word-word_at : (m : ℕ → ℕ) (addr v : ℕ) → word_at (put_word m addr v) addr ≡ v % 2 ^ 32
unfolding put_word word_at update
put_word-word_at m addr v = ground arith

-- What an accepted `store_word` leaves behind.
pub store_word-put_word :
    (addr v : ℕ) (r : Ram)
    → addr + 4 ≤ r.size
    → r.size ≤ r.memory_len
    → store_word addr v r ≡ (ok tt, record r { memory = put_word r.memory addr (v % 2 ^ 32) })
unfolding store_word
store_word-put_word addr v r h hl =
    rw (check-inside addr 4 r h) (write_word-put_word addr (v % 2 ^ 32) r (omega arith))

pub load_word-word_at :
    (addr : ℕ) (r : Ram)
    → addr + 4 ≤ r.size
    → r.size ≤ r.memory_len
    → AllBelow (2 ^ 8) r.memory
    → load_word addr r ≡ (ok (word_at r.memory addr), r)
unfolding load_word
load_word-word_at addr r h hl bytes =
    rw (check-inside addr 4 r h) (read_word-word_at addr r (omega arith) bytes)

-- A word that `SafeRAM` stores within its size, aligned or not, is read back modulo 2 ^ 32.
pub store_word-load_word :
    (addr v : ℕ) (r : Ram)
    → addr + 4 ≤ r.size
    → r.size ≤ r.memory_len
    → IsWfRam r
    → ((store_word addr v r).0 ≡ ok tt)
      × (load_word addr (store_word addr v r).1 ≡ (ok (v % 2 ^ 32), (store_word addr v r).1))
store_word-load_word addr v r h hl wf =
    let stored = store_word-put_word addr v r h hl in
    let bytes = put_word-AllBelow r.memory addr (v % 2 ^ 32) wf.memory in
    let r' : Ram = record r { memory = put_word r.memory addr (v % 2 ^ 32) } in
    let loaded = load_word-word_at addr r' h hl bytes in
    let value = put_word-word_at r.memory addr (v % 2 ^ 32) in
    let twice : v % 2 ^ 32 % 2 ^ 32 ≡ v % 2 ^ 32 = omega arith in
    rw stored (refl, rw (loaded, value, twice) refl)

-- A word that `SafeRAM` stores within its size, aligned or not, changes no byte outside of it.
pub store_word-frame :
    (addr v j : ℕ) (r : Ram)
    → addr + 4 ≤ r.size
    → r.size ≤ r.memory_len
    → (j < addr) ⊎ (addr + 4 ≤ j)
    → (store_word addr v r).1.memory j ≡ r.memory j
unfolding put_word update
store_word-frame addr v j r h hl (inl lo) = rw (store_word-put_word addr v r h hl) (ground arith)
store_word-frame addr v j r h hl (inr hi) = rw (store_word-put_word addr v r h hl) (ground arith)

-- Each load and store of `SafeRAM` that reaches past `size` raises `MemoryAccessError` and changes
-- nothing, also where it begins within `size`.
pub safe_access-outside :
    (a1 a2 a4 v : ℕ) (signed : Bool) (r : Ram)
    → r.size < a1 + 1
    → r.size < a2 + 2
    → r.size < a4 + 4
    → (load_byte a1 signed r ≡ (err memory_access_error, r))
      × (store_byte a1 v r ≡ (err memory_access_error, r))
      × (load_half a2 signed r ≡ (err memory_access_error, r))
      × (store_half a2 v r ≡ (err memory_access_error, r))
      × (load_word a4 r ≡ (err memory_access_error, r))
      × (store_word a4 v r ≡ (err memory_access_error, r))
unfolding load_byte store_byte load_half store_half load_word store_word
safe_access-outside a1 a2 a4 v signed r h1 h2 h4 =
    let e1 = check-outside a1 1 r h1 in
    let e2 = check-outside a2 2 r h2 in
    let e4 = check-outside a4 4 r h4 in
    (rw e1 refl, rw e1 refl, rw e2 refl, rw e2 refl, rw e4 refl, rw e4 refl)

pub write_half-bytes :
    (addr v : ℕ) (r : Ram)
    → addr + 2 ≤ r.memory_len
    → write_half addr v r ≡ (
      ok tt,
      record r {
        memory = update (update r.memory addr (v % 2 ^ 8)) (addr + 1) (v / 2 ^ 8 % 2 ^ 8);
      },
    )
unfolding write_half write_byte
write_half-bytes addr v r h = ground arith

pub read_half-bytes :
    (addr : ℕ) (r : Ram)
    → addr + 2 ≤ r.memory_len
    → read_half addr r ≡ (ok (bit_or (r.memory addr) (r.memory (addr + 1) * 2 ^ 8)), r)
unfolding read_half read_byte
read_half-bytes addr r h = ground arith

half_of_bytes :
    (m : ℕ → ℕ) (addr w : ℕ)
    → w < 2 ^ 16
    → (let m' = update (update m addr (w % 2 ^ 8)) (addr + 1) (w / 2 ^ 8 % 2 ^ 8) in
        bit_or (m' addr) (m' (addr + 1) * 2 ^ 8) ≡ w)
unfolding update
half_of_bytes m addr w h =
    ground (arith, bit_or_fields_low 8 (w / 2 ^ 8 % 2 ^ 8) (w % 2 ^ 8) (omega arith))

-- A half word that `SafeRAM` stores within its size is read back modulo 2 ^ 16, sign-extended if
-- that is asked for.
pub store_half-load_half :
    (addr v : ℕ) (signed : Bool) (r : Ram)
    → addr + 2 ≤ r.size
    → r.size ≤ r.memory_len
    → ((store_half addr v r).0 ≡ ok tt)
      × (load_half addr signed (store_half addr v r).1
          ≡ (ok (sign_extend signed 0x8000 (v % 2 ^ 16)), (store_half addr v r).1))
unfolding store_half load_half
store_half-load_half addr v signed r h hl =
    let w = v % 2 ^ 16 in
    let check1 = check-inside addr 2 r h in
    let stored = write_half-bytes addr w r (omega arith) in
    let r' : Ram = record r {
      memory = update (update r.memory addr (w % 2 ^ 8)) (addr + 1) (w / 2 ^ 8 % 2 ^ 8);
    } in
    let check2 = check-inside addr 2 r' h in
    let loaded = read_half-bytes addr r' (omega arith) in
    let value = half_of_bytes r.memory addr w (omega arith) in
    rw (check1, stored) (refl, rw (check2, loaded, value) refl)
