-- ===== src/Invariant/Bytes.antt =====
-- The accesses to the bytearray keep its bytes, and read numbers of their width.
use riscv_python.Prelude.{ℕ, Bool, not, ◌||◌, leb, ◌+◌, ◌*◌, ◌/◌, ◌%◌, ◌^◌, ◌<◌, arith, ltb, ◌==◌}
use riscv_python.Prelude.Int.{ℤ, pos_part}
use riscv_python.State.{Ram, Result, ok, err, index_error, memory_access_error}
use riscv_python.State.Leaves.{
  Leaves, Leaves-ok, Leaves-err, Leaves-if, Leaves-unit, Leaves-bind, Any, if-keeps,
}
use riscv_python.Bits.{bit_or-lt}
use riscv_python.Ram.Bytes.{
  sign_extend, read_byte, write_byte, word_at, put_word, read_word_view, write_word_view,
  or_access_error, read_half, write_half, read_word_bytes, write_word_bytes, read_word, write_word,
  check,
}
use riscv_python.Invariant.Defs.{IsWfRam, AllBelow, AllBelow-update}

-- A value of at most `k` bits.
abbrev pub Fits : ℕ → ℕ → Type 0
Fits k v = v < 2 ^ k

-- A half word, with its sign or without.
abbrev pub FitsHalf : ℤ → Type 0
FitsHalf z = pos_part z < 2 ^ 16

pub sign_extend-FitsHalf :
    (signed : Bool) (v : ℕ) → v < 2 ^ 16 → FitsHalf (sign_extend signed 0x8000 v)
unfolding sign_extend
sign_extend-FitsHalf signed v h =
    if-keeps FitsHalf (not signed || ltb v 0x8000) _ _ h
      (if-keeps FitsHalf (leb (0 + 2 * 0x8000) (v + 0)) _ _ (omega arith) (omega arith))

pub read_byte-Leaves : (addr : ℕ) (r : Ram) → IsWfRam r → Leaves IsWfRam (Fits 8) (read_byte addr r)
unfolding read_byte
read_byte-Leaves addr r h =
    Leaves-if (ltb addr r.memory_len) _ _ (Leaves-ok _ r (h.memory addr) h) (Leaves-err _ r h)

pub write_byte-Leaves :
    (addr v : ℕ) (r : Ram) → v < 2 ^ 8 → IsWfRam r → Leaves IsWfRam Any (write_byte addr v r)
unfolding write_byte
write_byte-Leaves addr v r hv h =
    Leaves-if (ltb addr r.memory_len) _ _
      (Leaves-unit _ (record {
        memory = AllBelow-update (2 ^ 8) r.memory addr v h.memory hv;
        devices = h.devices;
      }))
      (Leaves-err _ r h)

pub word_at-lt : (m : ℕ → ℕ) (addr : ℕ) → AllBelow (2 ^ 8) m → word_at m addr < 2 ^ 32
unfolding word_at
word_at-lt m addr h = omega (arith, h addr, h (addr + 1), h (addr + 2), h (addr + 3))

pub put_word-AllBelow :
    (m : ℕ → ℕ) (addr v : ℕ) → AllBelow (2 ^ 8) m → AllBelow (2 ^ 8) (put_word m addr v)
unfolding put_word
put_word-AllBelow m addr v h =
    AllBelow-update _ _ _ _
      (AllBelow-update _ _ _ _
        (AllBelow-update _ _ _ _ (AllBelow-update _ _ _ _ h (omega arith)) (omega arith))
        (omega arith))
      (omega arith)

pub read_word_view-Leaves :
    (i : ℕ) (r : Ram) → IsWfRam r → Leaves IsWfRam (Fits 32) (read_word_view i r)
unfolding read_word_view
read_word_view-Leaves i r h =
    Leaves-if _ _ _ (Leaves-ok _ r (word_at-lt r.memory (4 * i) h.memory) h) (Leaves-err _ r h)

pub write_word_view-Leaves :
    (i v : ℕ) (r : Ram) → IsWfRam r → Leaves IsWfRam Any (write_word_view i v r)
unfolding write_word_view
write_word_view-Leaves i v r h =
    Leaves-if _ _ _
      (Leaves-unit _
        (record { memory = put_word-AllBelow r.memory (4 * i) v h.memory; devices = h.devices }))
      (Leaves-err _ r h)

pub or_access_error-Leaves :
    {A : Type 0} {Q : A → Type 0} (x : Result A × Ram)
    → Leaves IsWfRam Q x
    → Leaves IsWfRam Q (or_access_error x)
unfolding or_access_error
or_access_error-Leaves (ok a, r) h = h
or_access_error-Leaves (err index_error, r) h = Leaves-err memory_access_error r h.state
or_access_error-Leaves (err _, r) h = h

pub read_half-Leaves :
    (addr : ℕ) (r : Ram) → IsWfRam r → Leaves IsWfRam (Fits 16) (read_half addr r)
unfolding read_half
read_half-Leaves addr r h = Leaves-bind (Fits 8) _ _ (read_byte-Leaves addr r h) λ b0 r q0 h.
    Leaves-bind (Fits 8) _ _ (read_byte-Leaves (addr + 1) r h)
      λ b1 r q1 h. Leaves-ok _ r (bit_or-lt 16 b0 (b1 * 2 ^ 8) (omega arith) (omega arith)) h

pub write_half-Leaves :
    (addr v : ℕ) (r : Ram) → IsWfRam r → Leaves IsWfRam Any (write_half addr v r)
unfolding write_half
write_half-Leaves addr v r h =
    Leaves-bind Any _ _ (write_byte-Leaves addr _ r (omega arith) h)
      λ _ r _ h. write_byte-Leaves (addr + 1) _ r (omega arith) h

read_word_bytes-Leaves :
    (addr : ℕ) (r : Ram) → IsWfRam r → Leaves IsWfRam (Fits 32) (read_word_bytes addr r)
unfolding read_word_bytes
read_word_bytes-Leaves addr r h = Leaves-bind (Fits 8) _ _ (read_byte-Leaves addr r h) λ b0 r q0 h.
    Leaves-bind (Fits 8) _ _ (read_byte-Leaves (addr + 1) r h) λ b1 r q1 h.
      Leaves-bind (Fits 8) _ _ (read_byte-Leaves (addr + 2) r h) λ b2 r q2 h.
        Leaves-bind (Fits 8) _ _ (read_byte-Leaves (addr + 3) r h) λ b3 r q3 h.
          Leaves-ok _ r
            (bit_or-lt 32 _ (b3 * 2 ^ 24)
              (bit_or-lt 32 _ (b2 * 2 ^ 16)
                (bit_or-lt 32 b0 (b1 * 2 ^ 8) (omega arith) (omega arith)) (omega arith))
              (omega arith))
            h

pub read_word-Leaves :
    (addr : ℕ) (r : Ram) → IsWfRam r → Leaves IsWfRam (Fits 32) (read_word addr r)
unfolding read_word
read_word-Leaves addr r h =
    Leaves-if (addr % 2 ^ 2 == 0) (read_word_view (addr / 2 ^ 2) r) (read_word_bytes addr r)
      (read_word_view-Leaves (addr / 2 ^ 2) r h) (read_word_bytes-Leaves addr r h)

write_word_bytes-Leaves :
    (addr v : ℕ) (r : Ram) → IsWfRam r → Leaves IsWfRam Any (write_word_bytes addr v r)
unfolding write_word_bytes
write_word_bytes-Leaves addr v r h =
    Leaves-bind Any _ _ (write_byte-Leaves addr _ r (omega arith) h) λ _ r _ h.
      Leaves-bind Any _ _ (write_byte-Leaves (addr + 1) _ r (omega arith) h) λ _ r _ h.
        Leaves-bind Any _ _ (write_byte-Leaves (addr + 2) _ r (omega arith) h)
          λ _ r _ h. write_byte-Leaves (addr + 3) _ r (omega arith) h

pub write_word-Leaves :
    (addr v : ℕ) (r : Ram) → IsWfRam r → Leaves IsWfRam Any (write_word addr v r)
unfolding write_word
write_word-Leaves addr v r h =
    Leaves-if (addr % 2 ^ 2 == 0) (write_word_view (addr / 2 ^ 2) v r) (write_word_bytes addr v r)
      (write_word_view-Leaves (addr / 2 ^ 2) v r h) (write_word_bytes-Leaves addr v r h)

pub check-Leaves : (addr : ℤ) (n : ℕ) (r : Ram) → IsWfRam r → Leaves IsWfRam Any (check addr n r)
unfolding check
check-Leaves addr n r h = Leaves-if _ _ _ (Leaves-err _ r h) (Leaves-unit r h)
