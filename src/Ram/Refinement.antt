-- ===== src/Ram/Refinement.antt =====
-- Class `SafeRAM` of ram.py keeps what Ram/Specification promises.
use riscv_python.Prelude.{
  bit_or, ℕ, zero, suc, ◌+◌, ◌*◌, ◌/◌, ◌%◌, ◌^◌, ◌<◌, ◌≤◌, ◌≡◌, refl, ap, ◌∙◌, Bool, false, none,
  some, List, [], ◌∷◌, leb, lt→ltb, inl, inr, Bool-cases, arith,
}
use riscv_python.State.{Ram, ok, err, memory_access_error}
use riscv_python.Bits.{bit_or_fields_low}
use riscv_python.Ram.Bytes.{
  bytes_from, put_bytes, put_word, word_at, sign_extend, read_byte, write_byte,
}
use riscv_python.Ram.RoundTrip.{
  check-inside, load_word-word_at, store_word-put_word, read_half-bytes, write_half-bytes,
  safe_access-outside,
}
use riscv_python.Ram.Safe.{load_byte, load_half, load_word, store_byte, store_half, store_word}
use riscv_python.Ram.Writes.{AllBytes, put_bytes-AllBelow}
use riscv_python.State.Leaves.{if-keeps}
use riscv_python.Invariant.Defs.{AllBelow}
use riscv_python.Ram.Specification.{
  Width, byte, half, word, bytes_in, Access, loads, stores, little_endian, digits, signed_value,
  value_read, Answer, specified, loaded, loaded_word, stored, performed, in_turn,
}

sign_extend-signed_value :
    (signed : Bool) (bound v : ℕ) → sign_extend signed bound v ≡ signed_value signed bound v
unfolding sign_extend
sign_extend-signed_value signed bound v = ground arith

read_byte-inside :
    (addr : ℕ) (r : Ram) → addr < r.memory_len → read_byte addr r ≡ (ok (r.memory addr), r)
unfolding read_byte
read_byte-inside addr r h = rw (lt→ltb addr r.memory_len h) refl

module _ (r : Ram) (hl : r.size ≤ r.memory_len) (hb : AllBelow (2 ^ 8) r.memory) (addr : ℕ) where
  load_byte-value :
      (signed : Bool)
      → addr + 1 ≤ r.size
      → load_byte addr signed r
        ≡ (ok (value_read byte signed (little_endian (bytes_from r.memory addr 1))), r)
  unfolding load_byte little_endian bytes_from
  load_byte-value signed h =
      let e : r.memory addr + 2 ^ 8 * 0 ≡ r.memory addr = omega arith in
      rw (e, check-inside addr 1 r h, read_byte-inside addr r (omega arith))
        (ap (λ z. (ok z, r)) (sign_extend-signed_value signed 0x80 (r.memory addr)))

  load_half-value :
      (signed : Bool)
      → addr + 2 ≤ r.size
      → load_half addr signed r
        ≡ (ok (value_read half signed (little_endian (bytes_from r.memory addr 2))), r)
  unfolding load_half little_endian bytes_from
  load_half-value signed h =
      let b0 = r.memory addr in
      let b1 = r.memory (addr + 1) in
      let e : bit_or b0 (b1 * 2 ^ 8) ≡ b0 + 2 ^ 8 * (b1 + 2 ^ 8 * 0) =
        omega (arith, bit_or_fields_low 8 b1 b0 (hb addr)) in
      rw (check-inside addr 2 r h, read_half-bytes addr r (omega arith), e)
        (ap (λ z. (ok z, r))
          (sign_extend-signed_value signed 0x8000 (b0 + 2 ^ 8 * (b1 + 2 ^ 8 * 0))))

  load_word-value :
      addr + 4 ≤ r.size → load_word addr r ≡ (ok (little_endian (bytes_from r.memory addr 4)), r)
  unfolding little_endian bytes_from word_at
  load_word-value h =
      let a2 : addr + 1 + 1 ≡ addr + 2 = omega arith in
      let a3 : addr + 2 + 1 ≡ addr + 3 = omega arith in
      rw (a2, a3) (load_word-word_at addr r h hl hb ∙ ap (λ n. (ok n, r)) (omega arith))

  store_byte-digits :
      (v : ℕ)
      → addr + 1 ≤ r.size
      → store_byte addr v r ≡ (ok tt, record r { memory = put_bytes r.memory addr (digits 1 v) })
  unfolding store_byte write_byte put_bytes digits
  store_byte-digits v h = rw (check-inside addr 1 r h, lt→ltb addr r.memory_len (omega arith)) refl

  store_half-digits :
      (v : ℕ)
      → addr + 2 ≤ r.size
      → store_half addr v r ≡ (ok tt, record r { memory = put_bytes r.memory addr (digits 2 v) })
  unfolding store_half put_bytes digits
  store_half-digits v h =
      let b0 : v % 2 ^ 16 % 2 ^ 8 ≡ v % 2 ^ 8 = omega arith in
      let b1 : v % 2 ^ 16 / 2 ^ 8 % 2 ^ 8 ≡ v / 2 ^ 8 % 2 ^ 8 = omega arith in
      rw (check-inside addr 2 r h, write_half-bytes addr (v % 2 ^ 16) r (omega arith), b0, b1) refl

  store_word-digits :
      (v : ℕ)
      → addr + 4 ≤ r.size
      → store_word addr v r ≡ (ok tt, record r { memory = put_bytes r.memory addr (digits 4 v) })
  unfolding put_word put_bytes digits
  store_word-digits v h =
      let b0 : v % 2 ^ 32 % 2 ^ 8 ≡ v % 2 ^ 8 = omega arith in
      let b1 : v % 2 ^ 32 / 2 ^ 8 % 2 ^ 8 ≡ v / 2 ^ 8 % 2 ^ 8 = omega arith in
      let b2 : v % 2 ^ 32 / 2 ^ 16 % 2 ^ 8 ≡ v / 2 ^ 8 / 2 ^ 8 % 2 ^ 8 = omega arith in
      let b3 : v % 2 ^ 32 / 2 ^ 24 % 2 ^ 8 ≡ v / 2 ^ 8 / 2 ^ 8 / 2 ^ 8 % 2 ^ 8 = omega arith in
      let a2 : addr + 1 + 1 ≡ addr + 2 = omega arith in
      let a3 : addr + 2 + 1 ≡ addr + 3 = omega arith in
      store_word-put_word addr v r h hl ∙ rw (b0, b1, b2, b3, a2, a3) refl

  outside-loads :
      (w : Width) (signed : Bool)
      → r.size < addr + bytes_in w
      → performed (loads w signed addr) r ≡ (err memory_access_error, r)
  unfolding performed
  outside-loads byte signed h =
      ap loaded (safe_access-outside addr addr addr 0 signed r h (omega arith) (omega arith)).0
  outside-loads half signed h =
      ap loaded
        (safe_access-outside (addr + 1) addr addr 0 signed r (omega arith) h (omega arith)).2
  outside-loads word signed h =
      ap loaded_word
        (safe_access-outside (addr + 3) (addr + 2) addr 0 signed r (omega arith) (omega arith) h).4

  outside-stores :
      (w : Width) (v : ℕ)
      → r.size < addr + bytes_in w
      → performed (stores w addr v) r ≡ (err memory_access_error, r)
  unfolding performed
  outside-stores byte v h =
      ap stored (safe_access-outside addr addr addr v false r h (omega arith) (omega arith)).1
  outside-stores half v h =
      ap stored (safe_access-outside (addr + 1) addr addr v false r (omega arith) h (omega arith)).3
  outside-stores word v h =
      ap stored
        (safe_access-outside (addr + 3) (addr + 2) addr v false r (omega arith) (omega arith) h).5

  inside-loads :
      (w : Width) (signed : Bool)
      → addr + bytes_in w ≤ r.size
      → performed (loads w signed addr) r ≡ (
        ok (some (value_read w signed (little_endian (bytes_from r.memory addr (bytes_in w))))),
        r,
      )
  unfolding performed
  inside-loads byte signed h = ap loaded (load_byte-value signed h)
  inside-loads half signed h = ap loaded (load_half-value signed h)
  inside-loads word signed h = ap loaded_word (load_word-value h)

  inside-stores :
      (w : Width) (v : ℕ)
      → addr + bytes_in w ≤ r.size
      → performed (stores w addr v) r
        ≡ (ok none, record r { memory = put_bytes r.memory addr (digits (bytes_in w) v) })
  unfolding performed
  inside-stores byte v h = ap stored (store_byte-digits v h)
  inside-stores half v h = ap stored (store_half-digits v h)
  inside-stores word v h = ap stored (store_word-digits v h)

-- An access to a memory with a row of bytes, carried over from the row.
abbrev carried : Ram → Answer × (ℕ → ℕ) → Answer × Ram
carried r (x, m) = (x, record r { memory = m })

performed-specified :
    (a : Access) (r : Ram)
    → r.size ≤ r.memory_len
    → AllBelow (2 ^ 8) r.memory
    → performed a r ≡ carried r (specified r.size a r.memory)
unfolding specified
performed-specified (loads w signed addr) r hl hb =
    elim (Bool-cases (leb (addr + bytes_in w) r.size)) [
      | inl t ↦ rw t (inside-loads r hl hb addr w signed (ground arith))
      | inr f ↦ rw f (outside-loads r hl hb addr w signed (ground arith))
    ]
performed-specified (stores w addr v) r hl hb = elim (Bool-cases (leb (addr + bytes_in w) r.size)) [
  | inl t ↦ rw t (inside-stores r hl hb addr w v (ground arith))
  | inr f ↦ rw f (outside-stores r hl hb addr w v (ground arith))
]

digits-AllBytes : (n v : ℕ) → AllBytes (digits n v)
unfolding digits
digits-AllBytes zero v = tt
digits-AllBytes (suc n) v = (omega arith, digits-AllBytes n (v / 2 ^ 8))

specified-AllBelow :
    (size : ℕ) (a : Access) (m : ℕ → ℕ)
    → AllBelow (2 ^ 8) m
    → AllBelow (2 ^ 8) (specified size a m).1
unfolding specified
specified-AllBelow size (loads w signed addr) m h =
    if-keeps (λ (x : Answer × (ℕ → ℕ)). AllBelow (2 ^ 8) x.1) (leb (addr + bytes_in w) size) _ _ h h
specified-AllBelow size (stores w addr v) m h =
    if-keeps (λ (x : Answer × (ℕ → ℕ)). AllBelow (2 ^ 8) x.1) (leb (addr + bytes_in w) size) _ _
      (put_bytes-AllBelow (digits (bytes_in w) v) m addr (digits-AllBytes (bytes_in w) v) h) h

-- Any sequence of loads and stores of bytes, half words and words, aligned or not, within the size
-- or not, gets from `SafeRAM` the answers that a row of bytes gives in which a store writes the
-- bytes of the number, the lowest first, a load reads them back as one number, in two's complement
-- where a sign is asked for, and what reaches past the size raises MemoryAccessError; and the
-- bytearray ends as that row, if it begins as bytes and is as long as the size.
pub in_turn-specified :
    (script : List Access) (r : Ram)
    → r.size ≤ r.memory_len
    → AllBelow (2 ^ 8) r.memory
    → in_turn performed script r ≡ (
        let (answers, m) = in_turn (specified r.size) script r.memory in
        (answers, record r { memory = m }))
unfolding in_turn
in_turn-specified [] r hl hb = refl
in_turn-specified (a ∷ rest) r hl hb =
    let (x, m) = specified r.size a r.memory in
    let after =
      in_turn-specified rest (record r { memory = m }) hl
        (specified-AllBelow r.size a r.memory hb) in
    rw (performed-specified a r hl hb, after) refl
