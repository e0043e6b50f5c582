-- ===== src/Gdb/Memory/Bytes.antt =====
-- The loops of m and M on class `SafeRAM`, inside of its size.
use riscv_python.Prelude.{
  ℕ, zero, suc, ◌+◌, ◌%◌, ◌^◌, ◌≤◌, ◌<◌, ◌≡◌, refl, ap, sym, ◌∙◌, some, [], ◌∷◌, ◌++◌, List, arith,
  ltb,
}
use riscv_python.Prelude.Int.{ℤ, pos, ◌+ℤ◌}
use riscv_python.State.{Ram, System, Exec, ok, update, continue, ◌>>=◌}
use riscv_python.Ram.Bytes.{length, read_byte, write_byte, put_bytes, sign_extend, bytes_from}
use riscv_python.Ram.RoundTrip.{check-inside}
use riscv_python.Ram.Binary.{IsSafe, set_memory}
use riscv_python.Ram.Safe
use riscv_python.Ram.Mmio.{on_ram}
use riscv_python.Ram.Access.{load_byte, store_byte}
use riscv_python.Text.{Text, take, drop, All, hex_02, hex_02-eq-digits, int_16, int_16-hex_02}
use riscv_python.Gdb.Memory.{
  load_byte_at, store_byte_at, byte_text, read_bytes, write_bytes, number,
}

-- Bytes in hexadecimal.
unfoldable pub hex_text : List ℕ → Text
hex_text [] = []
hex_text (b ∷ bs) = hex_02 b ++ hex_text bs

stored :
    (addr v : ℕ) (r : Ram)
    → addr < r.size
    → r.size ≤ r.memory_len
    → v < 2 ^ 8
    → Safe.store_byte addr v r ≡ (ok tt, record r { memory = update r.memory addr v })
unfolding Safe.store_byte write_byte
stored addr v r ha hl hv = rw (check-inside addr 1 r (omega arith)) (ground arith)

loaded :
    (addr : ℕ) (r : Ram)
    → addr < r.size
    → r.size ≤ r.memory_len
    → Safe.load_byte addr (ltb 1 0) r ≡ (ok (pos (r.memory addr)), r)
unfolding Safe.load_byte read_byte sign_extend
loaded addr r ha hl = rw (check-inside addr 1 r (omega arith)) (ground arith)

store_byte-safe :
    (addr v : ℕ) (s : System)
    → IsSafe s
    → addr < s.ram.size
    → v < 2 ^ 8
    → store_byte_at (pos addr) (pos v) s ≡ (ok tt, set_memory (update s.ram.memory addr v) s)
unfolding store_byte_at store_byte on_ram
store_byte-safe addr v s (hc, hl) ha hv =
    let e : v % 2 ^ 8 ≡ v = omega arith in simp (hc, e, stored addr v s.ram ha hl hv) refl

load_byte-safe :
    (addr : ℕ) (s : System)
    → IsSafe s
    → addr < s.ram.size
    → load_byte_at (pos addr) s ≡ (ok (pos (s.ram.memory addr)), s)
unfolding load_byte_at load_byte on_ram
load_byte-safe addr s (hc, hl) ha = simp (hc, loaded addr s.ram ha hl) refl

-- The first two characters are the first byte.
first_byte :
    (b : ℕ) (t : Text)
    → b < 2 ^ 8
    → (int_16 (take 2 (hex_02 b ++ t)) ≡ some (pos b)) × (drop 2 (hex_02 b ++ t) ≡ t)
first_byte b t h =
    let e = hex_02-eq-digits b h in
    (
      ap (λ d. int_16 (take 2 (d ++ t))) e ∙ ap int_16 (sym e) ∙ int_16-hex_02 b h,
      ap (λ d. drop 2 (d ++ t)) e,
    )

next : (a : ℕ) → pos a +ℤ pos 1 ≡ pos (a + 1)
next a = ground arith

number-some : (t : Text) (z : ℤ) (s : System) → int_16 t ≡ some z → number t s ≡ (ok z, s)
number-some t z s h = rw (h, number) refl

write_bytes_step :
    (n a v : ℕ) (t : Text) (s : System)
    → IsSafe s
    → a < s.ram.size
    → v < 2 ^ 8
    → int_16 (take 2 t) ≡ some (pos v)
    → write_bytes (suc n) (pos a) t s
      ≡ write_bytes n (pos (a + 1)) (drop 2 t) (set_memory (update s.ram.memory a v) s)
unfolding write_bytes
write_bytes_step n a v t s hs ha hv h =
    let s' = set_memory (update s.ram.memory a v) s in
    let rest : Unit {0} → Exec System (Unit {0}) = λ _. write_bytes n (pos a +ℤ pos 1) (drop 2 t) in
    ap (λ r. continue r λ byte. store_byte_at (pos a) byte >>= rest)
      (number-some (take 2 t) (pos v) s h)
    ∙ ap (λ r. continue r rest) (store_byte-safe a v s hs ha hv)
    ∙ ap (λ z. write_bytes n z (drop 2 t) s') (next a)

pub write_bytes-safe :
    (bs : List ℕ) (a : ℕ) (s : System)
    → All (λ b. b < 2 ^ 8) bs
    → IsSafe s
    → a + length bs ≤ s.ram.size
    → write_bytes (length bs) (pos a) (hex_text bs) s
      ≡ (ok tt, set_memory (put_bytes s.ram.memory a bs) s)
unfolding hex_text put_bytes write_bytes
write_bytes-safe [] a s hb hs ha = refl
write_bytes-safe (b ∷ bs) a s (h, hb) hs ha =
    let s' = set_memory (update s.ram.memory a b) s in
    let (e, d) = first_byte b (hex_text bs) h in
    write_bytes_step (length bs) a b (hex_text (b ∷ bs)) s hs (omega arith) h e
    ∙ ap (λ t. write_bytes (length bs) (pos (a + 1)) t s') d
    ∙ write_bytes-safe bs (a + 1) s' hb hs (omega arith)

read_bytes_step :
    (n a : ℕ) (t : Text) (s : System)
    → IsSafe s
    → a < s.ram.size
    → read_bytes n (pos (a + 1)) s ≡ (ok t, s)
    → read_bytes (suc n) (pos a) s ≡ (ok (hex_02 (s.ram.memory a) ++ t), s)
unfolding read_bytes byte_text
read_bytes_step n a t s hs ha h = rw (load_byte-safe a s hs ha, next a, h) refl

pub read_bytes-safe :
    (n a : ℕ) (s : System)
    → IsSafe s
    → a + n ≤ s.ram.size
    → read_bytes n (pos a) s ≡ (ok (hex_text (bytes_from s.ram.memory a n)), s)
unfolding read_bytes hex_text bytes_from
read_bytes-safe zero a s hs ha = refl
read_bytes-safe (suc n) a s hs ha =
    read_bytes_step n a (hex_text (bytes_from s.ram.memory (a + 1) n)) s hs (omega arith)
      (read_bytes-safe n (a + 1) s hs (omega arith))
