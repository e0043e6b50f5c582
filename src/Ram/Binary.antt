-- ===== src/Ram/Binary.antt =====
-- Blocks of bytes on class `SafeRAM`, inside of its size.
use riscv_python.Prelude.{
  ℕ, zero, suc, ◌+◌, ◌-◌, ◌<◌, ◌≤◌, ◌≡◌, refl, ap, ap₂, ◌∙◌, List, [], ◌∷◌, min, arith,
}
use riscv_python.State.{System, Ram, safe, safe_mmio, ok, update}
use riscv_python.Ram.Safe
use riscv_python.Ram.Mmio.{on_ram}
use riscv_python.Ram.SafeMmio
use riscv_python.Ram.Bytes.{bytes_from, put_bytes, length, slice}
use riscv_python.Ram.RoundTrip.{check-inside}
use riscv_python.Ram.Access.{load_binary, store_binary}

-- The memory is of class `SafeRAM`, and the bytearray has the bytes that `size` promises.
abbrev pub IsSafe : System → Type 0
IsSafe s = (s.ram.ram_class ≡ safe) × (s.ram.size ≤ s.ram.memory_len)

-- The same of class `SafeRAM_MMIO`, which a machine with devices has.
abbrev pub IsSafeMmio : System → Type 0
IsSafeMmio s = (s.ram.ram_class ≡ safe_mmio) × (s.ram.size ≤ s.ram.memory_len)

abbrev pub set_memory : (ℕ → ℕ) → System → System
set_memory m s = record s { ram = record s.ram { memory = m } }

-- The bytes below a place stay.
pub put_bytes-below : (bs : List ℕ) (m : ℕ → ℕ) (a k : ℕ) → k < a → put_bytes m a bs k ≡ m k
unfolding put_bytes update
put_bytes-below [] m a k h = refl
put_bytes-below (b ∷ bs) m a k h =
    put_bytes-below bs (update m a b) (a + 1) k (omega arith) ∙ ground arith

pub bytes_from-put_bytes :
    (bs : List ℕ) (m : ℕ → ℕ) (a : ℕ) → bytes_from (put_bytes m a bs) a (length bs) ≡ bs
unfolding put_bytes bytes_from update
bytes_from-put_bytes [] m a = refl
bytes_from-put_bytes (b ∷ bs) m a =
    ap₂ (λ x xs. x ∷ xs) (put_bytes-below bs (update m a b) (a + 1) a (omega arith) ∙ ground arith)
      (bytes_from-put_bytes bs (update m a b) (a + 1))

pub length-bytes_from : (m : ℕ → ℕ) (a n : ℕ) → length (bytes_from m a n) ≡ n
unfolding bytes_from
length-bytes_from m a zero = refl
length-bytes_from m a (suc n) = ap suc (length-bytes_from m (a + 1) n)

pub slice-inside :
    (a n : ℕ) (r : Ram)
    → a + n ≤ r.size
    → r.size ≤ r.memory_len
    → slice r a (a + n) ≡ bytes_from r.memory a n
unfolding slice
slice-inside a n r ha hl =
    let e : min (a + n) r.memory_len - a ≡ n = ground arith in ap (bytes_from r.memory a) e

loaded :
    (a n : ℕ) (r : Ram)
    → a + n ≤ r.size
    → r.size ≤ r.memory_len
    → Safe.load_binary a n r ≡ (ok (bytes_from r.memory a n), r)
unfolding Safe.load_binary
loaded a n r ha hl = rw (check-inside a n r ha, slice-inside a n r ha hl) refl

stored :
    (a : ℕ) (bytes : List ℕ) (r : Ram)
    → a + length bytes ≤ r.size
    → Safe.store_binary a bytes r ≡ (ok tt, record r { memory = put_bytes r.memory a bytes })
unfolding Safe.store_binary
stored a bytes r ha = rw (check-inside a (length bytes) r ha) refl

pub load_binary-safe :
    (a n : ℕ) (s : System)
    → IsSafe s
    → a + n ≤ s.ram.size
    → load_binary a n s ≡ (ok (bytes_from s.ram.memory a n), s)
unfolding load_binary on_ram
load_binary-safe a n s (hc, hl) ha = simp (hc, loaded a n s.ram ha hl) refl

pub store_binary-safe :
    (a : ℕ) (bytes : List ℕ) (s : System)
    → IsSafe s
    → a + length bytes ≤ s.ram.size
    → store_binary a bytes s ≡ (ok tt, set_memory (put_bytes s.ram.memory a bytes) s)
unfolding store_binary on_ram
store_binary-safe a bytes s (hc, hl) ha = simp (hc, stored a bytes s.ram ha) refl

pub load_binary-safe_mmio :
    (a n : ℕ) (s : System)
    → IsSafeMmio s
    → a + n ≤ s.ram.size
    → load_binary a n s ≡ (ok (bytes_from s.ram.memory a n), s)
unfolding load_binary SafeMmio.load_binary on_ram
load_binary-safe_mmio a n s (hc, hl) ha = simp (hc, loaded a n s.ram ha hl) refl

pub store_binary-safe_mmio :
    (a : ℕ) (bytes : List ℕ) (s : System)
    → IsSafeMmio s
    → a + length bytes ≤ s.ram.size
    → store_binary a bytes s ≡ (ok tt, set_memory (put_bytes s.ram.memory a bytes) s)
unfolding store_binary SafeMmio.store_binary on_ram
store_binary-safe_mmio a bytes s (hc, hl) ha = simp (hc, stored a bytes s.ram ha) refl
