-- ===== src/Machine/Loader/Table.antt =====
-- Words and strings as the bytes that `setup_argv` writes, and how a program reads them.
use riscv_python.Prelude.{
  leb, false, ℕ, zero, suc, ◌+◌, ◌-◌, ◌/◌, ◌%◌, ◌^◌, ◌<◌, ◌≤◌, ◌≡◌, refl, some, List, [], ◌∷◌, ◌++◌,
  min, arith,
}
use riscv_python.State.{System, ok}
use riscv_python.Ram.Safe
use riscv_python.Ram.Mmio.{on_ram}
use riscv_python.Ram.Bytes.{
  bytes_from, put_bytes, put_word, word_at, length, slice, before_nul, text_or_error, read_cstring,
}
use riscv_python.Ram.Binary.{IsSafe, set_memory}
use riscv_python.Ram.RoundTrip.{store_word-put_word, load_word-word_at}
use riscv_python.Ram.Access.{store_word, load_word, load_cstring}
use riscv_python.Invariant.Defs.{AllBelow}
use riscv_python.Text.{Text, All}

-- The bytes of a word.
abbrev pub word_bytes : ℕ → List ℕ
word_bytes v = v % 2 ^ 8 ∷ v / 2 ^ 8 % 2 ^ 8 ∷ v / 2 ^ 16 % 2 ^ 8 ∷ v / 2 ^ 24 % 2 ^ 8 ∷ []

put_word-put_bytes :
    (m : ℕ → ℕ) (a v : ℕ) → put_word m a (v % 2 ^ 32) ≡ put_bytes m a (word_bytes v)
unfolding put_word put_bytes
put_word-put_bytes m a v =
    let b0 : v % 2 ^ 32 % 2 ^ 8 ≡ v % 2 ^ 8 = omega arith in
    let b1 : v % 2 ^ 32 / 2 ^ 8 % 2 ^ 8 ≡ v / 2 ^ 8 % 2 ^ 8 = omega arith in
    let b2 : v % 2 ^ 32 / 2 ^ 16 % 2 ^ 8 ≡ v / 2 ^ 16 % 2 ^ 8 = omega arith in
    let b3 : v % 2 ^ 32 / 2 ^ 24 % 2 ^ 8 ≡ v / 2 ^ 24 % 2 ^ 8 = omega arith in
    let a2 : a + 1 + 1 ≡ a + 2 = omega arith in
    let a3 : a + 2 + 1 ≡ a + 3 = omega arith in rw (b0, b1, b2, b3, a2, a3) refl

pub store_word-safe :
    (a v : ℕ) (s : System)
    → IsSafe s
    → a + 4 ≤ s.ram.size
    → store_word a v s ≡ (ok tt, set_memory (put_bytes s.ram.memory a (word_bytes v)) s)
unfolding store_word on_ram
store_word-safe a v s (hc, hl) ha =
    simp (hc, store_word-put_word a v s.ram ha hl, put_word-put_bytes s.ram.memory a v) refl

word_at-bytes_from :
    (m : ℕ → ℕ) (a v : ℕ) → v < 2 ^ 32 → bytes_from m a 4 ≡ word_bytes v → word_at m a ≡ v
unfolding word_at bytes_from
word_at-bytes_from m a v hv h =
    let a2 : a + 1 + 1 ≡ a + 2 = omega arith in
    let a3 : a + 2 + 1 ≡ a + 3 = omega arith in
    let h' : m a ∷ m (a + 1) ∷ m (a + 2) ∷ m (a + 3) ∷ [] ≡ word_bytes v = rw (a2, a3) at h in
    ground arith

pub load_word-safe :
    (a v : ℕ) (s : System)
    → IsSafe s
    → AllBelow (2 ^ 8) s.ram.memory
    → a + 4 ≤ s.ram.size
    → v < 2 ^ 32
    → bytes_from s.ram.memory a 4 ≡ word_bytes v
    → load_word a s ≡ (ok v, s)
unfolding load_word on_ram
load_word-safe a v s (hc, hl) hb ha hv h =
    simp (hc, load_word-word_at a s.ram ha hl hb, word_at-bytes_from s.ram.memory a v hv h) refl

-- A text of ASCII characters without NUL.
abbrev pub IsArg : Text → Type 0
IsArg arg = All (λ c. (0 < c) × (c < 2 ^ 7)) arg

before_nul-bytes_from :
    (arg : Text) (m : ℕ → ℕ) (a n : ℕ)
    → IsArg arg
    → length arg < n
    → bytes_from m a (length (arg ++ 0 ∷ [])) ≡ arg ++ 0 ∷ []
    → before_nul (bytes_from m a n) ≡ some arg
unfolding bytes_from before_nul
before_nul-bytes_from arg m a zero ha hn h = absurd (omega arith)
before_nul-bytes_from [] m a (suc n) ha hn h = ground arith
before_nul-bytes_from (c ∷ arg) m a (suc n) (hc, ha) hn h =
    let rest : bytes_from m (a + 1) (length (arg ++ 0 ∷ [])) ≡ arg ++ 0 ∷ [] = cc in
    ground (arith, before_nul-bytes_from arg m (a + 1) n ha (omega arith) rest)

pub load_cstring-safe :
    (arg : Text) (a n : ℕ) (s : System)
    → IsSafe s
    → IsArg arg
    → a + length arg < s.ram.size
    → length arg < n
    → bytes_from s.ram.memory a (length (arg ++ 0 ∷ [])) ≡ arg ++ 0 ∷ []
    → load_cstring a n s ≡ (ok arg, s)
unfolding load_cstring on_ram Safe.load_cstring read_cstring text_or_error slice
load_cstring-safe arg a n s (hc, hl) ha hs hn h =
    let count = min (min (a + n) s.ram.size) s.ram.memory_len - a in
    let found = before_nul-bytes_from arg s.ram.memory a count ha (ground arith) h in
    let inside : leb s.ram.size a ≡ false = ground arith in simp (hc, inside, found) refl
