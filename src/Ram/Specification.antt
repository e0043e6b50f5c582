-- ===== src/Ram/Specification.antt =====
-- What class `SafeRAM` of ram.py promises: a row of bytes in which numbers stand with the lowest
-- byte first; and the methods of the class, as accesses of one kind.
use riscv_python.Prelude.{
  ℕ, zero, suc, ◌+◌, ◌*◌, ◌/◌, ◌%◌, ◌^◌, Bool, ◌&&◌, Option, none, some, List, [], ◌∷◌,
  if◌then◌else◌, leb,
}
use riscv_python.Prelude.Int.{ℤ, pos, ◌-ℤ◌}
use riscv_python.State.{Ram, Result, ok, err, Exec, memory_access_error}
use riscv_python.Ram.Bytes.{bytes_from, put_bytes}
use riscv_python.Ram.Safe.{load_byte, load_half, load_word, store_byte, store_half, store_word}

pub data Width : Type 0 where
  byte half word : Width

abbrev pub bytes_in : Width → ℕ
bytes_in byte = 1
bytes_in half = 2
bytes_in word = 4

-- An access: a load with its width, whether a sign is read, and its address, or a store with its
-- width, its address and the value.
pub data Access : Type 0 where
  loads : Width → Bool → ℕ → Access
  stores : Width → ℕ → ℕ → Access

-- A number and its bytes, the lowest first.
unfoldable pub little_endian : List ℕ → ℕ
little_endian [] = 0
little_endian (b ∷ bs) = b + 2 ^ 8 * little_endian bs

unfoldable pub digits : ℕ → ℕ → List ℕ
digits zero v = []
digits (suc n) v = v % 2 ^ 8 ∷ digits n (v / 2 ^ 8)

-- Two's complement, of `2 * bound` values.
abbrev pub signed_value : Bool → ℕ → ℕ → ℤ
signed_value signed bound v = if signed && leb bound v then pos v -ℤ pos (2 * bound) else pos v

-- A word is read without a sign.
abbrev pub value_read : Width → Bool → ℕ → ℤ
value_read byte signed v = signed_value signed (2 ^ 7) v
value_read half signed v = signed_value signed (2 ^ 15) v
value_read word signed v = pos v

abbrev pub Answer : Type 0
Answer = Result (Option ℤ)

-- What an access does with a row of `size` bytes.
unfoldable pub specified : ℕ → Access → Exec (ℕ → ℕ) (Option ℤ)
specified size (loads w signed addr) m =
    if leb (addr + bytes_in w) size
    then (ok (some (value_read w signed (little_endian (bytes_from m addr (bytes_in w))))), m)
    else (err memory_access_error, m)
specified size (stores w addr v) m =
    if leb (addr + bytes_in w) size
    then (ok none, put_bytes m addr (digits (bytes_in w) v))
    else (err memory_access_error, m)

abbrev pub loaded : Result ℤ × Ram → Answer × Ram
loaded (ok z, r) = (ok (some z), r)
loaded (err e, r) = (err e, r)

abbrev pub loaded_word : Result ℕ × Ram → Answer × Ram
loaded_word (ok n, r) = (ok (some (pos n)), r)
loaded_word (err e, r) = (err e, r)

abbrev pub stored : Result (Unit {0}) × Ram → Answer × Ram
stored (ok u, r) = (ok none, r)
stored (err e, r) = (err e, r)

-- What the methods of the class do.
unfoldable pub performed : Access → Exec Ram (Option ℤ)
performed (loads byte signed addr) r = loaded (load_byte addr signed r)
performed (loads half signed addr) r = loaded (load_half addr signed r)
performed (loads word signed addr) r = loaded_word (load_word addr r)
performed (stores byte addr v) r = stored (store_byte addr v r)
performed (stores half addr v) r = stored (store_half addr v r)
performed (stores word addr v) r = stored (store_word addr v r)

-- Accesses one after the other, with an answer for each; one that raises is followed by the next.
unfoldable pub in_turn :
    {S : Type 0} → (Access → Exec S (Option ℤ)) → List Access → S → List Answer × S
in_turn perform [] s = ([], s)
in_turn perform (a ∷ rest) s =
    let (x, s') = perform a s in let (xs, s'') = in_turn perform rest s' in (x ∷ xs, s'')
