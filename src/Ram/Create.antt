-- ===== src/Ram/Create.antt =====
-- The constructors of the RAM classes, and `initialize_ram`.
use riscv_python.Prelude.{ℕ, ◌+◌, ◌%◌, ◌^◌, ◌==◌, [], ltb, if◌then◌else◌}
use riscv_python.State.{Ram, RamClass, Result, ok, err, value_error, type_error}

-- The options --init-ram and --init-regs: `fill` has the number that `int(..., 0)` gave, modulo
-- 2 ^ 32, and `invalid` is a text that is no number.
pub data Init : Type 0 where
  zeroes random by_address invalid : Init
  fill : ℕ → Init

-- The bytes of a memory of a size, where `getrandbits` gives a byte for each address.
unfoldable pub initialize_ram : (ℕ → ℕ) → Init → ℕ → Result (ℕ → ℕ)
initialize_ram getrandbits zeroes size = ok (λ i. 0)
initialize_ram getrandbits random size = ok (λ i. if ltb i size then getrandbits i % 2 ^ 8 else 0)
initialize_ram getrandbits by_address size = ok (λ i. if ltb i size then i % 2 ^ 8 else 0)
initialize_ram getrandbits invalid size = err value_error
initialize_ram getrandbits (fill n) size = ok (λ i. if ltb i size then n % 2 ^ 8 else 0)

-- A memory with the four bytes of padding that every class has.
abbrev pub ram_with : RamClass → ℕ → ℕ → (ℕ → ℕ) → Ram
ram_with class size base_addr memory = record {
  ram_class = class;
  memory = memory;
  memory_len = size + 4;
  size = size;
  base_addr = base_addr;
  mmio_ranges = [];
}

abbrev pub filled : RamClass → ℕ → ℕ → Result (ℕ → ℕ) → Result Ram
filled class size base_addr (ok memory) = ok (ram_with class size base_addr memory)
filled class size base_addr (err e) = err e

-- The word view raises `TypeError` unless the bytearray, with its padding, consists of whole words;
-- it is made before the memory is filled.
unfoldable pub new_ram : (ℕ → ℕ) → RamClass → ℕ → ℕ → Init → Result Ram
unfolding initialize_ram
new_ram getrandbits class size base_addr init =
    if (size + 4) % 4 == 0
    then filled class size base_addr (initialize_ram getrandbits init size)
    else err type_error
