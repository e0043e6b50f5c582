-- ===== src/Text/Hex.antt =====
-- The format `02x` of Python, and what `int(s, 16)` makes of it.
use riscv_python.Prelude.{
  ℕ, zero, suc, ◌+◌, ◌-◌, ◌/◌, ◌%◌, ◌^◌, ◌<◌, ◌≡◌, refl, Bool, true, Option, none, some, [], ◌∷◌,
  ltb, ◌==◌, if◌then◌else◌, holds_below, holds_below_at, arith,
}
use riscv_python.Prelude.Int.{ℤ, pos, negsuc}
use riscv_python.Text.Lists.{Text}
use riscv_python.Text.Number.{int_16}

unfoldable pub hex_digit : ℕ → ℕ
hex_digit d = if ltb d 10 then b'0' + d else b'a' + (d - 10)

-- The digits of a number before `acc`, on enough fuel.
unfoldable pub hex_digits : ℕ → ℕ → Text → Text
unfolding hex_digit
hex_digits zero n acc = acc
hex_digits (suc fuel) n acc =
    let more = hex_digits fuel (n / 16) (hex_digit (n % 16) ∷ acc) in
    if ltb n 16 then hex_digit n ∷ acc else more

-- `f"{n:02x}"`
unfoldable pub hex_02 : ℕ → Text
unfolding hex_digits hex_digit
hex_02 n = if ltb n 16 then b'0' ∷ hex_digit n ∷ [] else hex_digits n n []

-- `n` in `width` hexadecimal digits, for a number that needs no more, before `acc`.
unfoldable pub hex_fixed : ℕ → ℕ → Text → Text
unfolding hex_digit
hex_fixed zero n acc = acc
hex_fixed (suc width) n acc = hex_fixed width (n / 16) (hex_digit (n % 16) ∷ acc)

-- Below 256 there are two digits.
pub hex_02-eq-digits : (n : ℕ) → n < 2 ^ 8 → hex_02 n ≡ hex_digit (n / 16) ∷ hex_digit (n % 16) ∷ []
unfolding hex_02
hex_02-eq-digits zero h = refl
hex_02-eq-digits (suc zero) h = refl
hex_02-eq-digits (suc (suc m)) h = ground arith

abbrev is_number : Option ℤ → ℕ → Bool
is_number (some (pos m)) n = m == n
is_number _ n = ltb 1 0

is_number_sound : (o : Option ℤ) (n : ℕ) → is_number o n ≡ true → o ≡ some (pos n)
is_number_sound (some (pos m)) n h = ground arith
is_number_sound (some (negsuc m)) n h = cc
is_number_sound none n h = cc

bytes_table : holds_below 256 (λ n. is_number (int_16 (hex_02 n)) n) ≡ true
unfolding holds_below int_16 hex_02
bytes_table = refl

pub int_16-hex_02 : (n : ℕ) → n < 2 ^ 8 → int_16 (hex_02 n) ≡ some (pos n)
int_16-hex_02 n h =
    is_number_sound (int_16 (hex_02 n)) n
      (holds_below_at 256 (λ n. is_number (int_16 (hex_02 n)) n) n bytes_table h)
