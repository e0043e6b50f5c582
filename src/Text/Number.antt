-- ===== src/Text/Number.antt =====
-- `int(s, 16)` and `int(s, 0)` of Python, for texts of ASCII characters: blanks around, a sign, `0x`, and single
-- underscores between digits are allowed. `none` is `ValueError`.
use riscv_python.Prelude.{
  ℕ, ◌+◌, ◌-◌, ◌*◌, ◌&&◌, ◌||◌, not, Bool, true, false, Option, none, some, [], ◌∷◌, leb, ltb, ◌==◌,
  if◌then◌else◌,
}
use riscv_python.Prelude.Int.{ℤ, pos, sub_ℕ}
use riscv_python.Text.Lists.{Text}

abbrev is_blank : ℕ → Bool
is_blank c = c == 32 || (leb 9 c && leb c 13)

-- The value of a digit or letter, 36 and more for any other character.
unfoldable pub digit_value : ℕ → ℕ
digit_value c =
    if leb b'0' c && leb c b'9'
    then c - b'0'
    else if leb b'a' c && leb c b'z'
    then c - b'a' + 10
    else if leb b'A' c && leb c b'Z'
    then c - b'A' + 10
    else 36

-- Whether only blanks are left.
unfoldable pub all_blank : Text → Bool
all_blank [] = true
all_blank (c ∷ s) = is_blank c && all_blank s

-- The digits and what may follow them; `wanted` is that a digit has to come.
unfoldable pub read_digits : ℕ → Bool → ℕ → Text → Option ℕ
unfolding digit_value all_blank
read_digits base wanted acc [] = if wanted then none else some acc
read_digits base wanted acc (c ∷ s) =
    let more = read_digits base false (acc * base + digit_value c) s in
    let gap = read_digits base true acc s in
    if ltb (digit_value c) base
    then more
    else if c == b'_' && not wanted
    then gap
    else if all_blank (c ∷ s) && not wanted
    then some acc
    else none

-- One underscore may follow the prefix `0x`.
unfoldable pub read_prefixed : ℕ → Text → Option ℕ
unfolding read_digits
read_prefixed base [] = none
read_prefixed base (c ∷ s) =
    if c == b'_' then read_digits base true 0 s else read_digits base true 0 (c ∷ s)

-- The number without its sign, in base 16.
unfoldable pub read_hex : Text → Option ℕ
unfolding read_digits read_prefixed
read_hex (z ∷ x ∷ s) =
    if z == b'0' && (x == b'x' || x == b'X')
    then read_prefixed 16 s
    else read_digits 16 true 0 (z ∷ x ∷ s)
read_hex s = read_digits 16 true 0 s

abbrev pub with_sign : Bool → Option ℕ → Option ℤ
with_sign negative none = none
with_sign true (some n) = some (sub_ℕ 0 n)
with_sign false (some n) = some (pos n)

unfoldable pub read_signed : (Text → Option ℕ) → Text → Option ℤ
read_signed read [] = none
read_signed read (c ∷ s) =
    if c == b'-'
    then with_sign true (read s)
    else if c == b'+'
    then with_sign false (read s)
    else with_sign false (read (c ∷ s))

-- The blanks at the start are skipped.
unfoldable pub read_int : (Text → Option ℕ) → Text → Option ℤ
unfolding read_signed
read_int read [] = none
read_int read (c ∷ s) =
    let rest = read_int read s in if is_blank c then rest else read_signed read (c ∷ s)

unfoldable pub int_16 : Text → Option ℤ
unfolding read_int read_hex
int_16 = read_int read_hex

-- A number that starts with 0 and has no prefix has to be zero.
abbrev pub only_zero : Option ℕ → Option ℕ
only_zero none = none
only_zero (some n) = if n == 0 then some 0 else none

-- The number without its sign, in the base that its prefix says.
unfoldable pub read_literal : Text → Option ℕ
unfolding read_digits read_prefixed
read_literal [] = none
read_literal (z ∷ []) = read_digits 10 true 0 (z ∷ [])
read_literal (z ∷ x ∷ s) =
    if not (z == b'0')
    then read_digits 10 true 0 (z ∷ x ∷ s)
    else if x == b'x' || x == b'X'
    then read_prefixed 16 s
    else if x == b'o' || x == b'O'
    then read_prefixed 8 s
    else if x == b'b' || x == b'B'
    then read_prefixed 2 s
    else only_zero (read_digits 10 true 0 (z ∷ x ∷ s))

unfoldable pub int_0 : Text → Option ℤ
unfolding read_int read_literal
int_0 = read_int read_literal
