-- ===== src/Text/Words.antt =====
-- `bytes.fromhex`, `str.split` and `bytes.hex` of Python.
use riscv_python.Prelude.{
  ℕ, ◌+◌, ◌*◌, Bool, true, ◌&&◌, ◌||◌, Option, none, some, List, [], ◌∷◌, ◌++◌, leb, ltb, ◌==◌,
  if◌then◌else◌,
}
use riscv_python.Text.Lists.{Text}
use riscv_python.Text.Number.{digit_value}
use riscv_python.Text.Hex.{hex_02}

-- What `str.isspace` says of an ASCII character.
unfoldable pub is_space : ℕ → Bool
is_space c = c == 32 || (leb 9 c && leb c 13) || (leb 28 c && leb c 31)

abbrev before : ℕ → Option Text → Option Text
before b none = none
before b (some bs) = some (b ∷ bs)

-- `bytes.fromhex(s)`: pairs of digits, with blanks between the pairs; none is `ValueError`.
unfoldable pub from_hex : Text → Option Text
unfolding digit_value
from_hex [] = some []
from_hex (c ∷ []) = if c == 32 || (leb 9 c && leb c 13) then some [] else none
from_hex (c ∷ d ∷ s) =
    let skip = from_hex (d ∷ s) in
    let rest = from_hex s in
    if c == 32 || (leb 9 c && leb c 13)
    then skip
    else if ltb (digit_value c) 16 && ltb (digit_value d) 16
    then before (digit_value c * 16 + digit_value d) rest
    else none

-- `.decode('ascii')`, which raises on any other byte.
abbrev pub all_ascii : Text → Bool
all_ascii [] = true
all_ascii (c ∷ s) = ltb c 128 && all_ascii s

-- A character is put before the first word, or is a word of its own in front of a space.
unfoldable pub push_char : ℕ → Bool → List Text → List Text
push_char c true ws = (c ∷ []) ∷ ws
push_char c _ [] = (c ∷ []) ∷ []
push_char c _ (w ∷ ws) = (c ∷ w) ∷ ws

abbrev starts_with_space : Text → Bool
starts_with_space [] = true
starts_with_space (c ∷ s) = is_space c

-- `s.split()`, which `s.strip()` does not change.
unfoldable pub words : Text → List Text
unfolding is_space push_char
words [] = []
words (c ∷ s) =
    let rest = words s in if is_space c then rest else push_char c (starts_with_space s) rest

-- `text.encode('ascii').hex()`
unfoldable pub encode_hex : Text → Text
unfolding hex_02
encode_hex [] = []
encode_hex (c ∷ s) = hex_02 c ++ encode_hex s
