-- ===== src/Gdb/Packet.antt =====
-- Class `GDBPacket` of gdbstub.py.
pub mod RoundTrip
use riscv_python.Prelude.{
  ℕ, zero, ◌+◌, ◌%◌, ◌^◌, bit_xor, Bool, ◌||◌, Option, none, some, [], ◌∷◌, ◌++◌, ◌==◌,
  if◌then◌else◌,
}
use riscv_python.Prelude.Int.{ℤ, pos, is_ℤ}
use riscv_python.Text.{Text, take, cut, int_16, hex_02}

unfoldable pub sum : Text → ℕ
sum [] = 0
sum (c ∷ s) = c + sum s

unfoldable pub checksum : Text → ℕ
unfolding sum
checksum s = sum s % 2 ^ 8

-- `c in ['#', '$', '}', '*']`
abbrev pub is_special : ℕ → Bool
is_special c = c == b'#' || c == b'$' || c == b'}' || c == b'*'

unfoldable pub escape : Text → Text
escape [] = []
escape (c ∷ s) =
    let rest = escape s in if is_special c then b'}' ∷ bit_xor c 0x20 ∷ rest else c ∷ rest

-- The index of the source advances by two over an escaped character.
unfoldable pub unescape : Text → Text
unescape [] = []
unescape (c ∷ []) = c ∷ []
unescape (c ∷ d ∷ s) =
    let escaped = bit_xor d 0x20 ∷ unescape s in
    let plain = c ∷ unescape (d ∷ s) in if c == b'}' then escaped else plain

unfoldable pub encode : Text → Text
unfolding escape checksum hex_02
encode s = let escaped = escape s in b'$' ∷ escaped ++ b'#' ∷ hex_02 (checksum escaped)

-- `expected_cs != actual_cs`, where the text of the checksum may be no number.
unfoldable pub verify : Option ℤ → Text → Option Text
unfolding unescape checksum
verify none s = none
verify (some expected) s = if is_ℤ expected (pos (checksum s)) then some (unescape s) else none

unfoldable pub decode_parts : Option (Text × Text) → Option Text
unfolding verify int_16
decode_parts none = none
decode_parts (some (s, checksum_str)) = verify (int_16 (take 2 checksum_str)) s

unfoldable pub decode : Text → Option Text
unfolding decode_parts cut
decode [] = none
decode (c ∷ s) = if c == b'$' then decode_parts (cut b'#' s) else none
