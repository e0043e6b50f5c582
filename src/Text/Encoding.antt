-- ===== src/Text/Encoding.antt =====
-- `str.encode()`, which is UTF-8.
use riscv_python.Prelude.{
  ℕ, ◌+◌, ◌/◌, ◌%◌, ◌^◌, ◌<◌, ◌≡◌, ◌&&◌, refl, Option, none, some, List, [], ◌∷◌, ◌++◌, ltb, leb,
  if◌then◌else◌, arith,
}
use riscv_python.Text.Lists.{Text, All}

-- The bytes of a code point. The first byte of several says how many there are.
unfoldable pub utf_8 : ℕ → List ℕ
utf_8 c =
    let last = (0x80 + c % 2 ^ 6) ∷ [] in
    let third = (0x80 + c / 2 ^ 6 % 2 ^ 6) ∷ last in
    if ltb c 0x80
    then c ∷ []
    else if ltb c 0x800
    then (0xC0 + c / 2 ^ 6) ∷ last
    else if ltb c 0x10000
    then (0xE0 + c / 2 ^ 12) ∷ third
    else (0xF0 + c / 2 ^ 18) ∷ (0x80 + c / 2 ^ 12 % 2 ^ 6) ∷ third

-- The bytes of a text, or none where a surrogate stands in it, which raises `UnicodeEncodeError`.
unfoldable pub encode_utf_8 : Text → Option (List ℕ)
unfolding utf_8
encode_utf_8 [] = some []
encode_utf_8 (c ∷ s) =
    let rest : Option (List ℕ) = elim (encode_utf_8 s) [
      | none ↦ none
      | some bytes ↦ some (utf_8 c ++ bytes)
    ] in
    if leb 0xD800 c && ltb c 0xE000 then none else rest

-- An ASCII text is its own encoding.
pub encode_utf_8-ascii : (s : Text) → All (λ c. c < 2 ^ 7) s → encode_utf_8 s ≡ some s
unfolding encode_utf_8
encode_utf_8-ascii [] h = refl
encode_utf_8-ascii (c ∷ s) (h, hs) = rw (encode_utf_8-ascii s hs) (ground arith)
