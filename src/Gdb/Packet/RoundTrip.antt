-- ===== src/Gdb/Packet/RoundTrip.antt =====
-- Escaped and encoded packets, read back.
use riscv_python.Prelude.{
  ℕ, ◌^◌, ◌<◌, bit_xor, ◌≡◌, ◌≢◌, refl, ap, ◌∙◌, ◌⊎◌, inl, inr, true, false, Bool-cases, some, [],
  ◌∷◌, ◌++◌, ◌==◌, arith,
}
use riscv_python.Text.{
  All, All-map, cut-append, Text, take, cut, hex_02, hex_02-eq-digits, int_16-hex_02,
}
use riscv_python.Gdb.Packet.{
  checksum, is_special, escape, unescape, encode, decode, decode_parts, verify,
}

-- The four characters that are escaped.
pub special_cases :
    (c : ℕ) → is_special c ≡ true → (c ≡ b'#') ⊎ (c ≡ b'$') ⊎ (c ≡ b'}') ⊎ (c ≡ b'*')
special_cases c h = ground arith

toggle_twice : (c : ℕ) → is_special c ≡ true → bit_xor (bit_xor c 0x20) 0x20 ≡ c
toggle_twice c h = elim (special_cases c h) [
  | inl e ↦ rw e refl
  | inr r ↦ elim r [ inl e ↦ rw e refl | inr q ↦ elim q [ inl e ↦ rw e refl | inr e ↦ rw e refl ] ]
]

unescape_escaped :
    (c : ℕ) (s : Text) → is_special c ≡ true → unescape (b'}' ∷ bit_xor c 0x20 ∷ s) ≡ c ∷ unescape s
unfolding unescape
unescape_escaped c s h = ap (λ d. d ∷ unescape s) (toggle_twice c h)

-- A plain character stays, whatever follows it.
unescape_plain : (c : ℕ) (s : Text) → (c == b'}') ≡ false → unescape (c ∷ s) ≡ c ∷ unescape s
unfolding unescape
unescape_plain c [] h = refl
unescape_plain c (d ∷ s) h = rw h refl

-- `unescape` gives back every text that `escape` was given.
pub unescape-escape : (s : Text) → unescape (escape s) ≡ s
unfolding escape
unescape-escape [] = unfold unescape in refl
unescape-escape (c ∷ s) = elim (Bool-cases (is_special c)) [
  | inl t ↦ rw t (unescape_escaped c (escape s) t ∙ ap (λ (u : Text). c ∷ u) (unescape-escape s))
  | inr f ↦
      let plain : (c == b'}') ≡ false = ground arith in
      rw f (unescape_plain c (escape s) plain ∙ ap (λ (t : Text). c ∷ t) (unescape-escape s))
]

-- A character that does not end a packet, begin one or stand for an interrupt.
abbrev pub IsQuiet : ℕ → Type 0
IsQuiet c = (c ≢ b'#') × (c ≢ b'$')

toggle-IsQuiet : (c : ℕ) → is_special c ≡ true → IsQuiet (bit_xor c 0x20)
toggle-IsQuiet c h = elim (special_cases c h) [
  | inl e ↦ rw e (omega arith)
  | inr r ↦ elim r [
    | inl e ↦ rw e (omega arith)
    | inr q ↦ elim q [ inl e ↦ rw e (omega arith) | inr e ↦ rw e (omega arith) ]
  ]
]

pub escape-IsQuiet : (s : Text) → All IsQuiet (escape s)
unfolding escape
escape-IsQuiet [] = tt
escape-IsQuiet (c ∷ s) = elim (Bool-cases (is_special c)) [
  | inl t ↦ rw t (omega arith, (toggle-IsQuiet c t, escape-IsQuiet s))
  | inr f ↦ rw f (ground arith, escape-IsQuiet s)
]

cut-escape : (s t : Text) → cut b'#' (escape s ++ b'#' ∷ t) ≡ some (escape s, t)
cut-escape s t =
    cut-append b'#' (escape s) t (All-map IsQuiet _ (λ c h. h.0) (escape s) (escape-IsQuiet s))

pub checksum-lt : (s : Text) → checksum s < 2 ^ 8
unfolding checksum
checksum-lt s = omega arith

take_two : (n : ℕ) → n < 2 ^ 8 → take 2 (hex_02 n) ≡ hex_02 n
take_two n h = rw (hex_02-eq-digits n h) refl

-- `decode` gives back every text that `encode` was given, whatever characters it holds.
pub decode-encode : (s : Text) → decode (encode s) ≡ some s
unfolding decode encode decode_parts verify
decode-encode s =
    let n = checksum (escape s) in
    let h = checksum-lt (escape s) in
    let same : (n == n) ≡ true = ground arith in
    rw (cut-escape s (hex_02 n), take_two n h, int_16-hex_02 n h, same, unescape-escape s) refl
