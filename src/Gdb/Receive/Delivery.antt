-- ===== src/Gdb/Receive/Delivery.antt =====
-- Packets that are sent by `encode` and received by `recv_packet`.
use riscv_python.Prelude.{
  ℕ, ◌/◌, ◌%◌, ◌<◌, ◌≡◌, ◌≢◌, refl, sym, ap, ◌∙◌, inl, inr, true, false, Bool-cases, none, some,
  List, [], ◌∷◌, ◌++◌, leb, arith, bit_xor,
}
use mathlib.Core.List.{append_assoc, append-nil}
use riscv_python.State.{ok}
use riscv_python.Text.{Text, codes, All, hex_02, hex_digit, hex_02-eq-digits}
use riscv_python.Gdb.Packet.{decode, encode, escape, checksum, is_special}
use riscv_python.Gdb.Packet.RoundTrip.{IsQuiet, decode-encode, checksum-lt, special_cases}
use riscv_python.Gdb.Receive.{
  Incoming, byte, idle, inside, stay, on_char, conclude, receive, recv_packet,
}

-- The characters of a text, one after the other, and then what follows.
abbrev pub sent : Text → List Incoming → List Incoming
sent [] rest = rest
sent (c ∷ s) rest = byte c ∷ sent s rest

-- A character that is collected inside a packet.
abbrev pub IsPlain : ℕ → Type 0
IsPlain c = (c < 128) × (c ≢ 3) × IsQuiet c

on_plain :
    (buffer : Text) (c : ℕ)
    → IsPlain c
    → on_char (inside buffer) c ≡ stay (inside (buffer ++ c ∷ []))
unfolding on_char
on_plain buffer c h = ground arith

receive_body :
    (s buffer out : Text) (rest : List Incoming)
    → All IsPlain s
    → receive (sent s rest) (inside buffer) out ≡ receive rest (inside (buffer ++ s)) out
unfolding receive
receive_body [] buffer out rest h = rw append-nil refl
receive_body (c ∷ s) buffer out rest (h, hs) =
    rw (on_plain buffer c h, receive)
      (receive_body s (buffer ++ c ∷ []) out rest hs ∙ rw append_assoc refl)

-- A whole packet, with any checksum of two characters.
receive_packet :
    (s out : Text) (h l : ℕ) (rest : List Incoming)
    → All IsPlain s
    → h < 128
    → l < 128
    → receive (byte b'$' ∷ sent s (byte b'#' ∷ byte h ∷ byte l ∷ rest)) idle out
      ≡ conclude
          (decode (((b'$' ∷ s) ++ b'#' ∷ []) ++ h ∷ l ∷ []))
          rest
          out
          (receive rest idle (out ++ b'-' ∷ []))
unfolding receive
receive_packet s out h l rest plain hh hl =
    let first : leb 128 h ≡ false = ground arith in
    let second : leb 128 l ≡ false = ground arith in
    receive_body s (b'$' ∷ []) out (byte b'#' ∷ byte h ∷ byte l ∷ rest) plain
    ∙ rw (first, second, receive) refl

-- A text of ASCII characters, without `#` and without the character of an interrupt.
abbrev pub IsClean : ℕ → Type 0
IsClean c = (c < 128) × (c ≢ 3) × (c ≢ b'#')

toggle-IsPlain : (c : ℕ) → is_special c ≡ true → IsClean c → IsPlain (bit_xor c 0x20)
toggle-IsPlain c t h = elim (special_cases c t) [
  | inl e ↦ absurd (h.2 e)
  | inr r ↦ elim r [
    | inl e ↦ rw e (omega arith)
    | inr q ↦ elim q [ inl e ↦ rw e (omega arith) | inr e ↦ rw e (omega arith) ]
  ]
]

escape-IsPlain : (s : Text) → All IsClean s → All IsPlain (escape s)
unfolding escape
escape-IsPlain [] h = tt
escape-IsPlain (c ∷ s) (h, hs) = elim (Bool-cases (is_special c)) [
  | inl t ↦ rw t (omega arith, (toggle-IsPlain c t h, escape-IsPlain s hs))
  | inr f ↦ rw f (ground arith, escape-IsPlain s hs)
]

sent-append : (s t : Text) (rest : List Incoming) → sent (s ++ t) rest ≡ sent s (sent t rest)
sent-append [] t rest = refl
sent-append (c ∷ s) t rest = ap (λ (r : List Incoming). byte c ∷ r) (sent-append s t rest)

-- What is skipped between packets, the acknowledgements among it.
abbrev pub IsNoise : ℕ → Type 0
IsNoise c = (c < 128) × (c ≢ 3) × (c ≢ b'$')

on_noise : (c : ℕ) → IsNoise c → on_char idle c ≡ stay idle
unfolding on_char
on_noise c h = ground arith

receive_noise :
    (s out : Text) (rest : List Incoming)
    → All IsNoise s
    → receive (sent s rest) idle out ≡ receive rest idle out
unfolding receive
receive_noise [] out rest h = refl
receive_noise (c ∷ s) out rest (h, hs) = rw (on_noise c h, receive) (receive_noise s out rest hs)

hex_digit-lt : (d : ℕ) → d < 16 → hex_digit d < 128
unfolding hex_digit
hex_digit-lt d h = ground arith

-- An encoded text ends in two digits.
encode_parts :
    (s : Text)
    → (let n = checksum (escape s) in
        encode s ≡ ((b'$' ∷ escape s) ++ b'#' ∷ []) ++ hex_digit (n / 16) ∷ hex_digit (n % 16) ∷ [])
unfolding encode
encode_parts s =
    rw (hex_02-eq-digits (checksum (escape s)) (checksum-lt (escape s)), append_assoc) refl

-- An encoded text is one packet.
receive-encode :
    (s out : Text) (rest : List Incoming)
    → All IsClean s
    → receive (sent (encode s) rest) idle out
      ≡ (ok (some s), record { incoming = rest; outgoing = out ++ b'+' ∷ [] })
unfolding conclude
receive-encode s out rest clean =
    let n = checksum (escape s) in
    let h = hex_digit (n / 16) in
    let l = hex_digit (n % 16) in
    let low = checksum-lt (escape s) in
    let whole =
      receive_packet (escape s) out h l rest (escape-IsPlain s clean)
        (hex_digit-lt (n / 16) (omega arith)) (hex_digit-lt (n % 16) (omega arith)) in
    let back = ap decode (sym (encode_parts s)) ∙ decode-encode s in
    rw (encode_parts s, append_assoc, sent-append, whole, back) refl

-- After any noise, such as acknowledgements, `recv_packet` returns the text that the peer has sent
-- by `encode`, acknowledges it and leaves what comes after it, if the text is clean: it has neither
-- `#` nor the interrupt character.
pub recv_packet-encode :
    (noise s out : Text) (rest : List Incoming)
    → All IsNoise noise
    → All IsClean s
    → recv_packet (record { incoming = sent noise (sent (encode s) rest); outgoing = out })
      ≡ (ok (some s), record { incoming = rest; outgoing = out ++ b'+' ∷ [] })
unfolding recv_packet
recv_packet-encode noise s out rest quiet clean =
    receive_noise noise out (sent (encode s) rest) quiet ∙ receive-encode s out rest clean

-- A packet whose checksum is wrong is answered by a request to repeat it, and when the peer sends
-- the clean text then, that is what `recv_packet` returns.
pub recv_packet-resent :
    (bad s out : Text) (h l : ℕ) (rest : List Incoming)
    → All IsPlain bad
    → h < 128
    → l < 128
    → decode (((b'$' ∷ bad) ++ b'#' ∷ []) ++ h ∷ l ∷ []) ≡ none
    → All IsClean s
    → recv_packet (record {
      incoming = byte b'$' ∷ sent bad (byte b'#' ∷ byte h ∷ byte l ∷ sent (encode s) rest);
      outgoing = out;
    })
      ≡ (ok (some s), record { incoming = rest; outgoing = (out ++ b'-' ∷ []) ++ b'+' ∷ [] })
unfolding recv_packet conclude
recv_packet-resent bad s out h l rest plain hh hl wrong clean =
    receive_packet bad out h l (sent (encode s) rest) plain hh hl
    ∙ rw wrong (receive-encode s (out ++ b'-' ∷ []) rest clean)

escape-append : (s t : Text) → escape (s ++ t) ≡ escape s ++ escape t
unfolding escape
escape-append [] t = refl
escape-append (c ∷ s) t = elim (Bool-cases (is_special c)) [
  | inl b ↦ rw (b, escape-append s t) refl
  | inr b ↦ rw (b, escape-append s t) refl
]

-- A packet for a text with `#` is not delivered: escaping turns `#` into the interrupt character,
-- and `recv_packet` returns the interrupt that it takes this for, acknowledges nothing and leaves
-- the rest of the packet to be read.
pub recv_packet-interrupt :
    (s t out : Text) (rest : List Incoming)
    → All IsClean s
    → recv_packet (record { incoming = sent (encode (s ++ b'#' ∷ t)) rest; outgoing = out }) ≡ (
      ok (some (codes "interrupt")),
      record {
        incoming = sent (escape t ++ b'#' ∷ hex_02 (checksum (escape (s ++ b'#' ∷ t)))) rest;
        outgoing = out;
      },
    )
unfolding recv_packet receive encode
recv_packet-interrupt s t out rest clean =
    let n = checksum (escape (s ++ b'#' ∷ t)) in
    let after = b'}' ∷ 3 ∷ escape t in
    let tail = b'#' ∷ hex_02 n in
    let split : escape (s ++ b'#' ∷ t) ≡ escape s ++ after = escape-append s (b'#' ∷ t) in
    let text : escape (s ++ b'#' ∷ t) ++ tail ≡ escape s ++ (after ++ tail) =
      rw (split, append_assoc) refl in
    let body =
      receive_body (escape s) (b'$' ∷ []) out (sent (after ++ tail) rest)
        (escape-IsPlain s clean) in
    ap (λ (u : Text). receive (byte b'$' ∷ sent u rest) idle out) text
    ∙ ap (λ (l : List Incoming). receive l (inside (b'$' ∷ [])) out)
        (sent-append (escape s) (after ++ tail) rest)
    ∙ body
    ∙ refl
