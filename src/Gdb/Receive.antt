-- ===== src/Gdb/Receive.antt =====
-- `recv_packet` of class `GDBStub` in gdbstub.py. The connection is the list of what arrives:
-- characters and pauses, where `recv(2)` returns what has come so far. After the list the peer
-- has closed it.
pub mod Delivery
use riscv_python.Prelude.{
  ℕ, Bool, ◌||◌, Option, none, some, List, [], ◌∷◌, ◌++◌, leb, ◌==◌, if◌then◌else◌,
}
use riscv_python.State.{Result, ok, err, value_error}
use riscv_python.Text.{Text, codes}
use riscv_python.Gdb.Packet.{decode}

pub data Incoming : Type 0 where
  byte : ℕ → Incoming
  pause : Incoming

-- `client_socket`: what will arrive, and what has been sent.
pub record Link : Type 0 where
  pub incoming : List Incoming
  pub outgoing : Text

-- Outside of a packet; inside, with `buffer`; after `#`, with none and with one character of the
-- checksum.
pub data Mode : Type 0 where
  idle : Mode
  inside : Text → Mode
  wants_two : Text → Mode
  wants_one : Text → ℕ → Mode

-- What comes of one character. `stay` goes on, `take_packet` has the whole packet.
pub data Action : Type 0 where
  stay : Mode → Action
  take_packet : Text → Action
  interrupted undecodable : Action

unfoldable pub on_char : Mode → ℕ → Action
on_char (wants_two buffer) c = if leb 128 c then undecodable else stay (wants_one buffer c)
on_char (wants_one buffer d) c =
    if leb 128 c then undecodable else take_packet (buffer ++ d ∷ c ∷ [])
on_char idle c =
    if leb 128 c
    then undecodable
    else if c == 3
    then interrupted
    else if c == b'$'
    then stay (inside (c ∷ []))
    else stay idle
on_char (inside buffer) c =
    if leb 128 c
    then undecodable
    else if c == 3
    then interrupted
    else if c == b'$'
    then stay (inside (c ∷ []))
    else if c == b'#'
    then stay (wants_two (buffer ++ c ∷ []))
    else stay (inside (buffer ++ c ∷ []))

-- A packet that decodes is acknowledged and returned; otherwise the peer is asked to repeat it,
-- and `again` waits for the next one.
unfoldable pub conclude :
    Option Text → List Incoming → Text → Result (Option Text) × Link → Result (Option Text) × Link
conclude none rest out again = again
conclude (some s) rest out again =
    (ok (some s), record { incoming = rest; outgoing = out ++ b'+' ∷ [] })

unfoldable pub receive : List Incoming → Mode → Text → Result (Option Text) × Link
unfolding on_char conclude
receive [] idle out = (ok none, record { incoming = []; outgoing = out })
receive [] (inside buffer) out = (ok none, record { incoming = []; outgoing = out })
receive [] (wants_two buffer) out =
    conclude (decode buffer) [] out (ok none, record { incoming = []; outgoing = out ++ b'-' ∷ [] })
receive [] (wants_one buffer d) out =
    conclude (decode (buffer ++ d ∷ [])) [] out
      (ok none, record { incoming = []; outgoing = out ++ b'-' ∷ [] })
receive (pause ∷ rest) (wants_one buffer d) out =
    conclude (decode (buffer ++ d ∷ [])) rest out (receive rest idle (out ++ b'-' ∷ []))
receive (pause ∷ rest) mode out = receive rest mode out
receive (byte c ∷ rest) mode out = elim (on_char mode c) [
  | stay mode' ↦ receive rest mode' out
  | take_packet buffer ↦ conclude (decode buffer) rest out (receive rest idle (out ++ b'-' ∷ []))
  | interrupted ↦ (ok (some (codes "interrupt")), record { incoming = rest; outgoing = out })
  | undecodable ↦ (err value_error, record { incoming = rest; outgoing = out })
]

unfoldable pub recv_packet : Link → Result (Option Text) × Link
unfolding receive
recv_packet link = receive link.incoming idle link.outgoing
