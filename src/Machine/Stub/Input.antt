-- ===== src/Machine/Stub/Input.antt =====
-- What arrives on the connection is consumed, never more than is there.
use riscv_python.Prelude.{
  ℕ, zero, suc, ◌+◌, ◌%◌, ◌^◌, ◌≤◌, ◌<◌, Bool, true, false, Option, none, some, List, [], ◌∷◌, ◌++◌,
  ◌==◌, if◌then◌else◌, arith,
}
use riscv_python.State.{System, Result, ok, err, Exec, value_error}
use riscv_python.State.Leaves.{
  Leaves, Leaves-unit, Leaves-ok, Leaves-err, Leaves-if, Leaves-bind, Leaves-state, Any, if-keeps,
}
use riscv_python.Ram.Bytes.{length}
use riscv_python.Cpu.System.{EcallHandler}
use riscv_python.Text.{Text, codes}
use riscv_python.Gdb.Packet.{decode}
use riscv_python.Gdb.Receive.{
  Incoming, byte, pause, Link, Mode, idle, inside, wants_two, wants_one, stay, take_packet,
  interrupted, undecodable, on_char, conclude, receive,
}
use riscv_python.Machine.{Options}
use riscv_python.Machine.Debug.{
  Debugger, poll, check_for_interrupt, count_cycle, stop_if, on_system, step_instruction,
  single_step, count_device_round, free_round, debug_round, debug_rounds, run_with_gdb,
}

-- A packet leaves at most `n` pieces of input.
abbrev AtMost : ℕ → Result (Option Text) × Link → Type 0
AtMost n (ok (some cmd), link) = length link.incoming ≤ n
AtMost n _ = Unit

conclude-AtMost :
    (n : ℕ) (o : Option Text) (rest : List Incoming) (out : Text)
    (again : Result (Option Text) × Link)
    → length rest ≤ n
    → AtMost n again
    → AtMost n (conclude o rest out again)
unfolding conclude
conclude-AtMost n none rest out again h ha = ha
conclude-AtMost n (some s) rest out again h ha = h

Received : List Incoming → Type 0
Received l = (mode : Mode) (out : Text) → AtMost (length l) (receive l mode out)

-- One piece is gone whatever it is.
receive_next :
    (x : Incoming) (rest : List Incoming) (mode : Mode) (out : Text)
    → Received rest
    → AtMost (length rest) (receive (x ∷ rest) mode out)
unfolding receive Received
receive_next pause rest idle out h = h idle out
receive_next pause rest (inside buffer) out h = h (inside buffer) out
receive_next pause rest (wants_two buffer) out h = h (wants_two buffer) out
receive_next pause rest (wants_one buffer d) out h =
    conclude-AtMost (length rest) (decode (buffer ++ d ∷ [])) rest out
      (receive rest idle (out ++ b'-' ∷ [])) (omega arith) (h idle (out ++ b'-' ∷ []))
receive_next (byte c) rest mode out h =
    elim (on_char mode c)
      as (λ a. AtMost (length rest) (elim a as (λ x. Result (Option Text) × Link) [
        | stay mode' ↦ receive rest mode' out
        | take_packet buffer ↦
            conclude (decode buffer) rest out (receive rest idle (out ++ b'-' ∷ []))
        | interrupted ↦ (ok (some (codes "interrupt")), record { incoming = rest; outgoing = out })
        | undecodable ↦ (err value_error, record { incoming = rest; outgoing = out })
      ])) [
        | stay mode' ↦ h mode' out
        | take_packet buffer ↦
            conclude-AtMost (length rest) (decode buffer) rest out
              (receive rest idle (out ++ b'-' ∷ [])) (omega arith) (h idle (out ++ b'-' ∷ []))
        | interrupted ↦ omega arith
        | undecodable ↦ tt
      ]

AtMost-suc : (n : ℕ) (x : Result (Option Text) × Link) → AtMost n x → AtMost (suc n) x
AtMost-suc n (ok (some cmd), link) h = omega arith
AtMost-suc n (ok none, link) h = tt
AtMost-suc n (err e, link) h = tt

receive-AtMost : (l : List Incoming) → Received l
unfolding Received receive
receive-AtMost [] idle out = tt
receive-AtMost [] (inside buffer) out = tt
receive-AtMost [] (wants_two buffer) out =
    conclude-AtMost 0 (decode buffer) [] out
      (ok none, record { incoming = []; outgoing = out ++ b'-' ∷ [] }) (omega arith) tt
receive-AtMost [] (wants_one buffer d) out =
    conclude-AtMost 0 (decode (buffer ++ d ∷ [])) [] out
      (ok none, record { incoming = []; outgoing = out ++ b'-' ∷ [] }) (omega arith) tt
receive-AtMost (x ∷ rest) mode out =
    AtMost-suc (length rest) (receive (x ∷ rest) mode out)
      (receive_next x rest mode out (receive-AtMost rest))

-- A packet takes at least one piece.
abbrev pub Takes : ℕ → Result (Option Text) × Link → Type 0
Takes n (ok (some cmd), link) = length link.incoming < n
Takes n _ = Unit

Takes-suc : (n : ℕ) (x : Result (Option Text) × Link) → AtMost n x → Takes (suc n) x
Takes-suc n (ok (some cmd), link) h = omega arith
Takes-suc n (ok none, link) h = tt
Takes-suc n (err e, link) h = tt

pub receive-Takes : (l : List Incoming) (out : Text) → Takes (length l) (receive l idle out)
unfolding receive
receive-Takes [] out = tt
receive-Takes (x ∷ rest) out =
    Takes-suc (length rest) (receive (x ∷ rest) idle out)
      (receive_next x rest idle out (receive-AtMost rest))

-- What arrives later is not more.
abbrev pub Within : ℕ → Debugger → Type 0
Within n d = length d.link.incoming ≤ n

poll-shorter : (l : List Incoming) → length (poll l).1 ≤ length l
unfolding poll
poll-shorter (byte c ∷ rest) =
    if-keeps (λ (p : Bool × List Incoming). length p.1 ≤ suc (length rest)) (c == 3) (true, rest)
      (false, byte c ∷ rest) (omega arith) (omega arith)
poll-shorter (pause ∷ rest) = omega arith
poll-shorter [] = omega arith

stop_if-Leaves :
    (n : ℕ) (b : Bool) (d : Debugger) → Within n d → Leaves (Within n) Any (stop_if b d)
stop_if-Leaves n true d h = Leaves-err _ _ h
stop_if-Leaves n false d h = Leaves-unit _ h

count_cycle-Leaves : (n : ℕ) (d : Debugger) → Within n d → Leaves (Within n) Any (count_cycle d)
unfolding count_cycle check_for_interrupt
count_cycle-Leaves n d h =
    let shorter = poll-shorter d.link.incoming in
    Leaves-if ((d.cycle_count + 1) % 2 ^ 12 == 0) _ _
      (stop_if-Leaves n (poll d.link.incoming).0 _ (omega arith)) (Leaves-unit _ h)

on_system-Leaves :
    {A : Type 0} (n : ℕ) (m : Exec System A) (d : Debugger)
    → Within n d
    → Leaves (Within n) Any (on_system m d)
on_system-Leaves n m d h = Leaves-state (on_system m d) h

module _ (handle_ecall : EcallHandler) (peripherals_run : Exec System (Unit {0})) (o : Options)
    (n : ℕ) where
  count_device_round-Leaves :
      (d : Debugger)
      → Within n d
      → Leaves (Within n) Any (count_device_round handle_ecall peripherals_run d)
  unfolding count_device_round
  count_device_round-Leaves d h =
      let next = record d { div = d.div + 1 } in
      Leaves-if ((d.div + 1) % 2 ^ 8 == 0) _ _
        (Leaves-bind Any _ _ (on_system-Leaves n peripherals_run next h) λ _ s _ h. Leaves-unit _ h)
        (Leaves-unit _ h)

  free_round-Leaves :
      (d : Debugger)
      → Within n d
      → Leaves (Within n) Any (free_round handle_ecall peripherals_run o d)
  unfolding free_round
  free_round-Leaves d h = Leaves-bind Any _ _ (count_cycle-Leaves n d h) λ _ d _ h.
      Leaves-bind Any _ _
        (on_system-Leaves n (step_instruction handle_ecall peripherals_run o.timer) d h)
        λ _ d _ h. Leaves-if o.mmio _ _ (count_device_round-Leaves d h) (Leaves-unit _ h)

  debug_round-Leaves :
      (d : Debugger)
      → Within n d
      → Leaves (Within n) Any (debug_round handle_ecall peripherals_run o d)
  unfolding debug_round
  debug_round-Leaves d h = Leaves-if _ _ _ (Leaves-err _ _ h) (free_round-Leaves d h)

  debug_rounds-Leaves :
      (rounds : ℕ) (d : Debugger)
      → Within n d
      → Leaves (Within n) Any (debug_rounds handle_ecall peripherals_run o rounds d)
  unfolding debug_rounds
  debug_rounds-Leaves zero d h = Leaves-ok _ _ tt h
  debug_rounds-Leaves (suc rounds) d h =
      Leaves-if d.session.running _ _
        (Leaves-bind Any _ _ (debug_round-Leaves d h) λ _ d _ h. debug_rounds-Leaves rounds d h)
        (Leaves-ok _ _ tt h)

  pub run_with_gdb-Leaves :
      (rounds : ℕ) (d : Debugger)
      → Within n d
      → Leaves (Within n) Any (run_with_gdb handle_ecall peripherals_run o rounds d)
  unfolding run_with_gdb single_step
  run_with_gdb-Leaves rounds d h =
      Leaves-if d.session.single_step _ _
        (Leaves-bind Any _ _
          (on_system-Leaves n (step_instruction handle_ecall peripherals_run o.timer) d h)
          λ _ d _ h.
            Leaves-bind Any _ _
              (on_system-Leaves n (λ s. if o.mmio then peripherals_run s else (ok tt, s)) d h)
              λ _ d _ h. Leaves-err _ _ h)
        (debug_rounds-Leaves rounds _ h)
