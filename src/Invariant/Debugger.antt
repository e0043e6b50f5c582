-- ===== src/Invariant/Debugger.antt =====
-- Whatever a debugger asks for, the emulator's state stays well formed.
use riscv_python.Prelude.{
  ℕ, Bool, true, false, Option, none, some, List, [], ◌∷◌, ◌++◌, leb, ◌||◌, if◌then◌else◌,
}
use riscv_python.Prelude.Int.{ℤ, to_u32, to_u32-lt, pos_part}
use riscv_python.State.{Result, ok, err}
use riscv_python.State.Leaves.{Leaves, Leaves-ok, Leaves-err, Leaves-if, Leaves-state, Any}
use riscv_python.Text.{
  Text, codes, drop, int_16, int_0, from_hex, all_ascii, words, starts_with, same_text, first_part,
}
use riscv_python.Gdb.Session.{Session, Command}
use riscv_python.Gdb.Registers.{
  set_pc, cmd_read_registers, cmd_write_registers, cmd_read_register, cmd_write_register,
}
use riscv_python.Gdb.Memory.{cmd_read_memory, cmd_write_memory}
use riscv_python.Gdb.Control.{
  jump, start, cmd_continue, cmd_step, cmd_insert_breakpoint, cmd_remove_breakpoint, cmd_supported,
  cmd_halt_reason,
}
use riscv_python.Gdb.Monitor.{
  important_csrs, address_of, access_csr, csr_in_range, monitor_csr, monitor_words, cmd_monitor,
  line,
}
use riscv_python.Gdb.Dispatch.{respond, some_response, address_part, handle_query, handle_command}
use riscv_python.Invariant.Defs.{IsWf, set_csr-IsWf}
use riscv_python.Invariant.Commands.{
  Keeps, or_e01-Keeps, if-Keeps, set_pc-IsWf, cmd_write_registers-Keeps, cmd_read_register-Keeps,
  cmd_write_register-Keeps,
}
use riscv_python.Invariant.MemoryCommands.{cmd_read_memory-Keeps, cmd_write_memory-Keeps}

FineOption : Option Session → Type 0
FineOption none = Unit
FineOption (some s) = IsWf s.system

jump-Fine : (addr : Option Text) (s : Session) → IsWf s.system → FineOption (jump addr s)
unfolding jump FineOption
jump-Fine none s h = h
jump-Fine (some []) s h = h
jump-Fine (some (c ∷ t)) s h = go (int_16 (c ∷ t))
  where
    go :
        (o : Option ℤ)
        → FineOption
            (elim o as (λ x. Option Session) [ none ↦ none | some z ↦ some (set_pc (to_u32 z) s) ])
    go none = tt
    go (some z) = set_pc-IsWf (to_u32 z) s (to_u32-lt z) h

start-Keeps :
    (b : Bool) (o : Option Session) (s : Session)
    → IsWf s.system
    → FineOption o
    → IsWf (start b o s).1.system
unfolding FineOption
start-Keeps b none s h ho = h
start-Keeps b (some s') s h ho = ho

cmd_continue-Keeps : (addr : Option Text) → Keeps (cmd_continue addr)
unfolding cmd_continue
cmd_continue-Keeps addr s h = start-Keeps false (jump addr s) s h (jump-Fine addr s h)

cmd_step-Keeps : (addr : Option Text) → Keeps (cmd_step addr)
unfolding cmd_step
cmd_step-Keeps addr s h = start-Keeps true (jump addr s) s h (jump-Fine addr s h)

cmd_insert_breakpoint-Keeps : (params : Text) → Keeps (cmd_insert_breakpoint params)
unfolding cmd_insert_breakpoint
cmd_insert_breakpoint-Keeps params = or_e01-Keeps (int_16 (first_part b',' params)) _ λ addr s h. h

cmd_remove_breakpoint-Keeps : (params : Text) → Keeps (cmd_remove_breakpoint params)
unfolding cmd_remove_breakpoint
cmd_remove_breakpoint-Keeps params = or_e01-Keeps (int_16 (first_part b',' params)) _ λ addr s h. h

abbrev Good : Session → Type 0
Good s = IsWf s.system

option-Keeps :
    {A : Type 0} (o : Option A) (x : Result Text × Session) (f : A → Result Text × Session)
    → IsWf x.1.system
    → ((a : A) → IsWf (f a).1.system)
    → IsWf (elim o as (λ y. Result Text × Session) [ none ↦ x | some a ↦ f a ]).1.system
option-Keeps none x f hx hf = hx
option-Keeps (some a) x f hx hf = hf a

module _ (error : Command) (he : Keeps error) where
  access_csr-Keeps : (csr_addr : ℕ) (args : List Text) → Keeps (access_csr error csr_addr args)
  unfolding access_csr
  access_csr-Keeps csr_addr [] s h = h
  access_csr-Keeps csr_addr (value ∷ more) s h =
      option-Keeps (int_0 value) (error s) _ (he s h)
        λ val. set_csr-IsWf csr_addr (to_u32 val) s.system (to_u32-lt val) h

  csr_in_range-Keeps : (csr_addr : ℕ) (args : List Text) → Keeps (csr_in_range error csr_addr args)
  unfolding csr_in_range
  csr_in_range-Keeps csr_addr args s h =
      if-Keeps (leb 4096 csr_addr) (line (codes "CSR address out of range") s) _ h
        (access_csr-Keeps csr_addr args s h)

  monitor_csr-Keeps : (args : List Text) → Keeps (monitor_csr error args)
  unfolding monitor_csr
  monitor_csr-Keeps [] s h = h
  monitor_csr-Keeps (csr_arg ∷ args) s h =
      if-Keeps (starts_with csr_arg (codes "0x")) _ _
        (option-Keeps (int_16 csr_arg) (error s) _ (he s h)
          λ z. csr_in_range-Keeps (pos_part z) args s h)
        (option-Keeps (address_of important_csrs csr_arg)
          (line (codes "Unknown CSR: " ++ csr_arg) s) (λ addr. csr_in_range error addr args s) h
          λ addr. csr_in_range-Keeps addr args s h)

  monitor_words-Keeps : (ws : List Text) → Keeps (monitor_words error ws)
  unfolding monitor_words
  monitor_words-Keeps [] s h = h
  monitor_words-Keeps (word ∷ args) s h =
      (Leaves-if {P = Good} {Q = Any} (same_text word (codes "csr")) _ _
        (Leaves-state (monitor_csr error args s) (monitor_csr-Keeps args s h))
        (Leaves-if (same_text word (codes "help")) _ _ (Leaves-ok _ s tt h)
          (Leaves-ok _ s tt h))).state

cmd_monitor-Keeps :
    (error_text : Text → Text) (hex_cmd : Text) → Keeps (cmd_monitor error_text hex_cmd)
unfolding cmd_monitor
cmd_monitor-Keeps error_text hex_cmd s h =
    let error : Command = line (codes "Error: " ++ error_text hex_cmd) in
    option-Keeps (from_hex hex_cmd) (error s)
      (λ cmd. if all_ascii cmd then monitor_words error (words cmd) s else error s) h
      λ cmd.
        if-Keeps (all_ascii cmd) (monitor_words error (words cmd) s) (error s)
          (monitor_words-Keeps error (λ s h. h) (words cmd) s h) h

respond-Keeps : (m : Command) → Keeps m → Keeps (respond m)
respond-Keeps m hm s h = go (m s) (hm s h)
  where
    go : (x : Result Text × Session) → IsWf x.1.system → IsWf (some_response x).1.system
    go (ok t, s) h = h
    go (err e, s) h = h

-- A test of the command, and what stands behind it.
abbrev Serves : Result (Option Text) × Session → Type 0
Serves = Leaves Good Any

test :
    (b : Bool) (x y : Result (Option Text) × Session)
    → Serves x
    → (Unit {0} → Serves y)
    → Serves (if b then x else y)
test b x y hx hy = Leaves-if b x y hx (hy tt)

by_command : (m : Command) (s : Session) → Keeps m → IsWf s.system → Serves (respond m s)
by_command m s hm h = Leaves-state (respond m s) (respond-Keeps m hm s h)

said : (t : Text) (s : Session) → IsWf s.system → Serves (ok (some t), s)
said t s h = Leaves-ok (some t) s tt h

handle_query-Serves :
    (error_text : Text → Text) (cmd : Text) (s : Session)
    → IsWf s.system
    → Serves (handle_query error_text cmd s)
unfolding handle_query cmd_supported
handle_query-Serves error_text cmd s h =
    test (starts_with cmd (codes "qSupported")) _ _ (said _ s h) λ _.
      test (same_text cmd (codes "qAttached")) _ _ (said _ s h) λ _.
        test (same_text cmd (codes "qC")) _ _ (said _ s h) λ _.
          test (same_text cmd (codes "qfThreadInfo")) _ _ (said _ s h) λ _.
            test (same_text cmd (codes "qsThreadInfo")) _ _ (said _ s h) λ _.
              test (same_text cmd (codes "qOffsets")) _ _ (said _ s h) λ _.
                test (starts_with cmd (codes "qRcmd,")) _ _
                  (by_command (cmd_monitor error_text (drop 6 cmd)) s
                    (cmd_monitor-Keeps error_text (drop 6 cmd)) h)
                  λ _. test (same_text cmd (codes "vCont?")) _ _ (said _ s h) λ _.
                    test (same_text cmd (codes "vCont;c") || same_text cmd (codes "vCont;c:0")) _ _
                      (Leaves-state (cmd_continue none s) (cmd_continue-Keeps none s h))
                      λ _.
                        test (same_text cmd (codes "vCont;s") || same_text cmd (codes "vCont;s:0"))
                          _ _ (Leaves-state (cmd_step none s) (cmd_step-Keeps none s h))
                          λ _.
                            test (same_text cmd (codes "k")) _ _ (Leaves-err _ s h)
                              λ _. test (same_text cmd (codes "D")) _ _ (said _ s h) λ _. said _ s h

-- From a well-formed state every command of a debugger, well-formed or not, leads to a well-formed
-- state, whether it is answered, starts the program or raises an exception.
pub handle_command-IsWf :
    (error_text : Text → Text) (cmd : Text) (s : Session)
    → IsWf s.system
    → IsWf (handle_command error_text cmd s).1.system
unfolding handle_command cmd_halt_reason cmd_read_registers
handle_command-IsWf error_text cmd s h =
    let at = address_part cmd in
    let served : Serves (handle_command error_text cmd s) =
      test (same_text cmd (codes "?")) _ _ (said _ s h) λ _.
        test (same_text cmd (codes "g")) _ _ (said _ s h) λ _.
          test (starts_with cmd (codes "G")) _ _
            (by_command (cmd_write_registers (drop 1 cmd)) s
              (cmd_write_registers-Keeps (drop 1 cmd)) h)
            λ _.
              test (starts_with cmd (codes "p")) _ _
                (by_command (cmd_read_register (drop 1 cmd)) s
                  (cmd_read_register-Keeps (drop 1 cmd)) h)
                λ _.
                  test (starts_with cmd (codes "P")) _ _
                    (by_command (cmd_write_register (drop 1 cmd)) s
                      (cmd_write_register-Keeps (drop 1 cmd)) h)
                    λ _.
                      test (starts_with cmd (codes "m")) _ _
                        (by_command (cmd_read_memory (drop 1 cmd)) s
                          (cmd_read_memory-Keeps (drop 1 cmd)) h)
                        λ _.
                          test (starts_with cmd (codes "M")) _ _
                            (by_command (cmd_write_memory (drop 1 cmd)) s
                              (cmd_write_memory-Keeps (drop 1 cmd)) h)
                            λ _.
                              test (starts_with cmd (codes "c")) _ _
                                (Leaves-state (cmd_continue at s) (cmd_continue-Keeps at s h))
                                λ _.
                                  test (starts_with cmd (codes "s")) _ _
                                    (Leaves-state (cmd_step at s) (cmd_step-Keeps at s h))
                                    λ _.
                                      test (starts_with cmd (codes "Z0,")) _ _
                                        (by_command (cmd_insert_breakpoint (drop 3 cmd)) s
                                          (cmd_insert_breakpoint-Keeps (drop 3 cmd)) h)
                                        λ _.
                                          test (starts_with cmd (codes "z0,")) _ _
                                            (by_command (cmd_remove_breakpoint (drop 3 cmd)) s
                                              (cmd_remove_breakpoint-Keeps (drop 3 cmd)) h)
                                            λ _. handle_query-Serves error_text cmd s h in
    served.state
