-- ===== src/Cpu/System.antt =====
-- `exec_SYSTEM` of cpu.py. The handler of system calls, `cpu.handle_ecall`, is a parameter.
use riscv_python.Prelude.{
  ℕ, ◌*◌, ◌^◌, bit_or, Bool, true, not, ◌||◌, Option, none, some, leb, ◌==◌, if◌then◌else◌,
}
use riscv_python.State.{
  System, Decoded, ok, err, Exec, execution_terminated, machine_error, set_csr, set_next_pc, ◌>>◌,
  apply,
}
use riscv_python.Bits.{bit, and_not}
use riscv_python.Ram.Access.{load_cstring}
use riscv_python.Cpu.Trap.{trap, bypassed_trap_return}
use riscv_python.Cpu.Control.{is_misaligned}
use riscv_python.Cpu.Csr.{exec_csr}

abbrev pub EcallHandler : Type 0
EcallHandler = Option (Exec System (Unit {0}))

-- The Python handler and the effects of a trap that it stands for.
unfoldable pub call_handler : EcallHandler → Exec System (Unit {0})
call_handler none s = (err machine_error, s)
call_handler (some handle) s = (do handle; apply (bypassed_trap_return 11 0)) s

unfoldable pub exec_ecall : EcallHandler → Exec System (Unit {0})
unfolding call_handler
exec_ecall handle_ecall s =
    if s.cpu.csrs 0x305 == 0 then call_handler handle_ecall s else trap 11 0 true s

-- MIE is what MPIE was, and MPIE is set.
unfoldable pub mret_mstatus : ℕ → ℕ
unfolding and_not
mret_mstatus mstatus = bit_or (bit_or (and_not mstatus 0x8) (bit mstatus 7 * 2 ^ 3)) (2 ^ 7)

unfoldable pub exec_mret : Exec System (Unit {0})
unfolding is_misaligned mret_mstatus set_csr set_next_pc
exec_mret s =
    let mepc = s.cpu.csrs 0x341 in
    if is_misaligned s mepc
    then trap 0 mepc true s
    else apply (λ s. set_csr 0x300 (mret_mstatus (s.cpu.csrs 0x300)) (set_next_pc mepc s)) s

-- The logging calls, `a7 >= 0xFFFF0000`: the text is left out, its load may raise.
unfoldable pub ebreak_log : ℕ → Exec System (Unit {0})
ebreak_log a7 s =
    if not s.cpu.logger
    then (ok tt, s)
    else if a7 == 0xFFFF0002 || a7 == 0xFFFF0003 || a7 == 0xFFFF0004
    then (do load_cstring (s.cpu.registers 10) 1024; apply (λ s. s)) s
    else (ok tt, s)

unfoldable pub exec_ebreak : Exec System (Unit {0})
unfolding ebreak_log
exec_ebreak s =
    let a7 = s.cpu.registers 17 in
    if leb 0xFFFF0000 a7
    then ebreak_log a7 s
    else if s.cpu.csrs 0x305 == 0
    then (err execution_terminated, bypassed_trap_return 3 0 s)
    else trap 3 0 true s

-- `funct3 in (0b001, 0b010, 0b011, 0b101, 0b110, 0b111)`
unfoldable pub is_csr_access : ℕ → Bool
is_csr_access funct3 =
    funct3 == 0b001
    || funct3 == 0b010
    || funct3 == 0b011
    || funct3 == 0b101
    || funct3 == 0b110
    || funct3 == 0b111

unfoldable pub exec_system : EcallHandler → ℕ → ℕ → Decoded → Exec System (Unit {0})
unfolding is_csr_access
exec_system handle_ecall inst inst_size d s =
    if inst == 0x00000073
    then exec_ecall handle_ecall s
    else if inst == 0x30200073
    then exec_mret s
    else if inst == 0x00100073
    then exec_ebreak s
    else if is_csr_access d.funct3
    then exec_csr inst d s
    else if inst == 0x10500073
    then (ok tt, s)
    else trap 2 inst true s
