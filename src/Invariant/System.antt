-- ===== src/Invariant/System.antt =====
-- ECALL, MRET, EBREAK and the dispatch of system instructions keep the state well formed.
use riscv_python.Prelude.{
  ℕ, ◌*◌, ◌^◌, ◌<◌, ◌==◌, true, not, ◌||◌, Option, none, some, leb, List, arith,
}
use riscv_python.Prelude.Int.{pos, pos_part, ◌-ℤ◌, ltb_ℤ}
use riscv_python.State.{
  System, Ram, Decoded, machine_error, memory_access_error, execution_terminated,
}
use riscv_python.State.Leaves.{
  Leaves, Leaves-ok, Leaves-err, Leaves-if, Leaves-unit, Leaves-bind, Leaves-state, Any,
}
use riscv_python.Bits.{bit, bit-lt, bit_or-lt, and_not-le}
use riscv_python.Ram.Bytes.{text_or_error, read_cstring}
use riscv_python.Ram.Plain
use riscv_python.Ram.Safe
use riscv_python.Ram.Offset
use riscv_python.Ram.Mmio
use riscv_python.Ram.SafeMmio
use riscv_python.Ram.Access.{load_cstring}
use riscv_python.Cpu.Control.{is_misaligned}
use riscv_python.Cpu.System.{
  EcallHandler, call_handler, exec_ecall, mret_mstatus, exec_mret, ebreak_log, exec_ebreak,
  is_csr_access, exec_system,
}
use riscv_python.Invariant.Defs.{IsWf, IsWfRam, set_csr-IsWf, set_next_pc-IsWf}
use riscv_python.Invariant.Access.{dispatch-Leaves, on_ram-Leaves}
use riscv_python.Invariant.Trap.{trap-Leaves, bypassed_trap_return-IsWf}
use riscv_python.Invariant.Csr.{exec_csr-Leaves}

-- What is asked of the handler of system calls: it keeps the state well formed.
abbrev pub KeepsWf : EcallHandler → Type 0
KeepsWf none = Unit
KeepsWf (some handle) = (s : System) → IsWf s → IsWf (handle s).1

text_or_error-Leaves :
    (o : Option (List ℕ)) (r : Ram) → IsWfRam r → Leaves IsWfRam Any (text_or_error o r)
unfolding text_or_error
text_or_error-Leaves none r h = Leaves-err memory_access_error r h
text_or_error-Leaves (some text) r h = Leaves-ok text r tt h

read_cstring-Leaves :
    (addr n : ℕ) (r : Ram) → IsWfRam r → Leaves IsWfRam Any (read_cstring addr n r)
unfolding read_cstring
read_cstring-Leaves addr n r h = text_or_error-Leaves _ r h

pub load_cstring-Leaves :
    (addr n : ℕ) (s : System) → IsWf s → Leaves IsWf Any (load_cstring addr n s)
unfolding load_cstring Plain.load_cstring Safe.load_cstring Offset.load_cstring Mmio.load_cstring
    SafeMmio.load_cstring
load_cstring-Leaves addr n s h =
    let r = s.ram in
    let read = λ (a : ℕ). read_cstring-Leaves a n r h.ram in
    let fails = Leaves-err memory_access_error r h.ram in
    let checked = Leaves-if (leb r.size addr) _ _ fails (read addr) in
    let a = pos addr -ℤ pos r.base_addr in
    dispatch-Leaves Any s h r.ram_class _ _ _ _ _ (read addr) checked
      (Leaves-if (ltb_ℤ a (pos 0) || leb r.size (pos_part a)) _ _ fails (read (pos_part a)))
      (on_ram-Leaves s h (Plain.load_cstring addr n) (read addr))
      (on_ram-Leaves s h (Safe.load_cstring addr n) checked)

mret_mstatus-lt : (m : ℕ) → m < 2 ^ 32 → mret_mstatus m < 2 ^ 32
unfolding mret_mstatus
mret_mstatus-lt m h =
    bit_or-lt 32 _ (2 ^ 7)
      (bit_or-lt 32 _ (bit m 7 * 2 ^ 3) (omega (arith, and_not-le m 0x8))
        (omega (arith, bit-lt m 7)))
      (omega arith)

module _ (handle : EcallHandler) (keeps : KeepsWf handle) (s : System) (h : IsWf s) where
  exec_mret-Leaves : Leaves IsWf Any (exec_mret s)
  unfolding exec_mret
  exec_mret-Leaves =
      Leaves-if (is_misaligned s (s.cpu.csrs 0x341)) _ _
        (trap-Leaves 0 (s.cpu.csrs 0x341) true s (omega arith) (h.csrs 0x341) h)
        (Leaves-unit _ (
          set_csr-IsWf 0x300 _ _ (mret_mstatus-lt (s.cpu.csrs 0x300) (h.csrs 0x300))
            (set_next_pc-IsWf (s.cpu.csrs 0x341) s (h.csrs 0x341) h)))

  call_handler-Leaves : Leaves IsWf Any (call_handler handle s)
  call_handler-Leaves = handled handle keeps
    where
      handled : (f : EcallHandler) → KeepsWf f → Leaves IsWf Any (call_handler f s)
      handled none k = unfold call_handler in Leaves-err machine_error s h
      handled (some f) k =
          unfold call_handler in
          Leaves-bind Any (f s) _ (Leaves-state (f s) (k s h)) λ _ s _ h.
            Leaves-unit _ (bypassed_trap_return-IsWf 11 0 s (omega arith) (omega arith) h)

  exec_ecall-Leaves : Leaves IsWf Any (exec_ecall handle s)
  unfolding exec_ecall
  exec_ecall-Leaves =
      Leaves-if (s.cpu.csrs 0x305 == 0) _ _ call_handler-Leaves
        (trap-Leaves 11 0 true s (omega arith) (omega arith) h)

  ebreak_log-Leaves : (a7 : ℕ) → Leaves IsWf Any (ebreak_log a7 s)
  unfolding ebreak_log
  ebreak_log-Leaves a7 = Leaves-if (not s.cpu.logger) _ _ (Leaves-unit s h) (
      Leaves-if (a7 == 0xFFFF0002 || a7 == 0xFFFF0003 || a7 == 0xFFFF0004) _ _
        (Leaves-bind Any _ _ (load_cstring-Leaves (s.cpu.registers 10) 1024 s h)
          λ _ s _ h. Leaves-unit s h)
        (Leaves-unit s h))

  exec_ebreak-Leaves : Leaves IsWf Any (exec_ebreak s)
  unfolding exec_ebreak
  exec_ebreak-Leaves =
      Leaves-if (leb 0xFFFF0000 (s.cpu.registers 17)) _ _ (ebreak_log-Leaves (s.cpu.registers 17)) (
        Leaves-if (s.cpu.csrs 0x305 == 0) _ _
          (Leaves-err execution_terminated _
            (bypassed_trap_return-IsWf 3 0 s (omega arith) (omega arith) h))
          (trap-Leaves 3 0 true s (omega arith) (omega arith) h))

  pub exec_system-Leaves :
      (inst size : ℕ) (d : Decoded)
      → inst < 2 ^ 32
      → d.rs1 < 2 ^ 5
      → Leaves IsWf Any (exec_system handle inst size d s)
  unfolding exec_system
  exec_system-Leaves inst size d hi hd = Leaves-if (inst == 0x00000073) _ _ exec_ecall-Leaves (
      Leaves-if (inst == 0x30200073) _ _ exec_mret-Leaves (
        Leaves-if (inst == 0x00100073) _ _ exec_ebreak-Leaves (
          Leaves-if (is_csr_access d.funct3) _ _ (exec_csr-Leaves handle inst size d s hi hd h) (
            Leaves-if (inst == 0x10500073) _ _ (Leaves-unit s h)
              (trap-Leaves 2 inst true s (omega arith) hi h)))))
