-- ===== src/Cpu/Csr.antt =====
-- The CSR instructions of `exec_SYSTEM` in cpu.py.
use riscv_python.Prelude.{
  ℕ, ◌*◌, ◌/◌, ◌%◌, ◌^◌, bit_or, Bool, true, false, not, ◌&&◌, ◌||◌, ltb, leb, ◌==◌, if◌then◌else◌,
}
use riscv_python.Prelude.Int.{pos, ◌-ℤ◌}
use riscv_python.State.{System, Cpu, Decoded, Exec, update, set_reg, set_csr, ◌>>◌, apply}
use riscv_python.Bits.{and_not}
use riscv_python.Cpu.Trap.{trap}

-- `csr in cpu.CSR_RO`
unfoldable pub is_csr_ro : ℕ → Bool
is_csr_ro csr = csr == 0xF11 || csr == 0xF12 || csr == 0xF13 || csr == 0xF14

-- `csr in cpu.CSR_NOWRITE`
unfoldable pub is_csr_nowrite : ℕ → Bool
is_csr_nowrite csr =
    csr == 0x301 || csr == 0xB02 || csr == 0xB82 || csr == 0x7A0 || csr == 0x7A1 || csr == 0x7A2

unfoldable pub is_csrrw : ℕ → Bool
is_csrrw funct3 = funct3 == 0b001 || funct3 == 0b101

-- `mtime` from its two CSRs.
unfoldable pub take_mtime : Cpu → Cpu
take_mtime cpu =
    let mtime = bit_or (cpu.csrs 0x7C1 * 2 ^ 32) (cpu.csrs 0x7C0) in
    record cpu {
      mtime = mtime;
      mtime_lo_updated = false;
      mtime_hi_updated = false;
      mtip = leb cpu.mtimecmp mtime;
    }

-- The atomic update of `mtime` by writes to both of its halves.
unfoldable pub commit_mtime : ℕ → Cpu → Cpu
unfolding take_mtime
commit_mtime csr cpu =
    let lo = cpu.mtime_lo_updated || csr == 0x7C0 in
    let hi = cpu.mtime_hi_updated || csr == 0x7C1 in
    if not (csr == 0x7C0 || csr == 0x7C1)
    then cpu
    else if lo && hi
    then take_mtime cpu
    else record cpu { mtime_lo_updated = lo; mtime_hi_updated = hi }

-- `mtimecmp` from its two CSRs.
unfoldable pub take_mtimecmp : Cpu → Cpu
take_mtimecmp cpu =
    let mtimecmp = bit_or (cpu.csrs 0x7C3 * 2 ^ 32) (cpu.csrs 0x7C2) in
    record cpu {
      mtimecmp = mtimecmp;
      mtimecmp_lo_updated = false;
      mtimecmp_hi_updated = false;
      mtime_countdown = pos mtimecmp -ℤ pos cpu.mtime;
      mtip = leb mtimecmp cpu.mtime;
    }

unfoldable pub commit_mtimecmp : ℕ → Cpu → Cpu
unfolding take_mtimecmp
commit_mtimecmp csr cpu =
    let lo = cpu.mtimecmp_lo_updated || csr == 0x7C2 in
    let hi = cpu.mtimecmp_hi_updated || csr == 0x7C3 in
    if not (csr == 0x7C2 || csr == 0x7C3)
    then cpu
    else if lo && hi
    then take_mtimecmp cpu
    else record cpu { mtimecmp_lo_updated = lo; mtimecmp_hi_updated = hi }

-- CSRRW and CSRRWI: the write, with the mode bits of mtvec masked away, and the timer updates.
unfoldable pub csr_write : ℕ → ℕ → System → System
unfolding update set_csr commit_mtime commit_mtimecmp is_csr_nowrite and_not
csr_write csr v s =
    let s' =
      if csr == 0x305
      then set_csr csr (and_not v 3) s
      else if is_csr_nowrite csr
      then s
      else set_csr csr v s in
    record s' { cpu = commit_mtimecmp csr (commit_mtime csr s'.cpu) }

-- The three kinds of access; `old` was read before any trap.
unfoldable pub csr_modify : ℕ → ℕ → ℕ → ℕ → System → System
unfolding csr_write is_csrrw
csr_modify funct3 csr old v s =
    if is_csrrw funct3
    then csr_write csr v s
    else if funct3 == 0b010 || funct3 == 0b110
    then (if not (v == 0) && not (is_csr_nowrite csr) then set_csr csr (bit_or old v) s else s)
    else (if not (v == 0) && not (is_csr_nowrite csr) then set_csr csr (and_not old v) s else s)

-- MPP of mstatus is forced to 0b11.
unfoldable pub force_mpp : ℕ → System → System
unfolding set_csr
force_mpp csr s = if csr == 0x300 then set_csr 0x300 (bit_or (s.cpu.csrs 0x300) 0x1800) s else s

-- The value that `rd` gets: the timer CSRs read the timer.
unfoldable pub csr_result : ℕ → ℕ → Cpu → ℕ
csr_result csr old cpu =
    if csr == 0x7C0
    then cpu.mtime % 2 ^ 32
    else if csr == 0x7C1
    then cpu.mtime / 2 ^ 32 % 2 ^ 32
    else if csr == 0x7C2
    then cpu.mtimecmp % 2 ^ 32
    else if csr == 0x7C3
    then cpu.mtimecmp / 2 ^ 32 % 2 ^ 32
    else old

unfoldable pub write_old : ℕ → ℕ → ℕ → System → System
unfolding csr_result
write_old rd csr old s = if rd == 0 then s else set_reg rd (csr_result csr old s.cpu) s

-- The operand: the register, or the field itself for the immediate forms.
unfoldable pub csr_operand : Decoded → System → ℕ
csr_operand d s = if ltb d.funct3 0b101 then s.cpu.registers d.rs1 else d.rs1

-- A write to a read-only CSR traps, and goes on.
unfoldable pub csr_guard : ℕ → ℕ → ℕ → ℕ → Exec System (Unit {0})
unfolding is_csr_ro is_csrrw
csr_guard inst funct3 csr v s =
    if is_csr_ro csr && (is_csrrw funct3 || not (v == 0))
    then trap 2 inst true s
    else apply (λ s. s) s

unfoldable pub exec_csr : ℕ → Decoded → Exec System (Unit {0})
unfolding csr_guard csr_modify force_mpp write_old csr_operand
exec_csr inst d s =
    let csr = inst / 2 ^ 20 % 2 ^ 12 in
    let old = s.cpu.csrs csr in
    let v = csr_operand d s in
    (do
      csr_guard inst d.funct3 csr v
      apply (λ s. write_old d.rd csr old (force_mpp csr (csr_modify d.funct3 csr old v s))))
      s
