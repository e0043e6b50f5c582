-- ===== src/Invariant/Csr.antt =====
-- CSR instructions and the other system instructions keep the state well formed.
use riscv_python.Prelude.{ℕ, ◌*◌, ◌/◌, ◌%◌, ◌^◌, ◌<◌, ◌==◌, true, not, ◌&&◌, ◌||◌, arith}
use riscv_python.State.{System, Cpu, Decoded}
use riscv_python.State.Leaves.{Leaves, Leaves-if, Leaves-unit, Leaves-bind, Any, if-keeps}
use riscv_python.Bits.{bit_or-lt, and_not, and_not-le}
use riscv_python.Cpu.Csr.{
  is_csr_ro, is_csr_nowrite, is_csrrw, take_mtime, commit_mtime, take_mtimecmp, commit_mtimecmp,
  csr_write, csr_modify, force_mpp, csr_result, write_old, csr_operand, csr_guard, exec_csr,
}
use riscv_python.Cpu.System.{EcallHandler}
use riscv_python.Invariant.Defs.{IsWf, IsWfCpu, set_reg-IsWf, set_csr-IsWf}
use riscv_python.Invariant.Trap.{trap-Leaves}

take_mtime-IsWfCpu : (cpu : Cpu) → IsWfCpu cpu → IsWfCpu (take_mtime cpu)
unfolding take_mtime
take_mtime-IsWfCpu cpu h = record {
  caches = h.caches;
  registers = h.registers;
  csrs = h.csrs;
  pc = h.pc;
  next_pc = h.next_pc;
  mtime =
      bit_or-lt 64 (cpu.csrs 0x7C1 * 2 ^ 32) (cpu.csrs 0x7C0) (omega (arith, h.csrs 0x7C1))
        (omega (arith, h.csrs 0x7C0));
  mtimecmp = h.mtimecmp;
}

take_mtimecmp-IsWfCpu : (cpu : Cpu) → IsWfCpu cpu → IsWfCpu (take_mtimecmp cpu)
unfolding take_mtimecmp
take_mtimecmp-IsWfCpu cpu h = record {
  caches = h.caches;
  registers = h.registers;
  csrs = h.csrs;
  pc = h.pc;
  next_pc = h.next_pc;
  mtime = h.mtime;
  mtimecmp =
      bit_or-lt 64 (cpu.csrs 0x7C3 * 2 ^ 32) (cpu.csrs 0x7C2) (omega (arith, h.csrs 0x7C3))
        (omega (arith, h.csrs 0x7C2));
}

commit_mtime-IsWfCpu : (csr : ℕ) (cpu : Cpu) → IsWfCpu cpu → IsWfCpu (commit_mtime csr cpu)
unfolding commit_mtime
commit_mtime-IsWfCpu csr cpu h = if-keeps IsWfCpu (not (csr == 0x7C0 || csr == 0x7C1)) cpu _ h (
    if-keeps IsWfCpu
      ((cpu.mtime_lo_updated || csr == 0x7C0) && (cpu.mtime_hi_updated || csr == 0x7C1))
      (take_mtime cpu) _ (take_mtime-IsWfCpu cpu h)
      (record {
        caches = h.caches;
        registers = h.registers;
        csrs = h.csrs;
        pc = h.pc;
        next_pc = h.next_pc;
        mtime = h.mtime;
        mtimecmp = h.mtimecmp;
      }))

commit_mtimecmp-IsWfCpu : (csr : ℕ) (cpu : Cpu) → IsWfCpu cpu → IsWfCpu (commit_mtimecmp csr cpu)
unfolding commit_mtimecmp
commit_mtimecmp-IsWfCpu csr cpu h = if-keeps IsWfCpu (not (csr == 0x7C2 || csr == 0x7C3)) cpu _ h (
    if-keeps IsWfCpu
      ((cpu.mtimecmp_lo_updated || csr == 0x7C2) && (cpu.mtimecmp_hi_updated || csr == 0x7C3))
      (take_mtimecmp cpu) _ (take_mtimecmp-IsWfCpu cpu h)
      (record {
        caches = h.caches;
        registers = h.registers;
        csrs = h.csrs;
        pc = h.pc;
        next_pc = h.next_pc;
        mtime = h.mtime;
        mtimecmp = h.mtimecmp;
      }))

csr_write-IsWf : (csr v : ℕ) (s : System) → v < 2 ^ 32 → IsWf s → IsWf (csr_write csr v s)
unfolding csr_write
csr_write-IsWf csr v s hv h =
    let stored =
      if-keeps IsWf (csr == 0x305) _ _
        (set_csr-IsWf csr (and_not v 3) s (omega (arith, and_not-le v 3)) h)
        (if-keeps IsWf (is_csr_nowrite csr) s _ h (set_csr-IsWf csr v s hv h)) in
    record {
      cpu = commit_mtimecmp-IsWfCpu csr _ (commit_mtime-IsWfCpu csr _ stored.cpu);
      ram = stored.ram;
    }

csr_modify-IsWf :
    (f csr old v : ℕ) (s : System)
    → old < 2 ^ 32
    → v < 2 ^ 32
    → IsWf s
    → IsWf (csr_modify f csr old v s)
unfolding csr_modify
csr_modify-IsWf f csr old v s ho hv h =
    let set = set_csr-IsWf csr _ s (bit_or-lt 32 old v ho hv) h in
    let clear = set_csr-IsWf csr (and_not old v) s (omega (arith, and_not-le old v)) h in
    let writes = not (v == 0) && not (is_csr_nowrite csr) in
    if-keeps IsWf (is_csrrw f) _ _ (csr_write-IsWf csr v s hv h) (
      if-keeps IsWf (f == 0b010 || f == 0b110) _ _ (if-keeps IsWf writes _ s set h)
        (if-keeps IsWf writes _ s clear h))

force_mpp-IsWf : (csr : ℕ) (s : System) → IsWf s → IsWf (force_mpp csr s)
unfolding force_mpp
force_mpp-IsWf csr s h =
    if-keeps IsWf (csr == 0x300) _ s
      (set_csr-IsWf 0x300 _ s (bit_or-lt 32 (s.cpu.csrs 0x300) 0x1800 (h.csrs 0x300) (omega arith))
        h)
      h

csr_result-lt : (csr old : ℕ) (cpu : Cpu) → old < 2 ^ 32 → csr_result csr old cpu < 2 ^ 32
unfolding csr_result
csr_result-lt csr old cpu h = ground arith

write_old-IsWf :
    (rd csr old : ℕ) (s : System) → old < 2 ^ 32 → IsWf s → IsWf (write_old rd csr old s)
unfolding write_old
write_old-IsWf rd csr old s ho h =
    if-keeps IsWf (rd == 0) s _ h (set_reg-IsWf rd _ s (csr_result-lt csr old s.cpu ho) h)

csr_operand-lt : (d : Decoded) (s : System) → d.rs1 < 2 ^ 5 → IsWf s → csr_operand d s < 2 ^ 32
unfolding csr_operand
csr_operand-lt d s hd h = ground (arith, h.registers d.rs1)

module _ (handle : EcallHandler) (inst size : ℕ) (d : Decoded) (s : System) (hi : inst < 2 ^ 32)
    (hd : d.rs1 < 2 ^ 5) (h : IsWf s) where
  pub exec_csr-Leaves : Leaves IsWf Any (exec_csr inst d s)
  unfolding exec_csr csr_guard
  exec_csr-Leaves =
      let csr = inst / 2 ^ 20 % 2 ^ 12 in
      let v = csr_operand d s in
      let hv = csr_operand-lt d s hd h in
      let guarded =
        Leaves-if (is_csr_ro csr && (is_csrrw d.funct3 || not (v == 0))) _ _
          (trap-Leaves 2 inst true s (omega arith) hi h) (Leaves-unit s h) in
      Leaves-bind Any _ _ guarded λ _ s' _ h'. Leaves-unit _ (
        write_old-IsWf d.rd csr _ _ (h.csrs csr)
          (force_mpp-IsWf csr _ (csr_modify-IsWf d.funct3 csr _ v s' (h.csrs csr) hv h')))
