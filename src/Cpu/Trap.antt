-- ===== src/Cpu/Trap.antt =====
-- `trap`, `bypassed_trap_return` and `timer_update` of class `CPU` in cpu.py.
use riscv_python.Prelude.{ℕ, ◌+◌, ◌*◌, ◌^◌, bit_or, Bool, false, not, ◌==◌, leb, if◌then◌else◌}
use riscv_python.State.{System, Cpu, ok, err, Exec, execution_terminated, update}
use riscv_python.Bits.{bit, and_not}

-- MIE and MPIE are cleared, then MPIE is what MIE was.
unfoldable pub trap_mstatus : ℕ → ℕ
unfolding and_not
trap_mstatus mstatus = bit_or (and_not mstatus 0x88) (bit mstatus 3 * 2 ^ 7)

-- The message of the exception is left out, and so is the log line.
unfoldable pub trap : ℕ → ℕ → Bool → Exec System (Unit {0})
unfolding trap_mstatus and_not update
trap cause mtval sync s =
    let cpu = s.cpu in
    if cpu.csrs 0x305 == 0
    then (err execution_terminated, s)
    else let csrs = update cpu.csrs 0x341 (if sync then cpu.pc else cpu.next_pc) in
      let csrs = update csrs 0x342 cause in
      let csrs = update csrs 0x343 mtval in
      let csrs = update csrs 0x300 (trap_mstatus (csrs 0x300)) in
      (ok tt, record s { cpu = record cpu { csrs = csrs; next_pc = and_not (csrs 0x305) 3 } })

unfoldable pub bypassed_trap_return : ℕ → ℕ → System → System
unfolding update
bypassed_trap_return cause mtval s =
    let cpu = s.cpu in
    let csrs = update cpu.csrs 0x341 cpu.pc in
    let csrs = update csrs 0x342 cause in
    let csrs = update csrs 0x343 mtval in
    record s { cpu = record cpu { csrs = update csrs 0x300 (bit_or (csrs 0x300) (2 ^ 7)) } }

-- `mtime` advances, and `mtip` and the pending bit of `mip` follow the comparison.
unfoldable pub timer_tick : Cpu → Cpu
unfolding update and_not
timer_tick cpu =
    let asserted = leb cpu.mtimecmp cpu.mtime in
    let mip = cpu.csrs 0x344 in
    let mip' = if asserted then bit_or mip (2 ^ 7) else and_not mip (2 ^ 7) in
    let changed = if asserted then not cpu.mtip else cpu.mtip in
    record cpu {
      mtime = cpu.mtime + 1;
      csrs = if changed then update cpu.csrs 0x344 mip' else cpu.csrs;
      mtip = asserted;
    }

-- The trap is taken if the timer has expired, mstatus.MIE is set and so is mie.MTIE.
unfoldable pub timer_update : Exec System (Unit {0})
unfolding timer_tick
timer_update s =
    let cpu = timer_tick s.cpu in
    let s' = record s { cpu = cpu } in
    if not (leb s.cpu.mtimecmp s.cpu.mtime)
    then (ok tt, s')
    else if bit (cpu.csrs 0x300) 3 == 0
    then (ok tt, s')
    else if bit (cpu.csrs 0x304) 7 == 0
    then (ok tt, s')
    else trap 0x80000007 0 false s'
