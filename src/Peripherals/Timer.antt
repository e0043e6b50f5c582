-- ===== src/Peripherals/Timer.antt =====
-- Class `MMIOTimer` of peripherals.py: `mtime` and `mtimecmp` of the CPU as device registers.
use riscv_python.Prelude.{
  ℕ, ◌+◌, ◌*◌, ◌/◌, ◌%◌, ◌^◌, bit_or, true, false, ◌&&◌, ◌==◌, if◌then◌else◌,
}
use riscv_python.State.{Cpu, MmioTimer, ok, err, Exec, memory_access_error, ◌>>◌, apply}

abbrev pub reg_base : ℕ
reg_base = 0x02004000

abbrev pub reg_mtimecmp_lo : ℕ
reg_mtimecmp_lo = reg_base

abbrev pub reg_mtimecmp_hi : ℕ
reg_mtimecmp_hi = reg_mtimecmp_lo + 4

abbrev pub reg_mtime_lo : ℕ
reg_mtime_lo = 0x0200bff8

abbrev pub reg_mtime_hi : ℕ
reg_mtime_hi = reg_mtime_lo + 4

abbrev pub reg_end : ℕ
reg_end = reg_mtime_hi + 4

unfoldable pub read32 : ℕ → Exec (MmioTimer × Cpu) ℕ
read32 addr (t, cpu) =
    if addr == reg_mtime_lo
    then (ok (cpu.mtime % 2 ^ 32), (t, cpu))
    else if addr == reg_mtime_hi
    then (ok (cpu.mtime / 2 ^ 32), (t, cpu))
    else if addr == reg_mtimecmp_lo
    then (ok (cpu.mtimecmp % 2 ^ 32), (t, cpu))
    else if addr == reg_mtimecmp_hi
    then (ok (cpu.mtimecmp / 2 ^ 32), (t, cpu))
    else (err memory_access_error, (t, cpu))

-- The write itself. `mtimecmp & 0xFFFFFFFF_00000000` keeps bits 32 to 63.
unfoldable pub write_register : ℕ → ℕ → Exec (MmioTimer × Cpu) (Unit {0})
write_register addr value (t, cpu) =
    if addr == reg_mtimecmp_lo
    then (
      ok tt,
      (
        t,
        record cpu { mtimecmp = bit_or (cpu.mtimecmp / 2 ^ 32 % 2 ^ 32 * 2 ^ 32) (value % 2 ^ 32) },
      ),
    )
    else if addr == reg_mtimecmp_hi
    then (
      ok tt,
      (t, record cpu { mtimecmp = bit_or (cpu.mtimecmp % 2 ^ 32) (value % 2 ^ 32 * 2 ^ 32) }),
    )
    else if addr == reg_mtime_lo
    then (ok tt, (record t { mtime_lo = value; mtime_lo_updated = true }, cpu))
    else if addr == reg_mtime_hi
    then (ok tt, (record t { mtime_hi = value; mtime_hi_updated = true }, cpu))
    else (err memory_access_error, (t, cpu))

-- The atomic update of `mtime` once both halves have been written.
unfoldable pub commit_mtime : MmioTimer × Cpu → MmioTimer × Cpu
commit_mtime (t, cpu) =
    if t.mtime_lo_updated && t.mtime_hi_updated
    then (
      record t { mtime_lo_updated = false; mtime_hi_updated = false },
      record cpu { mtime = bit_or (t.mtime_hi * 2 ^ 32) t.mtime_lo },
    )
    else (t, cpu)

unfoldable pub write32 : ℕ → ℕ → Exec (MmioTimer × Cpu) (Unit {0})
unfolding write_register commit_mtime
write32 addr value = do write_register addr value; apply commit_mtime
