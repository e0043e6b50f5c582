-- ===== src/Invariant/Trap.antt =====
-- Traps keep the state well formed.
use riscv_python.Prelude.{ℕ, ◌*◌, ◌^◌, ◌<◌, Bool, true, false, if◌then◌else◌, ◌==◌, arith}
use riscv_python.State.{System, execution_terminated}
use riscv_python.State.Leaves.{Leaves, Leaves-err, Leaves-if, Leaves-unit, Any}
use riscv_python.Bits.{bit, bit-lt, bit_or-lt, and_not-le}
use riscv_python.Cpu.Trap.{trap_mstatus, trap, bypassed_trap_return}
use riscv_python.Invariant.Defs.{IsWf, AllBelow-update}

trap_mstatus-lt : (m : ℕ) → m < 2 ^ 32 → trap_mstatus m < 2 ^ 32
unfolding trap_mstatus
trap_mstatus-lt m h =
    bit_or-lt 32 _ (bit m 3 * 2 ^ 7) (omega (arith, and_not-le m 0x88)) (omega (arith, bit-lt m 3))

if-lt : (b : Bool) (x y n : ℕ) → x < n → y < n → (if b then x else y) < n
if-lt true x y n hx hy = hx
if-lt false x y n hx hy = hy

pub trap-Leaves :
    (cause mtval : ℕ) (sync : Bool) (s : System)
    → cause < 2 ^ 32
    → mtval < 2 ^ 32
    → IsWf s
    → Leaves IsWf Any (trap cause mtval sync s)
unfolding trap
trap-Leaves cause mtval sync s hc hv h =
    let pc : (if sync then s.cpu.pc else s.cpu.next_pc) < 2 ^ 32 =
      if-lt sync s.cpu.pc s.cpu.next_pc (2 ^ 32) h.pc h.next_pc in
    let csrs =
      AllBelow-update (2 ^ 32) _ 0x343 mtval
        (AllBelow-update (2 ^ 32) _ 0x342 cause
          (AllBelow-update (2 ^ 32) s.cpu.csrs 0x341 _ h.csrs pc) hc)
        hv in
    let csrs' = AllBelow-update (2 ^ 32) _ 0x300 _ csrs (trap_mstatus-lt _ (csrs 0x300)) in
    Leaves-if (s.cpu.csrs 0x305 == 0) _ _ (Leaves-err execution_terminated s h) (
      Leaves-unit _ (record {
        cpu = record {
          caches = h.caches;
          registers = h.registers;
          csrs = csrs';
          pc = h.pc;
          next_pc = omega (arith, and_not-le _ 3, csrs' 0x305);
          mtime = h.mtime;
          mtimecmp = h.mtimecmp;
        };
        ram = h.ram;
      }))

pub bypassed_trap_return-IsWf :
    (cause mtval : ℕ) (s : System)
    → cause < 2 ^ 32
    → mtval < 2 ^ 32
    → IsWf s
    → IsWf (bypassed_trap_return cause mtval s)
unfolding bypassed_trap_return
bypassed_trap_return-IsWf cause mtval s hc hv h =
    let csrs =
      AllBelow-update (2 ^ 32) _ 0x343 mtval
        (AllBelow-update (2 ^ 32) _ 0x342 cause
          (AllBelow-update (2 ^ 32) s.cpu.csrs 0x341 s.cpu.pc h.csrs h.pc) hc)
        hv in
    record {
      cpu = record {
        caches = h.caches;
        registers = h.registers;
        csrs =
            AllBelow-update (2 ^ 32) _ 0x300 _ csrs (bit_or-lt 32 _ _ (csrs 0x300) (omega arith));
        pc = h.pc;
        next_pc = h.next_pc;
        mtime = h.mtime;
        mtimecmp = h.mtimecmp;
      };
      ram = h.ram;
    }
