-- ===== src/Cpu/Interrupt.antt =====
-- `timer_update` of cpu.py: the pending bit and the timer interrupt.
use riscv_python.Prelude.{
  ℕ, ◌^◌, ◌≤◌, ◌≡◌, ◌≢◌, arith, refl, bit_or, ◌∙◌, Bool, true, false, Bool-cases, ◌==◌, inl, inr,
  leb, not, if◌then◌else◌,
}
use riscv_python.State.{System, Cpu, ok, update}
use riscv_python.Bits.{bit, and_not, bit-bit_or, bit-and_not}
use riscv_python.Cpu.Word.{int_of}
use riscv_python.Cpu.Trap.{trap, timer_tick, timer_update}
use riscv_python.Cpu.TrapReturn.{trap_mstatus-mie, trap_mstatus-mpie}

-- MTIP, bit 7 of mip, is the comparison that `mtip` remembers.
abbrev pub ShowsMtip : Cpu → Type 0
ShowsMtip cpu = bit (cpu.csrs 0x344) 7 ≡ int_of cpu.mtip

-- The pending bit after a tick, by what `mtip` was and what it becomes.
tick_cases :
    (asserted mtip : Bool) (f : ℕ → ℕ)
    → bit (f 0x344) 7 ≡ int_of mtip
    → (let mip' = if asserted then bit_or (f 0x344) (2 ^ 7) else and_not (f 0x344) (2 ^ 7) in
        let changed = if asserted then not mtip else mtip in
        bit ((if changed then update f 0x344 mip' else f) 0x344) 7 ≡ int_of asserted)
unfolding update
tick_cases true true f h = h
tick_cases true false f h = omega (arith, bit-bit_or (f 0x344) (2 ^ 7) 7)
tick_cases false true f h = omega (arith, bit-and_not (f 0x344) (2 ^ 7) 7)
tick_cases false false f h = h

-- The timer keeps the pending bit of mip equal to `mtip`, which becomes the outcome of the
-- comparison of the old `mtime` with `mtimecmp`.
pub timer_tick-ShowsMtip :
    (cpu : Cpu)
    → ShowsMtip cpu
    → ShowsMtip (timer_tick cpu) × ((timer_tick cpu).mtip ≡ leb cpu.mtimecmp cpu.mtime)
unfolding timer_tick update
timer_tick-ShowsMtip cpu h = (tick_cases (leb cpu.mtimecmp cpu.mtime) cpu.mtip cpu.csrs h, refl)

-- The three conditions of the interrupt, and a handler.
pub record IsDue (s : System) : Type 0 where
  pub expired : s.cpu.mtimecmp ≤ s.cpu.mtime
  pub mie : bit (s.cpu.csrs 0x300) 3 ≡ 1
  pub mtie : bit (s.cpu.csrs 0x304) 7 ≡ 1
  pub handler : s.cpu.csrs 0x305 ≢ 0

-- When the timer interrupt is due, `timer_update` succeeds, saves the next instruction and the cause,
-- goes to the handler, remembers MIE in MPIE and clears it.
pub timer_update-IsDue :
    (s : System)
    → IsDue s
    → ((timer_update s).0 ≡ ok tt)
      × ((timer_update s).1.cpu.csrs 0x341 ≡ s.cpu.next_pc)
      × ((timer_update s).1.cpu.csrs 0x342 ≡ 0x80000007)
      × ((timer_update s).1.cpu.next_pc ≡ and_not (s.cpu.csrs 0x305) 3)
      × (bit ((timer_update s).1.cpu.csrs 0x300) 3 ≡ 0)
      × (bit ((timer_update s).1.cpu.csrs 0x300) 7 ≡ 1)
unfolding timer_update trap timer_tick update
timer_update-IsDue s h =
    let expired : leb s.cpu.mtimecmp s.cpu.mtime ≡ true = let e = h.expired in ground arith in
    let mie : (bit (s.cpu.csrs 0x300) 3 == 0) ≡ false = let e = h.mie in ground arith in
    let mtie : (bit (s.cpu.csrs 0x304) 7 == 0) ≡ false = let e = h.mtie in ground arith in
    let handler : (s.cpu.csrs 0x305 == 0) ≡ false = let e = h.handler in ground arith in
    let off = trap_mstatus-mie (s.cpu.csrs 0x300) in
    let saved = trap_mstatus-mpie (s.cpu.csrs 0x300) ∙ h.mie in
    elim (Bool-cases s.cpu.mtip) [
      | inl t ↦ rw (expired, t, mie, mtie, handler) (refl, refl, refl, refl, off, saved)
      | inr f ↦ rw (expired, f, mie, mtie, handler) (refl, refl, refl, refl, off, saved)
    ]

-- While MIE is clear, `timer_update` succeeds and leaves the program counter alone.
pub timer_update-masked :
    (s : System)
    → bit (s.cpu.csrs 0x300) 3 ≡ 0
    → ((timer_update s).0 ≡ ok tt) × ((timer_update s).1.cpu.next_pc ≡ s.cpu.next_pc)
unfolding timer_update timer_tick update
timer_update-masked s h = elim (Bool-cases (leb s.cpu.mtimecmp s.cpu.mtime)) [
  | inr f ↦ rw f (refl, refl)
  | inl t ↦ elim (Bool-cases s.cpu.mtip) [
    | inl m ↦ rw (t, m, h) (refl, refl)
    | inr m ↦ rw (t, m, h) (refl, refl)
  ]
]
