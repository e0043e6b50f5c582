-- ===== src/Machine/Expiry.antt =====
-- `timer_update` of cpu.py, called by the loops of machine.py until the timer has expired.
use riscv_python.Prelude.{
  ℕ, zero, suc, ◌+◌, ◌<◌, ◌≤◌, ◌≡◌, ◌≢◌, refl, ap, sym, ◌∙◌, subst, Bool, true, false, leb,
  if◌then◌else◌, arith,
}
use riscv_python.State.{System, Cpu, Result, ok, err, continue, update}
use riscv_python.Bits.{bit, and_not}
use riscv_python.Cpu.Trap.{timer_tick, timer_update}
use riscv_python.Cpu.Interrupt.{IsDue, timer_update-IsDue}
use riscv_python.Machine.{rounds}

-- The interrupt is enabled and there is a handler; the timer need not have expired.
pub record IsEnabled (s : System) : Type 0 where
  pub mie : bit (s.cpu.csrs 0x300) 3 ≡ 1
  pub mtie : bit (s.cpu.csrs 0x304) 7 ≡ 1
  pub handler : s.cpu.csrs 0x305 ≢ 0

-- The state after a call before the timer has expired.
abbrev ticked : System → System
ticked s = record s { cpu = timer_tick s.cpu }

timer_update_waits :
    (s : System) → s.cpu.mtime < s.cpu.mtimecmp → timer_update s ≡ (ok tt, ticked s)
unfolding timer_update
timer_update_waits s h =
    let early : leb s.cpu.mtimecmp s.cpu.mtime ≡ false = ground arith in rw early refl

update_other :
    (b : Bool) (f : ℕ → ℕ) (v k : ℕ) → k ≢ 0x344 → (if b then update f 0x344 v else f) k ≡ f k
unfolding update
update_other true f v k h = ground arith
update_other false f v k h = refl

-- A tick changes no CSR but mip.
timer_tick-csrs : (cpu : Cpu) (k : ℕ) → k ≢ 0x344 → (timer_tick cpu).csrs k ≡ cpu.csrs k
unfolding timer_tick
timer_tick-csrs cpu k h = update_other _ cpu.csrs _ k h

tick_fields :
    (cpu : Cpu)
    → ((timer_tick cpu).mtime ≡ cpu.mtime + 1)
      × ((timer_tick cpu).mtimecmp ≡ cpu.mtimecmp)
      × ((timer_tick cpu).next_pc ≡ cpu.next_pc)
unfolding timer_tick
tick_fields cpu = (refl, refl, refl)

ticked-IsEnabled : (s : System) → IsEnabled s → IsEnabled (ticked s)
ticked-IsEnabled s h = record {
  mie = ap (λ v. bit v 3) (timer_tick-csrs s.cpu 0x300 (omega arith)) ∙ h.mie;
  mtie = ap (λ v. bit v 7) (timer_tick-csrs s.cpu 0x304 (omega arith)) ∙ h.mtie;
  handler = λ e. h.handler (sym (timer_tick-csrs s.cpu 0x305 (omega arith)) ∙ e);
}

-- A run of `n` calls that ends without an exception and has only waited: the clock has gone on by
-- `n`, no CSR but mip has changed, and neither have the registers, the program counters and the
-- memory.
pub record HasWaited (n : ℕ) (old : System) (x : Result (Unit {0}) × System) : Type 0 where
  pub success : x.0 ≡ ok tt
  pub clock : x.1.cpu.mtime ≡ old.cpu.mtime + n
  pub csrs : (k : ℕ) → k ≢ 0x344 → x.1.cpu.csrs k ≡ old.cpu.csrs k
  pub registers : x.1.cpu.registers ≡ old.cpu.registers
  pub pc : x.1.cpu.pc ≡ old.cpu.pc
  pub next_pc : x.1.cpu.next_pc ≡ old.cpu.next_pc
  pub ram : x.1.ram ≡ old.ram

-- A run that ends without an exception, with the interrupt of the state `old` taken.
pub record IsTaken (old : System) (x : Result (Unit {0}) × System) : Type 0 where
  pub success : x.0 ≡ ok tt
  pub target : x.1.cpu.next_pc ≡ and_not (old.cpu.csrs 0x305) 3
  pub saved : x.1.cpu.csrs 0x341 ≡ old.cpu.next_pc
  pub cause : x.1.cpu.csrs 0x342 ≡ 0x80000007

last_round :
    (old : System) (x : Result (Unit {0}) × System)
    → IsTaken old x
    → IsTaken old (continue x λ _ s. (ok tt, s))
last_round old (ok u, s) h = record {
  success = refl;
  target = h.target;
  saved = h.saved;
  cause = h.cause;
}
last_round old (err e, s) h = h

due-IsTaken : (s : System) → IsEnabled s → s.cpu.mtime ≡ s.cpu.mtimecmp → IsTaken s (timer_update s)
due-IsTaken s h e =
    let due : IsDue s = record {
      expired = omega arith;
      mie = h.mie;
      mtie = h.mtie;
      handler = h.handler;
    } in
    let (success, saved, cause, target, _, _) = timer_update-IsDue s due in
    record { success = success; target = target; saved = saved; cause = cause }

rounds-HasWaited :
    (n : ℕ) (s : System)
    → s.cpu.mtime + n ≤ s.cpu.mtimecmp
    → HasWaited n s (rounds n timer_update s)
unfolding rounds timer_tick
rounds-HasWaited zero s e = record {
  success = refl;
  clock = omega arith;
  csrs = λ k h. refl;
  registers = refl;
  pc = refl;
  next_pc = refl;
  ram = refl;
}
rounds-HasWaited (suc n) s e =
    let (clock, bound, next) = tick_fields s.cpu in
    let waits = timer_update_waits s (omega arith) in
    let rest = rounds-HasWaited n (ticked s) (omega (arith, clock, bound, e)) in
    subst (HasWaited (suc n) s) (sym (ap (λ x. continue x λ _. rounds n timer_update) waits))
      (record {
        success = rest.success;
        clock = omega (arith, rest.clock, clock);
        csrs = λ k h. rest.csrs k h ∙ timer_tick-csrs s.cpu k h;
        registers = rest.registers;
        pc = rest.pc;
        next_pc = rest.next_pc ∙ next;
        ram = rest.ram;
      })

-- The call that takes the interrupt.
rounds-suc-IsTaken :
    (n : ℕ) (s : System)
    → IsEnabled s
    → s.cpu.mtime + n ≡ s.cpu.mtimecmp
    → IsTaken s (rounds (suc n) timer_update s)
unfolding rounds
rounds-suc-IsTaken zero s h e = last_round s (timer_update s) (due-IsTaken s h (omega arith))
rounds-suc-IsTaken (suc n) s h e =
    let (clock, bound, next) = tick_fields s.cpu in
    let waits = timer_update_waits s (omega arith) in
    let rest =
      rounds-suc-IsTaken n (ticked s) (ticked-IsEnabled s h) (omega (arith, clock, bound, e)) in
    subst (IsTaken s) (sym (ap (λ x. continue x λ _. rounds (suc n) timer_update) waits)) (record {
      success = rest.success;
      target = rest.target ∙ ap (λ v. and_not v 3) (timer_tick-csrs s.cpu 0x305 (omega arith));
      saved = rest.saved ∙ next;
      cause = rest.cause;
    })

-- With the interrupt enabled, a handler set and `n` ticks to go, `n` calls of `timer_update` wait
-- and the next one takes the interrupt: after any number of calls up to `n` no exception was raised,
-- the clock has gone on by that number, and the registers, the program counters, the memory and
-- every CSR but mip are as they were; after one call more the program counter goes to the handler,
-- the next instruction and the cause are saved, and no exception was raised.
pub rounds-IsTaken :
    (m n : ℕ) (s : System)
    → IsEnabled s
    → s.cpu.mtime + n ≡ s.cpu.mtimecmp
    → m ≤ n
    → HasWaited m s (rounds m timer_update s) × IsTaken s (rounds (suc n) timer_update s)
rounds-IsTaken m n s h e le = (rounds-HasWaited m s (omega arith), rounds-suc-IsTaken n s h e)
