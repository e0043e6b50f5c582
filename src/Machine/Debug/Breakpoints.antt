-- ===== src/Machine/Debug/Breakpoints.antt =====
-- Where `run_with_gdb` of machine.py stops.
use riscv_python.Prelude.{
  ℕ, zero, suc, ◌+◌, ◌<◌, ◌≡◌, refl, sym, Bool, true, false, ◌%◌, ◌^◌, ◌==◌, if◌then◌else◌, arith,
  subst,
}
use riscv_python.State.{System, Exec, Result, ok, err, Fault, debug_break, continue}
use riscv_python.Cpu.System.{EcallHandler}
use riscv_python.Gdb.Session.{sigtrap}
use riscv_python.Gdb.Control.{is_breakpoint}
use riscv_python.Machine.{Options}
use riscv_python.Machine.Debug.{
  Debugger, check_for_interrupt, count_cycle, stop_if, on_system, single_step, step_instruction,
  count_device_round, free_round, debug_round, debug_rounds, run_with_gdb,
}

abbrev pub at_breakpoint : Debugger → Bool
at_breakpoint d = is_breakpoint d.session.system.cpu.pc d.session

module _ (handle_ecall : EcallHandler) (peripherals_run : Exec System (Unit {0}))
    (o : Options) where
  -- `Passes n d d'`: from d, `n` rounds that start at no breakpoint and raise nothing lead to d'.
  pub data Passes : ℕ → Debugger → Debugger → Type 0 where
    here : {d : Debugger} → Passes 0 d d
    step :
        {n : ℕ} {d d1 d2 : Debugger}
        → at_breakpoint d ≡ false
        → free_round handle_ecall peripherals_run o d ≡ (ok tt, d1)
        → Passes n d1 d2
        → Passes (suc n) d d2

  -- The three ways in which `n` rounds may end.
  pub data Stop : ℕ → Debugger → Result Bool × Debugger → Type 0 where
    out_of_rounds : {n : ℕ} {d d1 : Debugger} → Passes n d d1 → Stop n d (ok false, d1)
    breakpoint :
        {n k : ℕ} {d d1 : Debugger}
        → k < n
        → Passes k d d1
        → at_breakpoint d1 ≡ true
        → Stop n d (err (debug_break sigtrap), d1)
    exception :
        {n k : ℕ} {d d1 d2 : Debugger} {e : Fault}
        → k < n
        → Passes k d d1
        → at_breakpoint d1 ≡ false
        → free_round handle_ecall peripherals_run o d1 ≡ (err e, d2)
        → Stop n d (err e, d2)

  Stop-step :
      {n : ℕ} {d d1 : Debugger} {x : Result Bool × Debugger}
      → at_breakpoint d ≡ false
      → free_round handle_ecall peripherals_run o d ≡ (ok tt, d1)
      → Stop n d1 x
      → Stop (suc n) d x
  Stop-step hb hf (out_of_rounds p) = out_of_rounds (step hb hf p)
  Stop-step hb hf (breakpoint h p hp) = breakpoint (omega arith) (step hb hf p) hp
  Stop-step hb hf (exception h p hp he) = exception (omega arith) (step hb hf p) hp he

  -- The loop goes on unless an exception is raised.
  abbrev Running : {A : Type 0} → Result A × Debugger → Type 0
  Running (ok a, d) = d.session.running ≡ true
  Running (err e, d) = Unit

  record IsOn {A : Type 0} (x : Result A × Debugger) : Type 0 where
    on : Running x

  IsOn-ok : {A : Type 0} (a : A) (d : Debugger) → d.session.running ≡ true → IsOn (ok a, d)
  IsOn-ok a d h = record { on = h }

  IsOn-any : {A : Type 0} (x : Result A × Debugger) → x.1.session.running ≡ true → IsOn x
  IsOn-any (ok a, d) h = record { on = h }
  IsOn-any (err e, d) h = record { on = tt }

  IsOn-if :
      {A : Type 0} (b : Bool) (x y : Result A × Debugger)
      → IsOn x
      → IsOn y
      → IsOn (if b then x else y)
  IsOn-if true x y hx hy = hx
  IsOn-if false x y hx hy = hy

  IsOn-bind :
      {A B : Type 0} (x : Result A × Debugger) (f : A → Debugger → Result B × Debugger)
      → IsOn x
      → ((a : A) (d : Debugger) → d.session.running ≡ true → IsOn (f a d))
      → IsOn (continue x f)
  IsOn-bind (ok a, d) f hx hf = hf a d hx.on
  IsOn-bind (err e, d) f hx hf = record { on = tt }

  stop_if-IsOn : (b : Bool) (d : Debugger) → d.session.running ≡ true → IsOn (stop_if b d)
  stop_if-IsOn true d h = record { on = tt }
  stop_if-IsOn false d h = IsOn-ok tt d h

  count_cycle-IsOn : (d : Debugger) → d.session.running ≡ true → IsOn (count_cycle d)
  unfolding count_cycle
  count_cycle-IsOn d h =
      IsOn-if ((d.cycle_count + 1) % 2 ^ 12 == 0) _ _
        (stop_if-IsOn (check_for_interrupt d.link).0 _ h) (IsOn-ok tt _ h)

  count_device_round-IsOn :
      (d : Debugger)
      → d.session.running ≡ true
      → IsOn (count_device_round handle_ecall peripherals_run d)
  unfolding count_device_round
  count_device_round-IsOn d h =
      let next = record d { div = d.div + 1 } in
      IsOn-if ((d.div + 1) % 2 ^ 8 == 0) _ _
        (IsOn-bind _ _ (IsOn-any (on_system peripherals_run next) h) λ _ d h. IsOn-ok tt _ h)
        (IsOn-ok tt next h)

  free_round-IsOn :
      (d : Debugger) → d.session.running ≡ true → IsOn (free_round handle_ecall peripherals_run o d)
  unfolding free_round
  free_round-IsOn d h = IsOn-bind _ _ (count_cycle-IsOn d h) λ _ d h.
      IsOn-bind _ _
        (IsOn-any (on_system (step_instruction handle_ecall peripherals_run o.timer) d) h)
        λ _ d h. IsOn-if o.mmio _ _ (count_device_round-IsOn d h) (IsOn-ok tt d h)

  -- What a round has made, and the rounds after it.
  Stop-continue :
      (n : ℕ) (d : Debugger) (x : Result (Unit {0}) × Debugger) (rest : Exec Debugger Bool)
      → at_breakpoint d ≡ false
      → free_round handle_ecall peripherals_run o d ≡ x
      → IsOn x
      → ((d1 : Debugger) → d1.session.running ≡ true → Stop n d1 (rest d1))
      → Stop (suc n) d (continue x λ _. rest)
  Stop-continue n d (ok u, d1) rest hb hf on hr = Stop-step hb hf (hr d1 on.on)
  Stop-continue n d (err e, d1) rest hb hf on hr = exception (omega arith) here hb hf

  round-Stop :
      (n : ℕ) (d : Debugger) (b : Bool) (rest : Exec Debugger Bool)
      → at_breakpoint d ≡ b
      → IsOn (free_round handle_ecall peripherals_run o d)
      → ((d1 : Debugger) → d1.session.running ≡ true → Stop n d1 (rest d1))
      → Stop (suc n) d (
          continue
            (if b
              then (err (debug_break sigtrap), d)
              else free_round handle_ecall peripherals_run o d)
            λ _. rest)
  round-Stop n d true rest hb on hr = breakpoint (omega arith) here hb
  round-Stop n d false rest hb on hr = Stop-continue n d _ rest hb refl on hr

  debug_rounds-Stop :
      (n : ℕ) (d : Debugger)
      → d.session.running ≡ true
      → Stop n d (debug_rounds handle_ecall peripherals_run o n d)
  unfolding debug_rounds debug_round
  debug_rounds-Stop zero d h = out_of_rounds here
  debug_rounds-Stop (suc n) d h =
      let rest = debug_rounds handle_ecall peripherals_run o n in
      let round = continue (debug_round handle_ecall peripherals_run o d) λ _. rest in
      subst (λ b. Stop (suc n) d (if b then round else (ok true, d))) (sym h)
        (round-Stop n d (at_breakpoint d) rest refl (free_round-IsOn d h) (debug_rounds-Stop n))

  -- With the program running and no single step, the loop of the debugger ends in one of three ways.
  -- Either all its rounds have passed; or fewer have and then an address with a breakpoint is
  -- reached, where it raises the trap signal before the instruction there is executed, with the
  -- state as the rounds before have left it; or fewer have and then a round raises an exception at
  -- an address with no breakpoint, which is raised again. No round before starts at a breakpoint.
  pub run_with_gdb-Stop :
      (n : ℕ) (d : Debugger)
      → d.session.running ≡ true
      → d.session.single_step ≡ false
      → Stop n
          (record d { cycle_count = 0; div = 0 })
          (run_with_gdb handle_ecall peripherals_run o n d)
  unfolding run_with_gdb
  run_with_gdb-Stop n d h hs =
      let start = record d { cycle_count = 0; div = 0 } in
      let loop = debug_rounds handle_ecall peripherals_run o n start in
      subst (λ b. Stop n start (if b then single_step handle_ecall peripherals_run o d else loop))
        (sym hs) (debug_rounds-Stop n start h)
