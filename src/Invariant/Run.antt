-- ===== src/Invariant/Run.antt =====
-- Well-formed states and the execution loops of machine.py.
use riscv_python.Prelude.Int.{pos_part}
use riscv_python.Bits.{bit_or-lt}
use riscv_python.Ram.Access.{load_word}
use riscv_python.Prelude.{
  ◌+◌, ◌*◌, Bool, Option, none, some, if◌then◌else◌, ℕ, zero, suc, ◌^◌, ◌%◌, ◌==◌, ◌<◌, ◌≡◌, false,
  arith,
}
use riscv_python.State.{System, Exec, Result, ok, continue, apply, ◌>>◌}
use riscv_python.State.Leaves.{
  Leaves, Leaves-unit, Leaves-bind, Leaves-state, Any, if-keeps, Leaves-if, Leaves-ok,
}
use riscv_python.Cpu.System.{EcallHandler}
use riscv_python.Machine.{
  fetch_halves, fetch_upper, check_if, step_with_checks, update_if, beside, count_device_cycle,
  step_mmio, Options, advance, rounds, is_start_misaligned, step_no_rvc, execute_fetched, step_fast,
  run,
}
use riscv_python.Invariant.Defs.{IsWf}
use riscv_python.Invariant.Bytes.{Fits, FitsHalf}
use riscv_python.Invariant.Access.{load_word-Leaves, load_half-Leaves}
use riscv_python.Invariant.System.{KeepsWf}
use riscv_python.Invariant.Execute.{execute-IsWf, execute_32-IsWf, execute_16-IsWf}
use riscv_python.Invariant.Checks.{check_invariants-Leaves}
use riscv_python.Machine.Checks.{CheckSettings, check_invariants}
use riscv_python.Cpu.Execute.{execute}

advance-IsWf : (s : System) → IsWf s → IsWf (advance s)
unfolding advance
advance-IsWf s h = record {
  cpu = record {
    caches = h.caches;
    registers = h.registers;
    csrs = h.csrs;
    pc = h.next_pc;
    next_pc = h.next_pc;
    mtime = h.mtime;
    mtimecmp = h.mtimecmp;
  };
  ram = h.ram;
}

rounds-Leaves :
    {S : Type 0} (P : S → Type 0) (body : Exec S (Unit {0}))
    → ((s : S) → P s → Leaves P Any (body s))
    → (n : ℕ) (s : S) → P s
    → Leaves P Any (rounds n body s)
unfolding rounds
rounds-Leaves P body step zero s h = Leaves-unit s h
rounds-Leaves P body step (suc n) s h =
    Leaves-bind Any (body s) _ (step s h) λ _ s' _ h'. rounds-Leaves P body step n s' h'

-- The emulator beside the counter of a loop.
abbrev WfBeside : System × ℕ → Type 0
WfBeside st = IsWf st.0

abbrev WfChecked : (System × ℕ) × Bool → Type 0
WfChecked st = IsWf st.0.0

beside-Leaves :
    {A : Type 0} (x : Result A × System) (div : ℕ)
    → Leaves IsWf Any x
    → Leaves WfBeside Any (x.0, (x.1, div))
beside-Leaves x div h = Leaves-state (x.0, (x.1, div)) h.state

fetch_halves-Leaves : (s : System) → IsWf s → Leaves IsWf (Fits 32) (fetch_halves s)
unfolding fetch_halves fetch_upper
fetch_halves-Leaves s h =
    let pc = s.cpu.pc in
    Leaves-bind FitsHalf _ _ (load_half-Leaves pc s h false) λ low s hl h.
      Leaves-if (pos_part low % 2 ^ 2 == 3) _ _
        (Leaves-bind FitsHalf _ _ (load_half-Leaves (pc + 2) s h false) λ high s hh h.
          Leaves-ok _ s
            (bit_or-lt 32 (pos_part low) (pos_part high * 2 ^ 16) (omega arith) (omega arith)) h)
        (Leaves-ok (pos_part low) s (omega arith) h)

module _ (handle : EcallHandler) (devices : Exec System (Unit {0})) (keeps : KeepsWf handle)
    (devs : (s : System) → IsWf s → IsWf (devices s).1) where
  step_no_rvc-Leaves : (s : System) → IsWf s → Leaves IsWf Any (step_no_rvc handle devices s)
  unfolding step_no_rvc
  step_no_rvc-Leaves s h = Leaves-bind (Fits 32) _ _ (load_word-Leaves s.cpu.pc s h) λ inst s hi h.
      Leaves-bind Any _ _ (Leaves-state _ (execute_32-IsWf handle keeps inst s hi h))
        λ _ s _ h. Leaves-unit _ (advance-IsWf s h)

  execute_fetched-IsWf :
      (inst : ℕ) (s : System)
      → inst < 2 ^ 32
      → IsWf s
      → IsWf (execute_fetched handle devices inst s).1
  unfolding execute_fetched
  execute_fetched-IsWf inst s hi h =
      if-keeps (λ (x : Result (Unit {0}) × System). IsWf x.1) (inst % 2 ^ 2 == 0x3) _ _
        (execute_32-IsWf handle keeps inst s hi h)
        (execute_16-IsWf handle keeps (inst % 2 ^ 16) s (omega arith) h)

  step_fast-Leaves : (s : System) → IsWf s → Leaves IsWf Any (step_fast handle devices s)
  unfolding step_fast
  step_fast-Leaves s h = Leaves-bind (Fits 32) _ _ (load_word-Leaves s.cpu.pc s h) λ inst s hi h.
      Leaves-bind Any _ _ (Leaves-state _ (execute_fetched-IsWf inst s hi h))
        λ _ s _ h. Leaves-unit _ (advance-IsWf s h)

  update_if-IsWf :
      (timer : Bool) (s : System)
      → timer ≡ false
      → IsWf s
      → IsWf (update_if handle devices timer s).1
  unfolding update_if
  update_if-IsWf timer s ht h = rw ht h

  count_device_cycle-Leaves :
      (s : System) (div : ℕ)
      → IsWf s
      → Leaves WfBeside Any (count_device_cycle handle devices (s, div))
  unfolding count_device_cycle
  count_device_cycle-Leaves s div h =
      Leaves-if ((div + 1) % 2 ^ 8 == 0) _ _ (Leaves-state (_, ((devices s).1, _)) (devs s h))
        (Leaves-unit (s, div + 1) h)

  -- What follows the instruction in a round.
  round_end-Leaves :
      (o : Options)
      → o.timer ≡ false
      → (finish : Exec (System × ℕ) (Unit {0}))
      → ((s : System) (div : ℕ) → IsWf s → Leaves WfBeside Any (finish (s, div)))
      → (x : Result (Unit {0}) × (System × ℕ)) → Leaves WfBeside Any x
      → Leaves WfBeside Any (
          continue x (λ _.
            beside handle devices (update_if handle devices o.timer)
            >> (beside handle devices (apply advance) >> finish)))
  round_end-Leaves o ht finish finishes x hx = Leaves-bind Any x _ hx λ _ (s, div) _ h.
      Leaves-bind Any _ _
        (beside-Leaves (update_if handle devices o.timer s) div
          (Leaves-state _ (update_if-IsWf o.timer s ht h)))
        λ _ (s, div) _ h.
          Leaves-bind Any _ _ (Leaves-unit (advance s, div) (advance-IsWf s h))
            λ _ (s, div) _ h. finishes s div h

  step_mmio-Leaves :
      (o : Options)
      → o.timer ≡ false
      → (st : System × ℕ) → IsWf st.0
      → Leaves WfBeside Any (step_mmio handle devices o st)
  unfolding step_mmio
  step_mmio-Leaves o ht (s, div) h =
      let instruction =
        Leaves-bind {P = IsWf} {R = Any} (Fits 32) (load_word s.cpu.pc s)
          (execute_fetched handle devices) (load_word-Leaves s.cpu.pc s h)
          (λ inst s hi h. Leaves-state _ (execute_fetched-IsWf inst s hi h)) in
      round_end-Leaves o ht (count_device_cycle handle devices) count_device_cycle-Leaves _
        (beside-Leaves _ div instruction)

  -- The checks at the beginning of a round of the debug loop, if they are asked for.
  check_if-Leaves :
      (c : Option CheckSettings) (s : System) (div : ℕ) (flag : Bool)
      → IsWf s
      → Leaves WfChecked Any
          (let (r, (s', flag')) = check_if handle devices c (s, flag) in (r, ((s', div), flag')))
  unfolding check_if
  check_if-Leaves none s div flag h = Leaves-unit ((s, div), flag) h
  check_if-Leaves (some m) s div flag h =
      let (r, (s', flag')) = check_invariants m (s, flag) in
      Leaves-state (r, ((s', div), flag')) (check_invariants-Leaves m s flag h).state

  step_with_checks-Leaves :
      (o : Options)
      → o.timer ≡ false
      → (st : (System × ℕ) × Bool) → IsWf st.0.0
      → Leaves WfChecked Any (step_with_checks handle devices o st)
  unfolding step_with_checks
  step_with_checks-Leaves o ht ((s, div), flag) h =
      Leaves-bind Any _ _ (check_if-Leaves o.check_inv s div flag h) λ _ ((s, div), flag) _ h.
        let instruction =
          Leaves-bind {P = IsWf} {R = Any} (Fits 32) (fetch_halves s) (execute handle)
            (fetch_halves-Leaves s h)
            (λ inst s hi h. Leaves-state _ (execute-IsWf handle keeps inst s hi h)) in
        let finish = λ (st : System × ℕ).
          if o.mmio then count_device_cycle handle devices st else (ok tt, st) in
        let round =
          round_end-Leaves o ht finish
            (λ s div h.
              Leaves-if o.mmio _ _ (count_device_cycle-Leaves s div h) (Leaves-unit (s, div) h))
            _ (beside-Leaves _ div instruction) in
        Leaves-state (_, (_, flag)) round.state

  -- From a well-formed state, a run of any length without the timer ends in a well-formed state,
  -- also where an exception ends it, provided that the system call handler and the devices keep
  -- well-formed states.
  pub run-IsWf :
      (o : Options) (n : ℕ) (s : System)
      → o.timer ≡ false
      → IsWf s
      → IsWf (run handle devices o n s).1
  unfolding run
  run-IsWf o n s timer h =
      let P = λ (x : Result (Unit {0}) × System). IsWf x.1 in
      if-keeps P (is_start_misaligned o s.cpu.pc) _ _ h (
        if-keeps P o.checks _ _
          (rounds-Leaves WfChecked (step_with_checks handle devices o)
            (step_with_checks-Leaves o timer) n ((s, 0), false) h).state
          (if-keeps P o.mmio _ _
            (rounds-Leaves WfBeside (step_mmio handle devices o) (step_mmio-Leaves o timer) n (s, 0)
              h).state
            (rw timer (
              if-keeps P o.rvc _ _
                (rounds-Leaves IsWf (step_fast handle devices) step_fast-Leaves n s h).state
                (rounds-Leaves IsWf (step_no_rvc handle devices) step_no_rvc-Leaves n s h).state))))
