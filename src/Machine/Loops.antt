-- ===== src/Machine/Loops.antt =====
-- The debug loop and the loop with devices of machine.py do the same.
use riscv_python.Prelude.{
  ℕ, zero, suc, ◌+◌, ◌%◌, ◌^◌, ◌≤◌, ◌≡◌, refl, ap, sym, ◌∙◌, Bool, true, false, none, List, [], ◌∷◌,
  ◌==◌, if◌then◌else◌, arith, inl, inr, Bool-cases,
}
use riscv_python.State.{
  System, Result, machine_error, ok, err, Exec, continue, ◌>>=◌, safe_mmio, Peripheral, Cpu,
}
use riscv_python.Cpu.System.{EcallHandler}
use riscv_python.Cpu.Execute.{execute}
use riscv_python.Ram.Bytes.{word_at}
use riscv_python.Ram.Access.{load_word}
use riscv_python.Ram.Mmio.{on_ram, or_memory}
use riscv_python.Ram.SafeMmio
use riscv_python.Peripherals.{DeviceCall, in_range, on_device, read32}
use riscv_python.Ram.RoundTrip.{load_word-word_at}
use riscv_python.Invariant.Defs.{IsWfRam}
use riscv_python.Machine.{
  Options, rounds, run, fetch_halves, execute_fetched, is_start_misaligned, counted, check_if,
  step_with_checks, step_mmio, step_timer, step_fast, step_no_rvc,
}
use riscv_python.Machine.Fetch.{fetch_halves-word_at}

-- No device has an address.
abbrev pub IsOffBus : ℕ → List Peripheral → Type 0
IsOffBus addr [] = Unit
IsOffBus addr (p ∷ ps) = (in_range p addr ≡ false) × IsOffBus addr ps

on_device-IsOffBus :
    {A : Type 0} (addr : ℕ) (call : Peripheral → Cpu → DeviceCall A) (ps : List Peripheral)
    (cpu : Cpu)
    → IsOffBus addr ps
    → on_device addr call ps cpu ≡ none
unfolding on_device
on_device-IsOffBus addr call [] cpu h = refl
on_device-IsOffBus addr call (p ∷ ps) cpu (h, hs) =
    let rest = on_device-IsOffBus addr call ps cpu hs in rw (h, rest) refl

-- A state in which the word at the program counter lies in a `SafeRAM_MMIO` and not in a device,
-- and compressed instructions are enabled.
pub record IsReady (s : System) : Type 0 where
  pub class : s.ram.ram_class ≡ safe_mmio
  pub word : s.cpu.pc + 4 ≤ s.ram.size
  pub size : s.ram.size ≤ s.ram.memory_len
  pub wf : IsWfRam s.ram
  pub off_bus : IsOffBus s.cpu.pc s.ram.mmio_ranges
  pub rvc : s.cpu.rvc_enabled ≡ true

loaded_word :
    (s : System) → IsReady s → load_word s.cpu.pc s ≡ (ok (word_at s.ram.memory s.cpu.pc), s)
unfolding load_word SafeMmio.load_word or_memory on_ram
loaded_word s h =
    simp
      (
        h.class,
        on_device-IsOffBus s.cpu.pc (read32 s.cpu.pc) s.ram.mmio_ranges s.cpu h.off_bus,
        load_word-word_at s.cpu.pc s.ram h.word h.size h.wf.memory,
      )
      refl

module _ (handle : EcallHandler) (devices : Exec System (Unit {0})) where
  -- The instruction, fetched by halves or at once.
  instruction_same :
      (s : System)
      → IsReady s
      → (fetch_halves >>= execute handle) s
        ≡ (load_word s.cpu.pc >>= execute_fetched handle devices) s
  unfolding execute execute_fetched
  instruction_same s h =
      let inst = word_at s.ram.memory s.cpu.pc in
      let fetched = fetch_halves-word_at s h.class h.word h.size h.wf in
      let loaded = loaded_word s h in
      let same : inst % 2 ^ 16 % 4 ≡ inst % 4 = omega arith in
      let cut : inst % 2 ^ 16 % 2 ^ 16 ≡ inst % 2 ^ 16 = omega arith in
      rw (fetched, loaded, h.rvc)
        (elim (Bool-cases (inst % 4 == 3)) [
          | inl t ↦ rw (t, t) refl
          | inr f ↦ rw (f, same, f, cut) refl
        ])

  step_same :
      (o : Options) (s : System) (div : ℕ) (flag : Bool)
      → o.check_inv ≡ none
      → o.mmio ≡ true
      → IsReady s
      → step_with_checks handle devices o ((s, div), flag)
        ≡ (let (r, st) = step_mmio handle devices o (s, div) in (r, (st, flag)))
  unfolding step_with_checks check_if step_mmio
  step_same o s div flag hi hm h = rw (hi, hm, instruction_same s h) refl

  abbrev pub Next : (System × ℕ → Type 0) → Result (Unit {0}) × (System × ℕ) → Type 0
  Next P (ok u, st) = P st
  Next P (err e, st) = Unit

  -- Every state in which one of `n` rounds of the loop with devices starts is ready.
  unfoldable pub AreReady : Options → ℕ → System × ℕ → Type 0
  AreReady o zero st = Unit
  AreReady o (suc n) st = IsReady st.0 × Next (AreReady o n) (step_mmio handle devices o st)

  after_step :
      (f : Exec ((System × ℕ) × Bool) (Unit {0})) (g : Exec (System × ℕ) (Unit {0})) (flag : Bool)
      (P : System × ℕ → Type 0) (x : Result (Unit {0}) × (System × ℕ))
      → Next P x
      → ((s : System) (d : ℕ)
          → P (s, d)
          → f ((s, d), flag) ≡ (let (r, st) = g (s, d) in (r, (st, flag))))
      → continue (x.0, (x.1, flag)) (λ _. f)
        ≡ (let (r, st) = continue x (λ _. g) in (r, (st, flag)))
  after_step f g flag P (ok u, (s, d)) h same = same s d h
  after_step f g flag P (err e, st) h same = refl

  rounds_same :
      (o : Options) (n : ℕ) (s : System) (div : ℕ) (flag : Bool)
      → o.check_inv ≡ none
      → o.mmio ≡ true
      → AreReady o n (s, div)
      → rounds n (step_with_checks handle devices o) ((s, div), flag)
        ≡ (let (r, st) = rounds n (step_mmio handle devices o) (s, div) in (r, (st, flag)))
  unfolding rounds AreReady
  rounds_same o zero s div flag hi hm h = refl
  rounds_same o (suc n) s div flag hi hm (h, next) = rw (step_same o s div flag hi hm h) (
      after_step (rounds n (step_with_checks handle devices o))
        (rounds n (step_mmio handle devices o)) flag (AreReady o n)
        (step_mmio handle devices o (s, div)) next (λ s' d h'. rounds_same o n s' d flag hi hm h'))

  -- The choice among the other loops.
  abbrev rest_of : Options → ℕ → Exec System (Unit {0})
  rest_of o n s =
      if o.timer
      then rounds n (step_timer handle devices) s
      else if o.rvc
      then rounds n (step_fast handle devices) s
      else rounds n (step_no_rvc handle devices) s

  -- The debug loop and the loop with devices do the same, apart from what is logged: where no
  -- invariants are to be checked, `n` rounds of the loop that fetches by half words and calls
  -- `execute` have the same result and leave the same state as `n` rounds of the loop that fetches a
  -- word and chooses between `execute_32` and `execute_16`, as long as the word at the program
  -- counter lies in a memory of class `SafeRAM_MMIO` and not in a device, and compressed
  -- instructions are enabled.
  pub run-checks :
      (o : Options) (n : ℕ) (s : System)
      → o.check_inv ≡ none
      → o.mmio ≡ true
      → AreReady o n (s, 0)
      → run handle devices (record o { checks = true }) n s
        ≡ run handle devices (record o { checks = false }) n s
  unfolding run is_start_misaligned step_with_checks step_mmio
  run-checks o n s hi hm h =
      let same = rounds_same o n s 0 false hi hm h in
      let counts =
        ap {B = Result (Unit {0}) × System}
          (λ (x : Result (Unit {0}) × ((System × ℕ) × Bool)). (x.0, x.1.0.0)) same in
      let guarded = λ (x : Result (Unit {0}) × System).
        if is_start_misaligned o s.cpu.pc then (err machine_error, s) else x in
      ap guarded counts
      ∙ sym (
          ap
            (λ mmio. guarded (
              if mmio
              then counted handle devices (rounds n (step_mmio handle devices o)) s
              else rest_of o n s))
            hm)
