-- ===== src/Browser/Chunks.antt =====
-- Runs of the page in chunks, and what the buttons do between them.
pub mod Counting
use riscv_python.Prelude.{
  ℕ, zero, suc, ◌+◌, ◌<◌, ◌≤◌, ◌≡◌, refl, sym, ap, ◌∙◌, Bool, true, false, Option, none, some,
  if◌then◌else◌, arith, fun_ext, subst,
}
use riscv_python.State.{System, Result, ok, err, Exec, continue}
use riscv_python.State.Leaves.{Leaves, Leaves-if, Leaves-unit, Leaves-state, Any}
use riscv_python.Cpu.System.{EcallHandler}
use riscv_python.Machine.Loader.{Machine}
use riscv_python.Machine.Checks.{CheckSettings}
use riscv_python.Browser.{EmulatorState, begun, start, stop, from_start}
use riscv_python.Browser.Execution.{
  Progress, in_progress, check_chunk, chunk_step, chunk_loop, check_settings, progress_of,
  with_progress, end_chunk, run_machine, run_chunk,
}
use riscv_python.Browser.Chunks.Counting.{Through, chunk_loop-Through}

continue-continue :
    {A B C S : Type 0} (x : Result A × S) (f : A → Exec S B) (g : B → Exec S C)
    → continue (continue x f) g ≡ continue x (λ a s. continue (f a s) g)
continue-continue (ok a, s) f g = refl
continue-continue (err e, s) f g = refl

module _ (handle : EcallHandler) (settings : CheckSettings) (check_inv timer : Bool) where
  chunk_loop-add :
      (k n : ℕ) (p : Progress)
      → chunk_loop handle settings check_inv timer (k + n) p
        ≡ continue
            (chunk_loop handle settings check_inv timer k p)
            (λ _. chunk_loop handle settings check_inv timer n)
  unfolding chunk_loop
  chunk_loop-add zero n p = let e : 0 + n ≡ n = omega arith in rw e refl
  chunk_loop-add (suc k) n p =
      let e : suc k + n ≡ suc (k + n) = omega arith in
      rw e (
        ap
          (λ (f : Exec Progress (Unit {0})).
            continue (chunk_step handle settings check_inv timer p) λ _. f)
          (fun_ext (chunk_loop-add k n))
        ∙ sym (continue-continue (chunk_step handle settings check_inv timer p) _ _))

-- The next call, if the chunk before says that the run goes on.
abbrev pub and_then :
    Bool × EmulatorState → (EmulatorState → Bool × EmulatorState) → Bool × EmulatorState
and_then (true, e) next = next e
and_then (false, e) next = (false, e)

-- What a chunk of `n` instructions does to the count, and what the next start then does.
abbrev pub Ends : ℕ → EmulatorState → Bool × EmulatorState → Type 0
Ends n e (true, e') =
    (e'.instruction_count ≡ e.instruction_count + n)
    × (e'.running ≡ true)
    × (start (stop e') ≡ some (record e' { exit_info = none }))
Ends n e (false, e') =
    (e.instruction_count ≤ e'.instruction_count)
    × (e'.instruction_count < e.instruction_count + n)
    × (e'.running ≡ false)
    × ((m' : Machine) × (e'.machine ≡ some m')
        × (start e'
            ≡ some (record e' {
              machine = some (from_start e m');
              instruction_count = 0;
              running = true;
              exit_info = none;
              should_reset_pc = false;
            })))

module _ (handle : EcallHandler) where
  -- The loop of a chunk of a machine.
  abbrev loop_of : Machine → EmulatorState → ℕ → Exec Progress (Unit {0})
  loop_of m e n = chunk_loop handle (check_settings m) e.check_inv e.options.timer n

  run_chunk-end_chunk :
      (n : ℕ) (m : Machine) (e : EmulatorState)
      → e.machine ≡ some m
      → e.running ≡ true
      → run_chunk handle n e ≡ end_chunk m e (loop_of m e n (progress_of m e))
  unfolding run_chunk
  run_chunk-end_chunk n m e hm hr =
      ap (λ (o : Option Machine). run_machine handle n o e) hm
      ∙ ap (λ (b : Bool). if b then end_chunk m e (loop_of m e n (progress_of m e)) else (false, e))
          hr

  end_chunk_again :
      (m : Machine) (e : EmulatorState) (p : Progress) (x : Result (Unit {0}) × Progress)
      → end_chunk (record m { system = p.system }) (with_progress m p e) x ≡ end_chunk m e x
  end_chunk_again m e p (ok u, q) = refl
  end_chunk_again m e p (err f, q) = refl

  resume :
      (n : ℕ) (m : Machine) (e : EmulatorState) (x : Result (Unit {0}) × Progress)
      → e.running ≡ true
      → end_chunk m e (continue x (λ _. loop_of m e n))
        ≡ and_then (end_chunk m e x) (run_chunk handle n)
  resume n m e (err f, p) hr = refl
  resume n m e (ok u, p) hr =
      sym (end_chunk_again m e p (loop_of m e n p))
      ∙ sym (run_chunk-end_chunk n (record m { system = p.system }) (with_progress m p e) refl hr)

  -- How a run is cut into chunks does not matter: on a running emulator with a machine, one chunk of
  -- `k + n` instructions gives the same result and the same state as a chunk of `k` that is followed,
  -- if it says that the run goes on, by one of `n`.
  pub run_chunk-add :
      (k n : ℕ) (m : Machine) (e : EmulatorState)
      → e.machine ≡ some m
      → e.running ≡ true
      → run_chunk handle (k + n) e ≡ and_then (run_chunk handle k e) (run_chunk handle n)
  run_chunk-add k n m e hm hr =
      run_chunk-end_chunk (k + n) m e hm hr
      ∙ ap (end_chunk m e) (
          chunk_loop-add handle (check_settings m) e.check_inv e.options.timer k n
            (progress_of m e))
      ∙ resume n m e (loop_of m e k (progress_of m e)) hr
      ∙ ap (λ x. and_then x (run_chunk handle n)) (sym (run_chunk-end_chunk k m e hm hr))

  end_chunk-Ends :
      (n : ℕ) (m : Machine) (e : EmulatorState) (x : Result (Unit {0}) × Progress)
      → e.initialized ≡ true
      → e.file_loaded ≡ true
      → e.running ≡ true
      → e.should_reset_pc ≡ false
      → Through e.instruction_count n x
      → Ends n e (end_chunk m e x)
  unfolding start begun stop
  end_chunk-Ends n m e (ok u, p) hi hf hr hs h = (h, hr, ground arith)
  end_chunk-Ends n m e (err f, p) hi hf hr hs (lo, hi') =
      (lo, hi', refl, (record m { system = p.system }, refl, ground arith))

  -- After a chunk of `n` instructions of a running emulator with a file and no restart due: if the
  -- run goes on, the count has grown by `n`, and after stop a start resumes it in the same state; if
  -- it has ended by an exception, the count has grown by less than `n`, the emulator no longer runs,
  -- and a start sets the program counter, the end of the heap and the count back to what they are at
  -- the beginning of the program.
  pub run_chunk-Ends :
      (n : ℕ) (m : Machine) (e : EmulatorState)
      → e.machine ≡ some m
      → e.initialized ≡ true
      → e.file_loaded ≡ true
      → e.running ≡ true
      → e.should_reset_pc ≡ false
      → Ends n e (run_chunk handle n e)
  run_chunk-Ends n m e hm hi hf hr hs = subst (Ends n e) (sym (run_chunk-end_chunk n m e hm hr)) (
      end_chunk-Ends n m e (loop_of m e n (progress_of m e)) hi hf hr hs (
        chunk_loop-Through handle (check_settings m) e.check_inv e.options.timer n
          (progress_of m e)))
