-- ===== src/Browser/Chunks/Counting.antt =====
-- How far the loop of run_chunk of browser_entry.py counts.
use riscv_python.Prelude.{ℕ, zero, suc, ◌+◌, ◌<◌, ◌≤◌, ◌≡◌, refl, ap, Bool, arith}
use riscv_python.State.{System, Result, ok, err, Exec, continue}
use riscv_python.State.Leaves.{Leaves, Leaves-if, Leaves-unit, Leaves-state, Any}
use riscv_python.Cpu.System.{EcallHandler}
use riscv_python.Machine.Checks.{CheckSettings}
use riscv_python.Browser.Execution.{Progress, in_progress, check_chunk, chunk_step, chunk_loop}

-- An instruction that raises is not counted.
abbrev CountedBy : ℕ → Result (Unit {0}) × Progress → Type 0
CountedBy c (ok u, p) = p.instruction_count ≡ c + 1
CountedBy c (err f, p) = p.instruction_count ≡ c

record Counted (c : ℕ) (x : Result (Unit {0}) × Progress) : Type 0 where
  by : CountedBy c x

abbrev Keeps : ℕ → Progress → Type 0
Keeps c p = p.instruction_count ≡ c

Counted-bind :
    {A : Type 0} (c : ℕ) (x : Result A × Progress) (f : A → Exec Progress (Unit {0}))
    → Leaves (Keeps c) Any x
    → ((a : A) (p : Progress) → Keeps c p → Counted c (f a p))
    → Counted c (continue x f)
Counted-bind c (ok a, p) f h next = next a p h.state
Counted-bind c (err e, p) f h next = record { by = h.state }

in_progress-Keeps :
    {A : Type 0} (c : ℕ) (f : Exec System A) (p : Progress)
    → Keeps c p
    → Leaves (Keeps c) Any (in_progress f p)
unfolding in_progress
in_progress-Keeps c f p h = Leaves-state (in_progress f p) h

-- How far a loop of `n` rounds has come.
abbrev pub Through : ℕ → ℕ → Result (Unit {0}) × Progress → Type 0
Through c n (ok u, p) = p.instruction_count ≡ c + n
Through c n (err f, p) = (c ≤ p.instruction_count) × (p.instruction_count < c + n)

Through-suc :
    (c d n : ℕ) (x : Result (Unit {0}) × Progress) → d ≡ c + 1 → Through d n x → Through c (suc n) x
Through-suc c d n (ok u, p) e h = omega arith
Through-suc c d n (err f, p) e (lo, hi) = (omega arith, omega arith)

Through-bind :
    (c n : ℕ) (x : Result (Unit {0}) × Progress) (f : Exec Progress (Unit {0}))
    → Counted c x
    → ((p : Progress) → Through p.instruction_count n (f p))
    → Through c (suc n) (continue x (λ _. f))
Through-bind c n (err e, p) f h next = omega (arith, h.by)
Through-bind c n (ok u, p) f h next = Through-suc c p.instruction_count n (f p) h.by (next p)

module _ (handle : EcallHandler) (settings : CheckSettings) (check_inv timer : Bool) where
  check_chunk-Keeps :
      (c : ℕ) (p : Progress)
      → Keeps c p
      → Leaves (Keeps c) Any (check_chunk handle settings check_inv timer p)
  unfolding check_chunk
  check_chunk-Keeps c p h =
      Leaves-if check_inv _ _ (Leaves-state (_, record p { system = _; check_enable = _ }) h)
        (Leaves-unit p h)

  chunk_step-Counted :
      (p : Progress) → Counted p.instruction_count (chunk_step handle settings check_inv timer p)
  unfolding chunk_step
  chunk_step-Counted p =
      let c = p.instruction_count in
      Counted-bind c _ _ (check_chunk-Keeps c p refl) λ _ p h.
        Counted-bind c _ _ (in_progress-Keeps c _ p h) λ _ p h.
          Counted-bind c _ _ (in_progress-Keeps c _ p h) λ _ p h.
            Counted-bind c _ _ (in_progress-Keeps c _ p h)
              λ _ p h. record { by = ap (λ n. n + 1) h }

  pub chunk_loop-Through :
      (n : ℕ) (p : Progress)
      → Through p.instruction_count n (chunk_loop handle settings check_inv timer n p)
  unfolding chunk_loop
  chunk_loop-Through zero p = omega arith
  chunk_loop-Through (suc n) p =
      Through-bind p.instruction_count n (chunk_step handle settings check_inv timer p) _
        (chunk_step-Counted p) (chunk_loop-Through n)
