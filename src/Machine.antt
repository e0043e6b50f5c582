-- ===== src/Machine.antt =====
-- machine.py: the execution loops of class `Machine` and the choice among them. The system call
-- handler and the `run` methods of the devices are parameters.
pub mod Fetch
pub mod Loops
pub mod Checks
pub mod Debug
pub mod Stub
pub mod Expiry
pub mod Loader
use riscv_python.Prelude.{
  ℕ, zero, suc, ◌+◌, ◌*◌, ◌%◌, ◌^◌, bit_or, Bool, false, not, Option, none, some, ◌==◌,
  if◌then◌else◌,
}
use riscv_python.Prelude.Int.{pos_part}
use riscv_python.State.{System, ok, err, Exec, machine_error, ◌>>=◌, ◌>>◌, apply, pure}
use riscv_python.Ram.Access.{load_half, load_word}
use riscv_python.Machine.Checks.{CheckSettings, beside_flag, check_invariants}
use riscv_python.Cpu.Trap.{timer_update}
use riscv_python.Cpu.System.{EcallHandler}
use riscv_python.Cpu.Execute.{execute_32, execute_16, execute}

-- The options that select a loop. `checks` is whether registers are logged, invariants checked or
-- functions traced; `check_inv` has what the checks of invariants read, if they are asked for.
pub record Options : Type 0 where
  pub timer : Bool
  pub mmio : Bool
  pub rvc : Bool
  pub checks : Bool
  pub check_inv : Option CheckSettings

-- `cpu.pc = cpu.next_pc`
unfoldable pub advance : System → System
advance s = record s { cpu = record s.cpu { pc = s.cpu.next_pc } }

-- `while True` for a number of rounds; an exception ends it.
unfoldable pub rounds {ℓ} : {S : Type ℓ} → ℕ → Exec S (Unit {0}) → Exec S (Unit {0})
rounds zero body s = (ok tt, s)
rounds (suc n) body s = (body >> rounds n body) s

-- The upper half of a 32-bit instruction, if the low bits say that there is one.
unfoldable pub fetch_upper : ℕ → ℕ → Exec System ℕ
fetch_upper pc low s =
    if low % 2 ^ 2 == 0x3
    then (do high ← load_half (pc + 2) false; pure (bit_or low (pos_part high * 2 ^ 16))) s
    else (ok low, s)

-- The fetch of `run_with_checks`, 16 bits at a time.
unfoldable pub fetch_halves : Exec System ℕ
unfolding fetch_upper
fetch_halves s = (do low ← load_half s.cpu.pc false; fetch_upper s.cpu.pc (pos_part low)) s

-- `cpu.pc & alignment_mask` with the mask of the machine's option.
unfoldable pub is_start_misaligned : Options → ℕ → Bool
is_start_misaligned o pc = if o.rvc then not (pc % 2 == 0) else not (pc % 4 == 0)

module _ (handle_ecall : EcallHandler) (peripherals_run : Exec System (Unit {0})) where
  unfoldable pub step_no_rvc : Exec System (Unit {0})
  unfolding advance
  step_no_rvc s = (do inst ← load_word s.cpu.pc; execute_32 handle_ecall inst; apply advance) s

  -- An instruction of either length from a word.
  unfoldable pub execute_fetched : ℕ → Exec System (Unit {0})
  execute_fetched inst s =
      if inst % 2 ^ 2 == 0x3
      then execute_32 handle_ecall inst s
      else execute_16 handle_ecall (inst % 2 ^ 16) s

  unfoldable pub step_fast : Exec System (Unit {0})
  unfolding execute_fetched advance
  step_fast s = (do inst ← load_word s.cpu.pc; execute_fetched inst; apply advance) s

  unfoldable pub step_timer : Exec System (Unit {0})
  unfolding execute_fetched advance
  step_timer s = (do inst ← load_word s.cpu.pc; execute_fetched inst; timer_update; apply advance) s

  unfoldable pub update_if : Bool → Exec System (Unit {0})
  update_if timer s = if timer then timer_update s else (ok tt, s)

  -- The slow path: `div` counts to 256, and then the devices run.
  unfoldable pub count_device_cycle : Exec (System × ℕ) (Unit {0})
  count_device_cycle (s, div) =
      if (div + 1) % 2 ^ 8 == 0
      then (let (r, s') = peripherals_run s in (r, (s', elim r [ ok u ↦ 0 | err e ↦ div + 1 ])))
      else (ok tt, (s, div + 1))

  -- A method of the machine, beside the counter of the loop.
  abbrev pub beside : Exec System (Unit {0}) → Exec (System × ℕ) (Unit {0})
  beside m (s, div) = let (r, s') = m s in (r, (s', div))

  unfoldable pub step_mmio : Options → Exec (System × ℕ) (Unit {0})
  unfolding execute_fetched advance update_if count_device_cycle
  step_mmio o (s, div) =
      (do
        beside (λ s. (do inst ← load_word s.cpu.pc; execute_fetched inst) s)
        beside (update_if o.timer)
        beside (apply advance)
        count_device_cycle)
        (s, div)

  unfoldable pub check_if : Option CheckSettings → Exec (System × Bool) (Unit {0})
  unfolding check_invariants
  check_if none st = (ok tt, st)
  check_if (some m) st = check_invariants m st

  -- The debug version, with `check_enable` beside the counter; its logging is left out.
  unfoldable pub step_with_checks : Options → Exec ((System × ℕ) × Bool) (Unit {0})
  unfolding check_if fetch_halves advance update_if count_device_cycle
  step_with_checks o ((s, div), check_enable) =
      (do
        (λ ((s, div), flag).
            let (r, (s', flag')) = check_if o.check_inv (s, flag) in (r, ((s', div), flag')))
        beside_flag (do
          beside (do inst ← fetch_halves; execute handle_ecall inst)
          beside (update_if o.timer)
          beside (apply advance)
          (λ st. if o.mmio then count_device_cycle st else (ok tt, st))))
        ((s, div), check_enable)

  -- A loop that keeps a counter, started at zero.
  abbrev pub counted : Exec (System × ℕ) (Unit {0}) → Exec System (Unit {0})
  counted m s = let (r, (s', div)) = m (s, 0) in (r, s')

  abbrev checked : Exec ((System × ℕ) × Bool) (Unit {0}) → Exec System (Unit {0})
  checked m s = let (r, ((s', div), flag)) = m ((s, 0), false) in (r, s')

  -- `run` for `n` rounds of the loop that the options select.
  unfoldable pub run : Options → ℕ → Exec System (Unit {0})
  unfolding is_start_misaligned rounds
  run o n s =
      if is_start_misaligned o s.cpu.pc
      then (err machine_error, s)
      else if o.checks
      then checked (rounds n (step_with_checks o)) s
      else if o.mmio
      then counted (rounds n (step_mmio o)) s
      else if o.timer
      then rounds n step_timer s
      else if o.rvc
      then rounds n step_fast s
      else rounds n step_no_rvc s
