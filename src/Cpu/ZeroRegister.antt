-- ===== src/Cpu/ZeroRegister.antt =====
-- Register x0 after `execute` of cpu.py.
use riscv_python.Prelude.{ℕ, ◌≡◌, ◌%◌, ◌^◌, ◌==◌, refl, Option, none, some, not, Bool, true}
use riscv_python.State.{
  System, Decoded, Cpu, Expanded, Result, ok, err, update, set_reg, apply, continue,
}
use riscv_python.State.Leaves.{if-keeps}
use riscv_python.Cpu.Trap.{trap}
use riscv_python.Cpu.System.{EcallHandler}
use riscv_python.Cpu.Execute.{
  run_decoded, execute_32, execute_16, execute, cached_decode, cached_expand, run_expanded,
}

abbrev ZeroesX0 : Result (Unit {0}) × System → Type 0
ZeroesX0 x = x.0 ≡ ok tt → x.1.cpu.registers 0 ≡ 0

last_zeroes : (x : Result (Unit {0}) × System) → ZeroesX0 (continue x (λ _. apply (set_reg 0 0)))
unfolding set_reg update
last_zeroes (ok _, s) h = refl
last_zeroes (err e, s) h = cc

module _ (handle : EcallHandler) where
  run_decoded-ZeroesX0 :
      (inst n : ℕ) (d : Decoded) (s : System) → ZeroesX0 (run_decoded handle inst n d s)
  unfolding run_decoded
  run_decoded-ZeroesX0 inst n d s = last_zeroes _

  execute_32-ZeroesX0 : (inst : ℕ) (s : System) → ZeroesX0 (execute_32 handle inst s)
  unfolding execute_32
  execute_32-ZeroesX0 inst s =
      run_decoded-ZeroesX0 inst 4 (cached_decode inst s.cpu).0
        (record s { cpu = (cached_decode inst s.cpu).1 })

  trap-ZeroesX0 :
      (cause mtval : ℕ) (sync : Bool) (s : System)
      → s.cpu.registers 0 ≡ 0
      → ZeroesX0 (trap cause mtval sync s)
  unfolding trap
  trap-ZeroesX0 cause mtval sync s zero =
      if-keeps ZeroesX0 (s.cpu.csrs 0x305 == 0) _ _ (λ h. zero) (λ h. zero)

  run_expanded-ZeroesX0 :
      (o : Option (Expanded × Cpu)) (inst16 : ℕ) (s : System)
      → s.cpu.registers 0 ≡ 0
      → ZeroesX0 (run_expanded handle o inst16 s)
  unfolding run_expanded
  run_expanded-ZeroesX0 none inst16 s zero = trap-ZeroesX0 2 inst16 true s zero
  run_expanded-ZeroesX0 (some (e, cpu)) inst16 s zero =
      run_decoded-ZeroesX0 e.expanded_inst 2 e.decoded (record s { cpu = cpu })

  execute_16-ZeroesX0 :
      (inst16 : ℕ) (s : System) → s.cpu.registers 0 ≡ 0 → ZeroesX0 (execute_16 handle inst16 s)
  unfolding execute_16
  execute_16-ZeroesX0 inst16 s zero =
      run_expanded-ZeroesX0 (cached_expand inst16 s.cpu) inst16 s zero

  -- Every instruction that `execute` ends without an exception, whatever it is and whatever the
  -- system call handler does, leaves register x0 at 0 if it was 0 before.
  pub execute-ZeroesX0 :
      (inst : ℕ) (s : System)
      → s.cpu.registers 0 ≡ 0
      → (execute handle inst s).0 ≡ ok tt
      → (execute handle inst s).1.cpu.registers 0 ≡ 0
  unfolding execute
  execute-ZeroesX0 inst s zero =
      if-keeps ZeroesX0 (not s.cpu.rvc_enabled) _ _ (execute_32-ZeroesX0 inst s) (
        if-keeps ZeroesX0 (inst % 2 ^ 2 == 0x3) _ _ (execute_32-ZeroesX0 inst s)
          (execute_16-ZeroesX0 (inst % 2 ^ 16) s zero))
