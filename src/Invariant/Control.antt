-- ===== src/Invariant/Control.antt =====
-- Branches, jumps and fences keep the state well formed.
use riscv_python.Prelude.{ℕ, ◌%◌, ◌^◌, ◌<◌, ◌==◌, true, not, ◌||◌, arith}
use riscv_python.Prelude.Int.{ℤ, pos, ◌+ℤ◌, to_u32, to_u32-lt}
use riscv_python.State.{System, Decoded}
use riscv_python.State.Leaves.{Leaves, Leaves-if, Leaves-unit, Any, if-keeps}
use riscv_python.Bits.{bit_and-le}
use riscv_python.Cpu.Control.{
  is_misaligned, branch_taken, imm_b, exec_branches, imm_j, link, jump, exec_jal, jalr_target,
  exec_jalr, exec_miscmem,
}
use riscv_python.Invariant.Defs.{IsWf, set_reg-IsWf, set_next_pc-IsWf}
use riscv_python.Invariant.Trap.{trap-Leaves}

jalr_target-lt : (a : ℕ) (imm : ℤ) → jalr_target a imm < 2 ^ 32
unfolding jalr_target
jalr_target-lt a imm =
    omega (arith, bit_and-le (to_u32 (pos a +ℤ imm)) 0xFFFFFFFE, to_u32-lt (pos a +ℤ imm))

mod-lt : (x : ℕ) → x % 2 ^ 32 < 2 ^ 32
mod-lt x = omega arith

module _ (inst size : ℕ) (d : Decoded) (s : System) (hi : inst < 2 ^ 32) (h : IsWf s) where
  pub exec_branches-Leaves : Leaves IsWf Any (exec_branches inst size d s)
  unfolding exec_branches
  exec_branches-Leaves =
      let target = to_u32 (pos s.cpu.pc +ℤ imm_b inst) in
      let ht = to_u32-lt (pos s.cpu.pc +ℤ imm_b inst) in
      Leaves-if (branch_taken d.funct3 (s.cpu.registers d.rs1) (s.cpu.registers d.rs2)) _ _
        (Leaves-if (is_misaligned s target) _ _ (trap-Leaves 0 target true s (omega arith) ht h)
          (Leaves-unit _ (set_next_pc-IsWf target s ht h)))
        (Leaves-if (d.funct3 == 0x2 || d.funct3 == 0x3) _ _
          (trap-Leaves 2 inst true s (omega arith) hi h) (Leaves-unit s h))

  jump-Leaves : (target : ℕ) → target < 2 ^ 32 → Leaves IsWf Any (jump target d.rd size s)
  unfolding jump link
  jump-Leaves target ht =
      Leaves-if (is_misaligned s target) _ _ (trap-Leaves 0 target true s (omega arith) ht h) (
        Leaves-unit _ (
          set_next_pc-IsWf target _ ht
            (if-keeps IsWf (d.rd == 0) s _ h (set_reg-IsWf d.rd _ s (mod-lt _) h))))

  pub exec_jal-Leaves : Leaves IsWf Any (exec_jal inst size d s)
  unfolding exec_jal
  exec_jal-Leaves = jump-Leaves _ (to_u32-lt (pos s.cpu.pc +ℤ imm_j inst))

  pub exec_jalr-Leaves : Leaves IsWf Any (exec_jalr inst size d s)
  unfolding exec_jalr
  exec_jalr-Leaves =
      Leaves-if (not (d.funct3 == 0x0)) _ _ (trap-Leaves 2 inst true s (omega arith) hi h)
        (jump-Leaves _ (jalr_target-lt _ _))

  pub exec_miscmem-Leaves : Leaves IsWf Any (exec_miscmem inst size d s)
  unfolding exec_miscmem
  exec_miscmem-Leaves =
      Leaves-if (d.funct3 == 0b000 || d.funct3 == 0b001) _ _ (Leaves-unit s h)
        (trap-Leaves 2 inst true s (omega arith) hi h)
