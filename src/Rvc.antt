-- ===== src/Rvc.antt =====
-- rvc.py: the 32-bit equivalent of a compressed instruction. A result `(inst, True)` is
-- `some inst`, and `(0, False)` is `none`.
mod Fields
mod Quadrant0
mod Quadrant1
mod Quadrant2
pub mod Width
pub mod Manual
pub mod Equivalence
use riscv_python.Prelude.{ℕ, ◌/◌, ◌%◌, ◌^◌, Option, none, ◌==◌, if◌then◌else◌}
use Quadrant0.{quadrant0}
use Quadrant1.{quadrant1}
use Quadrant2.{quadrant2}

unfoldable pub expand_compressed : ℕ → Option ℕ
unfolding quadrant0 quadrant1 quadrant2
expand_compressed c_inst =
    let quadrant = c_inst % 2 ^ 2 in
    let funct3 = c_inst / 2 ^ 13 % 2 ^ 3 in
    if quadrant == 0b00
    then quadrant0 funct3 c_inst
    else if quadrant == 0b01
    then quadrant1 funct3 c_inst
    else if quadrant == 0b10
    then quadrant2 funct3 c_inst
    else none
