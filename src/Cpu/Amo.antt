-- ===== src/Cpu/Amo.antt =====
-- `exec_AMO` of cpu.py: LR.W, SC.W and the atomic operations of the A extension.
use riscv_python.Prelude.{
  ℕ, ◌+◌, ◌/◌, ◌%◌, ◌^◌, min, max, bit_and, bit_or, bit_xor, Bool, true, false, not, ◌&&◌, Option,
  none, some, ◌==◌, if◌then◌else◌,
}
use riscv_python.Prelude.Int.{ℤ, pos, ltb_ℤ, to_u32}
use riscv_python.State.{System, Decoded, Exec, set_reg, set_reservation_valid, ◌>>=◌, ◌>>◌, apply}
use riscv_python.Ram.Access.{load_word, store_word}
use riscv_python.Cpu.Word.{signed32}
use riscv_python.Cpu.Trap.{trap}

abbrev pub min_ℤ : ℤ → ℤ → ℤ
min_ℤ a b = if ltb_ℤ b a then b else a

abbrev pub max_ℤ : ℤ → ℤ → ℤ
max_ℤ a b = if ltb_ℤ a b then b else a

-- The new value of the word, or `none` for an invalid `funct5`.
unfoldable pub amo_value : ℕ → ℕ → ℕ → Option ℕ
unfolding signed32
amo_value funct5 old b =
    if funct5 == 0b00001
    then some (b % 2 ^ 32)
    else if funct5 == 0b00000
    then some ((old + b) % 2 ^ 32)
    else if funct5 == 0b00100
    then some (bit_xor old b % 2 ^ 32)
    else if funct5 == 0b01100
    then some (bit_and old b % 2 ^ 32)
    else if funct5 == 0b01000
    then some (bit_or old b % 2 ^ 32)
    else if funct5 == 0b10000
    then some (to_u32 (min_ℤ (signed32 (pos old)) (signed32 (pos b))))
    else if funct5 == 0b10100
    then some (to_u32 (max_ℤ (signed32 (pos old)) (signed32 (pos b))))
    else if funct5 == 0b11000
    then some (min (old % 2 ^ 32) (b % 2 ^ 32))
    else if funct5 == 0b11100
    then some (max (old % 2 ^ 32) (b % 2 ^ 32))
    else none

-- AMOMINU and AMOMAXU mask the word that they have read.
unfoldable pub amo_old : ℕ → ℕ → ℕ
amo_old funct5 old =
    if funct5 == 0b11000 then old % 2 ^ 32 else if funct5 == 0b11100 then old % 2 ^ 32 else old

-- `new_val` is computed from the word read and from `rs2`, stored, and the old word goes to `rd`.
unfoldable pub amo_update : ℕ → ℕ → ℕ → ℕ → ℕ → Option ℕ → Exec System (Unit {0})
amo_update inst funct5 addr rd old none = trap 2 inst true
amo_update inst funct5 addr rd old (some v) = do
  store_word addr v
  apply (λ s. set_reservation_valid false (set_reg rd (amo_old funct5 old) s))

-- The set of `funct5` that read and write back.
unfoldable pub is_amo : ℕ → Bool
unfolding amo_value
is_amo funct5 = elim (amo_value funct5 0 0) [ none ↦ false | some v ↦ true ]

unfoldable pub exec_lr : ℕ → ℕ → Exec System (Unit {0})
exec_lr addr rd = do
  val ← load_word addr
  apply (λ s.
      let s' = set_reg rd val s in
      record s' { cpu = record s'.cpu { reservation_valid = true; reservation_addr = addr } })

unfoldable pub exec_sc : ℕ → ℕ → ℕ → Exec System (Unit {0})
exec_sc addr rd value s =
    if s.cpu.reservation_valid && s.cpu.reservation_addr == addr
    then (do
      store_word addr (value % 2 ^ 32)
      apply (λ s. set_reservation_valid false (set_reg rd 0 s)))
        s
    else apply (set_reg rd 1) s

unfoldable pub exec_amo : ℕ → ℕ → Decoded → Exec System (Unit {0})
unfolding amo_update is_amo
exec_amo inst inst_size d s =
    let funct5 = inst / 2 ^ 27 % 2 ^ 5 in
    let addr = s.cpu.registers d.rs1 % 2 ^ 32 in
    let b = s.cpu.registers d.rs2 in
    if not (d.funct3 == 0x2)
    then trap 2 inst true s
    else if not (addr % 2 ^ 2 == 0)
    then trap 6 addr true s
    else if funct5 == 0b00010
    then exec_lr addr d.rd s
    else if funct5 == 0b00011
    then exec_sc addr d.rd b s
    else if is_amo funct5
    then (do old ← load_word addr; amo_update inst funct5 addr d.rd old (amo_value funct5 old b)) s
    else trap 2 inst true s
