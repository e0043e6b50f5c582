-- ===== src/Gdb/Registers.antt =====
-- The register commands of class `GDBStub` in gdbstub.py: g, G, p and P.
pub mod Restore
pub mod ReadBack
use riscv_python.Prelude.{
  ℕ, zero, suc, ◌+◌, ◌-◌, ◌/◌, ◌%◌, ◌^◌, bit_or, Bool, false, Option, none, some, List, [], ◌∷◌,
  ◌++◌, leb, ltb, ◌==◌, if◌then◌else◌,
}
use riscv_python.Prelude.Int.{ℤ, pos, negsuc, ◌*ℤ◌, to_u32}
use riscv_python.State.{Result, ok, err, index_error, update, System, set_reg, set_csr}
use riscv_python.Ram.Bytes.{length}
use riscv_python.Text.{Text, codes, take, drop, hex_02, int_16, split_in_two}
use riscv_python.Cpu.Csr.{is_csr_ro}
use riscv_python.Gdb.Session.{Session, Command, or_e01, reply}

-- The four bytes of a word in hexadecimal, the lowest first.
unfoldable pub word_text : ℕ → Text
word_text v =
    hex_02 (v % 2 ^ 8)
    ++ (hex_02 (v / 2 ^ 8 % 2 ^ 8) ++ (hex_02 (v / 2 ^ 16 % 2 ^ 8) ++ hex_02 (v / 2 ^ 24 % 2 ^ 8)))

-- `n` registers from `i` on.
unfoldable pub registers_text : ℕ → ℕ → (ℕ → ℕ) → Text
unfolding word_text
registers_text zero i f = []
registers_text (suc n) i f = word_text (f i % 2 ^ 32) ++ registers_text n (i + 1) f

unfoldable pub cmd_read_registers : Command
unfolding registers_text word_text
cmd_read_registers s =
    reply (registers_text 32 0 s.system.cpu.registers ++ word_text (s.system.cpu.pc % 2 ^ 32)) s

-- `b0 | (b1 << 8) | (b2 << 16) | (b3 << 24)`, of which the callers keep 32 bits. The digits may
-- have a sign, and the lower bits of a negative number are those of its residue.
unfoldable pub or_bytes : ℤ → ℤ → ℤ → ℤ → ℕ
or_bytes b0 b1 b2 b3 =
    bit_or (bit_or (bit_or (to_u32 b0) (to_u32 (b1 *ℤ pos (2 ^ 8)))) (to_u32 (b2 *ℤ pos (2 ^ 16))))
      (to_u32 (b3 *ℤ pos (2 ^ 24)))

abbrev pub all_four : Option ℤ → Option ℤ → Option ℤ → Option ℤ → Option ℕ
all_four (some b0) (some b1) (some b2) (some b3) = some (or_bytes b0 b1 b2 b3)
all_four _ _ _ _ = none

-- The word in the first eight characters.
unfoldable pub word_of : Text → Option ℕ
word_of s =
    all_four (int_16 (take 2 s)) (int_16 (take 2 (drop 2 s))) (int_16 (take 2 (drop 4 s)))
      (int_16 (take 2 (drop 6 s)))

-- The loop over `n` registers from `i` on: the text behind them, or none where a digit is wrong,
-- and the registers as they are then.
unfoldable pub write_loop : ℕ → ℕ → Text → (ℕ → ℕ) → Option Text × (ℕ → ℕ)
unfolding word_of update
write_loop zero i s f = (some s, f)
write_loop (suc n) i s f = elim (word_of s) [
  | none ↦ (none, f)
  | some v ↦ write_loop n (i + 1) (drop 8 s) (if i == 0 then f else update f i v)
]

-- `self.cpu.pc = v` and `self.cpu.next_pc = self.cpu.pc`
unfoldable pub set_pc : ℕ → Session → Session
set_pc v s = record s {
  system = record s.system { cpu = record s.system.cpu { pc = v; next_pc = v } };
}

unfoldable pub set_registers : (ℕ → ℕ) → Session → Session
set_registers f s = record s {
  system = record s.system { cpu = record s.system.cpu { registers = f } };
}

-- The program counter comes last.
unfoldable pub write_pc : Option ℕ → Command
unfolding set_pc
write_pc none s = reply (codes "E01") s
write_pc (some v) s = reply (codes "OK") (set_pc v s)

unfoldable pub write_rest : Option Text → Command
unfolding write_pc word_of
write_rest none = reply (codes "E01")
write_rest (some s) = write_pc (word_of s)

unfoldable pub cmd_write_registers : Text → Command
unfolding write_loop write_rest set_registers
cmd_write_registers hex_data s =
    let (rest, f) = write_loop 32 0 hex_data s.system.cpu.registers in
    write_rest rest (set_registers f s)

-- The index of `registers[n]` for n < 32, which counts from the end where n is negative.
unfoldable pub register_index : ℤ → Option ℕ
register_index (pos n) = some n
register_index (negsuc n) = if ltb n 32 then some (31 - n) else none

-- The registers by their numbers in the protocol.
pub data Register : Type 0 where
  general : Option ℕ → Register
  program_counter : Register
  csr : ℕ → Register
  unknown : Register

unfoldable pub register_of : ℤ → Register
unfolding register_index
register_of (negsuc n) = general (register_index (negsuc n))
register_of (pos n) =
    if ltb n 32
    then general (some n)
    else if n == 32
    then program_counter
    else if leb 65 n
    then (if ltb (n - 65) 4096 then csr (n - 65) else unknown)
    else unknown

unfoldable pub read_register : Register → Command
unfolding word_text
read_register (general none) s = (err index_error, s)
read_register (general (some i)) s = reply (word_text (s.system.cpu.registers i % 2 ^ 32)) s
read_register program_counter s = reply (word_text (s.system.cpu.pc % 2 ^ 32)) s
read_register (csr i) s = reply (word_text (s.system.cpu.csrs i % 2 ^ 32)) s
read_register unknown s = reply (codes "E01") s

unfoldable pub cmd_read_register : Text → Command
unfolding read_register register_of
cmd_read_register reg_num_str = or_e01 (int_16 reg_num_str) λ n. read_register (register_of n)

unfoldable pub write_register : Register → ℕ → Command
unfolding set_pc set_reg set_csr
write_register (general none) v s = reply (codes "E01") s
write_register (general (some i)) v s =
    reply (codes "OK") (record s { system = set_reg i v s.system })
write_register program_counter v s = reply (codes "OK") (set_pc v s)
write_register (csr i) v s =
    if is_csr_ro i
    then reply (codes "E02") s
    else reply (codes "OK") (record s { system = set_csr i v s.system })
write_register unknown v s = reply (codes "E01") s

-- A value of fewer than eight characters is one number.
unfoldable pub value_of : Text → Option ℕ
unfolding word_of
value_of s =
    if leb 8 (length s)
    then word_of s
    else elim (int_16 s) [ none ↦ none | some z ↦ some (to_u32 z) ]

abbrev is_zero_ℤ : ℤ → Bool
is_zero_ℤ (pos n) = n == 0
is_zero_ℤ (negsuc n) = false

unfoldable pub cmd_write_register : Text → Command
unfolding write_register register_of value_of split_in_two
cmd_write_register params = or_e01 (split_in_two b'=' params) λ parts. or_e01 (int_16 parts.0) λ n.
    or_e01 (value_of parts.1)
      λ v. λ s. if is_zero_ℤ n then reply (codes "OK") s else write_register (register_of n) v s
