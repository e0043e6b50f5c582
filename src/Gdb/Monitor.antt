-- ===== src/Gdb/Monitor.antt =====
-- `cmd_monitor` of class `GDBStub` in gdbstub.py: the command that reads and writes CSRs.
use riscv_python.Prelude.{
  ℕ, ◌+◌, ◌%◌, ◌^◌, Option, none, some, List, [], ◌∷◌, ◌++◌, ltb, leb, ◌==◌, if◌then◌else◌,
}
use riscv_python.Prelude.Int.{ℤ, pos, negsuc, to_u32, pos_part}
use riscv_python.State.{set_csr}
use riscv_python.Text.{
  Text, codes, starts_with, same_text, hex_digits, hex_fixed, int_16, int_0, from_hex, all_ascii,
  words, encode_hex,
}
use riscv_python.Gdb.Session.{Command, reply}

-- `important_csrs`
abbrev pub important_csrs : List (ℕ × Text)
important_csrs =
    (0x300, codes "mstatus")
    ∷ (0x301, codes "misa")
    ∷ (0x304, codes "mie")
    ∷ (0x305, codes "mtvec")
    ∷ (0x340, codes "mscratch")
    ∷ (0x341, codes "mepc")
    ∷ (0x342, codes "mcause")
    ∷ (0x343, codes "mtval")
    ∷ (0x344, codes "mip")
    ∷ (0x7C0, codes "mtime_low")
    ∷ (0x7C1, codes "mtime_high")
    ∷ (0x7C2, codes "mtimecmp_low")
    ∷ (0x7C3, codes "mtimecmp_high")
    ∷ []

unfoldable pub address_of : List (ℕ × Text) → Text → Option ℕ
address_of [] name = none
address_of ((addr, n) ∷ l) name =
    let rest = address_of l name in if same_text n name then some addr else rest

-- `self.important_csrs.get(csr_addr, f"0x{csr_addr:03x}")`, for addresses below 4096.
unfoldable pub name_of : List (ℕ × Text) → ℕ → Text
unfolding hex_fixed
name_of [] addr = codes "0x" ++ hex_fixed 3 addr []
name_of ((a, n) ∷ l) addr = let rest = name_of l addr in if a == addr then n else rest

unfoldable pub shown : ℕ → Text
unfolding hex_fixed
shown val = codes "0x" ++ (hex_fixed 8 val [] ++ 10 ∷ [])

-- `f"0x{val:08x}"` of a number that may be negative or need more digits: the width counts a sign,
-- and the zeros stand behind it.
unfoldable pub hex_08 : ℕ → ℕ → Text
unfolding hex_digits hex_fixed
hex_08 width n = if ltb n (16 ^ width) then hex_fixed width n [] else hex_digits n n []

unfoldable pub shown_int : ℤ → Text
unfolding hex_08
shown_int (pos n) = codes "0x" ++ (hex_08 8 n ++ 10 ∷ [])
shown_int (negsuc n) = codes "0x-" ++ (hex_08 7 (n + 1) ++ 10 ∷ [])

-- The line with a newline, in hexadecimal.
abbrev pub line : Text → Command
line text = reply (encode_hex (text ++ 10 ∷ []))

-- `error` answers a text that is no number.
module _ (error : Command) where
  unfoldable pub access_csr : ℕ → List Text → Command
  unfolding name_of shown shown_int set_csr encode_hex
  access_csr csr_addr [] s =
      reply
        (encode_hex (
          name_of important_csrs csr_addr
          ++ (codes ": " ++ shown (s.system.cpu.csrs csr_addr % 2 ^ 32))))
        s
  access_csr csr_addr (value ∷ more) s = elim (int_0 value) [
    | none ↦ error s
    | some val ↦
        reply (encode_hex (name_of important_csrs csr_addr ++ (codes " = " ++ shown_int val)))
          (record s { system = set_csr csr_addr (to_u32 val) s.system })
  ]

  -- The bound of the address.
  unfoldable pub csr_in_range : ℕ → List Text → Command
  unfolding access_csr encode_hex
  csr_in_range csr_addr args s =
      if leb 4096 csr_addr
      then line (codes "CSR address out of range") s
      else access_csr csr_addr args s

  -- A text that starts with 0x has no sign.
  unfoldable pub monitor_csr : List Text → Command
  unfolding csr_in_range address_of encode_hex
  monitor_csr [] s =
      line
        (codes "Usage: csr <name|0xADDR> [value]"
          ++ 10 ∷ codes "CSRs: mstatus misa mie mtvec mscratch mepc mcause mtval mip")
        s
  monitor_csr (csr_arg ∷ args) s =
      if starts_with csr_arg (codes "0x")
      then elim (int_16 csr_arg) [ none ↦ error s | some z ↦ csr_in_range (pos_part z) args s ]
      else elim (address_of important_csrs csr_arg) [
        | none ↦ line (codes "Unknown CSR: " ++ csr_arg) s
        | some addr ↦ csr_in_range addr args s
      ]

  unfoldable pub monitor_words : List Text → Command
  unfolding monitor_csr encode_hex
  monitor_words [] s = line (codes "Unknown command") s
  monitor_words (word ∷ args) s =
      if same_text word (codes "csr")
      then monitor_csr args s
      else if same_text word (codes "help")
      then line
          (codes "Available commands:"
            ++ 10 ∷ codes "  csr <name|0xADDR> [value]  - Read/write CSR"
            ++ 10 ∷ codes "  help                       - Show this help")
          s
      else line (codes "Unknown command: " ++ word) s

-- `error_text` gives the message of the exception that a command raises, which is Python's.
unfoldable pub cmd_monitor : (Text → Text) → Text → Command
unfolding monitor_words from_hex words encode_hex
cmd_monitor error_text hex_cmd s =
    let error : Command = line (codes "Error: " ++ error_text hex_cmd) in
    elim (from_hex hex_cmd) [
      | none ↦ error s
      | some cmd ↦ if all_ascii cmd then monitor_words error (words cmd) s else error s
    ]
