-- ===== src/Cpu/Execute.antt =====
-- Instruction decoding and dispatch of class `CPU` in cpu.py: the opcode table, `execute_32`,
-- `execute_16` and `execute`, with the decode caches.
use riscv_python.Prelude.{ℕ, ◌+◌, ◌/◌, ◌%◌, ◌^◌, true, Option, none, some, not, ◌==◌, if◌then◌else◌}
use riscv_python.State.{
  System, Cpu, Decoded, Expanded, Exec, update, set_reg, set_next_pc, ◌>>◌, apply,
}
use riscv_python.Rvc.{expand_compressed}
use riscv_python.Cpu.Trap.{trap}
use riscv_python.Cpu.Alu.{exec_rtype, exec_itype, exec_lui, exec_auipc}
use riscv_python.Cpu.Memory.{exec_loads, exec_stores}
use riscv_python.Cpu.Control.{exec_branches, exec_jal, exec_jalr, exec_miscmem}
use riscv_python.Cpu.System.{EcallHandler, exec_system}
use riscv_python.Cpu.Amo.{exec_amo}

-- The fields of an instruction word.
unfoldable pub decode : ℕ → Decoded
decode inst = record {
  opcode = inst % 2 ^ 7;
  rd = inst / 2 ^ 7 % 2 ^ 5;
  funct3 = inst / 2 ^ 12 % 2 ^ 3;
  rs1 = inst / 2 ^ 15 % 2 ^ 5;
  rs2 = inst / 2 ^ 20 % 2 ^ 5;
  funct7 = inst / 2 ^ 25 % 2 ^ 7;
}

-- What `decode_cache` has for a key, or the decoded instruction, which is stored.
unfoldable pub decode_unless : Option Decoded → ℕ → Cpu → Decoded × Cpu
unfolding decode update
decode_unless (some d) inst cpu = (d, cpu)
decode_unless none inst cpu = (
  decode inst,
  record cpu { decode_cache = update cpu.decode_cache (inst / 2 ^ 2) (some (decode inst)) },
)

unfoldable pub cached_decode : ℕ → Cpu → Decoded × Cpu
unfolding decode_unless
cached_decode inst cpu = decode_unless (cpu.decode_cache (inst / 2 ^ 2)) inst cpu

-- The expansion of a compressed instruction, stored; an invalid one, `none`, is not.
unfoldable pub store_expanded : Option ℕ → ℕ → Cpu → Option (Expanded × Cpu)
unfolding decode update
store_expanded none inst16 cpu = none
store_expanded (some inst) inst16 cpu =
    let e : Expanded = record { decoded = decode inst; expanded_inst = inst } in
    some (
      e,
      record cpu { decode_cache_compressed = update cpu.decode_cache_compressed inst16 (some e) },
    )

unfoldable pub expand_unless : Option Expanded → ℕ → Cpu → Option (Expanded × Cpu)
unfolding store_expanded
expand_unless (some e) inst16 cpu = some (e, cpu)
expand_unless none inst16 cpu = store_expanded (expand_compressed inst16) inst16 cpu

unfoldable pub cached_expand : ℕ → Cpu → Option (Expanded × Cpu)
unfolding expand_unless expand_compressed
cached_expand inst16 cpu = expand_unless (cpu.decode_cache_compressed inst16) inst16 cpu

module _ (handle_ecall : EcallHandler) where
  -- The table of opcode handlers, and the trap where the table has no entry.
  unfoldable pub opcode_handler : ℕ → ℕ → Decoded → Exec System (Unit {0})
  opcode_handler inst inst_size d s =
      if d.opcode == 0x33
      then exec_rtype inst inst_size d s
      else if d.opcode == 0x13
      then exec_itype inst inst_size d s
      else if d.opcode == 0x03
      then exec_loads inst inst_size d s
      else if d.opcode == 0x23
      then exec_stores inst inst_size d s
      else if d.opcode == 0x63
      then exec_branches inst inst_size d s
      else if d.opcode == 0x37
      then exec_lui inst inst_size d s
      else if d.opcode == 0x17
      then exec_auipc inst inst_size d s
      else if d.opcode == 0x6F
      then exec_jal inst inst_size d s
      else if d.opcode == 0x67
      then exec_jalr inst inst_size d s
      else if d.opcode == 0x73
      then exec_system handle_ecall inst inst_size d s
      else if d.opcode == 0x0F
      then exec_miscmem inst inst_size d s
      else if d.opcode == 0x2F
      then exec_amo inst inst_size d s
      else trap 2 inst true s

  -- `next_pc`, the handler, and `registers[0] = 0` unless the handler has raised.
  unfoldable pub run_decoded : ℕ → ℕ → Decoded → Exec System (Unit {0})
  run_decoded inst inst_size d = do
    apply (λ s. set_next_pc ((s.cpu.pc + inst_size) % 2 ^ 32) s)
    opcode_handler inst inst_size d
    apply (set_reg 0 0)

  unfoldable pub execute_32 : ℕ → Exec System (Unit {0})
  unfolding cached_decode run_decoded
  execute_32 inst s =
      let (d, cpu) = cached_decode inst s.cpu in run_decoded inst 4 d (record s { cpu = cpu })

  unfoldable pub run_expanded : Option (Expanded × Cpu) → ℕ → Exec System (Unit {0})
  unfolding run_decoded
  run_expanded none inst16 s = trap 2 inst16 true s
  run_expanded (some (e, cpu)) inst16 s =
      run_decoded e.expanded_inst 2 e.decoded (record s { cpu = cpu })

  unfoldable pub execute_16 : ℕ → Exec System (Unit {0})
  unfolding cached_expand run_expanded
  execute_16 inst16 s = run_expanded (cached_expand inst16 s.cpu) inst16 s

  unfoldable pub execute : ℕ → Exec System (Unit {0})
  unfolding execute_32 execute_16
  execute inst s =
      if not s.cpu.rvc_enabled
      then execute_32 inst s
      else if inst % 2 ^ 2 == 0x3
      then execute_32 inst s
      else execute_16 (inst % 2 ^ 16) s
