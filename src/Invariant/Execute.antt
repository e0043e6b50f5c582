-- ===== src/Invariant/Execute.antt =====
-- Every instruction keeps the state well formed.
use riscv_python.Prelude.{
  ℕ, ◌+◌, ◌/◌, ◌%◌, ◌^◌, ◌<◌, ◌==◌, ◌≡◌, refl, true, not, subst, Bool, false, if◌then◌else◌, Option,
  none, some, arith,
}
use riscv_python.State.{Result, System, Cpu, Decoded, Expanded, set_next_pc, update}
use riscv_python.State.Leaves.{Leaves, Leaves-if, Leaves-unit, Leaves-bind, Any, if-keeps}
use riscv_python.Rvc.{expand_compressed}
use riscv_python.Rvc.Width.{expand_compressed-IsWord}
use riscv_python.Cpu.System.{EcallHandler}
use riscv_python.Cpu.Execute.{
  decode, opcode_handler, run_decoded, decode_unless, cached_decode, execute_32, store_expanded,
  expand_unless, cached_expand, run_expanded, execute_16, execute,
}
use riscv_python.Invariant.Defs.{FitsDecoded, IsWf, IsWfCpu, set_reg-IsWf, set_next_pc-IsWf}
use riscv_python.Invariant.Trap.{trap-Leaves}
use riscv_python.Invariant.Alu.{
  exec_rtype-Leaves, exec_itype-Leaves, exec_lui-Leaves, exec_auipc-Leaves,
}
use riscv_python.Invariant.Memory.{exec_loads-Leaves, exec_stores-Leaves, exec_amo-Leaves}
use riscv_python.Invariant.Control.{
  exec_branches-Leaves, exec_jal-Leaves, exec_jalr-Leaves, exec_miscmem-Leaves,
}
use riscv_python.Invariant.System.{KeepsWf, exec_system-Leaves}

decode-FitsDecoded : (inst : ℕ) → FitsDecoded (decode inst)
unfolding decode
decode-FitsDecoded inst = record {
  opcode = omega arith;
  rd = omega arith;
  funct3 = omega arith;
  rs1 = omega arith;
  rs2 = omega arith;
  funct7 = omega arith;
}

-- What holds of the entries of a cache and of a new entry holds of the cache with it.
update-holds :
    {A : Type 0} (P : A → Type 0) (f : ℕ → Option A) (j : ℕ) (a : A)
    → P a
    → ((k : ℕ) (x : A) → f k ≡ some x → P x)
    → (k : ℕ) (x : A) → update f j (some a) k ≡ some x
    → P x
unfolding update
update-holds P f j a ha hf k x hit = choose (j == k) hit
  where
    choose : (b : Bool) → (if b then some a else f k) ≡ some x → P x
    choose true e = let same : a ≡ x = cc in subst P same ha
    choose false e = hf k x e

module _ (handle : EcallHandler) (keeps : KeepsWf handle) where
  opcode_handler-Leaves :
      (inst size : ℕ) (d : Decoded) (s : System)
      → inst < 2 ^ 32
      → d.rs1 < 2 ^ 5
      → IsWf s
      → Leaves IsWf Any (opcode_handler handle inst size d s)
  unfolding opcode_handler
  opcode_handler-Leaves inst size d s hi hd h =
      Leaves-if (d.opcode == 0x33) _ _ (exec_rtype-Leaves inst size d s hi h) (
        Leaves-if (d.opcode == 0x13) _ _ (exec_itype-Leaves inst size d s hi h) (
          Leaves-if (d.opcode == 0x03) _ _ (exec_loads-Leaves inst size d s hi h) (
            Leaves-if (d.opcode == 0x23) _ _ (exec_stores-Leaves inst size d s hi h) (
              Leaves-if (d.opcode == 0x63) _ _ (exec_branches-Leaves inst size d s hi h) (
                Leaves-if (d.opcode == 0x37) _ _ (exec_lui-Leaves inst size d s hi h) (
                  Leaves-if (d.opcode == 0x17) _ _ (exec_auipc-Leaves inst size d s hi h) (
                    Leaves-if (d.opcode == 0x6F) _ _ (exec_jal-Leaves inst size d s hi h) (
                      Leaves-if (d.opcode == 0x67) _ _ (exec_jalr-Leaves inst size d s hi h) (
                        Leaves-if (d.opcode == 0x73) _ _
                          (exec_system-Leaves handle keeps s h inst size d hi hd)
                          (Leaves-if (d.opcode == 0x0F) _ _ (exec_miscmem-Leaves inst size d s hi h)
                            (Leaves-if (d.opcode == 0x2F) _ _ (exec_amo-Leaves inst size d s hi h)
                              (trap-Leaves 2 inst true s (omega arith) hi h))))))))))))

  run_decoded-Leaves :
      (inst size : ℕ) (d : Decoded) (s : System)
      → inst < 2 ^ 32
      → d.rs1 < 2 ^ 5
      → IsWf s
      → Leaves IsWf Any (run_decoded handle inst size d s)
  unfolding run_decoded
  run_decoded-Leaves inst size d s hi hd h =
      let s' = set_next_pc ((s.cpu.pc + size) % 2 ^ 32) s in
      let h' = set_next_pc-IsWf ((s.cpu.pc + size) % 2 ^ 32) s (omega arith) h in
      Leaves-bind Any _ _ (opcode_handler-Leaves inst size d s' hi hd h')
        λ _ s _ h. Leaves-unit _ (set_reg-IsWf 0 0 s (omega arith) h)

decode_unless-IsWfCpu :
    (o : Option Decoded) (inst : ℕ) (cpu : Cpu)
    → cpu.decode_cache (inst / 4) ≡ o
    → IsWfCpu cpu
    → IsWfCpu (decode_unless o inst cpu).1 × FitsDecoded (decode_unless o inst cpu).0
unfolding decode_unless update
decode_unless-IsWfCpu (some d) inst cpu e h = (h, h.caches.at_word (inst / 4) d e)
decode_unless-IsWfCpu none inst cpu e h = (
  record {
    caches = record {
      at_word =
          update-holds FitsDecoded cpu.decode_cache (inst / 4) (decode inst)
            (decode-FitsDecoded inst) h.caches.at_word;
      at_half = h.caches.at_half;
    };
    registers = h.registers;
    csrs = h.csrs;
    pc = h.pc;
    next_pc = h.next_pc;
    mtime = h.mtime;
    mtimecmp = h.mtimecmp;
  },
  decode-FitsDecoded inst,
)

-- What `execute_16` has of a compressed instruction fits.
abbrev ExpandedFits : Option (Expanded × Cpu) → Type 0
ExpandedFits none = Unit
ExpandedFits (some (e, cpu)) = (e.expanded_inst < 2 ^ 32) × FitsDecoded e.decoded × IsWfCpu cpu

store_expanded-ExpandedFits :
    (o : Option ℕ) (c : ℕ) (cpu : Cpu)
    → c < 2 ^ 16
    → expand_compressed c ≡ o
    → IsWfCpu cpu
    → ExpandedFits (store_expanded o c cpu)
unfolding store_expanded update
store_expanded-ExpandedFits none c cpu hc e h = tt
store_expanded-ExpandedFits (some inst) c cpu hc e h =
    let hi = (expand_compressed-IsWord c inst hc e).0 in
    (
      hi,
      decode-FitsDecoded inst,
      record {
        caches = record {
          at_word = h.caches.at_word;
          at_half =
              update-holds (λ x. (x.expanded_inst < 2 ^ 32) × FitsDecoded x.decoded)
                cpu.decode_cache_compressed c _ (hi, decode-FitsDecoded inst) h.caches.at_half;
        };
        registers = h.registers;
        csrs = h.csrs;
        pc = h.pc;
        next_pc = h.next_pc;
        mtime = h.mtime;
        mtimecmp = h.mtimecmp;
      },
    )

expand_unless-ExpandedFits :
    (o : Option Expanded) (c : ℕ) (cpu : Cpu)
    → c < 2 ^ 16
    → cpu.decode_cache_compressed c ≡ o
    → IsWfCpu cpu
    → ExpandedFits (expand_unless o c cpu)
unfolding expand_unless
expand_unless-ExpandedFits none c cpu hc e h = store_expanded-ExpandedFits _ c cpu hc refl h
expand_unless-ExpandedFits (some x) c cpu hc e h =
    ((h.caches.at_half c x e).0, (h.caches.at_half c x e).1, h)

module _ (handle : EcallHandler) (keeps : KeepsWf handle) where
  -- Executing any 32-bit word keeps the state well formed, whether the instruction completes, traps
  -- or raises, provided that the system call handler does.
  pub execute_32-IsWf :
      (inst : ℕ) (s : System) → inst < 2 ^ 32 → IsWf s → IsWf (execute_32 handle inst s).1
  unfolding execute_32 cached_decode
  execute_32-IsWf inst s hi h =
      let (hc, hd) =
        decode_unless-IsWfCpu (s.cpu.decode_cache (inst / 2 ^ 2)) inst s.cpu refl h.cpu in
      (run_decoded-Leaves handle keeps inst 4 _ _ hi hd.rs1
        (record { cpu = hc; ram = h.ram })).state

  run_expanded-IsWf :
      (o : Option (Expanded × Cpu)) (c : ℕ) (s : System)
      → c < 2 ^ 16
      → ExpandedFits o
      → IsWf s
      → IsWf (run_expanded handle o c s).1
  unfolding run_expanded
  run_expanded-IsWf none c s hc fits h =
      (trap-Leaves 2 c true s (omega arith) (omega arith) h).state
  run_expanded-IsWf (some (e, cpu)) c s hc fits h =
      (run_decoded-Leaves handle keeps e.expanded_inst 2 e.decoded (record s { cpu = cpu }) fits.0
        fits.1.rs1 (record { cpu = fits.2; ram = h.ram })).state

  -- The same of compressed instructions, valid or not.
  pub execute_16-IsWf : (c : ℕ) (s : System) → c < 2 ^ 16 → IsWf s → IsWf (execute_16 handle c s).1
  unfolding execute_16 cached_expand
  execute_16-IsWf c s hc h =
      run_expanded-IsWf _ c s hc (expand_unless-ExpandedFits _ c s.cpu hc refl h.cpu) h

  -- `execute` keeps a well-formed state well formed on every 32-bit word, valid or not, whatever
  -- exception it ends with, provided that the system call handler keeps well-formed states.
  pub execute-IsWf :
      (inst : ℕ) (s : System) → inst < 2 ^ 32 → IsWf s → IsWf (execute handle inst s).1
  unfolding execute
  execute-IsWf inst s hi h =
      let P = λ (x : Result (Unit {0}) × System). IsWf x.1 in
      let wide = execute_32-IsWf inst s hi h in
      if-keeps P (not s.cpu.rvc_enabled) _ _ wide (
        if-keeps P (inst % 2 ^ 2 == 3) _ _ wide (execute_16-IsWf (inst % 2 ^ 16) s (omega arith) h))
