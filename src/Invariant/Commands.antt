-- ===== src/Invariant/Commands.antt =====
-- The commands of gdbstub.py keep the emulator's state well formed.
use riscv_python.Prelude.{
  ℕ, zero, suc, ◌+◌, ◌^◌, ◌<◌, Bool, true, false, Option, none, some, leb, ◌==◌, if◌then◌else◌,
}
use riscv_python.Prelude.Int.{ℤ, pos, to_u32, to_u32-lt, ◌*ℤ◌}
use riscv_python.State.{Exec, Result, update}
use riscv_python.State.Leaves.{if-keeps}
use riscv_python.Bits.{bit_or-lt}
use riscv_python.Text.{Text, drop, int_16, split_in_two}
use riscv_python.Ram.Bytes.{length}
use riscv_python.Cpu.Csr.{is_csr_ro}
use riscv_python.Gdb.Session.{Session, Command, or_e01}
use riscv_python.Gdb.Registers.{
  or_bytes, all_four, word_of, write_loop, write_pc, write_rest, set_pc, set_registers,
  cmd_write_registers, Register, general, program_counter, csr, unknown, register_of, read_register,
  cmd_read_register, write_register, value_of, cmd_write_register,
}
use riscv_python.Invariant.Defs.{IsWf, AllBelow, AllBelow-update, set_reg-IsWf, set_csr-IsWf}

-- A command keeps the emulator well formed.
abbrev pub Keeps : {A : Type 0} → Exec Session A → Type 0
Keeps m = (s : Session) → IsWf s.system → IsWf (m s).1.system

pub or_e01-Keeps :
    {A : Type 0} (o : Option A) (f : A → Command) → ((a : A) → Keeps (f a)) → Keeps (or_e01 o f)
or_e01-Keeps none f hf s h = h
or_e01-Keeps (some a) f hf s h = hf a s h

pub if-Keeps :
    {A : Type 0} (b : Bool) (x y : Result A × Session)
    → IsWf x.1.system
    → IsWf y.1.system
    → IsWf (if b then x else y).1.system
if-Keeps true x y hx hy = hx
if-Keeps false x y hx hy = hy

-- What a text gives has 32 bits.
abbrev FitsOption : Option ℕ → Type 0
FitsOption none = Unit
FitsOption (some v) = v < 2 ^ 32

or_e01-fits :
    (o : Option ℕ) (f : ℕ → Command)
    → FitsOption o
    → ((v : ℕ) → v < 2 ^ 32 → Keeps (f v))
    → Keeps (or_e01 o f)
or_e01-fits none f ho hf s h = h
or_e01-fits (some v) f ho hf s h = hf v ho s h

or_bytes-lt : (b0 b1 b2 b3 : ℤ) → or_bytes b0 b1 b2 b3 < 2 ^ 32
unfolding or_bytes
or_bytes-lt b0 b1 b2 b3 =
    bit_or-lt 32 _ _
      (bit_or-lt 32 _ _ (bit_or-lt 32 _ _ (to_u32-lt b0) (to_u32-lt (b1 *ℤ pos (2 ^ 8))))
        (to_u32-lt (b2 *ℤ pos (2 ^ 16))))
      (to_u32-lt (b3 *ℤ pos (2 ^ 24)))

all_four-fits : (o0 o1 o2 o3 : Option ℤ) → FitsOption (all_four o0 o1 o2 o3)
all_four-fits (some b0) (some b1) (some b2) (some b3) = or_bytes-lt b0 b1 b2 b3
all_four-fits none o1 o2 o3 = tt
all_four-fits (some b0) none o2 o3 = tt
all_four-fits (some b0) (some b1) none o3 = tt
all_four-fits (some b0) (some b1) (some b2) none = tt

word_of-fits : (s : Text) → FitsOption (word_of s)
unfolding word_of
word_of-fits s = all_four-fits _ _ _ _

value_of-fits : (s : Text) → FitsOption (value_of s)
unfolding value_of
value_of-fits s = if-keeps FitsOption (leb 8 (length s)) _ _ (word_of-fits s) (residue (int_16 s))
  where
    residue : (o : Option ℤ) → FitsOption (elim o [ none ↦ none | some z ↦ some (to_u32 z) ])
    residue none = tt
    residue (some z) = to_u32-lt z

if-AllBelow :
    (b : Bool) (f : ℕ → ℕ) (i v : ℕ)
    → AllBelow (2 ^ 32) f
    → v < 2 ^ 32
    → AllBelow (2 ^ 32) (if b then f else update f i v)
if-AllBelow true f i v h hv = h
if-AllBelow false f i v h hv = AllBelow-update (2 ^ 32) f i v h hv

write_loop-AllBelow :
    (n i : ℕ) (s : Text) (f : ℕ → ℕ)
    → AllBelow (2 ^ 32) f
    → AllBelow (2 ^ 32) (write_loop n i s f).1
unfolding write_loop
write_loop-AllBelow zero i s f h = h
write_loop-AllBelow (suc n) i s f h = next (word_of s) (word_of-fits s) λ v hv.
    write_loop-AllBelow n (i + 1) (drop 8 s) (if i == 0 then f else update f i v)
      (if-AllBelow (i == 0) f i v h hv)
  where
    next :
        (o : Option ℕ)
        → FitsOption o
        → ((v : ℕ)
            → v < 2 ^ 32
            → AllBelow
                (2 ^ 32)
                (write_loop n (i + 1) (drop 8 s) (if i == 0 then f else update f i v)).1)
        → AllBelow
            (2 ^ 32)
            (elim o as (λ x. Option Text × (ℕ → ℕ)) [
              | none ↦ (none, f)
              | some v ↦ write_loop n (i + 1) (drop 8 s) (if i == 0 then f else update f i v)
            ]).1
    next none hv rest = h
    next (some v) hv rest = rest v hv

pub set_pc-IsWf : (v : ℕ) (s : Session) → v < 2 ^ 32 → IsWf s.system → IsWf (set_pc v s).system
unfolding set_pc
set_pc-IsWf v s hv h = record {
  cpu = record {
    caches = h.caches;
    registers = h.registers;
    csrs = h.csrs;
    pc = hv;
    next_pc = hv;
    mtime = h.mtime;
    mtimecmp = h.mtimecmp;
  };
  ram = h.ram;
}

set_registers-IsWf :
    (f : ℕ → ℕ) (s : Session)
    → AllBelow (2 ^ 32) f
    → IsWf s.system
    → IsWf (set_registers f s).system
unfolding set_registers
set_registers-IsWf f s hf h = record {
  cpu = record {
    caches = h.caches;
    registers = hf;
    csrs = h.csrs;
    pc = h.pc;
    next_pc = h.next_pc;
    mtime = h.mtime;
    mtimecmp = h.mtimecmp;
  };
  ram = h.ram;
}

write_pc-Keeps : (o : Option ℕ) → FitsOption o → Keeps (write_pc o)
unfolding write_pc
write_pc-Keeps none ho s h = h
write_pc-Keeps (some v) ho s h = set_pc-IsWf v s ho h

write_rest-Keeps : (o : Option Text) → Keeps (write_rest o)
unfolding write_rest
write_rest-Keeps none s h = h
write_rest-Keeps (some t) s h = write_pc-Keeps (word_of t) (word_of-fits t) s h

pub cmd_write_registers-Keeps : (hex_data : Text) → Keeps (cmd_write_registers hex_data)
unfolding cmd_write_registers
cmd_write_registers-Keeps hex_data s h =
    let x = write_loop 32 0 hex_data s.system.cpu.registers in
    write_rest-Keeps x.0 (set_registers x.1 s) (
      set_registers-IsWf x.1 s
        (write_loop-AllBelow 32 0 hex_data s.system.cpu.registers h.registers) h)

read_register-Keeps : (r : Register) → Keeps (read_register r)
unfolding read_register
read_register-Keeps (general none) s h = h
read_register-Keeps (general (some i)) s h = h
read_register-Keeps program_counter s h = h
read_register-Keeps (csr i) s h = h
read_register-Keeps unknown s h = h

pub cmd_read_register-Keeps : (t : Text) → Keeps (cmd_read_register t)
unfolding cmd_read_register
cmd_read_register-Keeps t = or_e01-Keeps (int_16 t) _ λ n. read_register-Keeps (register_of n)

write_register-Keeps : (r : Register) (v : ℕ) → v < 2 ^ 32 → Keeps (write_register r v)
unfolding write_register
write_register-Keeps (general none) v hv s h = h
write_register-Keeps (general (some i)) v hv s h = set_reg-IsWf i v s.system hv h
write_register-Keeps program_counter v hv s h = set_pc-IsWf v s hv h
write_register-Keeps (csr i) v hv s h =
    if-Keeps (is_csr_ro i) _ _ h (set_csr-IsWf i v s.system hv h)
write_register-Keeps unknown v hv s h = h

pub cmd_write_register-Keeps : (params : Text) → Keeps (cmd_write_register params)
unfolding cmd_write_register
cmd_write_register-Keeps params = or_e01-Keeps (split_in_two b'=' params) _ λ parts.
    or_e01-Keeps (int_16 parts.0) _ λ n.
      or_e01-fits (value_of parts.1) _ (value_of-fits parts.1)
        λ v hv s h. if-Keeps _ _ _ h (write_register-Keeps (register_of n) v hv s h)
