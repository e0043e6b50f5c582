-- ===== src/Invariant/MemoryCommands.antt =====
-- The commands of gdbstub.py that access the memory keep the state well formed.
use riscv_python.Prelude.{ℕ, zero, suc, ◌-◌, ◌*◌, Option, none, some, [], ◌++◌, ltb}
use riscv_python.Prelude.Int.{ℤ, pos, negsuc, pos_part, ◌+ℤ◌, low_bits}
use riscv_python.State.{System, Exec, Result, ok, err, pure, raise, value_error, ◌>>◌}
use riscv_python.State.Leaves.{
  Leaves, Leaves-unit, Leaves-ok, Leaves-err, Leaves-if, Leaves-bind, Any,
}
use riscv_python.Text.{Text, codes, take, drop, int_16, split_in_two}
use riscv_python.Ram.Access.{load_byte, store_byte}
use riscv_python.Ram.Bytes.{length}
use riscv_python.Gdb.Session.{Session, reply}
use riscv_python.Gdb.Memory.{
  from_end, is_checked, load_byte_at, store_byte_at, byte_text, read_bytes, number, write_bytes,
  caught, cmd_read_memory, write_data, cmd_write_memory,
}
use riscv_python.Invariant.Defs.{IsWf}
use riscv_python.Invariant.Access.{load_byte-Leaves, store_byte-Leaves}
use riscv_python.Invariant.Commands.{Keeps, or_e01-Keeps, if-Keeps}

-- A method of the emulator leaves it well formed.
abbrev Fine : {A : Type 0} → Exec System A → Type 0
Fine m = (s : System) → IsWf s → Leaves IsWf Any (m s)

from_end-Fine :
    {A : Type 0} (k : ℕ) (access : ℕ → Exec System A)
    → ((a : ℕ) → Fine (access a))
    → Fine (from_end k access)
unfolding from_end
from_end-Fine k access ha s h =
    Leaves-if (is_checked s.ram.ram_class) _ _ (Leaves-err _ s h) (
      Leaves-if (ltb k s.ram.memory_len) _ _ (ha (s.ram.memory_len - 1 - k) s h) (Leaves-err _ s h))

load_byte_at-Fine : (addr : ℤ) → Fine (load_byte_at addr)
unfolding load_byte_at
load_byte_at-Fine (pos addr) s h = load_byte-Leaves addr s h (ltb 1 0)
load_byte_at-Fine (negsuc k) s h =
    from_end-Fine k (λ addr. load_byte addr (ltb 1 0)) (λ a s h. load_byte-Leaves a s h (ltb 1 0)) s
      h

store_byte_at-Fine : (addr byte : ℤ) → Fine (store_byte_at addr byte)
unfolding store_byte_at
store_byte_at-Fine (pos addr) byte s h = store_byte-Leaves addr s h (low_bits byte 8)
store_byte_at-Fine (negsuc k) byte s h =
    from_end-Fine k (λ addr. store_byte addr (low_bits byte 8))
      (λ a s h. store_byte-Leaves a s h (low_bits byte 8)) s h

read_bytes-Fine : (n : ℕ) (addr : ℤ) → Fine (read_bytes n addr)
unfolding read_bytes
read_bytes-Fine zero addr s h = Leaves-ok [] s tt h
read_bytes-Fine (suc n) addr s h = Leaves-bind Any _ _ (load_byte_at-Fine addr s h) λ byte s _ h.
    Leaves-bind Any _ _ (read_bytes-Fine n (addr +ℤ pos 1) s h)
      λ rest s _ h. Leaves-ok (byte_text byte ++ rest) s tt h

number-Fine : (t : Text) → Fine (number t)
number-Fine t = go (int_16 t)
  where
    go :
        (o : Option ℤ)
        → Fine {A = ℤ}
            (elim o as (λ x. Exec System ℤ) [ none ↦ raise value_error | some z ↦ pure z ])
    go none s h = Leaves-err value_error s h
    go (some z) s h = Leaves-ok z s tt h

write_bytes-Fine : (n : ℕ) (addr : ℤ) (t : Text) → Fine (write_bytes n addr t)
unfolding write_bytes
write_bytes-Fine zero addr t s h = Leaves-unit s h
write_bytes-Fine (suc n) addr t s h = Leaves-bind Any _ _ (number-Fine (take 2 t) s h) λ byte s _ h.
    Leaves-bind Any _ _ (store_byte_at-Fine addr byte s h)
      λ _ s _ h. write_bytes-Fine n (addr +ℤ pos 1) (drop 2 t) s h

caught-Keeps : (x : Result Text × System) (s : Session) → IsWf x.1 → IsWf (caught x s).1.system
caught-Keeps (ok t, sys) s h = h
caught-Keeps (err e, sys) s h = h

pub cmd_read_memory-Keeps : (params : Text) → Keeps (cmd_read_memory params)
unfolding cmd_read_memory
cmd_read_memory-Keeps params = or_e01-Keeps (split_in_two b',' params) _ λ parts.
    or_e01-Keeps (int_16 parts.0) _ λ addr.
      or_e01-Keeps (int_16 parts.1) _
        λ len s h. caught-Keeps _ s (read_bytes-Fine (pos_part len) addr s.system h).state

write_data-Keeps : (n : ℕ) (addr : ℤ) (t : Text) → Keeps (write_data n addr t)
unfolding write_data
write_data-Keeps n addr t s h =
    let x = (write_bytes n addr t >> pure (codes "OK")) s.system in
    let fine : Leaves IsWf Any x =
      Leaves-bind Any _ _ (write_bytes-Fine n addr t s.system h)
        λ _ s _ h. Leaves-ok (codes "OK") s tt h in
    if-Keeps (ltb (length t) (n * 2)) (reply (codes "E01") s) (caught x s) h
      (caught-Keeps x s fine.state)

pub cmd_write_memory-Keeps : (params : Text) → Keeps (cmd_write_memory params)
unfolding cmd_write_memory
cmd_write_memory-Keeps params = or_e01-Keeps (split_in_two b':' params) _ λ halves.
    or_e01-Keeps (split_in_two b',' halves.0) _ λ parts.
      or_e01-Keeps (int_16 parts.0) _
        λ addr. or_e01-Keeps (int_16 parts.1) _ λ len. write_data-Keeps (pos_part len) addr halves.1
