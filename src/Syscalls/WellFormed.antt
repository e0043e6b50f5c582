-- ===== src/Syscalls/WellFormed.antt =====
-- Every system call of syscalls.py keeps the emulator's state well formed.
use riscv_python.Prelude.{some, ℕ, zero, suc, ◌/◌, ◌^◌, ◌<◌, List, [], ◌∷◌, ◌++◌, arith}
use riscv_python.Prelude.Int.{ℤ, pos, to_u32, to_u32-lt}
use riscv_python.State.{System, Ram, Result, ok, err, set_reg}
use riscv_python.Cpu.System.{EcallHandler}
use riscv_python.State.Leaves.{
  Leaves, Leaves-ok, Leaves-err, Leaves-if, Leaves-bind, Any, Leaves-unit,
}
use riscv_python.Text.{All-append}
use riscv_python.Ram.Bytes.{put_bytes, length}
use riscv_python.Ram.Writes.{AllBytes, put_bytes-AllBelow}
use riscv_python.Ram.Plain
use riscv_python.Ram.Safe
use riscv_python.Ram.Offset
use riscv_python.Ram.Mmio
use riscv_python.Ram.SafeMmio
use riscv_python.Ram.Access.{load_binary, store_binary}
use riscv_python.Invariant.Defs.{IsWf, IsWfRam, set_reg-IsWf}
use riscv_python.Invariant.Bytes.{check-Leaves}
use riscv_python.Invariant.Classes.{rebase-Leaves}
use riscv_python.Invariant.Access.{dispatch-Leaves, on_ram-Leaves, store_byte-Leaves}
use riscv_python.Invariant.System.{KeepsWf, load_cstring-Leaves}
use riscv_python.Syscalls.{Os, Kernel, handle_exit, le_bytes, stat_buf, take_bytes}
use riscv_python.Syscalls.Files
use riscv_python.Syscalls.Keeps.{OnDone, IsKept}
use riscv_python.Syscalls.Serve.{handle-Keeps}

module _ (addr : ℕ) (bytes : List ℕ) (hb : AllBytes bytes) where
  put_bytes-IsWfRam :
      (a : ℕ) (r : Ram) → IsWfRam r → IsWfRam (record r { memory = put_bytes r.memory a bytes })
  put_bytes-IsWfRam a r h = record {
    memory = put_bytes-AllBelow bytes r.memory a hb h.memory;
    devices = h.devices;
  }

  plain_store : (r : Ram) → IsWfRam r → Leaves IsWfRam Any (Plain.store_binary addr bytes r)
  unfolding Plain.store_binary
  plain_store r h = Leaves-if _ _ _ (Leaves-unit _ (put_bytes-IsWfRam addr r h)) (Leaves-err _ r h)

  safe_store : (r : Ram) → IsWfRam r → Leaves IsWfRam Any (Safe.store_binary addr bytes r)
  unfolding Safe.store_binary
  safe_store r h =
      Leaves-bind Any _ _ (check-Leaves (pos addr) (length bytes) r h)
        λ _ r _ h. Leaves-unit _ (put_bytes-IsWfRam addr r h)

  offset_store : (r : Ram) → IsWfRam r → Leaves IsWfRam Any (Offset.store_binary addr bytes r)
  unfolding Offset.store_binary
  offset_store r h =
      Leaves-bind Any _ _ (rebase-Leaves addr r h (length bytes))
        λ a r _ h. Leaves-unit _ (put_bytes-IsWfRam a r h)

  pub store_binary-Leaves : (s : System) → IsWf s → Leaves IsWf Any (store_binary addr bytes s)
  unfolding store_binary Mmio.store_binary SafeMmio.store_binary
  store_binary-Leaves s h =
      let p = plain_store s.ram h.ram in
      let c = safe_store s.ram h.ram in
      dispatch-Leaves Any s h s.ram.ram_class _ _ _ _ _ p c (offset_store s.ram h.ram)
        (on_ram-Leaves s h (Plain.store_binary addr bytes) p)
        (on_ram-Leaves s h (Safe.store_binary addr bytes) c)

module _ (addr n : ℕ) where
  safe_load : (r : Ram) → IsWfRam r → Leaves IsWfRam Any (Safe.load_binary addr n r)
  unfolding Safe.load_binary
  safe_load r h = Leaves-bind Any _ _ (check-Leaves (pos addr) n r h) λ _ r _ h. Leaves-ok _ r tt h

  offset_load : (r : Ram) → IsWfRam r → Leaves IsWfRam Any (Offset.load_binary addr n r)
  unfolding Offset.load_binary
  offset_load r h = Leaves-bind Any _ _ (rebase-Leaves addr r h n) λ a r _ h. Leaves-ok _ r tt h

  load_binary-Leaves : (s : System) → IsWf s → Leaves IsWf Any (load_binary addr n s)
  unfolding load_binary Plain.load_binary Mmio.load_binary SafeMmio.load_binary
  load_binary-Leaves s h =
      let p = Leaves-ok _ s.ram tt h.ram in
      let c = safe_load s.ram h.ram in
      dispatch-Leaves Any s h s.ram.ram_class _ _ _ _ _ p c (offset_load s.ram h.ram)
        (on_ram-Leaves s h (Plain.load_binary addr n) p)
        (on_ram-Leaves s h (Safe.load_binary addr n) c)

take_bytes-AllBytes : (n : ℕ) (l : List ℕ) → AllBytes l → AllBytes (take_bytes n l)
take_bytes-AllBytes zero l h = tt
take_bytes-AllBytes (suc n) [] h = tt
take_bytes-AllBytes (suc n) (b ∷ bs) (h, hs) = (h, take_bytes-AllBytes n bs hs)

le_bytes-AllBytes : (n v : ℕ) → AllBytes (le_bytes n v)
unfolding le_bytes
le_bytes-AllBytes zero v = tt
le_bytes-AllBytes (suc n) v = (omega arith, le_bytes-AllBytes n (v / 2 ^ 8))

stat_buf-AllBytes : (mode size : ℕ) → AllBytes (stat_buf mode size)
unfolding stat_buf
stat_buf-AllBytes mode size =
    let join = λ (n v : ℕ) (t : List ℕ) (ht : AllBytes t).
      All-append (λ b. b < 2 ^ 8) (le_bytes n v) t (le_bytes-AllBytes n v) ht in
    let rest = le_bytes 64 0 in
    let sized = le_bytes 8 size ++ rest in
    let spaced = le_bytes 8 0 ++ sized in
    join 4 0 (le_bytes 4 mode ++ spaced)
      (join 4 mode spaced (join 8 0 sized (join 8 size rest (le_bytes-AllBytes 64 0))))

-- A host that gives bytes, from `input` and from a file.
pub record GivesBytes {H : Type 0} (os : Os H) : Type 0 where
  pub input : (h : H) → AllBytes (Files.line_bytes os (os.input_line h).0)
  pub file : (f n : ℕ) (h : H) → OnDone AllBytes (os.os_read f n h).0

module _ {H : Type 0} (os : Os H) (gives : GivesBytes os) where
  IsWf-IsKept : IsKept os (λ k. IsWf k.system) AllBytes
  unfolding handle_exit
  IsWf-IsKept = record {
    host = λ k h p. p;
    load = λ addr n k p. (load_binary-Leaves addr n k.system p).state;
    path = λ addr n k p. (load_cstring-Leaves addr n k.system p).state;
    store = λ addr bytes k b p. (store_binary-Leaves addr bytes b k.system p).state;
    byte = λ addr c k p. (store_byte-Leaves addr k.system p c).state;
    enter = λ f k p. p;
    forget = λ fd k p. p;
    heap = λ e k p. record { cpu = p.cpu; ram = p.ram };
    mask = λ m k p. p;
    exit = λ k p. record {
      cpu = record {
        registers = p.registers;
        csrs = p.csrs;
        pc = p.next_pc;
        next_pc = p.next_pc;
        mtime = p.mtime;
        mtimecmp = p.mtimecmp;
        caches = p.caches;
      };
      ram = p.ram;
    };
    line = λ n h. take_bytes-AllBytes n (Files.line_bytes os (os.input_line h).0) (gives.input h);
    read = gives.file;
    stat = stat_buf-AllBytes;
  }

  handle-Wf : (k : Kernel H) → IsWf k.system → IsWf (Files.handle os k).1.system
  handle-Wf k h = ((handle-Keeps os (λ k. IsWf k.system) AllBytes IsWf-IsKept).serve k h).state

  -- Every system call, also when it raises an exception, keeps all that is not register a0 well
  -- formed, if what the host reads from its input and from files are bytes: with any number of 32
  -- bits in a0 the state that it leaves is well formed. What the source itself writes to a0 is not
  -- said, which for an error is a negative number.
  pub handle-IsWf :
      (k : Kernel H) (v : ℕ)
      → v < 2 ^ 32
      → IsWf k.system
      → IsWf (set_reg 10 v (Files.handle os k).1.system)
  handle-IsWf k v hv h = set_reg-IsWf 10 v (Files.handle os k).1.system hv (handle-Wf k h)

  -- The handler of system calls for a program whose calls leave the descriptors and the host alone,
  -- with the answer in a0 cut to 32 bits.
  abbrev cut_answer : Result ℤ × Kernel H → Result (Unit {0}) × System
  cut_answer (ok z, k) = (ok tt, set_reg 10 (to_u32 z) k.system)
  cut_answer (err e, k) = (err e, k.system)

  abbrev pub answering : Kernel H → EcallHandler
  answering k = some (λ s. cut_answer (Files.handle os (record k { system = s })))

  cut_answer-IsWf : (x : Result ℤ × Kernel H) → IsWf x.1.system → IsWf (cut_answer x).1
  cut_answer-IsWf (ok z, k) h = set_reg-IsWf 10 (to_u32 z) k.system (to_u32-lt z) h
  cut_answer-IsWf (err e, k) h = h

  pub answering-KeepsWf : (k : Kernel H) → KeepsWf (answering k)
  answering-KeepsWf k s h =
      cut_answer-IsWf (Files.handle os (record k { system = s }))
        (handle-Wf (record k { system = s }) h)
