-- ===== src/Machine/Loader/Segments.antt =====
-- What `load_elf` leaves in memory.
use riscv_python.Prelude.{
  ap, ℕ, ◌+◌, ◌≡◌, refl, ◌∙◌, Bool, true, false, Option, none, some, List, [], ◌∷◌, if◌then◌else◌,
  arith,
}
use riscv_python.State.{Cpu, Ram, ok, Exec, ◌>>◌}
use riscv_python.Ram.Bytes.{put_bytes}
use riscv_python.Ram.Binary.{IsSafe, set_memory, store_binary-safe}
use riscv_python.Ram.Writes.{
  Writes, put_all, IsApart, IsSeparate, IsWithin, Holds, put_all-apart, put_all-Holds,
}
use riscv_python.Ram.Access.{store_binary}
use riscv_python.Machine.Loader.{
  Machine, Segment, Symbol, ElfFile, load_segments, load_elf, in_system, set_pc, read_symbol,
  read_symbols, read_functions, read_symtab, read_text,
}

-- The segments of type PT_LOAD.
unfoldable pub writes : List Segment → Writes
writes [] = []
writes (g ∷ gs) = if g.is_load then (g.p_paddr, g.content) ∷ writes gs else writes gs

-- The machine with another memory.
abbrev pub with_memory : (ℕ → ℕ) → Machine → Machine
with_memory mem m = record m { system = set_memory mem m.system }

-- What the rest of the loop does, from any machine with a memory of this size.
abbrev Stores : ℕ → Writes → Exec Machine (Unit {0}) → Type 0
Stores size ws rest =
    (m : Machine)
    → IsSafe m.system
    → m.system.ram.size ≡ size
    → rest m ≡ (ok tt, with_memory (put_all m.system.ram.memory ws) m)

module _ (size a : ℕ) (content : List ℕ) (ws : Writes) (rest : Exec Machine (Unit {0})) where
  store_segment :
      (b : Bool)
      → IsWithin size (if b then (a, content) ∷ ws else ws)
      → (IsWithin size ws → Stores size ws rest)
      → Stores size
          (if b then (a, content) ∷ ws else ws)
          (λ m. if b then (in_system (store_binary a content) >> rest) m else rest m)
  unfolding put_all
  store_segment false h next m hs e = next h m hs e
  store_segment true (h, hws) next m hs e =
      rw (store_binary-safe a content m.system hs (rw e h))
        (next hws (with_memory (put_bytes m.system.ram.memory a content) m) hs e)

load_segments-put_all :
    (gs : List Segment) (size : ℕ)
    → IsWithin size (writes gs)
    → Stores size (writes gs) (load_segments gs)
unfolding load_segments writes put_all
load_segments-put_all [] size h = λ m hs e. refl
load_segments-put_all (g ∷ gs) size h =
    store_segment size g.p_paddr g.content (writes gs) (load_segments gs) g.is_load h
      (load_segments-put_all gs size)

-- The processor and the memory, without the end of the heap.
abbrev pub core : Machine → Cpu × Ram
core m = (m.system.cpu, m.system.ram)

if-core :
    (b : Bool) (m n k : Machine)
    → core m ≡ core k
    → core n ≡ core k
    → core (if b then m else n) ≡ core k
if-core true m n k h h' = h
if-core false m n k h h' = h'

read_symbol-core : (sym : Symbol) (m : Machine) → core (read_symbol sym m) ≡ core m
unfolding read_symbol
read_symbol-core sym m = ground arith

read_symbols-core : (syms : List Symbol) (m : Machine) → core (read_symbols syms m) ≡ core m
unfolding read_symbols
read_symbols-core [] m = refl
read_symbols-core (sym ∷ syms) m =
    read_symbols-core syms (read_symbol sym m) ∙ read_symbol-core sym m

read_functions-core : (syms : List Symbol) (m : Machine) → core (read_functions syms m) ≡ core m
unfolding read_functions
read_functions-core [] m = refl
read_functions-core (sym ∷ syms) m = read_functions-core syms _ ∙ if-core _ _ _ m refl refl

read_symtab-core :
    (b : Bool) (o : Option (List Symbol)) (m : Machine) → core (read_symtab b o m) ≡ core m
unfolding read_symtab
read_symtab-core b none m = refl
read_symtab-core b (some syms) m =
    if-core b _ _ m (read_functions-core syms (read_symbols syms m) ∙ read_symbols-core syms m)
      (read_symbols-core syms m)

read_text-core : (b : Bool) (o : Option (ℕ × ℕ)) (m : Machine) → core (read_text b o m) ≡ core m
unfolding read_text
read_text-core b none m = refl
read_text-core b (some (addr, size)) m = refl

-- Reading the symbols and the text section changes neither the processor nor the memory.
pub read_tables-core :
    (elf : ElfFile) (load_symbols check_text : Bool) (m : Machine)
    → core (read_text check_text elf.text (read_symtab load_symbols elf.symtab m)) ≡ core m
read_tables-core elf load_symbols check_text m =
    read_text-core check_text elf.text _ ∙ read_symtab-core load_symbols elf.symtab m

-- A byte that no write touches.
pub untouched : (ws : Writes) (mem : ℕ → ℕ) (k : ℕ) → IsApart k 1 ws → put_all mem ws k ≡ mem k
untouched ws mem k h =
    let e : k + 0 ≡ k = omega arith in rw e at (put_all-apart ws mem k 1 0 h (omega arith))

-- On a memory of class `SafeRAM`, for an ELF file whose segments of type PT_LOAD lie within the
-- memory and of which none touches the bytes of one before: load_elf raises nothing, the bytes of
-- every such segment are in the memory, every byte outside of them is as it was, the program
-- counter is the entry point, and all else of the processor is as it was.
pub load_elf-Holds :
    (elf : ElfFile) (load_symbols check_text : Bool) (m : Machine)
    → IsSafe m.system
    → IsWithin m.system.ram.size (writes elf.segments)
    → IsSeparate (writes elf.segments)
    → (let (r, m') = load_elf elf load_symbols check_text m in
        (r ≡ ok tt)
        × Holds m'.system.ram.memory (writes elf.segments)
        × ((k : ℕ)
            → IsApart k 1 (writes elf.segments)
            → m'.system.ram.memory k ≡ m.system.ram.memory k)
        × (m'.system.cpu ≡ record m.system.cpu { pc = elf.e_entry }))
unfolding load_elf
load_elf-Holds elf load_symbols check_text m hs hw ha =
    let ws = writes elf.segments in
    let mem = m.system.ram.memory in
    let entered = set_pc elf.e_entry (with_memory (put_all mem ws) m) in
    let same = read_tables-core elf load_symbols check_text entered in
    let memory = ap (λ (c : Cpu × Ram). c.1.memory) same in
    rw (load_segments-put_all elf.segments m.system.ram.size hw m hs refl) (
      refl,
      rw memory (put_all-Holds ws mem ha),
      λ k h. rw memory (untouched ws mem k h),
      ap (λ (c : Cpu × Ram). c.0) same,
    )
