-- ===== src/Machine/Loader/Argv.antt =====
-- The strings and the table of `setup_argv`, as a program finds them.
use riscv_python.Prelude.{
  ℕ, ◌+◌, ◌*◌, ◌%◌, ◌^◌, ◌<◌, ◌≤◌, ◌≡◌, refl, some, List, [], ◌∷◌, ◌++◌, arith,
}
use riscv_python.State.{System, ok, update}
use riscv_python.Ram.Bytes.{length}
use riscv_python.Ram.Binary.{IsSafe}
use riscv_python.Ram.Writes.{
  Writes, put_all, IsAscending, Holds, put_all-Holds, IsAscending-IsSeparate, put_all-append,
  put_all-AllBelow, IsAscending-IsApart, Holds-append, AllWrites-append,
}
use riscv_python.Ram.Access.{load_word, load_cstring}
use riscv_python.Invariant.Defs.{AllBelow}
use riscv_python.Text.{Text}
use riscv_python.Machine.Loader.{Machine, align_up, setup_argv, set_arguments}
use riscv_python.Machine.Loader.Segments.{untouched}
use riscv_python.Machine.Loader.Table.{load_word-safe, load_cstring-safe}
use riscv_python.Machine.Loader.Layout.{
  AreArgs, next_end, pointers, arg_writes, args_end, table_writes, moved, le-args_end,
  store_args-moved, store_table-moved, arg_writes-IsAscending, table_writes-IsAscending,
  arg_writes-AllWrites, table_writes-AllWrites, length-pointers,
}

-- What a program finds in a table at an address: for each argument a pointer to it, and 0 at the
-- end.
abbrev pub Argv : System → ℕ → List Text → Type 0
Argv s t [] = load_word t s ≡ (ok 0, s)
Argv s t (arg ∷ args) =
    ((p : ℕ) × (load_word t s ≡ (ok p, s))
      × ((n : ℕ) → length arg < n → load_cstring p n s ≡ (ok arg, s)))
    × Argv s (t + 4) args

module _ (s : System) (hs : IsSafe s) (hb : AllBelow (2 ^ 8) s.ram.memory)
    (small : s.ram.size ≤ 2 ^ 32) where
  Holds-Argv :
      (args : List Text) (h t : ℕ)
      → AreArgs args
      → Holds s.ram.memory (arg_writes h args)
      → Holds s.ram.memory (table_writes t (pointers h args ++ 0 ∷ []))
      → args_end h args ≤ s.ram.size
      → t + 4 * length args + 4 ≤ s.ram.size
      → Argv s t args
  unfolding arg_writes table_writes pointers args_end
  Holds-Argv [] h t ha hold (table, _) he ht =
      load_word-safe t 0 s hs hb (omega arith) (omega arith) table
  Holds-Argv (arg ∷ args) h t (ha, hargs) (string, hold) (entry, table) he ht =
      let below : h + length arg < s.ram.size = omega (arith, le-args_end args (next_end h arg)) in
      (
        (
          h,
          load_word-safe t h s hs hb (omega arith) (omega arith) entry,
          λ n hn. load_cstring-safe arg h n s hs ha below hn string,
        ),
        Holds-Argv args (next_end h arg) (t + 4) hargs hold table he (omega arith),
      )

-- Where the table ends.
abbrev pub table_end : ℕ → List Text → ℕ
table_end h args = args_end h args + 4 * length args + 4

-- What is written for the arguments, and the machine afterwards.
abbrev argv_writes : ℕ → List Text → Writes
argv_writes h args = arg_writes h args ++ table_writes (args_end h args) (pointers h args ++ 0 ∷ [])

abbrev argv_ready : ℕ → List Text → Machine → Machine
argv_ready h args m =
    let end = align_up 7 (args_end h args + 4 * length (pointers h args ++ 0 ∷ [])) in
    set_arguments (length args) (args_end h args)
      (moved (put_all m.system.ram.memory (argv_writes h args)) end m)

setup_argv-argv_ready :
    (args : List Text) (h : ℕ) (m : Machine)
    → AreArgs args
    → IsSafe m.system
    → m.system.heap_end ≡ some h
    → table_end h args ≤ m.system.ram.size
    → setup_argv args m ≡ (ok tt, argv_ready h args m)
unfolding setup_argv
setup_argv-argv_ready args h m ha hs hh hf =
    let mem = m.system.ram.memory in
    let table = args_end h args in
    let ptrs = pointers h args ++ 0 ∷ [] in
    let stored = store_args-moved args h m ha hs hh (omega arith) in
    let middle = moved (put_all mem (arg_writes h args)) table m in
    let fits : table + 4 * length ptrs ≤ m.system.ram.size =
      omega (arith, length-pointers args h) in
    let tabled = store_table-moved ptrs table middle hs refl fits in
    rw (stored, tabled, put_all-append (arg_writes h args) (table_writes table ptrs) mem) refl

below_writes :
    (ws : Writes) (mem : ℕ → ℕ) (h k : ℕ) → IsAscending h ws → k < h → put_all mem ws k ≡ mem k
below_writes ws mem h k hw hk = untouched ws mem k (IsAscending-IsApart ws k 1 h (omega arith) hw)

-- On a memory of class `SafeRAM` of at most 2 ^ 32 bytes, for arguments of ASCII characters without
-- NUL which fit behind the end of the heap together with the table: setup_argv raises nothing; a0
-- is the number of the arguments; a1 is the address of a table that has for each argument a pointer
-- at which load_cstring reads it, and 0 at its end; the new end of the heap is a multiple of 8 at or
-- behind the end of the table; and no byte below the old end of the heap changes.
pub setup_argv-Argv :
    (args : List Text) (h : ℕ) (m : Machine)
    → AreArgs args
    → IsSafe m.system
    → AllBelow (2 ^ 8) m.system.ram.memory
    → m.system.ram.size ≤ 2 ^ 32
    → m.system.heap_end ≡ some h
    → table_end h args ≤ m.system.ram.size
    → (let (r, m') = setup_argv args m in
        (r ≡ ok tt)
        × (m'.system.cpu.registers 10 ≡ length args)
        × Argv m'.system (m'.system.cpu.registers 11) args
        × ((e : ℕ) × (m'.system.heap_end ≡ some e) × (e % 8 ≡ 0) × (table_end h args ≤ e))
        × ((k : ℕ) → k < h → m'.system.ram.memory k ≡ m.system.ram.memory k))
unfolding update
setup_argv-Argv args h m ha hs hb small hh hf =
    let mem = m.system.ram.memory in
    let table = args_end h args in
    let ptrs = pointers h args ++ 0 ∷ [] in
    let ws = argv_writes h args in
    let s = (argv_ready h args m).system in
    let ordered = arg_writes-IsAscending args h _ (table_writes-IsAscending ptrs table) in
    let (strings, entries) =
      Holds-append (arg_writes h args) (table_writes table ptrs) (put_all mem ws)
        (put_all-Holds ws mem (IsAscending-IsSeparate ws h ordered)) in
    let bytes =
      AllWrites-append (arg_writes h args) (table_writes table ptrs)
        (arg_writes-AllWrites args h ha) (table_writes-AllWrites ptrs table) in
    rw (setup_argv-argv_ready args h m ha hs hh hf) (
      refl,
      refl,
      Holds-Argv s hs (put_all-AllBelow ws mem bytes hb) small args h table ha strings entries
          (omega arith) hf,
      (
        align_up 7 (table + 4 * length ptrs),
        refl,
        omega arith,
        omega (arith, length-pointers args h),
      ),
      λ k hk. below_writes ws mem h k ordered hk,
    )
