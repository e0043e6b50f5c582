-- ===== src/Machine/Loader/Layout.antt =====
-- Where `setup_argv` writes the strings and the table, and what its loops leave.
use riscv_python.Prelude.{
  ℕ, suc, ◌+◌, ◌*◌, ◌^◌, ◌<◌, ◌≤◌, ◌≡◌, refl, ap, ◌∙◌, Option, some, List, [], ◌∷◌, ◌++◌, arith,
}
use riscv_python.State.{ok}
use riscv_python.Ram.Bytes.{put_bytes, length}
use riscv_python.Ram.Binary.{IsSafe, store_binary-safe}
use riscv_python.Ram.Writes.{Writes, put_all, IsAscending, AllWrites, IsAscending-le}
use riscv_python.Text.{Text, All-map, All-append, encode_utf_8-ascii}
use riscv_python.Machine.Loader.{Machine, align_up, set_heap_end, store_args, store_table}
use riscv_python.Machine.Loader.Segments.{with_memory}
use riscv_python.Machine.Loader.Table.{word_bytes, store_word-safe, IsArg}

-- Arguments of ASCII characters without NUL.
abbrev pub AreArgs : List Text → Type 0
AreArgs [] = Unit
AreArgs (arg ∷ args) = IsArg arg × AreArgs args

-- Where the next string goes.
abbrev pub next_end : ℕ → Text → ℕ
next_end h arg = align_up 3 (h + length arg + 1)

-- The addresses of the strings from the end of the heap on, what is written, and where they end.
unfoldable pub pointers : ℕ → List Text → List ℕ
pointers h [] = []
pointers h (arg ∷ args) = h ∷ pointers (next_end h arg) args

unfoldable pub arg_writes : ℕ → List Text → Writes
arg_writes h [] = []
arg_writes h (arg ∷ args) = (h, arg ++ 0 ∷ []) ∷ arg_writes (next_end h arg) args

unfoldable pub args_end : ℕ → List Text → ℕ
args_end h [] = h
args_end h (arg ∷ args) = args_end (next_end h arg) args

unfoldable pub table_writes : ℕ → List ℕ → Writes
table_writes t [] = []
table_writes t (p ∷ ps) = (t, word_bytes p) ∷ table_writes (t + 4) ps

-- The machine with another memory and end of the heap.
abbrev pub moved : (ℕ → ℕ) → ℕ → Machine → Machine
moved mem h m = set_heap_end h (with_memory mem m)

pub length-terminated : (arg : Text) → length (arg ++ 0 ∷ []) ≡ length arg + 1
length-terminated [] = refl
length-terminated (c ∷ arg) = ap suc (length-terminated arg) ∙ omega arith

pub le-args_end : (args : List Text) (h : ℕ) → h ≤ args_end h args
unfolding args_end
le-args_end [] h = omega arith
le-args_end (arg ∷ args) h = omega (arith, le-args_end args (next_end h arg))

pub store_args-moved :
    (args : List Text) (h : ℕ) (m : Machine)
    → AreArgs args
    → IsSafe m.system
    → m.system.heap_end ≡ some h
    → args_end h args ≤ m.system.ram.size
    → store_args args m ≡ (
      ok (pointers h args),
      moved (put_all m.system.ram.memory (arg_writes h args)) (args_end h args) m,
    )
unfolding store_args pointers arg_writes args_end put_all
store_args-moved [] h m ha hs hh hf =
    ap (λ (o : Option ℕ). (ok [], record m { system = record m.system { heap_end = o } })) hh
store_args-moved (arg ∷ args) h m (ha, hargs) hs hh hf =
    let ascii = encode_utf_8-ascii arg (All-map _ _ (λ c p. p.1) arg ha) in
    let bound : h + length (arg ++ 0 ∷ []) ≤ m.system.ram.size =
      omega (arith, length-terminated arg, le-args_end args (next_end h arg)) in
    let mem = put_bytes m.system.ram.memory h (arg ++ 0 ∷ []) in
    let rest =
      store_args-moved args (next_end h arg) (moved mem (next_end h arg) m) hargs hs refl hf in
    rw ascii (simp hh (rw (store_binary-safe h (arg ++ 0 ∷ []) m.system hs bound, rest) refl))

pub store_table-moved :
    (ps : List ℕ) (t : ℕ) (m : Machine)
    → IsSafe m.system
    → m.system.heap_end ≡ some t
    → t + 4 * length ps ≤ m.system.ram.size
    → store_table ps m
      ≡ (ok tt, moved (put_all m.system.ram.memory (table_writes t ps)) (t + 4 * length ps) m)
unfolding store_table table_writes put_all
store_table-moved [] t m hs hh hf =
    ap (λ (o : Option ℕ). (ok tt, record m { system = record m.system { heap_end = o } }))
      (hh ∙ ap some (omega arith))
store_table-moved (p ∷ ps) t m hs hh hf =
    let mem = put_bytes m.system.ram.memory t (word_bytes p) in
    let rest = store_table-moved ps (t + 4) (moved mem (t + 4) m) hs refl (omega arith) in
    let e : t + 4 + 4 * length ps ≡ t + 4 * (suc (length ps)) = omega arith in
    simp hh (rw (store_word-safe t p m.system hs (omega arith), rest, e) refl)

pub arg_writes-IsAscending :
    (args : List Text) (h : ℕ) (ws : Writes)
    → IsAscending (args_end h args) ws
    → IsAscending h (arg_writes h args ++ ws)
unfolding arg_writes args_end
arg_writes-IsAscending [] h ws hw = hw
arg_writes-IsAscending (arg ∷ args) h ws hw = (
  omega arith,
  IsAscending-le (arg_writes (next_end h arg) args ++ ws) (next_end h arg) _
      (omega (arith, length-terminated arg)) (arg_writes-IsAscending args (next_end h arg) ws hw),
)

pub table_writes-IsAscending : (ps : List ℕ) (t : ℕ) → IsAscending t (table_writes t ps)
unfolding table_writes
table_writes-IsAscending [] t = tt
table_writes-IsAscending (p ∷ ps) t = (omega arith, table_writes-IsAscending ps (t + 4))

pub arg_writes-AllWrites : (args : List Text) (h : ℕ) → AreArgs args → AllWrites (arg_writes h args)
unfolding arg_writes
arg_writes-AllWrites [] h ha = tt
arg_writes-AllWrites (arg ∷ args) h (ha, hargs) = (
  All-append (λ b. b < 2 ^ 8) arg (0 ∷ []) (All-map _ _ (λ c p. omega arith) arg ha)
      (omega arith, tt),
  arg_writes-AllWrites args (next_end h arg) hargs,
)

pub table_writes-AllWrites : (ps : List ℕ) (t : ℕ) → AllWrites (table_writes t ps)
unfolding table_writes
table_writes-AllWrites [] t = tt
table_writes-AllWrites (p ∷ ps) t = (omega arith, table_writes-AllWrites ps (t + 4))

pub length-pointers :
    (args : List Text) (h : ℕ) → length (pointers h args ++ 0 ∷ []) ≡ length args + 1
unfolding pointers
length-pointers [] h = refl
length-pointers (arg ∷ args) h = ap suc (length-pointers args (next_end h arg)) ∙ omega arith
