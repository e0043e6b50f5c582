-- ===== src/Browser/Lifecycle/Consistency.antt =====
-- Every call of the page keeps the page's emulator consistent.
use riscv_python.Prelude.{
  ℕ, ◌≡◌, ◌∙◌, ◌||◌, refl, Bool, true, false, Option, none, some, if◌then◌else◌, subst, sym, not,
}
use riscv_python.State.{Result, ok, err}
use riscv_python.State.Leaves.{if-keeps}
use riscv_python.Cpu.System.{EcallHandler}
use riscv_python.Machine.Loader.{Machine}
use riscv_python.Browser.{
  Options, EmulatorState, Files, start, begun, from_start, map_machine, stop, update_options,
}
use riscv_python.Browser.Execution.{Progress, end_chunk, run_machine, run_chunk}
use riscv_python.Browser.Lifecycle.{
  Step, Reached, IsSome, IsConsistent, at_first, after, initializes, loads, starts, stops, resets,
  runs, updates,
}
use riscv_python.Browser.Lifecycle.Loading.{
  initialize-IsConsistent, load_file-IsConsistent, reset-IsConsistent,
}

map_machine-IsSome :
    (f : Machine → Machine) (o : Option Machine) → IsSome o → IsSome (map_machine f o)
map_machine-IsSome f none h = h
map_machine-IsSome f (some m) h = tt

begun-IsConsistent : (e : EmulatorState) → IsConsistent e → IsConsistent (begun e)
unfolding begun
begun-IsConsistent e h =
    let keep = map_machine-IsSome (from_start e) e.machine in
    if-keeps IsConsistent e.should_reset_pc _ _
      (record {
        has_machine = λ p. keep (h.has_machine p);
        ready = h.ready;
        named = h.named;
        running = λ p. keep (h.running p);
        resumable = λ p. keep (h.resumable p);
      })
      h

begun-initialized : (e : EmulatorState) → (begun e).initialized ≡ e.initialized
unfolding begun
begun-initialized e =
    if-keeps (λ (x : EmulatorState). x.initialized ≡ e.initialized) e.should_reset_pc _ _ refl refl

-- What a start that raises nothing says.
started :
    (i l : Bool) (x e' : EmulatorState)
    → (if not i || not l then none else some x) ≡ some e'
    → (i ≡ true) × (x ≡ e')
started true true x e' h = (refl, cc)
started true false x e' h = (refl, cc)
started false l x e' h = (cc, cc)

start-IsConsistent : (e e' : EmulatorState) → IsConsistent e → start e ≡ some e' → IsConsistent e'
unfolding start
start-IsConsistent e e' h hs =
    let b = begun-IsConsistent e h in
    let (hi, same) = started e.initialized e.file_loaded _ e' hs in
    let there = b.has_machine (begun-initialized e ∙ hi) in
    subst IsConsistent same (record {
      has_machine = λ _. there;
      ready = b.ready;
      named = b.named;
      running = λ _. there;
      resumable = λ _. there;
    })

stop-IsConsistent : (e : EmulatorState) → IsConsistent e → IsConsistent (stop e)
unfolding stop
stop-IsConsistent e h = record {
  has_machine = h.has_machine;
  ready = h.ready;
  named = h.named;
  running = λ p. cc;
  resumable = h.resumable;
}

end_chunk-IsConsistent :
    (m : Machine) (e : EmulatorState) (x : Result (Unit {0}) × Progress)
    → IsConsistent e
    → IsConsistent (end_chunk m e x).1
end_chunk-IsConsistent m e (ok u, p) h = record {
  has_machine = λ _. tt;
  ready = h.ready;
  named = h.named;
  running = λ _. tt;
  resumable = λ _. tt;
}
end_chunk-IsConsistent m e (err f, p) h = record {
  has_machine = λ _. tt;
  ready = h.ready;
  named = h.named;
  running = λ _. tt;
  resumable = λ _. tt;
}

run_chunk-IsConsistent :
    (handle : EcallHandler) (n : ℕ) (e : EmulatorState)
    → IsConsistent e
    → IsConsistent (run_chunk handle n e).1
unfolding run_chunk
run_chunk-IsConsistent handle n e h = go e.machine
  where
    go : (o : Option Machine) → IsConsistent (run_machine handle n o e).1
    go none = h
    go (some m) =
        if-keeps (λ (x : Bool × EmulatorState). IsConsistent x.1) e.running _ _
          (end_chunk-IsConsistent m e _ h) h

update_options-IsConsistent :
    (o : Options) (e : EmulatorState) → IsConsistent e → IsConsistent (update_options o e).1
unfolding update_options
update_options-IsConsistent o e h =
    if-keeps (λ (x : Bool × EmulatorState). IsConsistent x.1) e.initialized _ _
      (record {
        has_machine = h.has_machine;
        ready = h.ready;
        named = h.named;
        running = h.running;
        resumable = h.resumable;
      })
      h

Step-IsConsistent :
    (files : Files) (handle : EcallHandler) (e e' : EmulatorState)
    → Step files handle e e'
    → IsConsistent e
    → IsConsistent e'
Step-IsConsistent files handle e _ (initializes o _) h = initialize-IsConsistent o e h
Step-IsConsistent files handle e e' (loads path o _ _ q) h =
    subst IsConsistent (sym q) (load_file-IsConsistent files path o e h)
Step-IsConsistent files handle e e' (starts _ _ q) h = start-IsConsistent e e' h q
Step-IsConsistent files handle e _ (stops _) h = stop-IsConsistent e h
Step-IsConsistent files handle e e' (resets _ _ q) h =
    subst IsConsistent (sym q) (reset-IsConsistent files e h)
Step-IsConsistent files handle e e' (runs n _ _ q) h =
    subst IsConsistent (sym q) (run_chunk-IsConsistent handle n e h)
Step-IsConsistent files handle e e' (updates o _ _ q) h =
    subst IsConsistent (sym q) (update_options-IsConsistent o e h)

-- In every state that calls of the page reach from the first one, in any order, with any files and
-- options, also after a load that fails: an emulator that is initialized, that runs, or that does
-- not wait for a restart has a machine, and one with a file loaded is initialized and knows the
-- file's name.
pub Reached-IsConsistent :
    (files : Files) (handle : EcallHandler) (e : EmulatorState)
    → Reached files handle e
    → IsConsistent e
Reached-IsConsistent files handle _ at_first = record {
  has_machine = λ p. cc;
  ready = λ p. cc;
  named = λ p. cc;
  running = λ p. cc;
  resumable = λ p. cc;
}
Reached-IsConsistent files handle _ (after e e' r s) =
    Step-IsConsistent files handle e e' s (Reached-IsConsistent files handle e r)
