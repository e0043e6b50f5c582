-- ===== src/Browser/Lifecycle/Loading.antt =====
-- Which states initialize, load_file and reset of browser_entry.py keep consistent.
use riscv_python.Prelude.{
  [], ◌∷◌, ◌≡◌, ◌+◌, ◌%◌, ◌==◌, refl, Bool, true, false, Option, none, some, subst, sym, not,
  Bool-cases, inl, inr,
}
use riscv_python.State.{Result, ok, err}
use riscv_python.State.Leaves.{if-keeps}
use riscv_python.Text.{Text}
use riscv_python.Machine.Loader.{Machine}
use riscv_python.Browser.{
  Options, EmulatorState, Files, initialize, after_init, load_into, load_onto, load_by_type, reload,
  or_else, finish_load, load_file, reset, unload,
}
use riscv_python.Browser.Lifecycle.{IsConsistent}

-- What follows an `initialize` keeps the state consistent if it does from one that has succeeded.
after_init-IsConsistent :
    (o : Options) (e : EmulatorState) (next : EmulatorState → Bool × EmulatorState)
    → IsConsistent e
    → ((e' : EmulatorState) → e'.initialized ≡ true → IsConsistent e' → IsConsistent (next e').1)
    → IsConsistent (after_init next (initialize o e)).1
unfolding initialize
after_init-IsConsistent o e next h continues =
    if-keeps (λ (x : Bool × EmulatorState). IsConsistent (after_init next x).1)
      ((o.ram_size + 4) % 4 == 0) _ _
      (continues _ refl (record {
        has_machine = λ _. tt;
        ready = λ _. refl;
        named = h.named;
        running = λ _. tt;
        resumable = λ _. tt;
      }))
      (record {
        has_machine = h.has_machine;
        ready = h.ready;
        named = h.named;
        running = h.running;
        resumable = h.resumable;
      })

pub initialize-IsConsistent :
    (o : Options) (e : EmulatorState) → IsConsistent e → IsConsistent (initialize o e).1
unfolding initialize
initialize-IsConsistent o e h =
    if-keeps (λ (x : Bool × EmulatorState). IsConsistent x.1) ((o.ram_size + 4) % 4 == 0) _ _
      (record {
        has_machine = λ _. tt;
        ready = λ _. refl;
        named = h.named;
        running = λ _. tt;
        resumable = λ _. tt;
      })
      (record {
        has_machine = h.has_machine;
        ready = h.ready;
        named = h.named;
        running = h.running;
        resumable = h.resumable;
      })

finish_load-IsConsistent :
    (path : Text) (e : EmulatorState) (x : Result Bool × Machine)
    → e.initialized ≡ true
    → IsConsistent e
    → IsConsistent (finish_load path e x).1
finish_load-IsConsistent path e (ok true, m) hi h = record {
  has_machine = λ _. tt;
  ready = λ _. hi;
  named = λ _. tt;
  running = λ _. tt;
  resumable = λ _. tt;
}
finish_load-IsConsistent path e (ok false, m) hi h = record {
  has_machine = λ _. tt;
  ready = h.ready;
  named = h.named;
  running = λ _. tt;
  resumable = λ _. tt;
}
finish_load-IsConsistent path e (err f, m) hi h = record {
  has_machine = λ _. tt;
  ready = h.ready;
  named = h.named;
  running = λ _. tt;
  resumable = λ _. tt;
}

module _ (files : Files) where
  pub load_into-IsConsistent :
      (path : Text) (e : EmulatorState)
      → e.initialized ≡ true
      → IsConsistent e
      → IsConsistent (load_into files path e).1
  unfolding load_into
  load_into-IsConsistent path e hi h = go e.machine
    where
      go : (o : Option Machine) → IsConsistent (load_onto files path o e).1
      go none = h
      go (some m) = finish_load-IsConsistent path e (load_by_type files e.options path m) hi h

  pub unload-IsConsistent : (e : EmulatorState) → IsConsistent e → IsConsistent (unload e)
  unload-IsConsistent e h = record {
    has_machine = λ p. cc;
    ready = λ p. cc;
    named = λ p. cc;
    running = h.running;
    resumable = h.resumable;
  }

  pub load_file-IsConsistent :
      (path : Text) (o : Option Options) (e : EmulatorState)
      → IsConsistent e
      → IsConsistent (load_file files path o e).1
  unfolding load_file
  load_file-IsConsistent path o e h =
      let P = λ (x : Bool × EmulatorState). IsConsistent x.1 in
      elim (Bool-cases e.initialized) [
        | inl hi ↦ if-keeps P (not e.initialized) _ _ h (
            if-keeps P e.file_loaded _ _
              (after_init-IsConsistent (or_else o e.options) (unload e) (load_into files path)
                (unload-IsConsistent e h) (load_into-IsConsistent path))
              (load_into-IsConsistent path e hi h))
        | inr hi ↦
            let refused : load_file files path o e ≡ (false, e) = simp hi refl in
            subst P (sym refused) h
      ]

  pub reset-IsConsistent : (e : EmulatorState) → IsConsistent e → IsConsistent (reset files e).1
  unfolding reset
  reset-IsConsistent e h = go e.loaded_filepath
    where
      go : (o : Option Text) → IsConsistent (reload files o e).1
      go none = h
      go (some []) = h
      go (some (c ∷ path)) =
          if-keeps (λ (x : Bool × EmulatorState). IsConsistent x.1) e.file_loaded _ _
            (after_init-IsConsistent e.options (unload e) (load_file files (c ∷ path) none)
              (unload-IsConsistent e h) (λ e' _. load_file-IsConsistent (c ∷ path) none e'))
            h
