-- ===== src/Syscalls/Keeps.antt =====
-- What is asked of a property of the state of syscalls.py, so that every system call keeps it, and
-- how the parts of a handler keep it then.
use riscv_python.Prelude.{ℕ, ◌+◌, ◌-◌, ◌^◌, Bool, true, false, ◌||◌, Option, none, some, List, ◌==◌}
use riscv_python.Prelude.Int.{pos}
use riscv_python.State.{System, Exec, Fault, os_error, type_error, ◌>>=◌, update, raise, pure}
use riscv_python.State.Leaves.{
  Leaves, Leaves-ok, Leaves-err, Leaves-if, Leaves-bind, Leaves-state, Any,
}
use riscv_python.Ram.Access.{load_binary, store_binary, store_byte, load_cstring}
use riscv_python.Syscalls.{
  Answer, done, failed, Os, Kernel, Handler, reg, in_memory, on_host, stat_buf, neg_errno,
  take_bytes, with_heap_end, handle_exit,
}
use riscv_python.Ram.Bytes.{length}
use riscv_python.Syscalls.Files

-- The bytes that a read has given.
abbrev pub OnDone : (List ℕ → Type 0) → Answer (List ℕ) → Type 0
OnDone B (done bytes) = B bytes
OnDone B (failed e) = Unit

-- The laws of a property `P` of the state: each change that a handler makes keeps it, where `B`
-- holds of the bytes that are stored; and `B` holds of what the host gives.
pub record IsKept {H : Type 0} (os : Os H) (P : Kernel H → Type 0) (B : List ℕ → Type 0)
    : Type 0 where
  pub host : (k : Kernel H) (h : H) → P k → P (record k { host = h })
  pub load : (addr n : ℕ) (k : Kernel H) → P k → P (in_memory (load_binary addr n) k).1
  pub path : (addr n : ℕ) (k : Kernel H) → P k → P (in_memory (load_cstring addr n) k).1
  pub store :
      (addr : ℕ) (bytes : List ℕ) (k : Kernel H)
      → B bytes
      → P k
      → P (in_memory (store_binary addr bytes) k).1
  pub byte : (addr c : ℕ) (k : Kernel H) → P k → P (in_memory (store_byte addr c) k).1
  pub enter :
      (f : ℕ) (k : Kernel H)
      → P k
      → P (record k { fd_map = update k.fd_map k.next_fd (some f); next_fd = k.next_fd + 1 })
  pub forget : (fd : ℕ) (k : Kernel H) → P k → P (record k { fd_map = update k.fd_map fd none })
  pub heap : (e : ℕ) (k : Kernel H) → P k → P (with_heap_end e k)
  pub mask : (m : ℕ) (k : Kernel H) → P k → P (record k { umask = m })
  pub exit : (k : Kernel H) → P k → P (handle_exit k).1
  pub line : (n : ℕ) (h : H) → B (take_bytes n (Files.line_bytes os (os.input_line h).0))
  pub read : (f n : ℕ) (h : H) → OnDone B (os.os_read f n h).0
  pub stat : (mode size : ℕ) → B (stat_buf mode size)

-- A method that keeps the property and gives a value with `Q`.
pub record Keeps {H A : Type 0} (P : Kernel H → Type 0) (Q : A → Type 0) (m : Exec (Kernel H) A)
    : Type 0 where
  pub serve : (k : Kernel H) → P k → Leaves P Q (m k)

module _ {H A B : Type 0} {P : Kernel H → Type 0} {R : B → Type 0} (Q : A → Type 0) where
  pub Keeps-bind :
      (m : Exec (Kernel H) A) (g : A → Exec (Kernel H) B)
      → Keeps P Q m
      → ((a : A) → Q a → Keeps P R (g a))
      → Keeps P R (m >>= g)
  Keeps-bind m g hm hg = record {
    serve = λ k h. Leaves-bind Q (m k) g (hm.serve k h) λ a k1 q h1. (hg a q).serve k1 h1;
  }

module _ {H A : Type 0} {P : Kernel H → Type 0} {Q : A → Type 0} where
  pub pure-Keeps : (a : A) → Q a → Keeps P Q (pure a)
  pure-Keeps a q = record { serve = λ k h. Leaves-ok a k q h }

  raise-Keeps : (e : Fault) → Keeps P Q (raise e)
  raise-Keeps e = record { serve = λ k h. Leaves-err e k h }

module _ {H : Type 0} (os : Os H) (P : Kernel H → Type 0) (B : List ℕ → Type 0)
    (kept : IsKept os P B) where
  pub on_host-Keeps :
      {A : Type 0} (Q : A → Type 0) (f : H → A × H) → ((h : H) → Q (f h).0) → Keeps P Q (on_host f)
  on_host-Keeps Q f q = record {
    serve = λ k h. Leaves-ok (f k.host).0 _ (q k.host) (kept.host k (f k.host).1 h);
  }

  in_memory-Keeps :
      {A : Type 0} (m : Exec System A)
      → ((k : Kernel H) → P k → P (in_memory m k).1)
      → Keeps P Any (in_memory m)
  in_memory-Keeps m hm = record { serve = λ k h. Leaves-state (in_memory m k) (hm k h) }

  pub number_of-Keeps :
      (f : H → Answer ℕ × H)
      → Keeps P Any (on_host f >>= λ answer. pure (Files.number_or_errno os answer))
  number_of-Keeps f =
      Keeps-bind Any (on_host f) _ (on_host-Keeps Any f λ _. tt)
        λ a _. pure-Keeps (Files.number_or_errno os a) tt

  pub with_fd-Keeps :
      (o : Option ℕ) (f : ℕ → Handler H)
      → ((n : ℕ) → Keeps P Any (f n))
      → Keeps P Any (Files.with_fd os o f)
  with_fd-Keeps none f hf = record { serve = λ k h. Leaves-ok _ k tt h }
  with_fd-Keeps (some n) f hf = hf n

  pub handle_write-Keeps : Keeps P Any (Files.handle_write os)
  unfolding Files.handle_write
  handle_write-Keeps = record {
    serve = λ k h.
        Leaves-bind Any _ _
          ((in_memory-Keeps (load_binary (reg 11 k) (reg 12 k))
              (kept.load (reg 11 k) (reg 12 k))).serve
            k h)
          λ bytes k1 _ h1.
            Leaves-if (reg 10 k == 1 || reg 10 k == 2) _ _
              (Leaves-ok _ _ tt (kept.host k1 (os.print k1.raw_tty bytes k1.host) h1))
              ((with_fd-Keeps (k1.fd_map (reg 10 k)) _
                  λ n. number_of-Keeps (os.os_write n bytes)).serve
                k1 h1);
  }

  store-Keeps :
      (addr : ℕ) (bytes : List ℕ) → B bytes → Keeps P Any (in_memory (store_binary addr bytes))
  store-Keeps addr bytes hb =
      in_memory-Keeps (store_binary addr bytes) λ k h. kept.store addr bytes k hb h

  store_read-Keeps :
      (addr : ℕ) (bytes : List ℕ) → B bytes → Keeps P Any (Files.store_read os addr bytes)
  unfolding Files.store_read
  store_read-Keeps addr bytes hb =
      Keeps-bind Any (in_memory (store_binary addr bytes)) _ (store-Keeps addr bytes hb)
        λ _ _. pure-Keeps (pos (length bytes)) tt

  or_os_error-Keeps : (a : Answer (List ℕ)) → OnDone B a → Keeps P B (Files.or_os_error os a)
  or_os_error-Keeps (done b) hb = pure-Keeps b hb
  or_os_error-Keeps (failed e) hb = raise-Keeps os_error

  ord_or_error-Keeps : (a : Option ℕ) → Keeps P Any (Files.ord_or_error os a)
  ord_or_error-Keeps (some c) = pure-Keeps c tt
  ord_or_error-Keeps none = raise-Keeps type_error

  read_stdin-Keeps :
      (raw : Bool) (addr count : ℕ) → Keeps P Any (Files.read_stdin os raw addr count)
  unfolding Files.read_stdin
  read_stdin-Keeps true addr count =
      Keeps-bind Any (on_host os.read_char) _ (on_host-Keeps Any os.read_char λ _. tt) λ ch _.
        Keeps-bind Any (Files.ord_or_error os ch) _ (ord_or_error-Keeps ch) λ c _.
          Keeps-bind Any (in_memory (store_byte addr c)) _
            (in_memory-Keeps (store_byte addr c) (kept.byte addr c)) λ _ _. pure-Keeps (pos 1) tt
  read_stdin-Keeps false addr count =
      let bytes = λ (input : Option (List ℕ)). take_bytes count (Files.line_bytes os input) in
      Keeps-bind (λ input. B (bytes input)) (on_host os.input_line) _
        (on_host-Keeps (λ input. B (bytes input)) os.input_line (kept.line count))
        λ input hb. store_read-Keeps addr (bytes input) hb

  read_fd-Keeps :
      (addr count host_fd : ℕ)
      → Keeps P Any (
          on_host (os.os_read host_fd count) >>= λ answer.
          Files.or_os_error os answer >>= λ bytes. Files.store_read os addr bytes)
  read_fd-Keeps addr count n =
      Keeps-bind (OnDone B) (on_host (os.os_read n count)) _
        (on_host-Keeps (OnDone B) (os.os_read n count) (kept.read n count))
        λ a ha.
          Keeps-bind B (Files.or_os_error os a) _ (or_os_error-Keeps a ha)
            λ bytes hb. store_read-Keeps addr bytes hb

  pub handle_read-Keeps : Keeps P Any (Files.handle_read os)
  unfolding Files.handle_read
  handle_read-Keeps = record {
    serve = λ k h.
        Leaves-if (reg 10 k == 0) _ _ ((read_stdin-Keeps k.raw_tty (reg 11 k) (reg 12 k)).serve k h)
          ((with_fd-Keeps (k.fd_map (reg 10 k)) _ (read_fd-Keeps (reg 11 k) (reg 12 k))).serve k h);
  }

  pub with_path-Keeps :
      (dirfd : ℕ) (f : List ℕ → Handler H)
      → ((path : List ℕ) → Keeps P Any (f path))
      → Keeps P Any (Files.with_path os dirfd f)
  unfolding Files.with_path
  with_path-Keeps dirfd f hf = record {
    serve = λ k h.
        Leaves-if (dirfd == 2 ^ 32 - 100) _ _
          (Leaves-bind Any _ _
            ((in_memory-Keeps (load_cstring (reg 11 k) 1024) (kept.path (reg 11 k) 1024)).serve k h)
            λ path k1 _ h1. (hf path).serve k1 h1)
          (Leaves-ok _ k tt h);
  }

  pub enter_fd-Keeps : (a : Answer ℕ) → Keeps P Any (Files.enter_fd os a)
  enter_fd-Keeps (failed e) = record { serve = λ k h. Leaves-ok _ k tt h }
  enter_fd-Keeps (done f) = record { serve = λ k h. Leaves-ok _ _ tt (kept.enter f k h) }

  pub forget_fd-Keeps : (fd : ℕ) (o : Option ℕ) → Keeps P Any (Files.forget_fd os fd o)
  forget_fd-Keeps fd (some e) = record { serve = λ k h. Leaves-ok _ k tt h }
  forget_fd-Keeps fd none = record { serve = λ k h. Leaves-ok _ _ tt (kept.forget fd k h) }

  pub store_stat-Keeps :
      (buf_ptr : ℕ) (a : Answer (ℕ × ℕ)) → Keeps P Any (Files.store_stat os buf_ptr a)
  unfolding Files.store_stat
  store_stat-Keeps buf_ptr (failed e) = pure-Keeps (neg_errno e) tt
  store_stat-Keeps buf_ptr (done (mode, size)) =
      Keeps-bind Any (in_memory (store_binary buf_ptr (stat_buf mode size))) _
        (store-Keeps buf_ptr (stat_buf mode size) (kept.stat mode size))
        λ _ _. pure-Keeps (pos 0) tt
