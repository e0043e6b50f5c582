-- ===== src/Syscalls/Serve.antt =====
-- Every system call of syscalls.py keeps a property of its state that has the laws of `IsKept`.
use riscv_python.Prelude.{
  ℕ, ◌+◌, ◌/◌, ◌%◌, ◌^◌, Bool, Option, none, some, List, leb, ◌==◌, if◌then◌else◌,
}
use riscv_python.Prelude.Int.{ℤ, pos}
use riscv_python.State.{Result, err, machine_error, execution_terminated, type_error, pure, ◌>>=◌}
use riscv_python.State.Leaves.{Leaves, Leaves-ok, Leaves-err, Leaves-if, Any}
use riscv_python.Bits.{and_not}
use riscv_python.Syscalls.{
  done, Os, Kernel, reg, on_host, mkdir_errno, unlink_errno, handle_exit, grow, handle_sbrk,
  handle_isatty, handle_kill, handle_getpid, handle_umask,
}
use riscv_python.Syscalls.Files
use riscv_python.Syscalls.Keeps.{
  IsKept, Keeps, Keeps-bind, pure-Keeps, on_host-Keeps, number_of-Keeps, with_fd-Keeps,
  handle_write-Keeps, handle_read-Keeps, with_path-Keeps, enter_fd-Keeps, forget_fd-Keeps,
  store_stat-Keeps,
}

module _ {H : Type 0} (os : Os H) (P : Kernel H → Type 0) (B : List ℕ → Type 0)
    (kept : IsKept os P B) where
  grow-Keeps : (b : ℕ) (o : Option ℕ) → Keeps P Any (grow b o)
  grow-Keeps b none = record { serve = λ k h. Leaves-err type_error k h }
  grow-Keeps b (some e) = record {
    serve = λ k h.
        Leaves-if (leb b (e + reg 10 k)) _ _ (Leaves-ok (pos 0xFFFFFFFF) k tt h)
          (Leaves-ok (pos e) _ tt (kept.heap (e + reg 10 k) k h));
  }

  sbrk_by_bottom :
      (k : Kernel H) (o : Option ℕ)
      → P k
      → Leaves P Any (elim o as (λ x. Result ℤ × Kernel H) [
        | none ↦ (err machine_error, k)
        | some stack_bottom ↦ grow stack_bottom k.system.heap_end k
      ])
  sbrk_by_bottom k none h = Leaves-err machine_error k h
  sbrk_by_bottom k (some b) h = (grow-Keeps b k.system.heap_end).serve k h

  handle_sbrk-Keeps : Keeps P Any handle_sbrk
  unfolding handle_sbrk
  handle_sbrk-Keeps = record { serve = λ k h. sbrk_by_bottom k k.stack_bottom h }

  handle_openat-Keeps : Keeps P Any (Files.handle_openat os)
  unfolding Files.handle_openat
  handle_openat-Keeps = record {
    serve = λ k h.
        let open_it = λ (path : List ℕ). os.os_open path (reg 12 k) (and_not (reg 13 k) k.umask) in
        (with_path-Keeps os P B kept (reg 10 k)
            (λ path. on_host (open_it path) >>= Files.enter_fd os)
            λ path.
              Keeps-bind Any (on_host (open_it path)) (Files.enter_fd os)
                (on_host-Keeps os P B kept Any (open_it path) λ _. tt)
                λ a _. enter_fd-Keeps os P B kept a).serve
          k h;
  }

  handle_close-Keeps : Keeps P Any (Files.handle_close os)
  unfolding Files.handle_close
  handle_close-Keeps = record {
    serve = λ k h.
        (with_fd-Keeps os P B kept (k.fd_map (reg 10 k)) _ λ n.
            Keeps-bind Any (on_host (os.os_close n)) _
              (on_host-Keeps os P B kept Any (os.os_close n) λ _. tt)
              λ a _. forget_fd-Keeps os P B kept (reg 10 k) a).serve
          k h;
  }

  handle_lseek-Keeps : Keeps P Any (Files.handle_lseek os)
  unfolding Files.handle_lseek
  handle_lseek-Keeps = record {
    serve = λ k h.
        (with_fd-Keeps os P B kept (k.fd_map (reg 10 k)) _
            λ n. number_of-Keeps os P B kept (os.os_lseek n (reg 11 k) (reg 12 k))).serve
          k h;
  }

  handle_fstat-Keeps : Keeps P Any (Files.handle_fstat os)
  unfolding Files.handle_fstat
  handle_fstat-Keeps = record {
    serve = λ k h.
        Leaves-if (leb (reg 10 k) 2) _ _
          ((store_stat-Keeps os P B kept (reg 11 k) (done (0x21B6, 0))).serve k h)
          ((with_fd-Keeps os P B kept (k.fd_map (reg 10 k)) _ λ n.
              Keeps-bind Any (on_host (os.os_fstat n)) _
                (on_host-Keeps os P B kept Any (os.os_fstat n) λ _. tt)
                λ a _. store_stat-Keeps os P B kept (reg 11 k) a).serve
            k h);
  }

  handle_mkdirat-Keeps : Keeps P Any (Files.handle_mkdirat os)
  unfolding Files.handle_mkdirat
  handle_mkdirat-Keeps = record {
    serve = λ k h.
        let make = λ (path : List ℕ). os.os_mkdir path (and_not (reg 12 k) k.umask) in
        (with_path-Keeps os P B kept (reg 10 k)
            (λ path. on_host (make path) >>= λ answer. pure (mkdir_errno answer))
            λ path.
              Keeps-bind Any (on_host (make path)) _
                (on_host-Keeps os P B kept Any (make path) λ _. tt)
                λ a _. pure-Keeps (mkdir_errno a) tt).serve
          k h;
  }

  handle_unlinkat-Keeps : Keeps P Any (Files.handle_unlinkat os)
  unfolding Files.handle_unlinkat
  handle_unlinkat-Keeps = record {
    serve = λ k h.
        let remove = λ (path : List ℕ).
          if reg 12 k / 2 ^ 9 % 2 == 1 then os.os_rmdir path else os.os_unlink path in
        (with_path-Keeps os P B kept (reg 10 k)
            (λ path. on_host (remove path) >>= λ answer. pure (unlink_errno answer))
            λ path.
              Keeps-bind Any (on_host (remove path)) _
                (on_host-Keeps os P B kept Any (remove path) λ _. tt)
                λ a _. pure-Keeps (unlink_errno a) tt).serve
          k h;
  }

  either :
      (b : Bool) (x y : Result ℤ × Kernel H)
      → Leaves P Any x
      → (Unit {0} → Leaves P Any y)
      → Leaves P Any (if b then x else y)
  either b x y hx hy = Leaves-if b x y hx (hy tt)

  pub handle-Keeps : Keeps P Any (Files.handle os)
  unfolding Files.handle handle_exit handle_isatty handle_kill handle_getpid handle_umask
  handle-Keeps = record {
    serve = λ k h.
        let id = reg 17 k in
        either (id == 93) _ _ (Leaves-err execution_terminated _ (kept.exit k h)) λ _.
          either (id == 214) _ _ (handle_sbrk-Keeps.serve k h) λ _.
            either (id == 64) _ _ ((handle_write-Keeps os P B kept).serve k h) λ _.
              either (id == 63) _ _ ((handle_read-Keeps os P B kept).serve k h) λ _.
                either (id == 1024) _ _ (handle_openat-Keeps.serve k h) λ _.
                  either (id == 57) _ _ (handle_close-Keeps.serve k h) λ _.
                    either (id == 62) _ _ (handle_lseek-Keeps.serve k h) λ _.
                      either (id == 80) _ _ (handle_fstat-Keeps.serve k h) λ _.
                        either (id == 89) _ _
                          (Leaves-if (leb (reg 10 k) 2) _ _ (Leaves-ok _ k tt h)
                            (Leaves-ok _ k tt h))
                          λ _. either (id == 129) _ _ (Leaves-ok _ k tt h) λ _.
                            either (id == 172) _ _ (Leaves-ok _ k tt h) λ _.
                              either (id == 60) _ _
                                (Leaves-ok _ _ tt (kept.mask (reg 10 k % 2 ^ 9) k h))
                                λ _. either (id == 34) _ _ (handle_mkdirat-Keeps.serve k h) λ _.
                                  either (id == 35) _ _ (handle_unlinkat-Keeps.serve k h)
                                    λ _. Leaves-err machine_error k h;
  }
