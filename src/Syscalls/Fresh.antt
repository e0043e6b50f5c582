-- ===== src/Syscalls/Fresh.antt =====
-- Every system call of syscalls.py keeps the table of descriptors in order.
use riscv_python.Prelude.{ℕ, ◌+◌, none, some, List, arith}
use riscv_python.State.{update}
use riscv_python.Syscalls.{Answer, done, failed, Os, Kernel, handle_exit}
use riscv_python.Syscalls.Files
use riscv_python.Syscalls.Descriptors.{IsFresh}
use riscv_python.Syscalls.Keeps.{OnDone, IsKept}
use riscv_python.Syscalls.Serve.{handle-Keeps}

module _ {H : Type 0} (os : Os H) where
  enter-IsFresh :
      (f : ℕ) (k : Kernel H)
      → IsFresh k
      → IsFresh (record k { fd_map = update k.fd_map k.next_fd (some f); next_fd = k.next_fd + 1 })
  unfolding update
  enter-IsFresh f k h fd hfd = ground (arith, h fd (omega arith))

  forget-IsFresh :
      (d : ℕ) (k : Kernel H) → IsFresh k → IsFresh (record k { fd_map = update k.fd_map d none })
  unfolding update
  forget-IsFresh d k h fd hfd = ground (arith, h fd hfd)

  IsFresh-IsKept : IsKept os IsFresh λ bytes. Unit
  unfolding handle_exit
  IsFresh-IsKept = record {
    host = λ k h p. p;
    load = λ addr n k p. p;
    path = λ addr n k p. p;
    store = λ addr bytes k b p. p;
    byte = λ addr c k p. p;
    enter = enter-IsFresh;
    forget = forget-IsFresh;
    heap = λ e k p. p;
    mask = λ m k p. p;
    exit = λ k p. p;
    line = λ n h. tt;
    read = λ f n h. go (os.os_read f n h).0;
    stat = λ mode size. tt;
  }
    where
      go : (a : Answer (List ℕ)) → OnDone (λ bytes. Unit) a
      go (done bytes) = tt
      go (failed e) = tt

  -- Every system call, whatever the host answers and also when it raises an exception, keeps the
  -- numbers from the next descriptor on unused, so that a file which is opened never takes the
  -- number of one that is in use.
  pub handle-IsFresh : (k : Kernel H) → IsFresh k → IsFresh (Files.handle os k).1
  handle-IsFresh k h = ((handle-Keeps os IsFresh (λ bytes. Unit) IsFresh-IsKept).serve k h).state
