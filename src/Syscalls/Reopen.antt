-- ===== src/Syscalls/Reopen.antt =====
-- A file that syscalls.py opens and closes.
use riscv_python.Prelude.{
  ℕ, ◌+◌, ◌-◌, ◌^◌, ◌≡◌, refl, ap, sym, ◌∙◌, true, Bool-cases, inl, inr, Option, none, some, List,
  ◌==◌, arith,
}
use riscv_python.Prelude.Int.{pos}
use riscv_python.State.{System, ok, update, set_reg}
use riscv_python.Bits.{and_not}
use riscv_python.Ram.Access.{load_cstring}
use riscv_python.Syscalls.{done, Os, Kernel, reg, with_a0}
use riscv_python.Syscalls.Files.{handle_openat, handle_close, with_path}
use riscv_python.Syscalls.Descriptors.{IsFresh}

update_same : (m : ℕ → Option ℕ) (j : ℕ) (o : Option ℕ) → update m j o j ≡ o
unfolding update
update_same m j o = ground arith

-- Two updates at a place that is then as it was.
update_back :
    (m : ℕ → Option ℕ) (j : ℕ) (o p : Option ℕ) (i : ℕ)
    → m j ≡ p
    → update (update m j o) j p i ≡ m i
unfolding update
update_back m j o p i h = elim (Bool-cases (j == i)) [
  | inl t ↦ rw t (sym h ∙ ap m (ground arith))
  | inr f ↦ rw f refl
]

module _ {H : Type 0} (os : Os H) where
  -- After a file has been opened by the host as `f`.
  abbrev pub opened : ℕ → System → H → Kernel H → Kernel H
  opened f s h k = record k {
    system = s;
    host = h;
    fd_map = update k.fd_map k.next_fd (some f);
    next_fd = k.next_fd + 1;
  }

  open_file :
      (k : Kernel H) (path : List ℕ) (f : ℕ) (s : System) (h1 : H)
      → reg 10 k ≡ 2 ^ 32 - 100
      → load_cstring (reg 11 k) 1024 k.system ≡ (ok path, s)
      → os.os_open path (reg 12 k) (and_not (reg 13 k) k.umask) k.host ≡ (done f, h1)
      → handle_openat os k ≡ (ok (pos k.next_fd), opened f s h1 k)
  unfolding handle_openat with_path
  open_file k path f s h1 cwd read opens =
      let test : (reg 10 k == 2 ^ 32 - 100) ≡ true = ground arith in rw (test, read, opens) refl

  close_file :
      (k : Kernel H) (f : ℕ) (h2 : H)
      → k.fd_map (reg 10 k) ≡ some f
      → os.os_close f k.host ≡ (none, h2)
      → handle_close os k
        ≡ (ok (pos 0), record k { host = h2; fd_map = update k.fd_map (reg 10 k) none })
  unfolding handle_close
  close_file k f h2 entry closes = rw (entry, closes) refl

  -- In order: the path is read from the memory, which `s` is then; the host opens it as `f`; and
  -- closes `f` later. Then `openat` gives the next descriptor and enters it, and `close` of this
  -- descriptor gives 0 and takes it out again, which leaves the table as it was.
  pub handle_close-handle_openat :
      (k : Kernel H) (path : List ℕ) (f : ℕ) (s : System) (h1 h2 : H)
      → IsFresh k
      → reg 10 k ≡ 2 ^ 32 - 100
      → load_cstring (reg 11 k) 1024 k.system ≡ (ok path, s)
      → os.os_open path (reg 12 k) (and_not (reg 13 k) k.umask) k.host ≡ (done f, h1)
      → os.os_close f h1 ≡ (none, h2)
      → (let closing = with_a0 k.next_fd (opened f s h1 k) in
          (handle_openat os k ≡ (ok (pos k.next_fd), opened f s h1 k))
          × ((handle_close os closing).0 ≡ ok (pos 0))
          × ((fd : ℕ) → (handle_close os closing).1.fd_map fd ≡ k.fd_map fd))
  unfolding with_a0 set_reg
  handle_close-handle_openat k path f s h1 h2 fresh cwd read opens closes =
      let closing = with_a0 k.next_fd (opened f s h1 k) in
      let entry : closing.fd_map (reg 10 closing) ≡ some f =
        update_same k.fd_map k.next_fd (some f) in
      let closed = close_file closing f h2 entry closes in
      (
        open_file k path f s h1 cwd read opens,
        ap (λ x. x.0) closed,
        λ fd.
            ap (λ x. x.1.fd_map fd) closed
            ∙ update_back k.fd_map k.next_fd (some f) none fd (fresh k.next_fd (omega arith)),
      )
