-- ===== src/Syscalls/Files.antt =====
-- The system calls of syscalls.py that reach the files of the host, and their dispatch.
use riscv_python.Prelude.{
  ℕ, ◌+◌, ◌-◌, ◌/◌, ◌%◌, ◌^◌, Bool, ◌||◌, Option, none, some, List, [], leb, ◌==◌, if◌then◌else◌,
}
use riscv_python.Prelude.Int.{ℤ, pos}
use riscv_python.State.{
  ok, err, Exec, machine_error, os_error, type_error, update, raise, pure, ◌>>=◌, ◌>>◌,
}
use riscv_python.Bits.{and_not}
use riscv_python.Ram.Bytes.{length}
use riscv_python.Ram.Access.{load_binary, store_binary, store_byte, load_cstring}
use riscv_python.Syscalls.{
  Answer, done, failed, Os, Kernel, Handler, ebadf, enotsup, neg_errno, mkdir_errno, unlink_errno,
  stat_buf, take_bytes, reg, in_memory, on_host, handle_exit, handle_sbrk, handle_isatty,
  handle_kill, handle_getpid, handle_umask,
}

module _ {H : Type 0} (os : Os H) where
  -- `fd in self.fd_map`, and the descriptor of the host; otherwise EBADF.
  abbrev pub with_fd : Option ℕ → (ℕ → Handler H) → Handler H
  with_fd none f k = (ok ebadf, k)
  with_fd (some host_fd) f k = f host_fd k

  -- `except OSError as e: self.cpu.registers[10] = -e.errno`
  abbrev pub number_or_errno : Answer ℕ → ℤ
  number_or_errno (done n) = pos n
  number_or_errno (failed e) = neg_errno e

  unfoldable pub handle_write : Handler H
  unfolding load_binary
  handle_write k =
      let fd = reg 10 k in
      let count = reg 12 k in
      (do
        bytes ← in_memory (load_binary (reg 11 k) count)
        (λ k.
            if fd == 1 || fd == 2
            then (ok (pos count), record k { host = os.print k.raw_tty bytes k.host })
            else with_fd (k.fd_map fd)
                (λ host_fd. do
                  answer ← on_host (os.os_write host_fd bytes)
                  pure (number_or_errno answer))
                k))
        k

  -- The bytes that have been read are stored, and their number is the result.
  unfoldable pub store_read : ℕ → List ℕ → Handler H
  unfolding store_binary
  store_read addr bytes = do in_memory (store_binary addr bytes); pure (pos (length bytes))

  -- `os.read` is not in a `try`.
  abbrev pub or_os_error : Answer (List ℕ) → Exec (Kernel H) (List ℕ)
  or_os_error (done bytes) = pure bytes
  or_os_error (failed e) = raise os_error

  abbrev pub line_bytes : Option (List ℕ) → List ℕ
  line_bytes none = []
  line_bytes (some bytes) = bytes

  -- `ord('')` at the end of the input raises `TypeError`.
  abbrev pub ord_or_error : Option ℕ → Exec (Kernel H) ℕ
  ord_or_error none = raise type_error
  ord_or_error (some c) = pure c

  -- Standard input: a line, or in the raw mode a character.
  unfoldable pub read_stdin : Bool → ℕ → ℕ → Handler H
  unfolding store_read store_byte
  read_stdin raw addr count k =
      if raw
      then (do
        ch ← on_host os.read_char
        c ← ord_or_error ch
        in_memory (store_byte addr c)
        pure (pos 1))
          k
      else (do input ← on_host os.input_line; store_read addr (take_bytes count (line_bytes input)))
          k

  unfoldable pub handle_read : Handler H
  unfolding read_stdin store_read
  handle_read k =
      let addr = reg 11 k in
      let count = reg 12 k in
      if reg 10 k == 0
      then read_stdin k.raw_tty addr count k
      else with_fd (k.fd_map (reg 10 k))
          (λ host_fd. do
            answer ← on_host (os.os_read host_fd count)
            bytes ← or_os_error answer
            store_read addr bytes)
          k

  -- `dirfd != -100`, of the signed register; then the path.
  unfoldable pub with_path : ℕ → (List ℕ → Handler H) → Handler H
  unfolding load_cstring
  with_path dirfd f k =
      if dirfd == 2 ^ 32 - 100
      then (do path ← in_memory (load_cstring (reg 11 k) 1024); f path) k
      else (ok enotsup, k)

  -- A new descriptor is entered, in the order of the numbers.
  abbrev pub enter_fd : Answer ℕ → Handler H
  enter_fd (failed e) k = (ok (neg_errno e), k)
  enter_fd (done host_fd) k = (
    ok (pos k.next_fd),
    record k { fd_map = update k.fd_map k.next_fd (some host_fd); next_fd = k.next_fd + 1 },
  )

  unfoldable pub handle_openat : Handler H
  unfolding with_path
  handle_openat k =
      with_path (reg 10 k)
        (λ path. do
          answer ← on_host (os.os_open path (reg 12 k) (and_not (reg 13 k) k.umask))
          enter_fd answer)
        k

  -- `os.close` gives an `errno` where it fails; otherwise the descriptor is deleted.
  abbrev pub forget_fd : ℕ → Option ℕ → Handler H
  forget_fd fd (some e) k = (ok (neg_errno e), k)
  forget_fd fd none k = (ok (pos 0), record k { fd_map = update k.fd_map fd none })

  unfoldable pub handle_close : Handler H
  handle_close k =
      with_fd (k.fd_map (reg 10 k))
        (λ host_fd. do answer ← on_host (os.os_close host_fd); forget_fd (reg 10 k) answer) k

  unfoldable pub handle_lseek : Handler H
  handle_lseek k =
      with_fd (k.fd_map (reg 10 k))
        (λ host_fd. do
          answer ← on_host (os.os_lseek host_fd (reg 11 k) (reg 12 k))
          pure (number_or_errno answer))
        k

  -- `struct.pack_into` and the store of the buffer.
  unfoldable pub store_stat : ℕ → Answer (ℕ × ℕ) → Handler H
  unfolding stat_buf store_binary
  store_stat buf_ptr (failed e) = pure (neg_errno e)
  store_stat buf_ptr (done (mode, size)) = do
    in_memory (store_binary buf_ptr (stat_buf mode size))
    pure (pos 0)

  -- The mode of a terminal is `S_IFCHR | 0o666`.
  unfoldable pub handle_fstat : Handler H
  unfolding store_stat
  handle_fstat k =
      let buf_ptr = reg 11 k in
      if leb (reg 10 k) 2
      then store_stat buf_ptr (done (0x21B6, 0)) k
      else with_fd (k.fd_map (reg 10 k))
          (λ host_fd. do answer ← on_host (os.os_fstat host_fd); store_stat buf_ptr answer) k

  unfoldable pub handle_mkdirat : Handler H
  unfolding with_path
  handle_mkdirat k =
      with_path (reg 10 k)
        (λ path. do
          answer ← on_host (os.os_mkdir path (and_not (reg 12 k) k.umask))
          pure (mkdir_errno answer))
        k

  unfoldable pub handle_unlinkat : Handler H
  unfolding with_path
  handle_unlinkat k =
      with_path (reg 10 k)
        (λ path. do
          answer ←
              on_host (if reg 12 k / 2 ^ 9 % 2 == 1 then os.os_rmdir path else os.os_unlink path)
          pure (unlink_errno answer))
        k

  -- The table `syscall_handlers`, by the number in a7.
  unfoldable pub handle : Handler H
  unfolding handle_exit handle_sbrk handle_write handle_read handle_openat handle_close handle_lseek
      handle_fstat handle_isatty handle_kill handle_getpid handle_umask handle_mkdirat
      handle_unlinkat
  handle k =
      let id = reg 17 k in
      if id == 93
      then handle_exit k
      else if id == 214
      then handle_sbrk k
      else if id == 64
      then handle_write k
      else if id == 63
      then handle_read k
      else if id == 1024
      then handle_openat k
      else if id == 57
      then handle_close k
      else if id == 62
      then handle_lseek k
      else if id == 80
      then handle_fstat k
      else if id == 89
      then handle_isatty k
      else if id == 129
      then handle_kill k
      else if id == 172
      then handle_getpid k
      else if id == 60
      then handle_umask k
      else if id == 34
      then handle_mkdirat k
      else if id == 35
      then handle_unlinkat k
      else (err machine_error, k)
