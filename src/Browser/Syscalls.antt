-- ===== src/Browser/Syscalls.antt =====
-- Class `BrowserSyscallHandler` of advanced/webapp/py/browser_syscalls.py. The terminal of the page is
-- its input buffer and a callback; log messages are left out.
pub mod Input
pub mod Native
use riscv_python.Prelude.{
  ℕ, ◌+◌, ◌^◌, min, Bool, true, false, ◌&&◌, Option, none, some, List, [], ◌∷◌, leb, ltb, ◌==◌,
  ◌||◌, if◌then◌else◌,
}
use riscv_python.Prelude.Int.{ℤ, pos, negsuc}
use riscv_python.State.{
  System, Result, ok, err, Exec, machine_error, execution_terminated, type_error, pure, ◌>>=◌, ◌>>◌,
  apply,
}
use riscv_python.Ram.Bytes.{length}
use riscv_python.Ram.Access.{load_binary, store_binary}
use riscv_python.Syscalls.{stat_buf, take_bytes, enosys, ebadf}
use riscv_python.Text.{drop}

-- The attributes of the handler, the emulator with `heap_end`, `stack_bottom` of `Machine`, and the
-- page: `input_buffer` of its terminal, and the state `J` on which `write_callback` acts. The
-- callback says whether it has raised nothing.
pub record PageKernel (J : Type 0) : Type 0 where
  pub system : System
  pub stack_bottom : Option ℕ
  pub umask : ℕ
  pub write_callback : Option (List ℕ → J → Bool × J)
  pub has_read_callback : Bool
  pub input_buffer : List ℕ
  pub page : J

-- The numbers of `errno`, negated.
abbrev pub eio : ℤ
eio = negsuc 4

abbrev pub eagain : ℤ
eagain = negsuc 10

-- `bytes(data_list)` raises `ValueError` unless every number is a byte.
abbrev pub are_bytes : List ℕ → Bool
are_bytes [] = true
are_bytes (b ∷ bs) = ltb b (2 ^ 8) && are_bytes bs

-- A handler gives the value that it writes to `registers[10]`, which may be negative.
abbrev pub PageHandler : Type 0 → Type 0
PageHandler J = Exec (PageKernel J) ℤ

module _ {J : Type 0} where
  abbrev pub reg : ℕ → PageKernel J → ℕ
  reg i k = k.system.cpu.registers i

  abbrev pub in_memory : {A : Type 0} → Exec System A → Exec (PageKernel J) A
  in_memory m k = let (r, s) = m k.system in (r, record k { system = s })

  unfoldable pub handle_exit : PageHandler J
  handle_exit k = (
    err execution_terminated,
    record k {
      system = record k.system { cpu = record k.system.cpu { pc = k.system.cpu.next_pc } };
    },
  )

  abbrev pub grow : Option ℕ → Option ℕ → PageHandler J
  grow none heap_end k = (err machine_error, k)
  grow (some stack_bottom) none k = (err type_error, k)
  grow (some stack_bottom) (some heap_end) k =
      if leb stack_bottom (heap_end + reg 10 k) then (ok (pos 0xFFFFFFFF), k) else (
        ok (pos heap_end),
        record k { system = record k.system { heap_end = some (heap_end + reg 10 k) } },
      )

  unfoldable pub handle_sbrk : PageHandler J
  handle_sbrk k = grow k.stack_bottom k.system.heap_end k

  -- Without a callback the output is dropped; where the callback raises, EIO.
  abbrev pub write_to : Option (List ℕ → J → Bool × J) → List ℕ → ℕ → PageHandler J
  write_to none bytes count k = (ok (pos count), k)
  write_to (some callback) bytes count k =
      let (fine, page) = callback bytes k.page in
      (ok (if fine then pos count else eio), record k { page = page })

  unfoldable pub handle_write : PageHandler J
  handle_write k =
      let fd = reg 10 k in
      let count = reg 12 k in
      (do
        bytes ← in_memory (load_binary (reg 11 k) count)
        (λ k.
            if fd == 1 || fd == 2 then write_to k.write_callback bytes count k else (ok ebadf, k)))
        k

  -- The `try` around the store: any exception gives EIO.
  abbrev pub stored_or_eio : ℕ → Result (Unit {0}) × PageKernel J → Result ℤ × PageKernel J
  stored_or_eio n (ok _, k) = (ok (pos n), k)
  stored_or_eio n (err e, k) = (ok eio, k)

  -- The bytes are taken from the buffer before they are stored.
  unfoldable pub read_input : ℕ → ℕ → PageHandler J
  read_input addr count k =
      let n = min count (length k.input_buffer) in
      let bytes = take_bytes n k.input_buffer in
      let taken = record k { input_buffer = drop n k.input_buffer } in
      if are_bytes bytes
      then stored_or_eio (length bytes) (in_memory (store_binary addr bytes) taken)
      else (ok eio, taken)

  unfoldable pub handle_read : PageHandler J
  unfolding read_input
  handle_read k =
      if reg 10 k == 0
      then (if k.has_read_callback
          then (if length k.input_buffer == 0
              then (ok eagain, k)
              else read_input (reg 11 k) (reg 12 k) k)
          else (ok (pos 0), k))
      else (ok ebadf, k)

  -- The standard files are a terminal, of mode `S_IFCHR | 0o666`.
  unfoldable pub handle_fstat : PageHandler J
  unfolding stat_buf
  handle_fstat k =
      if leb (reg 10 k) 2
      then (do in_memory (store_binary (reg 11 k) (stat_buf 0x21B6 0)); pure (pos 0)) k
      else (ok ebadf, k)

  unfoldable pub handle_isatty : PageHandler J
  handle_isatty k = (ok (if leb (reg 10 k) 2 then pos 1 else pos 0), k)

  unfoldable pub handle_getpid : PageHandler J
  handle_getpid k = (ok (pos 1), k)

  unfoldable pub handle_umask : PageHandler J
  handle_umask k = (ok (pos k.umask), record k { umask = reg 10 k })

  -- The calls on files, and any other number.
  unfoldable pub handle_stubbed : PageHandler J
  handle_stubbed k = (ok enosys, k)

  -- The table `syscall_handlers`, by the number in a7.
  unfoldable pub handle : PageHandler J
  unfolding handle_exit handle_sbrk handle_write handle_read handle_fstat handle_isatty
      handle_getpid handle_umask handle_stubbed
  handle k =
      let id = reg 17 k in
      if id == 93
      then handle_exit k
      else if id == 214
      then handle_sbrk k
      else if id == 64
      then handle_write k
      else if id == 63
      then handle_read k
      else if id == 80
      then handle_fstat k
      else if id == 89
      then handle_isatty k
      else if id == 172
      then handle_getpid k
      else if id == 60
      then handle_umask k
      else handle_stubbed k
