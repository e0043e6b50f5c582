-- ===== src/Syscalls.antt =====
-- syscalls.py: the system calls that the emulator answers for a program built with Newlib. The
-- files, the terminal and the errors of the host are parameters. A log is taken to be there, and
-- what is written to it is left out.
pub mod Files
pub mod Descriptors
pub mod Keeps
pub mod Serve
pub mod WellFormed
pub mod Fresh
pub mod Heap
pub mod Reopen
use riscv_python.Prelude.{
  ℕ, ◌+◌, ◌*◌, ◌/◌, ◌%◌, ◌^◌, bit_and, Bool, not, ◌||◌, Option, none, some, List, [], ◌∷◌, ◌++◌,
  leb, ltb, ◌==◌, if◌then◌else◌,
}
use riscv_python.Prelude.Int.{ℤ, pos, negsuc}
use riscv_python.State.{
  System, Result, ok, err, Exec, machine_error, execution_terminated, os_error, type_error, update,
  set_reg, raise, pure, ◌>>=◌, ◌>>◌, apply,
}
use riscv_python.Bits.{and_not}
use riscv_python.Ram.Bytes.{length}
use riscv_python.Ram.Access.{load_binary, store_binary, store_byte, load_cstring}

-- What a call of the host gives, or its `errno`.
pub data Answer (A : Type 0) : Type 0 where
  done : A → Answer A
  failed : ℕ → Answer A

-- The exceptions that the calls on paths tell apart.
pub data PathError : Type 0 where
  exists_already not_found is_directory not_permitted other_error : PathError

-- What a call on a path gives: nothing, or an exception.
abbrev pub PathResult : Type 0
PathResult = Option PathError

-- The calls of the host, which act on its state `H`. `print` is told whether the terminal is raw; `input_line` gives the encoded line, with its
-- newline, or none at the end of the input; `read_char` the code of a character.
pub record Os (H : Type 0) : Type 0 where
  pub print : Bool → List ℕ → H → H
  pub input_line : H → Option (List ℕ) × H
  pub read_char : H → Option ℕ × H
  pub os_write : ℕ → List ℕ → H → Answer ℕ × H
  pub os_read : ℕ → ℕ → H → Answer (List ℕ) × H
  pub os_open : List ℕ → ℕ → ℕ → H → Answer ℕ × H
  pub os_close : ℕ → H → Option ℕ × H
  pub os_lseek : ℕ → ℕ → ℕ → H → Answer ℕ × H
  pub os_fstat : ℕ → H → Answer (ℕ × ℕ) × H
  pub os_mkdir : List ℕ → ℕ → H → PathResult × H
  pub os_rmdir : List ℕ → H → PathResult × H
  pub os_unlink : List ℕ → H → PathResult × H

-- The attributes of `SyscallHandler`, the emulator with `heap_end`, `stack_bottom` of `Machine`, and
-- the state of the host.
pub record Kernel (H : Type 0) : Type 0 where
  pub system : System
  pub fd_map : ℕ → Option ℕ
  pub next_fd : ℕ
  pub umask : ℕ
  pub stack_bottom : Option ℕ
  pub raw_tty : Bool
  pub host : H

-- The numbers of `errno` on Linux, negated.
abbrev pub ebadf : ℤ
ebadf = negsuc 8

abbrev pub enotsup : ℤ
enotsup = negsuc 94

abbrev pub enosys : ℤ
enosys = negsuc 37

-- `-e.errno`
abbrev pub neg_errno : ℕ → ℤ
neg_errno ℕ.zero = pos 0
neg_errno (ℕ.suc n) = negsuc n

-- The exceptions of `os.mkdir` that have a number of their own.
abbrev pub mkdir_errno : PathResult → ℤ
mkdir_errno none = pos 0
mkdir_errno (some exists_already) = negsuc 16
mkdir_errno (some not_permitted) = negsuc 0
mkdir_errno (some _) = negsuc 4

abbrev pub unlink_errno : PathResult → ℤ
unlink_errno none = pos 0
unlink_errno (some not_found) = negsuc 1
unlink_errno (some is_directory) = negsuc 20
unlink_errno (some not_permitted) = negsuc 0
unlink_errno (some _) = negsuc 4

-- The bytes of a number, the lowest first.
unfoldable pub le_bytes : ℕ → ℕ → List ℕ
le_bytes ℕ.zero v = []
le_bytes (ℕ.suc n) v = v % 2 ^ 8 ∷ le_bytes n (v / 2 ^ 8)

-- The buffer of 88 bytes with `st_mode` at 4 and `st_size` at 16.
unfoldable pub stat_buf : ℕ → ℕ → List ℕ
unfolding le_bytes
stat_buf mode size =
    le_bytes 4 0 ++ (le_bytes 4 mode ++ (le_bytes 8 0 ++ (le_bytes 8 size ++ le_bytes 64 0)))

-- The first `n` elements.
abbrev pub take_bytes : ℕ → List ℕ → List ℕ
take_bytes ℕ.zero xs = []
take_bytes (ℕ.suc n) [] = []
take_bytes (ℕ.suc n) (x ∷ xs) = x ∷ take_bytes n xs

-- A handler gives the value that it writes to `registers[10]`, which may be negative.
abbrev pub Handler : Type 0 → Type 0
Handler H = Exec (Kernel H) ℤ

module _ {H : Type 0} where
  -- Argument a0, a1 or a2.
  abbrev pub reg : ℕ → Kernel H → ℕ
  reg i k = k.system.cpu.registers i

  -- A method of the memory.
  abbrev pub in_memory : {A : Type 0} → Exec System A → Exec (Kernel H) A
  in_memory m k = let (r, s) = m k.system in (r, record k { system = s })

  -- A call of the host.
  abbrev pub on_host : {A : Type 0} → (H → A × H) → Exec (Kernel H) A
  on_host f k = let (a, h) = f k.host in (ok a, record k { host = h })

  abbrev pub with_heap_end : ℕ → Kernel H → Kernel H
  with_heap_end e k = record k { system = record k.system { heap_end = some e } }

  unfoldable pub handle_exit : Handler H
  handle_exit k = (
    err execution_terminated,
    record k {
      system = record k.system { cpu = record k.system.cpu { pc = k.system.cpu.next_pc } };
    },
  )

  -- `heap_end` is `None` until a program is loaded; then the addition raises `TypeError`.
  abbrev pub grow : ℕ → Option ℕ → Handler H
  grow stack_bottom none k = (err type_error, k)
  grow stack_bottom (some heap_end) k =
      if leb stack_bottom (heap_end + reg 10 k)
      then (ok (pos 0xFFFFFFFF), k)
      else (ok (pos heap_end), with_heap_end (heap_end + reg 10 k) k)

  unfoldable pub handle_sbrk : Handler H
  handle_sbrk k = elim k.stack_bottom [
    | none ↦ (err machine_error, k)
    | some stack_bottom ↦ grow stack_bottom k.system.heap_end k
  ]

  unfoldable pub handle_isatty : Handler H
  handle_isatty k =
      if leb (reg 10 k) 2
      then (ok (pos 1), k)
      else (ok (elim (k.fd_map (reg 10 k)) [ none ↦ ebadf | some f ↦ pos 0 ]), k)

  unfoldable pub handle_kill : Handler H
  handle_kill k = (ok enosys, k)

  unfoldable pub handle_getpid : Handler H
  handle_getpid k = (ok (pos 1), k)

  unfoldable pub handle_umask : Handler H
  handle_umask k = (ok (pos k.umask), record k { umask = reg 10 k % 2 ^ 9 })

  -- `cpu.registers[10] = n`
  unfoldable pub with_a0 : ℕ → Kernel H → Kernel H
  unfolding set_reg
  with_a0 n k = record k { system = set_reg 10 n k.system }
