-- ===== src/Browser/Syscalls/Native.antt =====
-- The system calls that the page answers as syscalls.py does.
use riscv_python.Prelude.{ℕ, ◌≡◌, refl, true, Option, none, some, leb, arith}
use riscv_python.Prelude.Int.{ℤ, pos}
use riscv_python.State.{System, Result, ok, err, machine_error, continue, pure}
use riscv_python.Syscalls.{Os, Kernel, stat_buf}
use riscv_python.Syscalls
use riscv_python.Syscalls.Files
use riscv_python.Ram.Access.{store_binary}
use riscv_python.Browser.Syscalls as Page
use riscv_python.Browser.Syscalls.{PageKernel}

-- The result of a call and the emulator afterwards.
abbrev pub native_view : {H : Type 0} → Result ℤ × Kernel H → Result ℤ × System
native_view (r, k) = (r, k.system)

abbrev pub page_view : {J : Type 0} → Result ℤ × PageKernel J → Result ℤ × System
page_view (r, k) = (r, k.system)

-- exit, sbrk and getpid, and fstat and isatty of the standard files.
pub data IsShared (s : System) : Type 0 where
  exits : s.cpu.registers 17 ≡ 93 → IsShared s
  grows : s.cpu.registers 17 ≡ 214 → IsShared s
  identifies : s.cpu.registers 17 ≡ 172 → IsShared s
  describes : s.cpu.registers 17 ≡ 80 → leb (s.cpu.registers 10) 2 ≡ true → IsShared s
  asks_terminal : s.cpu.registers 17 ≡ 89 → leb (s.cpu.registers 10) 2 ≡ true → IsShared s

-- A kernel of the page with the same emulator.
abbrev pub on_page : {H J : Type 0} → Kernel H → PageKernel J → PageKernel J
on_page k p = record p { system = k.system; stack_bottom = k.stack_bottom }

module _ {H J : Type 0} (os : Os H) (k : Kernel H) (p : PageKernel J) where
  exit_same : native_view (Syscalls.handle_exit k) ≡ page_view (Page.handle_exit (on_page k p))
  unfolding Syscalls.handle_exit Page.handle_exit
  exit_same = refl

  grow_same :
      (o h : Option ℕ)
      → native_view (elim o as (λ x. Result ℤ × Kernel H) [
        | none ↦ (err machine_error, k)
        | some stack_bottom ↦ Syscalls.grow stack_bottom h k
      ])
        ≡ page_view (Page.grow o h (on_page k p))
  grow_same none h = refl
  grow_same (some b) none = refl
  grow_same (some b) (some h) = ground arith

  sbrk_same : native_view (Syscalls.handle_sbrk k) ≡ page_view (Page.handle_sbrk (on_page k p))
  unfolding Syscalls.handle_sbrk Page.handle_sbrk
  sbrk_same = grow_same k.stack_bottom k.system.heap_end

  getpid_same :
      native_view (Syscalls.handle_getpid k) ≡ page_view (Page.handle_getpid (on_page k p))
  unfolding Syscalls.handle_getpid Page.handle_getpid
  getpid_same = refl

  isatty_same :
      leb (Syscalls.reg 10 k) 2 ≡ true
      → native_view (Syscalls.handle_isatty k) ≡ page_view (Page.handle_isatty (on_page k p))
  unfolding Syscalls.handle_isatty Page.handle_isatty
  isatty_same h = simp h refl

  stored_same :
      (x : Result (Unit {0}) × System)
      → native_view {H = H} (continue (x.0, record k { system = x.1 }) (λ _. pure (pos 0)))
        ≡ page_view (
            continue
              (x.0, record p { system = x.1; stack_bottom = k.stack_bottom })
              (λ _. pure (pos 0)))
  stored_same (ok u, s) = refl
  stored_same (err e, s) = refl

  fstat_same :
      leb (Syscalls.reg 10 k) 2 ≡ true
      → native_view (Files.handle_fstat os k) ≡ page_view (Page.handle_fstat (on_page k p))
  unfolding Files.handle_fstat Files.store_stat Page.handle_fstat
  fstat_same h =
      simp h (stored_same (store_binary (Syscalls.reg 11 k) (stat_buf 0x21B6 0) k.system))

  -- The calls that both answer alike, whatever the files of the host and the rest of the page's
  -- state: exit, sbrk and getpid, and fstat and isatty of a standard file, give the same value or
  -- raise the same exception, and leave the same processor, memory and end of the heap.
  pub handle-native :
      IsShared k.system → native_view (Files.handle os k) ≡ page_view (Page.handle (on_page k p))
  unfolding Files.handle Page.handle
  handle-native (exits e) = simp e exit_same
  handle-native (grows e) = simp e sbrk_same
  handle-native (identifies e) = simp e getpid_same
  handle-native (describes e h) = simp e (fstat_same h)
  handle-native (asks_terminal e h) = simp e (isatty_same h)
