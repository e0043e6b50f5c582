-- ===== src/Tests/Syscalls.antt =====
-- The properties of the system calls, at one state each.
use riscv_python.Prelude.{
  ℕ, ltb, ◌-◌, ◌^◌, ◌+◌, ◌≡◌, refl, false, none, some, [], if◌then◌else◌, arith,
}
use riscv_python.Prelude.Int.{pos}
use riscv_python.State.{System, ok, set_reg}
use riscv_python.Ram.Safe
use riscv_python.Ram.Access.{load_cstring}
use riscv_python.Syscalls.{done, failed, Os, Kernel, handle_sbrk, with_heap_end, with_a0}
use riscv_python.Syscalls.Files.{handle, handle_openat, handle_close}
use riscv_python.Syscalls.Descriptors.{IsFresh}
use riscv_python.Syscalls.Fresh.{handle-IsFresh}
use riscv_python.Syscalls.Heap.{handle_sbrk-adjacent}
use riscv_python.Syscalls.Reopen.{opened, handle_close-handle_openat}
use riscv_python.Syscalls.WellFormed.{GivesBytes, handle-IsWf}
use riscv_python.Invariant.Defs.{IsWf, set_reg-IsWf}
use riscv_python.Tests.{machine, machine-IsWf}

-- A host whose state counts the calls; every file that it opens is its number 9.
abbrev pub host : Os ℕ
host = record {
  print = λ raw bytes h. h + 1;
  input_line = λ h. (none, h + 1);
  read_char = λ h. (none, h + 1);
  os_write = λ f bytes h. (done 0, h + 1);
  os_read = λ f n h. (done [], h + 1);
  os_open = λ path flags mode h. (done 9, h + 1);
  os_close = λ f h. (none, h + 1);
  os_lseek = λ f offset whence h. (failed 29, h + 1);
  os_fstat = λ f h. (failed 9, h + 1);
  os_mkdir = λ path mode h. (none, h + 1);
  os_rmdir = λ path h. (none, h + 1);
  os_unlink = λ path h. (none, h + 1);
}

-- The call openat of a path at 16, where the memory has zeroes.
abbrev pub opening : System
opening = set_reg 17 1024 (set_reg 10 (2 ^ 32 - 100) (set_reg 11 16 machine))

abbrev pub kernel : Kernel ℕ
kernel = record {
  system = opening;
  fd_map = λ fd. if ltb fd 3 then some fd else none;
  next_fd = 3;
  umask = 18;
  stack_bottom = some 200;
  raw_tty = false;
  host = 0;
}

kernel-IsFresh : IsFresh kernel
kernel-IsFresh fd h = ground arith

handle-IsFresh_example : IsFresh (handle host kernel).1
handle-IsFresh_example = handle-IsFresh host kernel kernel-IsFresh

opening-IsWf : IsWf opening
opening-IsWf = set_reg-IsWf 17 1024 _ (omega arith) (
    set_reg-IsWf 10 (2 ^ 32 - 100) _ (omega arith)
      (set_reg-IsWf 11 16 machine (omega arith) machine-IsWf))

pub host-GivesBytes : GivesBytes host
host-GivesBytes = record { input = λ h. tt; file = λ f n h. tt }

handle-IsWf_example : IsWf (set_reg 10 0xFFFFFFF7 (handle host kernel).1.system)
handle-IsWf_example = handle-IsWf host host-GivesBytes kernel 0xFFFFFFF7 (omega arith) opening-IsWf

handle_sbrk-adjacent_example :
    (let k1 = with_heap_end 140 (with_a0 40 kernel) in
      let k2 = with_heap_end 190 (with_a0 50 k1) in
      (handle_sbrk (with_a0 40 kernel) ≡ (ok (pos 100), k1))
      × (handle_sbrk (with_a0 50 k1) ≡ (ok (pos 140), k2))
      × (handle_sbrk (with_a0 10 k2) ≡ (ok (pos 0xFFFFFFFF), with_a0 10 k2)))
unfolding set_reg
handle_sbrk-adjacent_example =
    handle_sbrk-adjacent 200 100 40 50 10 kernel refl refl (omega arith) (omega arith)

path_read : load_cstring (opening.cpu.registers 11) 1024 opening ≡ (ok [], opening)
unfolding load_cstring set_reg Safe.load_cstring
path_read = refl

cwd : opening.cpu.registers 10 ≡ 2 ^ 32 - 100
unfolding set_reg
cwd = refl

handle_close-handle_openat_example :
    (handle_openat host kernel ≡ (ok (pos 3), opened host 9 opening 1 kernel))
    × ((handle_close host (with_a0 3 (opened host 9 opening 1 kernel))).0 ≡ ok (pos 0))
    × ((fd : ℕ)
        → (handle_close host (with_a0 3 (opened host 9 opening 1 kernel))).1.fd_map fd
          ≡ kernel.fd_map fd)
handle_close-handle_openat_example =
    handle_close-handle_openat host kernel [] 9 opening 1 2 kernel-IsFresh cwd path_read refl refl
