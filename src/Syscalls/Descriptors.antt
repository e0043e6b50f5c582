-- ===== src/Syscalls/Descriptors.antt =====
-- The table of file descriptors of syscalls.py.
use riscv_python.Prelude.{ℕ, ◌≤◌, ◌≡◌, none}
use riscv_python.Syscalls.{Kernel}

-- No descriptor from `next_fd` on is in use.
abbrev pub IsFresh : {H : Type 0} → Kernel H → Type 0
IsFresh k = (fd : ℕ) → k.next_fd ≤ fd → k.fd_map fd ≡ none
