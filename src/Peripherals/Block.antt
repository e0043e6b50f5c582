-- ===== src/Peripherals/Block.antt =====
-- Class `MMIOBlockDevice` of peripherals.py over a file of the host.
pub mod Transfer
use riscv_python.Prelude.{ℕ, ◌+◌, ◌*◌, ◌==◌, List, leb, if◌then◌else◌}
use riscv_python.State.{System, ok, err, Exec, memory_access_error, ◌>>=◌, ◌>>◌, apply}
use riscv_python.Ram.Access.{load_binary, store_binary}

-- The calls of the image file: `seek` and `read`, and `seek`, `write` and `flush`.
pub record File (F : Type 0) : Type 0 where
  pub read : ℕ → ℕ → F → List ℕ
  pub write : ℕ → List ℕ → F → F

-- The attributes of the device, with the emulator to which `ram` belongs, and the file `fd`.
pub record BlockDevice (F : Type 0) : Type 0 where
  pub reg_base : ℕ
  pub block_size : ℕ
  pub num_blocks : ℕ
  pub cmd : ℕ
  pub blk : ℕ
  pub ptr : ℕ
  pub status : ℕ
  pub fd : F
  pub system : System

module _ {F : Type 0} where
  unfoldable pub read32 : ℕ → Exec (BlockDevice F) ℕ
  read32 addr d =
      if addr == d.reg_base
      then (ok d.cmd, d)
      else if addr == d.reg_base + 4
      then (ok d.blk, d)
      else if addr == d.reg_base + 8
      then (ok d.ptr, d)
      else if addr == d.reg_base + 12
      then (ok 0, d)
      else if addr == d.reg_base + 16
      then (ok d.status, d)
      else (err memory_access_error, d)

  -- A method of the memory that the device refers to.
  abbrev pub in_ram : {A : Type 0} → Exec System A → Exec (BlockDevice F) A
  in_ram m d = let (r, s) = m d.system in (r, record d { system = s })

module _ {F : Type 0} (file : File F) where
  -- The branches on `cmd`; any other command does nothing.
  unfoldable pub transfer : ℕ → Exec (BlockDevice F) (Unit {0})
  unfolding load_binary store_binary
  transfer offset d =
      if d.cmd == 0
      then in_ram (store_binary d.ptr (file.read offset d.block_size d.fd)) d
      else if d.cmd == 1
      then (do
        data_read ← in_ram (load_binary d.ptr d.block_size)
        apply (λ e. record e { fd = file.write offset data_read e.fd }))
          d
      else (ok tt, d)

  unfoldable pub execute_cmd : Exec (BlockDevice F) (Unit {0})
  unfolding transfer
  execute_cmd d =
      let offset = d.blk * d.block_size in
      if leb (d.num_blocks * d.block_size) offset
      then (ok tt, record d { status = 1 })
      else (do transfer offset; apply (λ e. record e { status = 1 })) d

  unfoldable pub write32 : ℕ → ℕ → Exec (BlockDevice F) (Unit {0})
  unfolding execute_cmd
  write32 addr value d =
      if addr == d.reg_base
      then (ok tt, record d { cmd = value })
      else if addr == d.reg_base + 4
      then (ok tt, record d { blk = value })
      else if addr == d.reg_base + 8
      then (ok tt, record d { ptr = value })
      else if addr == d.reg_base + 12
      then if value == 1 then execute_cmd d else (ok tt, d)
      else (err memory_access_error, d)
