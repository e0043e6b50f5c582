-- ===== src/Peripherals/Block/Transfer.antt =====
-- A block that MMIOBlockDevice has written to its file, read back.
use riscv_python.Prelude.{ℕ, ◌+◌, ◌*◌, ◌<◌, ◌≤◌, ◌≡◌, ap, sym, ◌∙◌, refl, List, leb, false, arith}
use riscv_python.State.{ok, Exec, ◌>>◌}
use riscv_python.Ram.Bytes.{bytes_from, put_bytes, length}
use riscv_python.Ram.Binary.{
  IsSafeMmio, set_memory, length-bytes_from, load_binary-safe_mmio, store_binary-safe_mmio,
}
use riscv_python.Peripherals.Block.{File, BlockDevice, transfer, execute_cmd, read32, write32}

-- A file in which a read of what was written gives it back.
pub record ReadsBack {F : Type 0} (file : File F) : Type 0 where
  pub law :
      (offset : ℕ) (bytes : List ℕ) (f : F)
      → file.read offset (length bytes) (file.write offset bytes f) ≡ bytes

module _ {F : Type 0} (file : File F) where
  -- The writes by which a guest program gives a command, for a buffer at an address.
  abbrev pub command : ℕ → ℕ → ℕ → Exec (BlockDevice F) (Unit {0})
  command base c ptr =
      write32 file base c >> write32 file (base + 8) ptr >> write32 file (base + 12) 1

  -- The device after it has written the block at an address.
  abbrev pub written : ℕ → BlockDevice F → BlockDevice F
  written p d = record d {
    cmd = 1;
    ptr = p;
    status = 1;
    fd = file.write (d.blk * d.block_size) (bytes_from d.system.ram.memory p d.block_size) d.fd;
  }

  -- The device after the command to write and the command to read to another address.
  abbrev pub copied : ℕ → ℕ → BlockDevice F → BlockDevice F
  copied p q d =
      let bytes = bytes_from d.system.ram.memory p d.block_size in
      record (written p d) {
        cmd = 0;
        ptr = q;
        system = set_memory (put_bytes d.system.ram.memory q bytes) d.system;
      }

  -- The device before a command starts.
  abbrev asked : ℕ → ℕ → BlockDevice F → BlockDevice F
  asked c p d = record d { cmd = c; ptr = p }

  write32-cmd :
      (c : ℕ) (d : BlockDevice F) → write32 file d.reg_base c d ≡ (ok tt, record d { cmd = c })
  unfolding write32
  write32-cmd c d = ground arith

  write32-ptr :
      (p : ℕ) (d : BlockDevice F)
      → write32 file (d.reg_base + 8) p d ≡ (ok tt, record d { ptr = p })
  unfolding write32
  write32-ptr p d = ground arith

  write32-ctrl : (d : BlockDevice F) → write32 file (d.reg_base + 12) 1 d ≡ execute_cmd file d
  unfolding write32
  write32-ctrl d = ground arith

  read32-status : (d : BlockDevice F) → read32 (d.reg_base + 16) d ≡ (ok d.status, d)
  unfolding read32
  read32-status d = ground arith

  command-execute_cmd :
      (c p : ℕ) (d : BlockDevice F) → command d.reg_base c p d ≡ execute_cmd file (asked c p d)
  command-execute_cmd c p d =
      rw (write32-cmd c d, write32-ptr p (record d { cmd = c })) (write32-ctrl (asked c p d))

  module _ (p : ℕ) (d : BlockDevice F) (hs : IsSafeMmio d.system)
      (hb : d.blk * d.block_size < d.num_blocks * d.block_size)
      (hp : p + d.block_size ≤ d.system.ram.size) where
    in_image : leb (d.num_blocks * d.block_size) (d.blk * d.block_size) ≡ false
    in_image = ground arith

    command-write : command d.reg_base 1 p d ≡ (ok tt, written p d)
    unfolding execute_cmd transfer
    command-write =
        command-execute_cmd 1 p d
        ∙ rw (in_image, load_binary-safe_mmio p d.block_size d.system hs hp) refl

    command-read :
        (bytes : List ℕ)
        → file.read (d.blk * d.block_size) d.block_size d.fd ≡ bytes
        → length bytes ≡ d.block_size
        → command d.reg_base 0 p d ≡ (
          ok tt,
          record d {
            cmd = 0;
            ptr = p;
            status = 1;
            system = set_memory (put_bytes d.system.ram.memory p bytes) d.system;
          },
        )
    unfolding execute_cmd transfer
    command-read bytes hr hl =
        command-execute_cmd 0 p d
        ∙ rw (in_image, hr, store_binary-safe_mmio p bytes d.system hs (rw hl hp)) refl

  -- On a memory of class `SafeRAM_MMIO`, with a block number of the image, two buffers within the memory
  -- and a file that gives back what was written: after the command to write the block from one
  -- buffer and the command to read it to the other, the bytes of the first buffer stand in the
  -- second and in the file, no exception was raised, the status register reads 1, and all else of the
  -- memory and of the emulator is as it was.
  pub command-copy :
      (p q : ℕ) (d : BlockDevice F)
      → ReadsBack file
      → IsSafeMmio d.system
      → d.blk * d.block_size < d.num_blocks * d.block_size
      → p + d.block_size ≤ d.system.ram.size
      → q + d.block_size ≤ d.system.ram.size
      → ((command d.reg_base 1 p >> command d.reg_base 0 q) d ≡ (ok tt, copied p q d))
        × (read32 (d.reg_base + 16) (copied p q d) ≡ (ok 1, copied p q d))
  command-copy p q d back hs hb hp hq =
      let bytes = bytes_from d.system.ram.memory p d.block_size in
      let long = length-bytes_from d.system.ram.memory p d.block_size in
      let offset = d.blk * d.block_size in
      let given =
        sym (ap (λ n. file.read offset n (file.write offset bytes d.fd)) long)
        ∙ back.law offset bytes d.fd in
      (
        rw (command-write p d hs hb hp) (command-read q (written p d) hs hb hq bytes given long),
        read32-status (copied p q d),
      )
