-- ===== src/Tests/Devices.antt =====
-- The properties of the devices, at one state each.
use riscv_python.Prelude.{ℕ, zero, suc, ◌≡◌, ◌==◌, not, none, some, [], ◌∷◌, ◌++◌, refl, arith}
use riscv_python.State.{safe_mmio, ok, ◌>>◌}
use riscv_python.Ram.Bytes.{bytes_from, put_bytes}
use riscv_python.Ram.Binary.{bytes_from-put_bytes}
use riscv_python.Peripherals.Block.{File, BlockDevice, read32}
use riscv_python.Peripherals.Block.Transfer.{ReadsBack, command, copied, command-copy}
use riscv_python.Peripherals.Uart.{Pty}
use riscv_python.Peripherals.Uart.Order.{
  polls, reads, writes, ReadBytes, GivesBytes, accesses, fresh, accesses-order,
}
use riscv_python.Tests.{machine, ram}

-- A file as a function of the offset.
abbrev image_file : File (ℕ → ℕ)
image_file = record {
  read = λ offset n f. bytes_from f offset n;
  write = λ offset bytes f. put_bytes f offset bytes;
}

image_file-ReadsBack : ReadsBack image_file
image_file-ReadsBack = record { law = λ offset bytes f. bytes_from-put_bytes bytes f offset }

-- A device of two blocks with four bytes each.
abbrev device : BlockDevice (ℕ → ℕ)
device = record {
  reg_base = 0x10010000;
  block_size = 4;
  num_blocks = 2;
  cmd = 0;
  blk = 1;
  ptr = 0;
  status = 1;
  fd = λ k. 255;
  system = record machine { ram = record ram { ram_class = safe_mmio } };
}

command-copy_example :
    ((command image_file 0x10010000 1 8 >> command image_file 0x10010000 0 16) device
      ≡ (ok tt, copied image_file 8 16 device))
    × (read32 0x10010010 (copied image_file 8 16 device) ≡ (ok 1, copied image_file 8 16 device))
command-copy_example =
    command-copy image_file 8 16 device image_file-ReadsBack (refl, omega arith) (omega arith)
      (omega arith) (omega arith)

-- A terminal at which a line of two characters is typed a number of times.
abbrev typist : Pty ℕ
typist = record {
  select = λ h. (not (h == 0), h);
  read = λ n h. elim h [ zero ↦ (ok none, 0) | suc k ↦ (ok (some (b'o' ∷ b'k' ∷ [])), k) ];
  write = λ bytes h. (ok tt, h);
}

typist-GivesBytes : GivesBytes typist
typist-GivesBytes = record {
  law = λ n h. elim h as (λ h. ReadBytes (typist.read n h).0) [
    | zero ↦ tt
    | suc k ↦ (omega arith, (omega arith, tt))
  ];
}

accesses-order_example :
    (let (u, given) =
        accesses typist
          (polls ∷ reads 0x10000004 ∷ writes 0x10000000 33 ∷ reads 0x10000004 ∷ [])
          (fresh typist 0x10000000 3, []) in
      u.host.1 ≡ given ++ u.rx_buf)
accesses-order_example =
    accesses-order typist (polls ∷ reads 0x10000004 ∷ writes 0x10000000 33 ∷ reads 0x10000004 ∷ [])
      0x10000000 3 typist-GivesBytes
