-- ===== src/Browser/Syscalls/Input.antt =====
-- What read of the page's terminal delivers.
use riscv_python.Prelude.{
  ℕ, zero, suc, ◌+◌, ◌<◌, ◌≤◌, ◌≡◌, refl, ap, sym, min, true, false, List, [], ◌∷◌, ◌++◌, ◌==◌,
  arith,
}
use riscv_python.Prelude.Int.{pos}
use riscv_python.State.{ok}
use riscv_python.Ram.Bytes.{put_bytes, bytes_from, length}
use riscv_python.Ram.Binary.{IsSafe, set_memory, store_binary-safe, bytes_from-put_bytes}
use riscv_python.Ram.Writes.{AllBytes}
use riscv_python.Syscalls.{take_bytes}
use riscv_python.Text.{drop}
use riscv_python.Browser.Syscalls.{PageKernel, reg, are_bytes, read_input, handle_read}

are_bytes-AllBytes : (bs : List ℕ) → AllBytes bs → are_bytes bs ≡ true
are_bytes-AllBytes [] h = refl
are_bytes-AllBytes (b ∷ bs) (h, hs) = ground (arith, are_bytes-AllBytes bs hs)

take-AllBytes : (n : ℕ) (bs : List ℕ) → AllBytes bs → AllBytes (take_bytes n bs)
take-AllBytes zero bs h = tt
take-AllBytes (suc n) [] h = tt
take-AllBytes (suc n) (b ∷ bs) (h, hs) = (h, take-AllBytes n bs hs)

length-take : (n : ℕ) (bs : List ℕ) → n ≤ length bs → length (take_bytes n bs) ≡ n
length-take zero bs h = refl
length-take (suc n) [] h = absurd (omega arith)
length-take (suc n) (b ∷ bs) h = ap suc (length-take n bs (omega arith))

take-drop : (n : ℕ) (bs : List ℕ) → take_bytes n bs ++ drop n bs ≡ bs
take-drop zero bs = refl
take-drop (suc n) [] = refl
take-drop (suc n) (b ∷ bs) = ap (λ l. b ∷ l) (take-drop n bs)

module _ {J : Type 0} (k : PageKernel J) where
  -- How much a read of `count` bytes gives.
  abbrev pub given : ℕ → ℕ
  given count = min count (length k.input_buffer)

  -- On a memory of class `SafeRAM`, where the buffer holds bytes, is not empty, and what read asks
  -- for and the buffer has fits at the address: read of standard input gives the number of bytes
  -- that it delivers, which are the first ones of the buffer, no more than were asked for; they
  -- stand at the address; what is left in the buffer is what follows them; and all else is as
  -- before.
  pub handle_read-delivers :
      reg 10 k ≡ 0
      → k.has_read_callback ≡ true
      → IsSafe k.system
      → AllBytes k.input_buffer
      → 0 < length k.input_buffer
      → reg 11 k + given (reg 12 k) ≤ k.system.ram.size
      → (bytes : List ℕ) × (rest : List ℕ) × (k.input_buffer ≡ bytes ++ rest)
        × (length bytes ≡ given (reg 12 k))
        × (bytes_from (put_bytes k.system.ram.memory (reg 11 k) bytes) (reg 11 k) (length bytes)
            ≡ bytes)
        × (handle_read k ≡ (
          ok (pos (length bytes)),
          record k {
            input_buffer = rest;
            system = set_memory (put_bytes k.system.ram.memory (reg 11 k) bytes) k.system;
          },
        ))
  unfolding handle_read read_input
  handle_read-delivers h0 hc hs hb hl hf =
      let n = given (reg 12 k) in
      let bytes = take_bytes n k.input_buffer in
      let long = length-take n k.input_buffer (ground arith) in
      let are = are_bytes-AllBytes bytes (take-AllBytes n k.input_buffer hb) in
      let some_there : (length k.input_buffer == 0) ≡ false = ground arith in
      let stdin : (reg 10 k == 0) ≡ true = ground arith in
      let stored = store_binary-safe (reg 11 k) bytes k.system hs (rw long hf) in
      (
        bytes,
        drop n k.input_buffer,
        sym (take-drop n k.input_buffer),
        long,
        bytes_from-put_bytes bytes k.system.ram.memory (reg 11 k),
        simp (stdin, hc, some_there, are, stored) refl,
      )
