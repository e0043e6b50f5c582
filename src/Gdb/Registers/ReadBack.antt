-- ===== src/Gdb/Registers/ReadBack.antt =====
-- What P has written, read by p.
use riscv_python.Prelude.{
  ℕ, ◌+◌, ◌-◌, ◌^◌, ◌≤◌, ◌<◌, ◌≡◌, refl, ap, true, false, ◌⊎◌, inl, inr, some, leb, ltb, lt→ltb,
  ◌==◌, ◌∙◌, arith, ◌%◌, sym, [],
}
use riscv_python.Prelude.Int.{pos}
use riscv_python.State.{ok, update, set_reg, set_csr}
use riscv_python.Cpu.Csr.{is_csr_ro}
use riscv_python.Ram.Bytes.{length}
use mathlib.Core.List.{append-nil}
use riscv_python.Text.{Text, codes, int_16, split_in_two}
use riscv_python.Gdb.Session.{Session}
use riscv_python.Gdb.Registers.{
  word_text, word_of, Register, general, program_counter, csr, register_of, read_register,
  write_register, value_of, set_pc, cmd_read_register, cmd_write_register,
}
use riscv_python.Gdb.Registers.Restore.{word_of-word_text, word_text-eq-digits}

-- The numbers of the registers that P changes: x1 to x31, the program counter and the CSRs that
-- are not read-only.
abbrev pub IsWritable : ℕ → Type 0
IsWritable n =
    ((0 < n) × (n < 32)) ⊎ ((n ≡ 32) ⊎ ((65 ≤ n) × (n < 65 + 4096) × (is_csr_ro (n - 65) ≡ false)))

value_of-word_text : (v : ℕ) → v < 2 ^ 32 → value_of (word_text v) ≡ some v
unfolding value_of
value_of-word_text v h =
    let eight : length (word_text v) ≡ 8 = ap length (word_text-eq-digits v) in
    let some_word : word_of (word_text v) ≡ some v =
      ap word_of (sym (append-nil (word_text v))) ∙ word_of-word_text v [] h in
    rw (eight, some_word) refl

ReadsBack : (r : Register) (v : ℕ) (s : Session) → Type 0
ReadsBack r v s =
    ((write_register r v s).0 ≡ ok (codes "OK"))
    × (read_register r (write_register r v s).1 ≡ (ok (word_text v), (write_register r v s).1))

general-ReadsBack : (i v : ℕ) (s : Session) → v < 2 ^ 32 → ReadsBack (general (some i)) v s
unfolding ReadsBack write_register read_register set_reg update
general-ReadsBack i v s h =
    let same : update s.system.cpu.registers i v i % 2 ^ 32 ≡ v = ground arith in
    (refl, ap (λ w. (ok (word_text w), record s { system = set_reg i v s.system })) same)

csr-ReadsBack : (i v : ℕ) (s : Session) → v < 2 ^ 32 → is_csr_ro i ≡ false → ReadsBack (csr i) v s
unfolding ReadsBack write_register read_register set_csr update
csr-ReadsBack i v s h hr =
    let s' = record s { system = set_csr i v s.system } in
    let same : update s.system.cpu.csrs i v i % 2 ^ 32 ≡ v = ground arith in
    rw hr (refl, ap (λ w. (ok (word_text w), s')) same)

pc-ReadsBack : (v : ℕ) (s : Session) → v < 2 ^ 32 → ReadsBack program_counter v s
unfolding ReadsBack write_register read_register set_pc
pc-ReadsBack v s h =
    let same : v % 2 ^ 32 ≡ v = omega arith in (refl, ap (λ w. (ok (word_text w), set_pc v s)) same)

register-ReadsBack :
    (n v : ℕ) (s : Session) → IsWritable n → v < 2 ^ 32 → ReadsBack (register_of (pos n)) v s
unfolding register_of
register-ReadsBack n v s (inl (h0, h1)) h = rw (lt→ltb n 32 h1) (general-ReadsBack n v s h)
register-ReadsBack n v s (inr (inl e)) h = rw e (pc-ReadsBack v s h)
register-ReadsBack n v s (inr (inr (h0, h1, hr))) h =
    let t0 : ltb n 32 ≡ false = ground arith in
    let t1 : (n == 32) ≡ false = ground arith in
    let t2 : leb 65 n ≡ true = ground arith in
    let t3 : ltb (n - 65) 4096 ≡ true = ground arith in
    rw (t0, t1, t2, t3) (csr-ReadsBack (n - 65) v s h hr)

nonzero : (n : ℕ) → IsWritable n → (n == 0) ≡ false
nonzero n (inl h) = ground arith
nonzero n (inr (inl h)) = ground arith
nonzero n (inr (inr h)) = ground arith

-- When the parameters of P are the number of a register that it changes and the eight hexadecimal
-- digits of a word, P answers OK, and p with the same number then answers with the same digits and
-- leaves the session as it is.
pub cmd_read_register-cmd_write_register :
    (params n_text : Text) (n v : ℕ) (s : Session)
    → split_in_two b'=' params ≡ some (n_text, word_text v)
    → int_16 n_text ≡ some (pos n)
    → IsWritable n
    → v < 2 ^ 32
    → (let (response, s') = cmd_write_register params s in
        (response ≡ ok (codes "OK")) × (cmd_read_register n_text s' ≡ (ok (word_text v), s')))
unfolding cmd_write_register cmd_read_register ReadsBack
cmd_read_register-cmd_write_register params n_text n v s h0 h1 hw hv =
    let not_zero : (n == 0) ≡ false = nonzero n hw in
    rw (h0, h1, value_of-word_text v hv, not_zero) (register-ReadsBack n v s hw hv)
