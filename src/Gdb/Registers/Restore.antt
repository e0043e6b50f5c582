-- ===== src/Gdb/Registers/Restore.antt =====
-- What g and p have read, written back by G and P.
use riscv_python.Prelude.{
  ℕ, zero, suc, ◌+◌, ◌*◌, ◌/◌, ◌%◌, ◌^◌, ◌<◌, ◌≡◌, refl, ap, sym, fun_ext, ◌∙◌, some, [], ◌∷◌, ◌++◌,
  leb, ltb, ◌&&◌, ◌==◌, if◌then◌else◌, arith,
}
use mathlib.Core.List.{append_assoc, append-nil}
use riscv_python.Prelude.Int.{pos, ◌*ℤ◌, to_u32}
use riscv_python.State.{ok, update}
use riscv_python.Ram.RoundTrip.{join_bytes}
use riscv_python.Text.{Text, codes, drop, hex_digit, hex_02-eq-digits, int_16, int_16-hex_02}
use riscv_python.Gdb.Session.{Session}
use riscv_python.Gdb.Registers.{
  word_text, registers_text, or_bytes, word_of, write_loop, cmd_read_registers, cmd_write_registers,
  write_pc, write_rest, set_registers, set_pc,
}

shifted : (b m : ℕ) → to_u32 (pos b *ℤ pos m) ≡ b * m % 2 ^ 32
shifted b m = ground arith

join_word :
    (v : ℕ)
    → v < 2 ^ 32
    → or_bytes
        (pos (v % 2 ^ 8))
        (pos (v / 2 ^ 8 % 2 ^ 8))
        (pos (v / 2 ^ 16 % 2 ^ 8))
        (pos (v / 2 ^ 24 % 2 ^ 8))
      ≡ v
unfolding or_bytes
join_word v h =
    let b0 = v % 2 ^ 8 in
    let b1 = v / 2 ^ 8 % 2 ^ 8 in
    let b2 = v / 2 ^ 16 % 2 ^ 8 in
    let b3 = v / 2 ^ 24 % 2 ^ 8 in
    let w0 : b0 % 2 ^ 32 ≡ b0 = omega arith in
    let w1 : b1 * 2 ^ 8 % 2 ^ 32 ≡ b1 * 2 ^ 8 = omega arith in
    let w2 : b2 * 2 ^ 16 % 2 ^ 32 ≡ b2 * 2 ^ 16 = omega arith in
    let w3 : b3 * 2 ^ 24 % 2 ^ 32 ≡ b3 * 2 ^ 24 = omega arith in
    let joined = join_bytes b0 b1 b2 b3 (omega arith) (omega arith) (omega arith) in
    simp (shifted, w0, w1, w2, w3, joined) (omega arith)

-- The eight digits of a word.
abbrev two_digits : ℕ → Text → Text
two_digits n s = hex_digit (n / 16) ∷ hex_digit (n % 16) ∷ s

pub word_text-eq-digits :
    (v : ℕ)
    → word_text v
      ≡ two_digits (v % 2 ^ 8) (
          two_digits
            (v / 2 ^ 8 % 2 ^ 8)
            (two_digits (v / 2 ^ 16 % 2 ^ 8) (two_digits (v / 2 ^ 24 % 2 ^ 8) [])))
unfolding word_text
word_text-eq-digits v =
    rw
      (
        hex_02-eq-digits (v % 2 ^ 8) (omega arith),
        hex_02-eq-digits (v / 2 ^ 8 % 2 ^ 8) (omega arith),
        hex_02-eq-digits (v / 2 ^ 16 % 2 ^ 8) (omega arith),
        hex_02-eq-digits (v / 2 ^ 24 % 2 ^ 8) (omega arith),
      )
      refl

int_16-two_digits : (n : ℕ) → n < 2 ^ 8 → int_16 (two_digits n []) ≡ some (pos n)
int_16-two_digits n h = ap int_16 (sym (hex_02-eq-digits n h)) ∙ int_16-hex_02 n h

pub word_of-word_text : (v : ℕ) (s : Text) → v < 2 ^ 32 → word_of (word_text v ++ s) ≡ some v
unfolding word_of
word_of-word_text v s h =
    rw
      (
        word_text-eq-digits v,
        int_16-two_digits (v % 2 ^ 8) (omega arith),
        int_16-two_digits (v / 2 ^ 8 % 2 ^ 8) (omega arith),
        int_16-two_digits (v / 2 ^ 16 % 2 ^ 8) (omega arith),
        int_16-two_digits (v / 2 ^ 24 % 2 ^ 8) (omega arith),
        join_word v h,
      )
      refl

drop-word_text : (v : ℕ) (s : Text) → drop 8 (word_text v ++ s) ≡ s
drop-word_text v s = rw (word_text-eq-digits v) refl

-- What the loop makes of the registers that it reads: x0 stays.
restore : ℕ → ℕ → (ℕ → ℕ) → (ℕ → ℕ) → ℕ → ℕ
restore zero i g f = f
restore (suc n) i g f = restore n (i + 1) g (if i == 0 then f else update f i (g i % 2 ^ 32))

word_of-registers_text :
    (n i : ℕ) (g : ℕ → ℕ) (s : Text)
    → word_of (registers_text (suc n) i g ++ s) ≡ some (g i % 2 ^ 32)
unfolding registers_text
word_of-registers_text n i g s =
    let rest = registers_text n (i + 1) g in
    ap word_of (append_assoc (word_text (g i % 2 ^ 32)) rest s)
    ∙ word_of-word_text (g i % 2 ^ 32) (rest ++ s) (omega arith)

drop-registers_text :
    (n i : ℕ) (g : ℕ → ℕ) (s : Text)
    → drop 8 (registers_text (suc n) i g ++ s) ≡ registers_text n (i + 1) g ++ s
unfolding registers_text
drop-registers_text n i g s =
    let rest = registers_text n (i + 1) g in
    ap (drop 8) (append_assoc (word_text (g i % 2 ^ 32)) rest s)
    ∙ drop-word_text (g i % 2 ^ 32) (rest ++ s)

write_loop_step :
    (n i v : ℕ) (s : Text) (f : ℕ → ℕ)
    → word_of s ≡ some v
    → write_loop (suc n) i s f
      ≡ write_loop n (i + 1) (drop 8 s) (if i == 0 then f else update f i v)
unfolding write_loop
write_loop_step n i v s f h = rw (h, write_loop) refl

restore_next :
    (n i : ℕ) (g f : ℕ → ℕ)
    → restore n (i + 1) g (if i == 0 then f else update f i (g i % 2 ^ 32)) ≡ restore (suc n) i g f
unfolding restore
restore_next n i g f = refl

write_loop-registers_text :
    (n i : ℕ) (g f : ℕ → ℕ) (s : Text)
    → write_loop n i (registers_text n i g ++ s) f ≡ (some s, restore n i g f)
unfolding write_loop registers_text restore
write_loop-registers_text zero i g f s = refl
write_loop-registers_text (suc n) i g f s =
    let f' = if i == 0 then f else update f i (g i % 2 ^ 32) in
    write_loop_step n i (g i % 2 ^ 32) (registers_text (suc n) i g ++ s) f
      (word_of-registers_text n i g s)
    ∙ ap (λ t. write_loop n (i + 1) t f') (drop-registers_text n i g s)
    ∙ write_loop-registers_text n (i + 1) g f' s
    ∙ ap (λ g'. (some s, g')) (restore_next n i g f)

restore_at :
    (n i k : ℕ) (g f : ℕ → ℕ)
    → 0 < k
    → restore n i g f k ≡ (if leb i k && ltb k (i + n) then g k % 2 ^ 32 else f k)
unfolding restore update
restore_at zero i k g f h = ground arith
restore_at (suc n) i k g f h =
    let f' = if i == 0 then f else update f i (g i % 2 ^ 32) in
    restore_at n (i + 1) k g f' h ∙ ground arith

restore_zero : (n i : ℕ) (g f : ℕ → ℕ) → restore n i g f 0 ≡ f 0
unfolding restore update
restore_zero zero i g f = refl
restore_zero (suc n) i g f =
    let f' = if i == 0 then f else update f i (g i % 2 ^ 32) in
    restore_zero n (i + 1) g f' ∙ ground arith

-- The state `now` with the registers of `old`.
restored_registers : (ℕ → ℕ) → (ℕ → ℕ) → ℕ → ℕ
restored_registers g f k = if ltb 0 k && ltb k 32 then g k % 2 ^ 32 else f k

unfoldable pub restored : Session → Session → Session
unfolding set_pc set_registers restored_registers
restored old now =
    set_pc (old.system.cpu.pc % 2 ^ 32)
      (set_registers (restored_registers old.system.cpu.registers now.system.cpu.registers) now)

restore-registers_at : (g f : ℕ → ℕ) (k : ℕ) → restore 32 0 g f k ≡ restored_registers g f k
unfolding restored_registers
restore-registers_at g f zero = restore_zero 32 0 g f
restore-registers_at g f (suc k) = restore_at 32 0 (suc k) g f (omega arith) ∙ ground arith

restore-registers : (g f : ℕ → ℕ) → restore 32 0 g f ≡ restored_registers g f
restore-registers g f = fun_ext λ k. restore-registers_at g f k

write_rest-word_text :
    (v : ℕ) (s : Session)
    → v < 2 ^ 32
    → write_rest (some (word_text v)) s ≡ (ok (codes "OK"), set_pc v s)
unfolding write_rest write_pc
write_rest-word_text v s h =
    ap (λ t. write_pc (word_of t) s) (sym (append-nil (word_text v)))
    ∙ ap (λ w. write_pc w s) (word_of-word_text v [] h)

-- G with the text that g gives for a state `old` answers OK in every state `now` and puts the
-- registers x1 to x31, the program counter and its successor back, each cut to 32 bits; all else
-- stays as it is now, x0 too.
pub cmd_write_registers-cmd_read_registers :
    (old now : Session)
    → ((saved : Text) × ((cmd_read_registers old ≡ (ok saved, old))
          × (cmd_write_registers saved now ≡ (ok (codes "OK"), restored old now))))
unfolding cmd_read_registers cmd_write_registers restored set_registers set_pc
cmd_write_registers-cmd_read_registers old now =
    let g = old.system.cpu.registers in
    let f = now.system.cpu.registers in
    let pc = word_text (old.system.cpu.pc % 2 ^ 32) in
    (
      registers_text 32 0 g ++ pc,
      (
        refl,
        ap (λ p. write_rest p.0 (set_registers p.1 now)) (write_loop-registers_text 32 0 g f pc)
            ∙ write_rest-word_text (old.system.cpu.pc % 2 ^ 32)
                (set_registers (restore 32 0 g f) now) (omega arith)
            ∙ ap
                (λ f'.
                  (ok (codes "OK"), set_pc (old.system.cpu.pc % 2 ^ 32) (set_registers f' now)))
                (restore-registers g f),
      ),
    )
