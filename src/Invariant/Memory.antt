-- ===== src/Invariant/Memory.antt =====
-- Loads, stores and atomic operations keep the state well formed.
use riscv_python.Prelude.{
  ℕ, ◌/◌, ◌%◌, ◌^◌, ◌<◌, ◌==◌, true, false, not, ◌&&◌, Option, none, some, arith,
}
use riscv_python.Prelude.Int.{ℤ, pos, negsuc, ◌+ℤ◌, to_u32, to_u32-lt, low_bits}
use riscv_python.State.{System, Decoded}
use riscv_python.State.Leaves.{Leaves, Leaves-if, Leaves-unit, Leaves-bind, Any}
use riscv_python.Cpu.Word.{imm_i}
use riscv_python.Cpu.Memory.{exec_loads, imm_s, exec_stores}
use riscv_python.Cpu.Amo.{amo_value, amo_old, amo_update, is_amo, exec_lr, exec_sc, exec_amo}
use riscv_python.Invariant.Defs.{IsWf, set_reg-IsWf, set_reservation_valid-IsWf}
use riscv_python.Invariant.Bytes.{Fits, FitsHalf}
use riscv_python.Invariant.Access.{
  load_byte-Leaves, load_half-Leaves, load_word-Leaves, store_byte-Leaves, store_half-Leaves,
  store_word-Leaves,
}
use riscv_python.Invariant.Trap.{trap-Leaves}

low_bits_8-lt : (v : ℤ) → low_bits v 8 < 2 ^ 32
low_bits_8-lt (pos n) = omega arith
low_bits_8-lt (negsuc n) = omega arith

low_bits_16-lt : (v : ℤ) → low_bits v 16 < 2 ^ 32
low_bits_16-lt (pos n) = omega arith
low_bits_16-lt (negsuc n) = omega arith

mod-lt : (x : ℕ) → x % 2 ^ 32 < 2 ^ 32
mod-lt x = omega arith

module _ (inst size : ℕ) (d : Decoded) (s : System) (hi : inst < 2 ^ 32) (h : IsWf s) where
  pub exec_loads-Leaves : Leaves IsWf Any (exec_loads inst size d s)
  unfolding exec_loads
  exec_loads-Leaves =
      let addr = to_u32 (pos (s.cpu.registers d.rs1) +ℤ imm_i inst) in
      Leaves-if (d.funct3 == 0x0) _ _
        (Leaves-bind Any _ _ (load_byte-Leaves addr s h true)
          λ v s _ h. Leaves-unit _ (set_reg-IsWf d.rd (to_u32 v) s (to_u32-lt v) h))
        (Leaves-if (d.funct3 == 0x1) _ _
          (Leaves-bind FitsHalf _ _ (load_half-Leaves addr s h true)
            λ v s _ h. Leaves-unit _ (set_reg-IsWf d.rd (to_u32 v) s (to_u32-lt v) h))
          (Leaves-if (d.funct3 == 0x2) _ _
            (Leaves-bind (Fits 32) _ _ (load_word-Leaves addr s h)
              λ v s _ h. Leaves-unit _ (set_reg-IsWf d.rd (v % 2 ^ 32) s (mod-lt v) h))
            (Leaves-if (d.funct3 == 0x4) _ _
              (Leaves-bind Any _ _ (load_byte-Leaves addr s h false)
                λ v s _ h. Leaves-unit _ (set_reg-IsWf d.rd (low_bits v 8) s (low_bits_8-lt v) h))
              (Leaves-if (d.funct3 == 0x5) _ _
                (Leaves-bind FitsHalf _ _ (load_half-Leaves addr s h false) λ v s _ h.
                  Leaves-unit _ (set_reg-IsWf d.rd (low_bits v 16) s (low_bits_16-lt v) h))
                (trap-Leaves 2 inst true s (omega arith) hi h)))))

  pub exec_stores-Leaves : Leaves IsWf Any (exec_stores inst size d s)
  unfolding exec_stores
  exec_stores-Leaves =
      let addr = to_u32 (pos (s.cpu.registers d.rs1) +ℤ imm_s inst) in
      let v = s.cpu.registers d.rs2 in
      Leaves-if (d.funct3 == 0x0) _ _
        (Leaves-bind Any _ _ (store_byte-Leaves addr s h (v % 2 ^ 8))
          λ _ s _ h. Leaves-unit _ (set_reservation_valid-IsWf false s h))
        (Leaves-if (d.funct3 == 0x1) _ _
          (Leaves-bind Any _ _ (store_half-Leaves addr s h (v % 2 ^ 16))
            λ _ s _ h. Leaves-unit _ (set_reservation_valid-IsWf false s h))
          (Leaves-if (d.funct3 == 0x2) _ _
            (Leaves-bind Any _ _ (store_word-Leaves addr s h v)
              λ _ s _ h. Leaves-unit _ (set_reservation_valid-IsWf false s h))
            (trap-Leaves 2 inst true s (omega arith) hi h)))

  exec_lr-Leaves : (addr rd : ℕ) → Leaves IsWf Any (exec_lr addr rd s)
  unfolding exec_lr
  exec_lr-Leaves addr rd = Leaves-bind (Fits 32) _ _ (load_word-Leaves addr s h) λ v s hv h.
      let h' = set_reg-IsWf rd v s hv h in
      Leaves-unit _ (record {
        cpu = record {
          caches = h'.caches;
          registers = h'.registers;
          csrs = h'.csrs;
          pc = h'.pc;
          next_pc = h'.next_pc;
          mtime = h'.mtime;
          mtimecmp = h'.mtimecmp;
        };
        ram = h'.ram;
      })

  exec_sc-Leaves : (addr rd v : ℕ) → Leaves IsWf Any (exec_sc addr rd v s)
  unfolding exec_sc
  exec_sc-Leaves addr rd v =
      Leaves-if (s.cpu.reservation_valid && s.cpu.reservation_addr == addr) _ _
        (Leaves-bind Any _ _ (store_word-Leaves addr s h (v % 2 ^ 32)) λ _ s _ h.
          Leaves-unit _ (set_reservation_valid-IsWf false _ (set_reg-IsWf rd 0 s (omega arith) h)))
        (Leaves-unit _ (set_reg-IsWf rd 1 s (omega arith) h))

  amo_old-lt : (f old : ℕ) → old < 2 ^ 32 → amo_old f old < 2 ^ 32
  unfolding amo_old
  amo_old-lt f old ho = ground arith

  amo_update-Leaves :
      (f addr rd old : ℕ) (o : Option ℕ)
      → old < 2 ^ 32
      → Leaves IsWf Any (amo_update inst f addr rd old o s)
  unfolding amo_update
  amo_update-Leaves f addr rd old none ho = trap-Leaves 2 inst true s (omega arith) hi h
  amo_update-Leaves f addr rd old (some v) ho =
      Leaves-bind Any _ _ (store_word-Leaves addr s h v) λ _ s _ h. Leaves-unit _ (
        set_reservation_valid-IsWf false _
          (set_reg-IsWf rd (amo_old f old) s (amo_old-lt f old ho) h))

module _ (inst size : ℕ) (d : Decoded) (s : System) (hi : inst < 2 ^ 32) (h : IsWf s) where
  pub exec_amo-Leaves : Leaves IsWf Any (exec_amo inst size d s)
  unfolding exec_amo
  exec_amo-Leaves =
      let f = inst / 2 ^ 27 % 2 ^ 5 in
      let addr = s.cpu.registers d.rs1 % 2 ^ 32 in
      let b = s.cpu.registers d.rs2 in
      Leaves-if (not (d.funct3 == 0x2)) _ _ (trap-Leaves 2 inst true s (omega arith) hi h) (
        Leaves-if (not (addr % 2 ^ 2 == 0)) _ _
          (trap-Leaves 6 addr true s (omega arith) (mod-lt _) h)
          (Leaves-if (f == 0b00010) _ _ (exec_lr-Leaves inst size d s hi h addr d.rd) (
            Leaves-if (f == 0b00011) _ _ (exec_sc-Leaves inst size d s hi h addr d.rd b) (
              Leaves-if (is_amo f) _ _
                (Leaves-bind (Fits 32) _ _ (load_word-Leaves addr s h) λ old s ho h.
                  amo_update-Leaves inst size d s hi h f addr d.rd old (amo_value f old b) ho)
                (trap-Leaves 2 inst true s (omega arith) hi h)))))
