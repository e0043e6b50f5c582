-- ===== src/Cpu/Reservation.antt =====
-- LR.W and SC.W of `exec_AMO` in cpu.py, and what ends a reservation.
use riscv_python.Prelude.{
  ℕ, ◌+◌, ◌%◌, ◌^◌, ◌≤◌, ◌<◌, ◌≡◌, arith, refl, ap, true, false, ◌==◌, ◌∙◌, inl, inr, Bool-cases,
  ◌&&◌,
}
use riscv_python.State.{
  System, Decoded, Result, ok, err, safe, update, set_reg, set_reservation_valid, apply, continue,
}
use riscv_python.Ram.Bytes.{word_at, put_word}
use riscv_python.Ram.Mmio.{on_ram}
use riscv_python.Ram.Access.{load_word, store_word, dispatch}
use riscv_python.Ram.Plain
use riscv_python.Ram.Safe
use riscv_python.Ram.Offset
use riscv_python.Ram.Mmio
use riscv_python.Ram.SafeMmio
use riscv_python.Ram.RoundTrip.{store_word-put_word, load_word-word_at, put_word-word_at}
use riscv_python.Invariant.Defs.{IsWfRam}
use riscv_python.Cpu.Memory.{exec_stores}
use riscv_python.Cpu.Amo.{exec_lr, exec_sc}

-- Without a reservation SC.W stores nothing.
exec_sc-none :
    (addr rd v : ℕ) (s : System)
    → s.cpu.reservation_valid ≡ false
    → exec_sc addr rd v s ≡ (ok tt, set_reg rd 1 s)
unfolding exec_sc
exec_sc-none addr rd v s h = rw h refl

-- Where it succeeds, a statement leaves no reservation.
abbrev Clears : Result (Unit {0}) × System → Type 0
Clears x = x.0 ≡ ok tt → x.1.cpu.reservation_valid ≡ false

cleared :
    (x : Result (Unit {0}) × System)
    → Clears (continue x (λ _. apply (set_reservation_valid false)))
unfolding set_reservation_valid
cleared (ok _, s) h = refl
cleared (err e, s) h = cc

exec_stores-Clears :
    (inst n : ℕ) (d : Decoded) (s : System) → d.funct3 < 3 → Clears (exec_stores inst n d s)
unfolding exec_stores
exec_stores-Clears inst n d s h = elim (Bool-cases (d.funct3 == 0)) [
  | inl t ↦ rw t (cleared _)
  | inr f ↦ elim (Bool-cases (d.funct3 == 1)) [
    | inl t ↦ rw (f, t) (cleared _)
    | inr g ↦ let last : (d.funct3 == 2) ≡ true = ground arith in rw (f, g, last) (cleared _)
  ]
]

-- After SB, SH or SW, whatever it stores and wherever, SC.W fails: it stores nothing and gives 1.
pub exec_sc-exec_stores :
    (addr rd v inst n : ℕ) (d : Decoded) (s : System)
    → d.funct3 < 3
    → (exec_stores inst n d s).0 ≡ ok tt
    → exec_sc addr rd v (exec_stores inst n d s).1
      ≡ (ok tt, set_reg rd 1 (exec_stores inst n d s).1)
exec_sc-exec_stores addr rd v inst n d s h e =
    exec_sc-none addr rd v (exec_stores inst n d s).1 (exec_stores-Clears inst n d s h e)

-- A memory of class `SafeRAM` is accessed by the methods of that class.
load_word-safe :
    (addr : ℕ) (s : System)
    → s.ram.ram_class ≡ safe
    → load_word addr s ≡ on_ram (Safe.load_word addr) s
unfolding load_word
load_word-safe addr s class =
    ap
      (λ c.
        dispatch (Plain.load_word addr) (Safe.load_word addr) (Offset.load_word addr)
          (Mmio.load_word addr) (SafeMmio.load_word addr) c s)
      class

store_word-safe :
    (addr v : ℕ) (s : System)
    → s.ram.ram_class ≡ safe
    → store_word addr v s ≡ on_ram (Safe.store_word addr v) s
unfolding store_word
store_word-safe addr v s class =
    ap
      (λ c.
        dispatch (Plain.store_word addr v) (Safe.store_word addr v) (Offset.store_word addr v)
          (Mmio.store_word addr v) (SafeMmio.store_word addr v) c s)
      class

module _ (addr : ℕ) (s : System) (class : s.ram.ram_class ≡ safe) (h : addr + 4 ≤ s.ram.size)
    (hl : s.ram.size ≤ s.ram.memory_len) where
  -- The state after a load-reserved.
  abbrev reserved : ℕ → System
  reserved rd =
      let s' = set_reg rd (word_at s.ram.memory addr) s in
      record s' { cpu = record s'.cpu { reservation_valid = true; reservation_addr = addr } }

  exec_lr-reserved : (rd : ℕ) → IsWfRam s.ram → exec_lr addr rd s ≡ (ok tt, reserved rd)
  unfolding exec_lr on_ram set_reg
  exec_lr-reserved rd wf =
      rw (load_word-safe addr s class, load_word-word_at addr s.ram h hl wf.memory) refl

  -- The state after a store-conditional that succeeds.
  abbrev conditional : ℕ → ℕ → System
  conditional rd v =
      let s' : System = record s {
        ram = record s.ram { memory = put_word s.ram.memory addr (v % 2 ^ 32 % 2 ^ 32) };
      } in
      set_reservation_valid false (set_reg rd 0 s')

  exec_sc-conditional :
      (rd v : ℕ)
      → s.cpu.reservation_valid ≡ true
      → s.cpu.reservation_addr ≡ addr
      → exec_sc addr rd v s ≡ (ok tt, conditional rd v)
  unfolding exec_sc on_ram
  exec_sc-conditional rd v valid at =
      let held : s.cpu.reservation_valid && s.cpu.reservation_addr == addr ≡ true = ground arith in
      rw
        (
          held,
          store_word-safe addr (v % 2 ^ 32) s class,
          store_word-put_word addr (v % 2 ^ 32) s.ram h hl,
        )
        refl

-- On `SafeRAM`, LR.W and then SC.W at the same address within the size: SC.W succeeds, gives 0,
-- leaves its operand modulo 2 ^ 32 in memory, and the reservation is used up.
pub exec_sc-exec_lr :
    (addr rd rd' v : ℕ) (s : System)
    → s.ram.ram_class ≡ safe
    → addr + 4 ≤ s.ram.size
    → s.ram.size ≤ s.ram.memory_len
    → IsWfRam s.ram
    → ((exec_sc addr rd' v (exec_lr addr rd s).1).0 ≡ ok tt)
      × ((exec_sc addr rd' v (exec_lr addr rd s).1).1.cpu.registers rd' ≡ 0)
      × ((exec_sc addr rd' v (exec_lr addr rd s).1).1.cpu.reservation_valid ≡ false)
      × (word_at (exec_sc addr rd' v (exec_lr addr rd s).1).1.ram.memory addr ≡ v % 2 ^ 32)
unfolding set_reg set_reservation_valid update
exec_sc-exec_lr addr rd rd' v s class h hl wf =
    let s1 = reserved addr s class h hl rd in
    let rd_same : (rd' == rd') ≡ true = ground arith in
    let value = put_word-word_at s.ram.memory addr (v % 2 ^ 32 % 2 ^ 32) in
    let twice : v % 2 ^ 32 % 2 ^ 32 % 2 ^ 32 ≡ v % 2 ^ 32 = omega arith in
    let first = exec_lr-reserved addr s class h hl rd wf in
    let second = exec_sc-conditional addr s1 class h hl rd' v refl refl in
    rw (first, second, rd_same) (refl, refl, refl, value ∙ twice)
