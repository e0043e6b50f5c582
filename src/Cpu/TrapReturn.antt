-- ===== src/Cpu/TrapReturn.antt =====
-- `trap` of cpu.py, followed by the MRET of `exec_SYSTEM`.
use native.Mathlib.Nat.{pow-suc}
use riscv_python.Prelude.{
  ℕ, zero, suc, ◌*◌, ◌/◌, ◌^◌, ◌<◌, ◌≡◌, ◌≢◌, arith, refl, bit_or, true, false, ap, Bool-cases,
  ◌==◌, inl, inr, ◌∙◌,
}
use riscv_python.State.{System, ok, update}
use riscv_python.Bits.{bit, bit-lt, and_not, bit-bit_or, bit-and_not}
use riscv_python.Cpu.Trap.{trap_mstatus, trap}
use riscv_python.Cpu.Control.{is_misaligned}
use riscv_python.Cpu.System.{mret_mstatus, exec_mret}

bit-zero : (k : ℕ) → bit 0 k ≡ 0
bit-zero zero = refl
bit-zero (suc k) = bit-zero k

-- The other bits of a shifted bit are 0.
bit_elsewhere : (b j k : ℕ) → b < 2 → k ≢ j → bit (b * 2 ^ j) k ≡ 0
bit_elsewhere b zero zero hb h = absurd (h refl)
bit_elsewhere b zero (suc k) hb h = let gone : b * 1 / 2 ≡ 0 = omega arith in rw gone (bit-zero k)
bit_elsewhere b (suc j) zero hb h = omega (arith, ap (λ (t : ℕ). b * t) (pow-suc 2 j))
bit_elsewhere b (suc j) (suc k) hb h =
    let half : b * 2 ^ suc j / 2 ≡ b * 2 ^ j = omega (arith, ap (λ (t : ℕ). b * t) (pow-suc 2 j)) in
    rw half (bit_elsewhere b j k hb (λ e. h (ap suc e)))

-- MIE and MPIE are the mask of `trap`.
bit_mask : (k : ℕ) → k ≢ 3 → k ≢ 7 → bit 0x88 k ≡ 0
bit_mask zero h3 h7 = refl
bit_mask (suc zero) h3 h7 = refl
bit_mask (suc (suc zero)) h3 h7 = refl
bit_mask (suc (suc (suc zero))) h3 h7 = absurd (h3 refl)
bit_mask (suc (suc (suc (suc zero)))) h3 h7 = refl
bit_mask (suc (suc (suc (suc (suc zero))))) h3 h7 = refl
bit_mask (suc (suc (suc (suc (suc (suc zero)))))) h3 h7 = refl
bit_mask (suc (suc (suc (suc (suc (suc (suc zero))))))) h3 h7 = absurd (h7 refl)
bit_mask (suc (suc (suc (suc (suc (suc (suc (suc k)))))))) h3 h7 = bit-zero k

trap_mstatus-other : (m k : ℕ) → k ≢ 3 → k ≢ 7 → bit (trap_mstatus m) k ≡ bit m k
unfolding trap_mstatus
trap_mstatus-other m k h3 h7 =
    let flag = bit_elsewhere (bit m 3) 7 k (bit-lt m 3) h7 in
    omega (
      arith,
      bit-bit_or (and_not m 0x88) (bit m 3 * 2 ^ 7) k,
      bit-and_not m 0x88 k,
      bit_mask k h3 h7,
      flag,
    )

pub trap_mstatus-mpie : (m : ℕ) → bit (trap_mstatus m) 7 ≡ bit m 3
unfolding trap_mstatus
trap_mstatus-mpie m =
    omega (arith, bit-bit_or (and_not m 0x88) (bit m 3 * 2 ^ 7) 7, bit-and_not m 0x88 7)

pub trap_mstatus-mie : (m : ℕ) → bit (trap_mstatus m) 3 ≡ 0
unfolding trap_mstatus
trap_mstatus-mie m =
    omega (arith, bit-bit_or (and_not m 0x88) (bit m 3 * 2 ^ 7) 3, bit-and_not m 0x88 3, bit-lt m 3)

mret_mstatus-other : (m k : ℕ) → k ≢ 3 → k ≢ 7 → bit (mret_mstatus m) k ≡ bit m k
unfolding mret_mstatus
mret_mstatus-other m k h3 h7 =
    let flag = bit_elsewhere (bit m 7) 3 k (bit-lt m 7) h3 in
    let mask = bit_elsewhere 1 3 k (omega arith) h3 in
    let set = bit_elsewhere 1 7 k (omega arith) h7 in
    let low = bit_or (and_not m 0x8) (bit m 7 * 2 ^ 3) in
    omega (
      arith,
      bit-bit_or low (2 ^ 7) k,
      bit-bit_or (and_not m 0x8) (bit m 7 * 2 ^ 3) k,
      bit-and_not m 0x8 k,
      flag,
      mask,
      set,
    )

mret_mstatus-mie : (m : ℕ) → bit (mret_mstatus m) 3 ≡ bit m 7
unfolding mret_mstatus
mret_mstatus-mie m =
    let low = bit_or (and_not m 0x8) (bit m 7 * 2 ^ 3) in
    omega (
      arith,
      bit-bit_or low (2 ^ 7) 3,
      bit-bit_or (and_not m 0x8) (bit m 7 * 2 ^ 3) 3,
      bit-and_not m 0x8 3,
    )

-- After a trap and the MRET that ends it, every bit of mstatus but MPIE (bit 7) is what it was, MIE
-- (bit 3) included.
pub mret_mstatus-trap_mstatus :
    (mstatus k : ℕ) → k ≢ 7 → bit (mret_mstatus (trap_mstatus mstatus)) k ≡ bit mstatus k
mret_mstatus-trap_mstatus mstatus k h7 = elim (Bool-cases (k == 3)) [
  | inl t ↦
      let e : k ≡ 3 = ground arith in
      rw e (mret_mstatus-mie (trap_mstatus mstatus) ∙ trap_mstatus-mpie mstatus)
  | inr f ↦
      let h3 : k ≢ 3 = λ e. ground arith in
      mret_mstatus-other (trap_mstatus mstatus) k h3 h7 ∙ trap_mstatus-other mstatus k h3 h7
]

-- If a handler is set and the program counter is aligned, MRET right after a synchronous trap
-- succeeds, goes back to the instruction that trapped, restores every bit of mstatus but MPIE, and
-- leaves the registers alone.
pub exec_mret-trap :
    (cause mtval k : ℕ) (s : System)
    → s.cpu.csrs 0x305 ≢ 0
    → is_misaligned s s.cpu.pc ≡ false
    → k ≢ 7
    → ((exec_mret (trap cause mtval true s).1).0 ≡ ok tt)
      × ((exec_mret (trap cause mtval true s).1).1.cpu.next_pc ≡ s.cpu.pc)
      × (bit ((exec_mret (trap cause mtval true s).1).1.cpu.csrs 0x300) k
          ≡ bit (s.cpu.csrs 0x300) k)
      × ((exec_mret (trap cause mtval true s).1).1.cpu.registers ≡ s.cpu.registers)
unfolding exec_mret trap is_misaligned update
exec_mret-trap cause mtval k s handler aligned h7 =
    let no_stop : (s.cpu.csrs 0x305 == 0) ≡ false = ground arith in
    rw (no_stop, aligned) (refl, refl, mret_mstatus-trap_mstatus (s.cpu.csrs 0x300) k h7, refl)
