-- ===== src/Machine/Fetch.antt =====
-- The two ways of machine.py to fetch an instruction: a word at once, or one half word and then,
-- if need be, the other.
use riscv_python.Prelude.{
  ℕ, ◌+◌, ◌*◌, ◌%◌, ◌^◌, ◌≤◌, ◌≡◌, arith, refl, ap, Bool, false, ◌==◌, inl, inr, Bool-cases, bit_or,
  if◌then◌else◌,
}
use riscv_python.Prelude.Int.{pos}
use riscv_python.State.{System, Ram, ok, safe_mmio}
use riscv_python.Bits.{bit_or_fields_low}
use riscv_python.Ram.Bytes.{word_at, sign_extend}
use riscv_python.Ram.Mmio.{on_ram}
use riscv_python.Ram.Access.{load_half, dispatch}
use riscv_python.Ram.Plain
use riscv_python.Ram.Safe
use riscv_python.Ram.Offset
use riscv_python.Ram.Mmio
use riscv_python.Ram.SafeMmio
use riscv_python.Ram.RoundTrip.{check-inside, read_half-bytes}
use riscv_python.Invariant.Defs.{AllBelow, IsWfRam}
use riscv_python.Machine.{fetch_upper, fetch_halves}

load_half-safe_mmio :
    (addr : ℕ) (signed : Bool) (s : System)
    → s.ram.ram_class ≡ safe_mmio
    → load_half addr signed s ≡ on_ram (Safe.load_half addr signed) s
unfolding load_half SafeMmio.load_half
load_half-safe_mmio addr signed s class =
    ap
      (λ c.
        dispatch (Plain.load_half addr signed) (Safe.load_half addr signed)
          (Offset.load_half addr signed) (Mmio.load_half addr signed)
          (SafeMmio.load_half addr signed) c s)
      class

-- The half word at an address.
abbrev half_at : (ℕ → ℕ) → ℕ → ℕ
half_at m addr = m (addr + 1) * 2 ^ 8 + m addr

load_half-half_at :
    (addr : ℕ) (r : Ram)
    → addr + 2 ≤ r.size
    → r.size ≤ r.memory_len
    → AllBelow (2 ^ 8) r.memory
    → Safe.load_half addr false r ≡ (ok (pos (half_at r.memory addr)), r)
unfolding Safe.load_half sign_extend
load_half-half_at addr r h hl bytes =
    let joined = bit_or_fields_low 8 (r.memory (addr + 1)) (r.memory addr) (bytes addr) in
    rw (check-inside addr 2 r h, read_half-bytes addr r (omega arith), joined) refl

fetch_half :
    (addr : ℕ) (s : System)
    → s.ram.ram_class ≡ safe_mmio
    → addr + 2 ≤ s.ram.size
    → s.ram.size ≤ s.ram.memory_len
    → IsWfRam s.ram
    → load_half addr false s ≡ (ok (pos (half_at s.ram.memory addr)), s)
unfolding on_ram
fetch_half addr s class h hl wf =
    rw (load_half-safe_mmio addr false s class, load_half-half_at addr s.ram h hl wf.memory) refl

word_halves :
    (m : ℕ → ℕ) (addr : ℕ) → word_at m addr ≡ half_at m (addr + 2) * 2 ^ 16 + half_at m addr
unfolding word_at
word_halves m addr =
    let next : m (addr + 2 + 1) ≡ m (addr + 3) = ap m (omega arith) in omega (arith, next)

-- On `SafeRAM_MMIO`, the fetch by half words of `run_with_checks` gives the word at the program counter
-- that the other loops fetch where no device has the address, or its lower half when its low bits mark a compressed instruction,
-- and changes nothing, provided that the word lies within the size.
pub fetch_halves-word_at :
    (s : System)
    → s.ram.ram_class ≡ safe_mmio
    → s.cpu.pc + 4 ≤ s.ram.size
    → s.ram.size ≤ s.ram.memory_len
    → IsWfRam s.ram
    → (let inst = word_at s.ram.memory s.cpu.pc in
        fetch_halves s ≡ (ok (if inst % 4 == 3 then inst else inst % 2 ^ 16), s))
unfolding fetch_halves fetch_upper
fetch_halves-word_at s class h hl wf =
    let pc = s.cpu.pc in
    let m = s.ram.memory in
    let first = fetch_half pc s class (omega arith) hl wf in
    let second = fetch_half (pc + 2) s class (omega arith) hl wf in
    let b0 = wf.memory pc in
    let b1 = wf.memory (pc + 1) in
    let low = half_at m pc in
    let high = half_at m (pc + 2) in
    let joined : bit_or low (high * 2 ^ 16) ≡ high * 2 ^ 16 + low =
      bit_or_fields_low 16 high low (omega arith) in
    let marks : (high * 2 ^ 16 + low) % 4 ≡ low % 4 = omega arith in
    let lower : (high * 2 ^ 16 + low) % 2 ^ 16 ≡ low = omega arith in
    rw (word_halves m pc, marks, lower, first)
      (elim (Bool-cases (low % 4 == 3)) [ inl t ↦ rw (t, second, joined) refl | inr f ↦ rw f refl ])
