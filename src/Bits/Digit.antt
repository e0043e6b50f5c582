-- ===== src/Bits/Digit.antt =====
-- Single bits of a number, and the bitwise operations bit by bit.
use Prim.Native.Nat.{bit_or-bitwise}
use native.Mathlib.Nat.{pow-suc}
use riscv_python.Prelude.{
  ℕ, zero, suc, ◌+◌, ◌-◌, ◌*◌, ◌/◌, ◌%◌, ◌^◌, ◌≤◌, ◌<◌, bit_and, bit_or, min, max, ◌≡◌, ap, arith,
}
use riscv_python.Bits.Step.{bit_and_step, bit_or_step}
use riscv_python.Bits.Width.{and_not, and_not_step}

-- `(a >> k) & 1`.
abbrev pub bit : ℕ → ℕ → ℕ
bit a zero = a % 2
bit a (suc k) = bit (a / 2) k

pub bit-lt : (a k : ℕ) → bit a k < 2
bit-lt a zero = omega arith
bit-lt a (suc k) = bit-lt (a / 2) k

pub bit-bit_or : (a b k : ℕ) → bit (bit_or a b) k ≡ max (bit a k) (bit b k)
bit-bit_or a b zero = omega (arith, bit_or_step a b)
bit-bit_or a b (suc k) =
    let half : bit_or a b / 2 ≡ bit_or (a / 2) (b / 2) = omega (arith, bit_or_step a b) in
    rw half (bit-bit_or (a / 2) (b / 2) k)

pub bit-bit_and : (a b k : ℕ) → bit (bit_and a b) k ≡ min (bit a k) (bit b k)
bit-bit_and a b zero = omega (arith, bit_and_step a b)
bit-bit_and a b (suc k) =
    let half : bit_and a b / 2 ≡ bit_and (a / 2) (b / 2) = omega (arith, bit_and_step a b) in
    rw half (bit-bit_and (a / 2) (b / 2) k)

pub bit-and_not : (a b k : ℕ) → bit (and_not a b) k ≡ bit a k - min (bit a k) (bit b k)
bit-and_not a b zero = omega (arith, and_not_step a b)
bit-and_not a b (suc k) =
    let half : and_not a b / 2 ≡ and_not (a / 2) (b / 2) = omega (arith, and_not_step a b) in
    rw half (bit-and_not (a / 2) (b / 2) k)

double_pow : (q k : ℕ) → q * 2 ^ suc k ≡ 2 * (q * 2 ^ k)
double_pow q k = omega (arith, ap (λ (t : ℕ). q * t) (pow-suc 2 k))

bit_or-zero_fuel : (n a : ℕ) → a ≤ n → bit_or a 0 ≡ a
bit_or-zero_fuel n zero h = bit_or-bitwise 0 0
bit_or-zero_fuel zero (suc a) h = elim h [ ]
bit_or-zero_fuel (suc n) (suc a) h =
    omega (arith, bit_or_step (suc a) 0, bit_or-zero_fuel n (suc a / 2) (omega arith))

pub bit_or-zero : (a : ℕ) → bit_or a 0 ≡ a
bit_or-zero a = bit_or-zero_fuel a a (omega arith)

-- `(q << k) | r` is a sum when `r` has at most `k` bits.
pub bit_or_fields : (k q r : ℕ) → r < 2 ^ k → bit_or (q * 2 ^ k) r ≡ q * 2 ^ k + r
bit_or_fields zero q zero h = omega (arith, bit_or-zero (q * 1))
bit_or_fields zero q (suc r) h = absurd (omega arith)
bit_or_fields (suc k) q r h =
    let half : q * 2 ^ suc k / 2 ≡ q * 2 ^ k = omega (arith, double_pow q k) in
    let tail = bit_or_fields k q (r / 2) (omega (arith, pow-suc 2 k)) in
    rw (bit_or_step (q * 2 ^ suc k) r, half, tail) (omega (arith, double_pow q k))

-- The fields in the other order.
pub bit_or_fields_low : (k q r : ℕ) → r < 2 ^ k → bit_or r (q * 2 ^ k) ≡ q * 2 ^ k + r
bit_or_fields_low zero q zero h = omega (arith, bit_or-bitwise 0 (q * 1))
bit_or_fields_low zero q (suc r) h = absurd (omega arith)
bit_or_fields_low (suc k) q r h =
    let half : q * 2 ^ suc k / 2 ≡ q * 2 ^ k = omega (arith, double_pow q k) in
    let tail = bit_or_fields_low k q (r / 2) (omega (arith, pow-suc 2 k)) in
    rw (bit_or_step r (q * 2 ^ suc k), half, tail) (omega (arith, double_pow q k))
