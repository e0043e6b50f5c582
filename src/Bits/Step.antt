-- ===== src/Bits/Step.antt =====
-- One equation for the lowest binary digit of each bitwise operation. The native operations mean
-- `bitwise`, a recursion on digits with fuel; here the fuel is gone.
use Prim.Native.Nat.{digits, bitwise, differ, bit_and-bitwise, bit_or-bitwise, bit_xor-bitwise}
use riscv_python.Prelude.{
  ℕ, zero, suc, ◌+◌, ◌*◌, ◌/◌, ◌%◌, ◌≤◌, ◌<◌, bit_and, bit_or, bit_xor, min, max, ◌≡◌, refl, arith,
}

module _ (rest : ℕ → ℕ) (digit : ℕ → ℕ → ℕ) where
  enough_fuel : (n m a b : ℕ) → a ≤ n → a ≤ m → digits rest digit n a b ≡ digits rest digit m a b
  enough_fuel zero zero a b hn hm = refl
  enough_fuel zero (suc m) zero b hn hm = refl
  enough_fuel zero (suc m) (suc a) b hn hm = elim hn [ ]
  enough_fuel (suc n) zero zero b hn hm = refl
  enough_fuel (suc n) zero (suc a) b hn hm = elim hm [ ]
  enough_fuel (suc n) (suc m) zero b hn hm = refl
  enough_fuel (suc n) (suc m) (suc a) b hn hm =
      omega (arith, enough_fuel n m (suc a / 2) (b / 2) (omega arith) (omega arith))

  -- `drained` says that the rule for a first number that has run out is itself digit by digit.
  bitwise_step :
      ((b : ℕ) → rest b ≡ rest (b / 2) * 2 + digit 0 (b % 2))
      → (a b : ℕ)
      → bitwise rest digit a b ≡ bitwise rest digit (a / 2) (b / 2) * 2 + digit (a % 2) (b % 2)
  bitwise_step drained zero b = drained b
  bitwise_step drained (suc a) b =
      omega (arith, enough_fuel a (suc a / 2) (suc a / 2) (b / 2) (omega arith) (omega arith))

pub bit_and_step : (a b : ℕ) → bit_and a b ≡ bit_and (a / 2) (b / 2) * 2 + min (a % 2) (b % 2)
bit_and_step a b = simp bit_and-bitwise (bitwise_step (λ b. zero) min (λ b. omega arith) a b)

pub bit_or_step : (a b : ℕ) → bit_or a b ≡ bit_or (a / 2) (b / 2) * 2 + max (a % 2) (b % 2)
bit_or_step a b = simp bit_or-bitwise (bitwise_step (λ b. b) max (λ b. omega arith) a b)

differ_digits : (x y : ℕ) → x < 2 → y < 2 → differ x y ≡ (x + y) % 2
differ_digits zero y hx hy = omega arith
differ_digits (suc zero) zero hx hy = refl
differ_digits (suc zero) (suc zero) hx hy = refl
differ_digits (suc zero) (suc (suc y)) hx hy = absurd (omega arith)
differ_digits (suc (suc x)) y hx hy = absurd (omega arith)

bit_xor-differ : (a b : ℕ) → bit_xor a b ≡ bit_xor (a / 2) (b / 2) * 2 + differ (a % 2) (b % 2)
bit_xor-differ a b = simp bit_xor-bitwise (bitwise_step (λ b. b) differ (λ b. omega arith) a b)

pub bit_xor_step : (a b : ℕ) → bit_xor a b ≡ bit_xor (a / 2) (b / 2) * 2 + (a + b) % 2
bit_xor_step a b =
    omega (arith, bit_xor-differ a b, differ_digits (a % 2) (b % 2) (omega arith) (omega arith))
