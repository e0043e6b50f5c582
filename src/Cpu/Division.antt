-- ===== src/Cpu/Division.antt =====
-- DIV and REM of cpu.py, which divide with a double, and the division of the manual.
use native.Mathlib.Nat.{
  pow-suc, div-add-mod', div-lt_iff_lt-mul, le-div_iff_mul-le, div-mul-le_self, zero-div,
  mul-le-mul_right, lt-div-mul-add,
}
use riscv_python.Prelude.{
  ℕ, zero, suc, ◌+◌, ◌-◌, ◌*◌, ◌/◌, ◌%◌, ◌^◌, ◌≤◌, ◌<◌, ◌≡◌, arith, refl, sym, ◌&&◌, inl, inr,
  Bool-cases, ◌∙◌, if◌then◌else◌, ◌==◌, ltb, Bool, true, false, ap,
}
use riscv_python.Prelude.Int.{is_ℤ, ℤ, pos, negsuc, sub_ℕ, pos_part, neg_part, to_u32, ◌-ℤ◌, ◌*ℤ◌}
use riscv_python.Cpu.Alu.{signed_div, signed_rem}
use riscv_python.Cpu.Word.{signed32, int_of_quotient_ℤ, scale, round_half_even, int_of_quotient}

pow_double : (n k : ℕ) → n * 2 * 2 ^ k ≡ n * 2 ^ suc k
pow_double n k = omega (arith, ap (λ (t : ℕ). n * t) (pow-suc 2 k))

-- Enough doublings are found.
scale-enough : (fuel n d : ℕ) → 2 ^ 52 * d ≤ n * 2 ^ fuel → 2 ^ 52 * d ≤ n * 2 ^ scale fuel n d
unfolding scale
scale-enough zero n d h = h
scale-enough (suc fuel) n d h =
    let ih = scale-enough fuel (n * 2) d (omega (arith, pow_double n fuel)) in
    ground (arith, ih, pow_double n (scale fuel (n * 2) d))

round_half_even-ge : (x d : ℕ) → x / d ≤ round_half_even x d
unfolding round_half_even
round_half_even-ge x d = ground arith

-- The rounding does not reach `c` when `x / d` is below it by more than half a step.
round_half_even-lt : (x d p c : ℕ) → 0 < d → d < p → x + p ≤ c * d → round_half_even x d < c
unfolding round_half_even
round_half_even-lt x d p c hd hp h =
    let split : x / d * d + x % d ≡ x = div-add-mod' x d in
    let below : x / d < c = (div-lt_iff_lt-mul hd).1 (omega arith) in
    let next : x / d + 1 ≡ c → x / d * d + d ≡ c * d =
      λ e. omega (arith, ap (λ (t : ℕ). t * d) e) in
    ground (arith, next)

pow_pos : (k : ℕ) → 0 < 2 ^ k
pow_pos zero = omega arith
pow_pos (suc k) = omega (arith, pow-suc 2 k, pow_pos k)

-- A rounded quotient with a large enough exponent has the whole part of the exact one.
scaled-exact :
    (n d k : ℕ)
    → n < 2 ^ 32
    → 0 < d
    → 2 ^ 52 * d ≤ n * 2 ^ k
    → round_half_even (n * 2 ^ k) d / 2 ^ k ≡ n / d
scaled-exact n d k hn hd big =
    let p = 2 ^ k in
    let q = n / d in
    let width : n * p ≤ 2 ^ 32 * p = mul-le-mul_right p (omega arith) in
    let low : q * d * p ≤ n * p = mul-le-mul_right p (div-mul-le_self n d) in
    let high : (n + 1) * p ≤ (q * d + d) * p =
      mul-le-mul_right p (let h = lt-div-mul-add {a = n} hd in omega arith) in
    let reach : n * p + p ≤ (q * p + p) * d = omega arith in
    let upper = round_half_even-lt (n * p) d p (q * p + p) hd (omega arith) reach in
    let lower : q * p ≤ n * p / d = (le-div_iff_mul-le hd).1 (omega arith) in
    let m = round_half_even (n * p) d in
    let least : q ≤ m / p =
      (le-div_iff_mul-le (pow_pos k)).1 (omega (arith, round_half_even-ge (n * p) d)) in
    let most : m / p < q + 1 = (div-lt_iff_lt-mul (pow_pos k)).1 (omega arith) in omega arith

unless_zero : (n x : ℕ) → 0 < n → (if n == 0 then 0 else x) ≡ x
unless_zero n x h = ground arith

-- `int(n / d)` is the quotient cut off, though `/` rounds to a double.
int_of_quotient-exact : (n d : ℕ) → n < 2 ^ 32 → 0 < d → d < 2 ^ 32 → int_of_quotient n d ≡ n / d
unfolding int_of_quotient
int_of_quotient-exact zero d hn hd hd' = sym (zero-div d)
int_of_quotient-exact (suc n) d hn hd hd' =
    let k = scale 84 (suc n) d in
    let enough = scale-enough 84 (suc n) d (omega arith) in
    unless_zero (suc n) _ (omega arith) ∙ scaled-exact (suc n) d k hn hd enough

-- The number that a 32-bit word means in two's complement.
abbrev pub twos : ℕ → ℤ
twos a = if ltb a (2 ^ 31) then pos a else negsuc (2 ^ 32 - 1 - a)

-- The quotient cut off towards zero, and the remainder, which has the dividend's sign.
abbrev pub quotient_ℤ : ℤ → ℤ → ℤ
quotient_ℤ (pos n) (pos d) = pos (n / d)
quotient_ℤ (pos n) (negsuc d) = sub_ℕ 0 (n / suc d)
quotient_ℤ (negsuc n) (pos d) = sub_ℕ 0 (suc n / d)
quotient_ℤ (negsuc n) (negsuc d) = pos (suc n / suc d)

abbrev pub remainder_ℤ : ℤ → ℤ → ℤ
remainder_ℤ (pos n) (pos d) = pos (n % d)
remainder_ℤ (pos n) (negsuc d) = pos (n % suc d)
remainder_ℤ (negsuc n) (pos d) = sub_ℕ 0 (suc n % d)
remainder_ℤ (negsuc n) (negsuc d) = sub_ℕ 0 (suc n % suc d)

signed32-twos : (a : ℕ) → a < 2 ^ 32 → signed32 (pos a) ≡ twos a
unfolding signed32
signed32-twos a h = ground arith

-- At most 32 bits, the sign apart.
abbrev Fits32 : ℤ → Type 0
Fits32 x = (pos_part x < 2 ^ 32) × (neg_part x < 2 ^ 32)

twos-Fits32 : (a : ℕ) → a < 2 ^ 32 → Fits32 (twos a)
twos-Fits32 a h = ground arith

int_of_quotient_ℤ-exact :
    (x y : ℤ)
    → Fits32 x
    → Fits32 y
    → is_ℤ y (pos 0) ≡ false
    → int_of_quotient_ℤ x y ≡ quotient_ℤ x y
unfolding int_of_quotient_ℤ
int_of_quotient_ℤ-exact (pos n) (pos d) hx hy nz =
    rw (int_of_quotient-exact n d hx.0 (ground arith) hy.0) refl
int_of_quotient_ℤ-exact (pos n) (negsuc d) hx hy nz =
    rw (int_of_quotient-exact n (suc d) hx.0 (omega arith) hy.1) refl
int_of_quotient_ℤ-exact (negsuc n) (pos d) hx hy nz =
    rw (int_of_quotient-exact (suc n) d hx.1 (ground arith) hy.0) refl
int_of_quotient_ℤ-exact (negsuc n) (negsuc d) hx hy nz =
    rw (int_of_quotient-exact (suc n) (suc d) hx.1 (omega arith) hy.1) refl

is_ℤ-eq : (x y : ℤ) → is_ℤ x y ≡ true → x ≡ y
is_ℤ-eq (pos a) (pos b) h = ground arith
is_ℤ-eq (negsuc a) (negsuc b) h = ground arith
is_ℤ-eq (pos a) (negsuc b) h = ground arith
is_ℤ-eq (negsuc a) (pos b) h = ground arith

is_zero-twos : (b : ℕ) → b < 2 ^ 32 → is_ℤ (twos b) (pos 0) ≡ (b == 0)
is_zero-twos b h = ground arith

-- What the manual says of DIV, with no exception for the quotient that overflows: -2 ^ 31 / -1.
abbrev pub div_manual : ℕ → ℕ → ℕ
div_manual a b = if b == 0 then 2 ^ 32 - 1 else to_u32 (quotient_ℤ (twos a) (twos b))

-- What it says of REM.
abbrev pub rem_manual : ℕ → ℕ → ℕ
rem_manual a b = if b == 0 then a else to_u32 (remainder_ℤ (twos a) (twos b))

and_true : (p q : Bool) → p && q ≡ true → (p ≡ true) × (q ≡ true)
and_true true true h = (refl, refl)
and_true true false h = (refl, h)
and_true false q h = (h, cc)

quotient-overflow :
    (x y : ℤ)
    → x ≡ negsuc 0x7FFFFFFF
    → y ≡ negsuc 0
    → (0x80000000 ≡ to_u32 (quotient_ℤ x y)) × (0 ≡ to_u32 (remainder_ℤ x y))
quotient-overflow x y ex ey = rw (ex, ey) (refl, refl)

div_cases :
    (x y : ℤ)
    → Fits32 x
    → Fits32 y
    → is_ℤ y (pos 0) ≡ false
    → (if is_ℤ x (negsuc 0x7FFFFFFF) && is_ℤ y (negsuc 0)
        then 0x80000000
        else to_u32 (int_of_quotient_ℤ x y))
      ≡ to_u32 (quotient_ℤ x y)
div_cases x y hx hy nz =
    let exact = int_of_quotient_ℤ-exact x y hx hy nz in
    rw exact (elim (Bool-cases (is_ℤ x (negsuc 0x7FFFFFFF) && is_ℤ y (negsuc 0))) [
      | inl t ↦
          let both = and_true _ _ t in
          rw t (quotient-overflow x y (is_ℤ-eq x _ both.0) (is_ℤ-eq y _ both.1)).0
      | inr f ↦ rw f refl
    ])

-- DIV, which divides with a double, is the division of the manual on all 32-bit operands, division
-- by zero and overflow included.
pub signed_div-eq-manual : (a b : ℕ) → a < 2 ^ 32 → b < 2 ^ 32 → signed_div a b ≡ div_manual a b
unfolding signed_div
signed_div-eq-manual a b ha hb =
    let x = twos a in
    let y = twos b in
    rw (signed32-twos a ha, signed32-twos b hb, is_zero-twos b hb)
      (elim (Bool-cases (b == 0)) [
        | inl t ↦ rw t refl
        | inr f ↦ rw f (div_cases x y (twos-Fits32 a ha) (twos-Fits32 b hb) (is_zero-twos b hb ∙ f))
      ])

remainder_lem : (x y : ℤ) → x -ℤ quotient_ℤ x y *ℤ y ≡ remainder_ℤ x y
remainder_lem (pos n) (pos d) = ground (arith, div-add-mod' n d)
remainder_lem (pos n) (negsuc d) = ground (arith, div-add-mod' n (suc d))
remainder_lem (negsuc n) (pos d) = ground (arith, div-add-mod' (suc n) d)
remainder_lem (negsuc n) (negsuc d) = ground (arith, div-add-mod' (suc n) (suc d))

rem_cases :
    (x y : ℤ)
    → Fits32 x
    → Fits32 y
    → is_ℤ y (pos 0) ≡ false
    → (if is_ℤ x (negsuc 0x7FFFFFFF) && is_ℤ y (negsuc 0)
        then 0
        else to_u32 (x -ℤ int_of_quotient_ℤ x y *ℤ y))
      ≡ to_u32 (remainder_ℤ x y)
rem_cases x y hx hy nz =
    let exact = int_of_quotient_ℤ-exact x y hx hy nz in
    rw (exact, remainder_lem x y)
      (elim (Bool-cases (is_ℤ x (negsuc 0x7FFFFFFF) && is_ℤ y (negsuc 0))) [
        | inl t ↦
            let both = and_true _ _ t in
            rw t (quotient-overflow x y (is_ℤ-eq x _ both.0) (is_ℤ-eq y _ both.1)).1
        | inr f ↦ rw f refl
      ])

-- REM is the remainder of the manual on all 32-bit operands, division by zero and overflow
-- included.
pub signed_rem-eq-manual : (a b : ℕ) → a < 2 ^ 32 → b < 2 ^ 32 → signed_rem a b ≡ rem_manual a b
unfolding signed_rem
signed_rem-eq-manual a b ha hb =
    let x = twos a in
    let y = twos b in
    let whole : a % 2 ^ 32 ≡ a = omega arith in
    rw (signed32-twos a ha, signed32-twos b hb, is_zero-twos b hb)
      (elim (Bool-cases (b == 0)) [
        | inl t ↦ rw t whole
        | inr f ↦ rw f (rem_cases x y (twos-Fits32 a ha) (twos-Fits32 b hb) (is_zero-twos b hb ∙ f))
      ])
