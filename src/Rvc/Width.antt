-- ===== src/Rvc/Width.antt =====
-- The width of what `expand_compressed` of rvc.py gives, by a run on all 2 ^ 16 instructions.
use riscv_python.Prelude.{
  ℕ, ◌+◌, ◌*◌, ◌/◌, ◌%◌, ◌^◌, ◌<◌, ◌≡◌, refl, Bool, true, ◌&&◌, Option, none, some, ltb, ◌==◌,
  holds_below, holds_below_at, arith,
}
use riscv_python.Rvc.{expand_compressed}

abbrev is_word : Option ℕ → Bool
is_word none = true
is_word (some inst) = ltb inst (2 ^ 32) && inst % 4 == 3

-- The rows of 256 instructions, by the upper byte.
abbrev is_word_row : ℕ → Bool
is_word_row hi = holds_below 256 (λ lo. is_word (expand_compressed (hi * 256 + lo)))

table : holds_below 256 is_word_row ≡ true
unfolding holds_below expand_compressed
table = refl

is_word_all : (c : ℕ) → c < 2 ^ 16 → is_word (expand_compressed c) ≡ true
is_word_all c h =
    let row = holds_below_at 256 is_word_row (c / 256) table (omega arith) in
    let entry = λ (lo : ℕ). is_word (expand_compressed (c / 256 * 256 + lo)) in
    let found = holds_below_at 256 entry (c % 256) row (omega arith) in
    let e : c / 256 * 256 + c % 256 ≡ c = omega arith in rw e at found

-- The expansion of a 16-bit instruction has 32 bits, and its two low bits mark it as such.
pub expand_compressed-IsWord :
    (c inst : ℕ) → c < 2 ^ 16 → expand_compressed c ≡ some inst → (inst < 2 ^ 32) × (inst % 4 ≡ 3)
expand_compressed-IsWord c inst h e = go (expand_compressed c) (is_word_all c h) e
  where
    go : (o : Option ℕ) → is_word o ≡ true → o ≡ some inst → (inst < 2 ^ 32) × (inst % 4 ≡ 3)
    go none t e = cc
    go (some i) t e = ground arith
