-- ===== src/Rvc/Equivalence.antt =====
-- `expand_compressed` of rvc.py against the manual's layout: all 2 ^ 16 instructions are compared,
-- in four tables.
use riscv_python.Prelude.{
  subst, ℕ, zero, suc, ◌+◌, ◌*◌, ◌/◌, ◌%◌, ◌^◌, ◌<◌, ◌≡◌, refl, Bool, true, false, Option, none,
  some, ◌==◌, holds_below, holds_below_at, arith,
}
use riscv_python.Rvc.{expand_compressed}
use riscv_python.Rvc.Manual.{manual}

abbrev same : Option ℕ → Option ℕ → Bool
same none none = true
same (some a) (some b) = a == b
same _ _ = false

same_sound : (a b : Option ℕ) → same a b ≡ true → a ≡ b
same_sound none none h = refl
same_sound (some a) (some b) h = ground arith
same_sound none (some b) h = cc
same_sound (some a) none h = cc

-- The instructions whose upper byte is 4 * `k` and those of the three next ones.
abbrev agrees_row : ℕ → Bool
agrees_row hi =
    holds_below 256 (λ lo. same (expand_compressed (hi * 256 + lo)) (manual (hi * 256 + lo)))

abbrev agrees_quarter : ℕ → Bool
agrees_quarter k = holds_below 64 (λ j. agrees_row (k * 64 + j))

quarter0 : agrees_quarter 0 ≡ true
unfolding holds_below expand_compressed manual
quarter0 = refl

quarter1 : agrees_quarter 1 ≡ true
unfolding holds_below expand_compressed manual
quarter1 = refl

quarter2 : agrees_quarter 2 ≡ true
unfolding holds_below expand_compressed manual
quarter2 = refl

quarter3 : agrees_quarter 3 ≡ true
unfolding holds_below expand_compressed manual
quarter3 = refl

quarters : (k : ℕ) → k < 4 → agrees_quarter k ≡ true
quarters zero h = quarter0
quarters (suc zero) h = quarter1
quarters (suc (suc zero)) h = quarter2
quarters (suc (suc (suc zero))) h = quarter3
quarters (suc (suc (suc (suc k)))) h = absurd (omega arith)

same_all : (c : ℕ) → c < 2 ^ 16 → same (expand_compressed c) (manual c) ≡ true
same_all c h =
    let k = c / 16384 in
    let j = c / 256 % 64 in
    let row =
      holds_below_at 64 (λ j. agrees_row (k * 64 + j)) j (quarters k (omega arith)) (omega arith) in
    let hi : k * 64 + j ≡ c / 256 = omega arith in
    let row' : agrees_row (c / 256) ≡ true = subst (λ n. agrees_row n ≡ true) hi row in
    let entry =
      λ (lo : ℕ). same (expand_compressed (c / 256 * 256 + lo)) (manual (c / 256 * 256 + lo)) in
    let found = holds_below_at 256 entry (c % 256) row' (omega arith) in
    let e : c / 256 * 256 + c % 256 ≡ c = omega arith in rw e at found

-- On every 16-bit instruction, `expand_compressed` of rvc.py gives what the table `manual`, written
-- from the layout of the C extension, gives, and rejects exactly those that the table leaves out.
pub expand_compressed-eq-manual : (c : ℕ) → c < 2 ^ 16 → expand_compressed c ≡ manual c
expand_compressed-eq-manual c h = same_sound (expand_compressed c) (manual c) (same_all c h)
