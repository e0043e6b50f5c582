-- ===== src/Text/Lists.antt =====
-- Slices, prefixes and `split` of Python's texts.
use Prim.Native.Char.{code}
use Prim.Native.String.{String}
use riscv_python.Prelude.{
  ℕ, zero, suc, Bool, true, false, ◌&&◌, Option, none, some, List, [], ◌∷◌, ◌++◌, ◌==◌,
  if◌then◌else◌, ◌≡◌, ◌≢◌, arith,
}

abbrev pub Text : Type 0
Text = List ℕ

-- The code points of a literal.
abbrev pub codes : String → Text
codes String.[] = []
codes (String.◌∷◌ c s) = code c ∷ codes s

-- `s[:n]` and `s[n:]`
abbrev pub take {ℓ} : {A : Type ℓ} → ℕ → List A → List A
take zero xs = []
take (suc n) [] = []
take (suc n) (x ∷ xs) = x ∷ take n xs

abbrev pub drop {ℓ} : {A : Type ℓ} → ℕ → List A → List A
drop zero xs = xs
drop (suc n) [] = []
drop (suc n) (x ∷ xs) = drop n xs

-- `s.startswith(p)`
abbrev pub starts_with : Text → Text → Bool
starts_with s [] = true
starts_with [] (c ∷ p) = false
starts_with (d ∷ s) (c ∷ p) = c == d && starts_with s p

-- `s == t`
abbrev pub same_text : Text → Text → Bool
same_text [] [] = true
same_text (c ∷ s) (d ∷ t) = c == d && same_text s t
same_text _ _ = false

-- `s.split(sep, 1)`: what stands before the first `sep` and after it, or none without one.
unfoldable pub cut : ℕ → Text → Option (Text × Text)
cut sep [] = none
cut sep (c ∷ s) =
    let rest : Option (Text × Text) = elim (cut sep s) [
      | none ↦ none
      | some (before, after) ↦ some (c ∷ before, after)
    ] in
    if c == sep then some ([], s) else rest

-- `s.split(sep)` that is unpacked into two names, which raises `ValueError` unless there are two.
unfoldable pub split_in_two : ℕ → Text → Option (Text × Text)
unfolding cut
split_in_two sep s = elim (cut sep s) [
  | none ↦ none
  | some (before, after) ↦ elim (cut sep after) [ none ↦ some (before, after) | some _ ↦ none ]
]

-- `s.split(sep)[0]`
unfoldable pub first_part : ℕ → Text → Text
first_part sep [] = []
first_part sep (c ∷ s) = let rest = c ∷ first_part sep s in if c == sep then [] else rest

-- Every character has a property, which computes on a concrete text.
abbrev pub All {ℓ} : (ℕ → Type ℓ) → Text → Type ℓ
All P [] = Unit
All P (c ∷ s) = P c × All P s

pub All-append {ℓ} : (P : ℕ → Type ℓ) (s t : Text) → All P s → All P t → All P (s ++ t)
All-append P [] t hs ht = ht
All-append P (c ∷ s) t (h, hs) ht = (h, All-append P s t hs ht)

pub All-map {ℓ κ} :
    (P : ℕ → Type ℓ) (Q : ℕ → Type κ) → ((c : ℕ) → P c → Q c) → (s : Text) → All P s → All Q s
All-map P Q f [] h = tt
All-map P Q f (c ∷ s) (h, hs) = (f c h, All-map P Q f s hs)

-- A text is cut at the first `sep`.
pub cut-append :
    (sep : ℕ) (s t : Text) → All (λ c. c ≢ sep) s → cut sep (s ++ sep ∷ t) ≡ some (s, t)
unfolding cut
cut-append sep [] t h = ground arith
cut-append sep (c ∷ s) t (h, hs) = ground (arith, cut-append sep s t hs)
