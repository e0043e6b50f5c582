-- ===== src/Ram/Writes.antt =====
-- Memory after a sequence of writes, each of some bytes from an address on.
use riscv_python.Text.{All}
use riscv_python.Invariant.Defs.{AllBelow, AllBelow-update}
use riscv_python.Prelude.{
  ◌^◌, ℕ, zero, suc, ◌+◌, ◌<◌, ◌≤◌, ◌≡◌, ◌⊎◌, inl, inr, refl, ap₂, ◌∙◌, List, [], ◌∷◌, ◌++◌, arith,
}
use riscv_python.State.{update}
use riscv_python.Ram.Bytes.{bytes_from, put_bytes, length}
use riscv_python.Ram.Binary.{bytes_from-put_bytes}

-- The addresses and the bytes of the writes, the first one first.
abbrev pub Writes : Type 0
Writes = List (ℕ × List ℕ)

unfoldable pub put_all : (ℕ → ℕ) → Writes → ℕ → ℕ
put_all m [] = m
put_all m ((a, bytes) ∷ ws) = put_all (put_bytes m a bytes) ws

-- The writes touch none of the `n` bytes at an address.
abbrev pub IsApart : ℕ → ℕ → Writes → Type 0
IsApart a n [] = Unit
IsApart a n ((b, bytes) ∷ ws) = ((b + length bytes ≤ a) ⊎ (a + n ≤ b)) × IsApart a n ws

-- No write touches what one before has written.
abbrev pub IsSeparate : Writes → Type 0
IsSeparate [] = Unit
IsSeparate ((a, bytes) ∷ ws) = IsApart a (length bytes) ws × IsSeparate ws

-- The bytes of every write are there.
abbrev pub Holds : (ℕ → ℕ) → Writes → Type 0
Holds m [] = Unit
Holds m ((a, bytes) ∷ ws) = (bytes_from m a (length bytes) ≡ bytes) × Holds m ws

-- Every write ends at or before an address.
abbrev pub IsWithin : ℕ → Writes → Type 0
IsWithin size [] = Unit
IsWithin size ((a, bytes) ∷ ws) = (a + length bytes ≤ size) × IsWithin size ws

-- Every write begins where the one before ends or later.
abbrev pub IsAscending : ℕ → Writes → Type 0
IsAscending lo [] = Unit
IsAscending lo ((a, bytes) ∷ ws) = (lo ≤ a) × IsAscending (a + length bytes) ws

-- A list of bytes.
abbrev pub AllBytes : List ℕ → Type 0
AllBytes bytes = All (λ b. b < 2 ^ 8) bytes

abbrev pub AllWrites : Writes → Type 0
AllWrites [] = Unit
AllWrites ((a, bytes) ∷ ws) = AllBytes bytes × AllWrites ws

put_bytes-apart :
    (bs : List ℕ) (m : ℕ → ℕ) (a k : ℕ) → (k < a) ⊎ (a + length bs ≤ k) → put_bytes m a bs k ≡ m k
unfolding put_bytes update
put_bytes-apart [] m a k h = refl
put_bytes-apart (b ∷ bs) m a k (inl h) =
    put_bytes-apart bs (update m a b) (a + 1) k (inl (omega arith)) ∙ ground arith
put_bytes-apart (b ∷ bs) m a k (inr h) =
    put_bytes-apart bs (update m a b) (a + 1) k (inr (omega arith)) ∙ ground arith

-- Bytes that no write touches stay.
pub put_all-apart :
    (ws : Writes) (m : ℕ → ℕ) (a n k : ℕ)
    → IsApart a n ws
    → k < n
    → put_all m ws (a + k) ≡ m (a + k)
unfolding put_all
put_all-apart [] m a n k h hk = refl
put_all-apart ((b, bs) ∷ ws) m a n k (inl h, hs) hk =
    put_all-apart ws (put_bytes m b bs) a n k hs hk
    ∙ put_bytes-apart bs m b (a + k) (inr (omega arith))
put_all-apart ((b, bs) ∷ ws) m a n k (inr h, hs) hk =
    put_all-apart ws (put_bytes m b bs) a n k hs hk
    ∙ put_bytes-apart bs m b (a + k) (inl (omega arith))

pub bytes_from-cong :
    (n : ℕ) (f g : ℕ → ℕ) (a : ℕ)
    → ((k : ℕ) → k < n → f (a + k) ≡ g (a + k))
    → bytes_from f a n ≡ bytes_from g a n
unfolding bytes_from
bytes_from-cong zero f g a h = refl
bytes_from-cong (suc n) f g a h =
    let here : f a ≡ g a = ground (arith, h 0) in
    ap₂ (λ x xs. x ∷ xs) here
      (bytes_from-cong n f g (a + 1)
        λ k hk. let e : a + (k + 1) ≡ a + 1 + k = omega arith in rw e at (h (k + 1) (omega arith)))

pub put_all-Holds : (ws : Writes) (m : ℕ → ℕ) → IsSeparate ws → Holds (put_all m ws) ws
unfolding put_all
put_all-Holds [] m h = tt
put_all-Holds ((a, bs) ∷ ws) m (h, hs) = (
  bytes_from-cong (length bs) (put_all (put_bytes m a bs) ws) (put_bytes m a bs) a
        (λ k hk. put_all-apart ws (put_bytes m a bs) a (length bs) k h hk)
      ∙ bytes_from-put_bytes bs m a,
  put_all-Holds ws (put_bytes m a bs) hs,
)

pub IsAscending-le : (ws : Writes) (lo lo' : ℕ) → lo' ≤ lo → IsAscending lo ws → IsAscending lo' ws
IsAscending-le [] lo lo' h hs = tt
IsAscending-le ((a, bs) ∷ ws) lo lo' h (ha, hs) = (omega arith, hs)

pub Holds-append : (vs ws : Writes) (m : ℕ → ℕ) → Holds m (vs ++ ws) → Holds m vs × Holds m ws
Holds-append [] ws m h = (tt, h)
Holds-append ((a, bs) ∷ vs) ws m (h, hs) = let (h1, h2) = Holds-append vs ws m hs in ((h, h1), h2)

pub AllWrites-append : (vs ws : Writes) → AllWrites vs → AllWrites ws → AllWrites (vs ++ ws)
AllWrites-append [] ws h hw = hw
AllWrites-append ((a, bs) ∷ vs) ws (h, hs) hw = (h, AllWrites-append vs ws hs hw)

pub IsAscending-IsApart :
    (ws : Writes) (a n lo : ℕ) → a + n ≤ lo → IsAscending lo ws → IsApart a n ws
IsAscending-IsApart [] a n lo h hs = tt
IsAscending-IsApart ((b, bs) ∷ ws) a n lo h (hb, hs) =
    (inr (omega arith), IsAscending-IsApart ws a n (b + length bs) (omega arith) hs)

pub IsAscending-IsSeparate : (ws : Writes) (lo : ℕ) → IsAscending lo ws → IsSeparate ws
IsAscending-IsSeparate [] lo h = tt
IsAscending-IsSeparate ((a, bs) ∷ ws) lo (h, hs) = (
  IsAscending-IsApart ws a (length bs) (a + length bs) (omega arith) hs,
  IsAscending-IsSeparate ws (a + length bs) hs,
)

pub put_all-append : (vs ws : Writes) (m : ℕ → ℕ) → put_all m (vs ++ ws) ≡ put_all (put_all m vs) ws
unfolding put_all
put_all-append [] ws m = refl
put_all-append ((a, bs) ∷ vs) ws m = put_all-append vs ws (put_bytes m a bs)

pub put_bytes-AllBelow :
    (bytes : List ℕ) (m : ℕ → ℕ) (addr : ℕ)
    → AllBytes bytes
    → AllBelow (2 ^ 8) m
    → AllBelow (2 ^ 8) (put_bytes m addr bytes)
unfolding put_bytes
put_bytes-AllBelow [] m addr hb h = h
put_bytes-AllBelow (b ∷ bs) m addr (hb, hbs) h =
    put_bytes-AllBelow bs (update m addr b) (addr + 1) hbs (AllBelow-update (2 ^ 8) m addr b h hb)

pub put_all-AllBelow :
    (ws : Writes) (m : ℕ → ℕ) → AllWrites ws → AllBelow (2 ^ 8) m → AllBelow (2 ^ 8) (put_all m ws)
unfolding put_all
put_all-AllBelow [] m hw h = h
put_all-AllBelow ((a, bytes) ∷ ws) m (hb, hw) h =
    put_all-AllBelow ws (put_bytes m a bytes) hw (put_bytes-AllBelow bytes m a hb h)
