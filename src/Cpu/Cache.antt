-- ===== src/Cpu/Cache.antt =====
-- The decode caches of `execute_32` and `execute_16` in cpu.py.
use riscv_python.Prelude.{ℕ, ◌+◌, ◌*◌, ◌/◌, ◌%◌, ◌≡◌, refl, ap, ◌∙◌, Option, none, some, arith}
use riscv_python.State.{Cpu, Decoded, Expanded, update}
use riscv_python.Rvc.{expand_compressed}
use riscv_python.Cpu.Execute.{
  decode, decode_unless, cached_decode, store_expanded, expand_unless, cached_expand,
}

-- Every entry is what decoding gives: the key of an instruction is its upper 30 bits, and a 32-bit
-- instruction ends in 0b11.
pub record IsCoherent (words : ℕ → Option Decoded) (halves : ℕ → Option Expanded) : Type 0 where
  pub at_word : (k : ℕ) (d : Decoded) → words k ≡ some d → d ≡ decode (4 * k + 3)
  pub at_half :
      (k : ℕ) (e : Expanded)
      → halves k ≡ some e
      → (expand_compressed k ≡ some e.expanded_inst) × (e.decoded ≡ decode e.expanded_inst)

abbrev pub HasCoherentCaches : Cpu → Type 0
HasCoherentCaches cpu = IsCoherent cpu.decode_cache cpu.decode_cache_compressed

-- The key of a 32-bit instruction determines it.
from_key : (inst : ℕ) → inst % 4 ≡ 3 → 4 * (inst / 4) + 3 ≡ inst
from_key inst h = omega arith

module _ (inst : ℕ) (cpu : Cpu) (h3 : inst % 4 ≡ 3) (h : HasCoherentCaches cpu) where
  decode_unless_lem :
      (o : Option Decoded)
      → cpu.decode_cache (inst / 4) ≡ o
      → ((decode_unless o inst cpu).0 ≡ decode inst)
        × HasCoherentCaches (decode_unless o inst cpu).1
  unfolding decode_unless update
  decode_unless_lem (some d) e = (h.at_word (inst / 4) d e ∙ ap decode (from_key inst h3), h)
  decode_unless_lem none e = (
    refl,
    record {
      at_word = λ k d hit. ground (arith, h.at_word k d, ap decode (from_key inst h3));
      at_half = h.at_half;
    },
  )

  -- With coherent caches a 32-bit instruction is decoded to its own fields, whether the cache has
  -- it or not, and the caches stay coherent.
  pub cached_decode-HasCoherentCaches :
      ((cached_decode inst cpu).0 ≡ decode inst) × HasCoherentCaches (cached_decode inst cpu).1
  unfolding cached_decode
  cached_decode-HasCoherentCaches = decode_unless_lem (cpu.decode_cache (inst / 4)) refl

-- The claim about a compressed instruction that expands.
abbrev pub ExpandsTo : ℕ → Option (Expanded × Cpu) → Type 0
ExpandsTo inst16 none = expand_compressed inst16 ≡ none
ExpandsTo inst16 (some (e, cpu)) =
    (expand_compressed inst16 ≡ some e.expanded_inst)
    × (e.decoded ≡ decode e.expanded_inst)
    × HasCoherentCaches cpu

module _ (inst16 : ℕ) (cpu : Cpu) (h : HasCoherentCaches cpu) where
  store_expanded-ExpandsTo :
      (o : Option ℕ) → expand_compressed inst16 ≡ o → ExpandsTo inst16 (store_expanded o inst16 cpu)
  unfolding store_expanded update
  store_expanded-ExpandsTo none e = e
  store_expanded-ExpandsTo (some inst) e = (
    e,
    refl,
    record { at_word = h.at_word; at_half = λ k x hit. ground (arith, e, h.at_half k x) },
  )

  expand_unless-ExpandsTo :
      (o : Option Expanded)
      → cpu.decode_cache_compressed inst16 ≡ o
      → ExpandsTo inst16 (expand_unless o inst16 cpu)
  unfolding expand_unless
  expand_unless-ExpandsTo none e = store_expanded-ExpandsTo (expand_compressed inst16) refl
  expand_unless-ExpandsTo (some x) e = ((h.at_half inst16 x e).0, (h.at_half inst16 x e).1, h)

  -- With coherent caches a compressed instruction expands to what `expand_compressed` gives, and
  -- fails where that fails; what is decoded is the expansion, and the caches stay coherent.
  pub cached_expand-ExpandsTo : ExpandsTo inst16 (cached_expand inst16 cpu)
  unfolding cached_expand
  cached_expand-ExpandsTo = expand_unless-ExpandsTo (cpu.decode_cache_compressed inst16) refl

-- An instruction that shares the upper 30 bits with the one decoded before gets the fields of that
-- one, whatever its own low bits are.
pub cached_decode_alias :
    (inst other : ℕ) (cpu : Cpu)
    → inst / 4 ≡ other / 4
    → cpu.decode_cache (inst / 4) ≡ none
    → (cached_decode other (cached_decode inst cpu).1).0 ≡ decode inst
unfolding cached_decode decode_unless update
cached_decode_alias inst other cpu same fresh = ground arith
