-- ===== src/Syscalls/Heap.antt =====
-- Calls of `handle_sbrk` in syscalls.py after each other.
use riscv_python.Prelude.{
  ℕ, ◌+◌, ◌≤◌, ◌<◌, ◌≡◌, refl, ap, ◌∙◌, true, false, Option, none, some, leb, arith,
}
use riscv_python.Prelude.Int.{ℤ, pos}
use riscv_python.State.{Result, err, machine_error, ok, update, set_reg}
use riscv_python.Syscalls.{Kernel, reg, grow, handle_sbrk, with_heap_end, with_a0}

module _ {H : Type 0} (b e : ℕ) (k : Kernel H) (bottom : k.stack_bottom ≡ some b)
    (heap : k.system.heap_end ≡ some e) where
  sbrk_grows : handle_sbrk k ≡ grow b (some e) k
  unfolding handle_sbrk
  sbrk_grows =
      ap
        (λ (o : Option ℕ). elim o as (λ x. Result ℤ × Kernel H) [
          | none ↦ (err machine_error, k)
          | some stack_bottom ↦ grow stack_bottom k.system.heap_end k
        ])
        bottom
      ∙ ap (λ o. grow b o k) heap

  sbrk_fits : e + reg 10 k < b → handle_sbrk k ≡ (ok (pos e), with_heap_end (e + reg 10 k) k)
  sbrk_fits h = let fits : leb b (e + reg 10 k) ≡ false = ground arith in sbrk_grows ∙ rw fits refl

  sbrk_fails : b ≤ e + reg 10 k → handle_sbrk k ≡ (ok (pos 0xFFFFFFFF), k)
  sbrk_fails h = let full : leb b (e + reg 10 k) ≡ true = ground arith in sbrk_grows ∙ rw full refl

-- With the heap ending at `e` and the stack at `b`: while the sizes fit below the stack, two calls
-- of `sbrk` give the addresses of regions that lie side by side and move the end of the heap behind
-- them, and a call that would reach the stack then gives -1. Nothing else changes.
pub handle_sbrk-adjacent :
    {H : Type 0} (b e m n l : ℕ) (k : Kernel H)
    → k.stack_bottom ≡ some b
    → k.system.heap_end ≡ some e
    → e + m + n < b
    → b ≤ e + m + n + l
    → (let k1 = with_heap_end (e + m) (with_a0 m k) in
        let k2 = with_heap_end (e + m + n) (with_a0 n k1) in
        (handle_sbrk (with_a0 m k) ≡ (ok (pos e), k1))
        × (handle_sbrk (with_a0 n k1) ≡ (ok (pos (e + m)), k2))
        × (handle_sbrk (with_a0 l k2) ≡ (ok (pos 0xFFFFFFFF), with_a0 l k2)))
unfolding with_a0 set_reg update
handle_sbrk-adjacent b e m n l k bottom heap fits full =
    let k1 = with_heap_end (e + m) (with_a0 m k) in
    let k2 = with_heap_end (e + m + n) (with_a0 n k1) in
    (
      sbrk_fits b e (with_a0 m k) bottom heap (omega arith),
      sbrk_fits b (e + m) (with_a0 n k1) bottom refl fits,
      sbrk_fails b (e + m + n) (with_a0 l k2) bottom refl full,
    )
