-- ===== src/Invariant/Classes.antt =====
-- The loads and stores of the classes without devices keep the bytes of the memory.
use riscv_python.Prelude.{ℕ, ◌%◌, ◌^◌, Bool, arith}
use riscv_python.Prelude.Int.{pos, ◌-ℤ◌}
use riscv_python.State.{Ram}
use riscv_python.State.Leaves.{Leaves, Leaves-ok, Leaves-bind, Any}
use riscv_python.Ram.Plain
use riscv_python.Ram.Safe
use riscv_python.Ram.Offset
use riscv_python.Ram.Offset.{rebase}
use riscv_python.Invariant.Defs.{IsWfRam}
use riscv_python.Invariant.Bytes.{
  FitsHalf, sign_extend-FitsHalf, Fits, read_byte-Leaves, write_byte-Leaves, read_half-Leaves,
  write_half-Leaves, read_word-Leaves, write_word-Leaves, or_access_error-Leaves, check-Leaves,
}

module _ (addr : ℕ) (r : Ram) (h : IsWfRam r) where
  pub plain_load_byte : (signed : Bool) → Leaves IsWfRam Any (Plain.load_byte addr signed r)
  unfolding Plain.load_byte
  plain_load_byte signed =
      or_access_error-Leaves _
        (Leaves-bind (Fits 8) _ _ (read_byte-Leaves addr r h) λ v r q h. Leaves-ok _ r tt h)

  pub plain_load_half : (signed : Bool) → Leaves IsWfRam FitsHalf (Plain.load_half addr signed r)
  unfolding Plain.load_half
  plain_load_half signed = or_access_error-Leaves _ (
      Leaves-bind (Fits 16) _ _ (read_half-Leaves addr r h)
        λ v r q h. Leaves-ok _ r (sign_extend-FitsHalf signed v q) h)

  pub plain_load_word : Leaves IsWfRam (Fits 32) (Plain.load_word addr r)
  unfolding Plain.load_word
  plain_load_word = or_access_error-Leaves _ (read_word-Leaves addr r h)

  pub plain_store_byte : (v : ℕ) → Leaves IsWfRam Any (Plain.store_byte addr v r)
  unfolding Plain.store_byte
  plain_store_byte v =
      or_access_error-Leaves _ (write_byte-Leaves addr (v % 2 ^ 8) r (omega arith) h)

  pub plain_store_half : (v : ℕ) → Leaves IsWfRam Any (Plain.store_half addr v r)
  unfolding Plain.store_half
  plain_store_half v = or_access_error-Leaves _ (write_half-Leaves addr (v % 2 ^ 16) r h)

  pub plain_store_word : (v : ℕ) → Leaves IsWfRam Any (Plain.store_word addr v r)
  unfolding Plain.store_word
  plain_store_word v = or_access_error-Leaves _ (write_word-Leaves addr (v % 2 ^ 32) r h)

  pub safe_load_byte : (signed : Bool) → Leaves IsWfRam Any (Safe.load_byte addr signed r)
  unfolding Safe.load_byte
  safe_load_byte signed =
      Leaves-bind Any _ _ (check-Leaves (pos addr) 1 r h) λ _ r _ h.
        Leaves-bind (Fits 8) _ _ (read_byte-Leaves addr r h) λ v r q h. Leaves-ok _ r tt h

  pub safe_load_half : (signed : Bool) → Leaves IsWfRam FitsHalf (Safe.load_half addr signed r)
  unfolding Safe.load_half
  safe_load_half signed = Leaves-bind Any _ _ (check-Leaves (pos addr) 2 r h) λ _ r _ h.
      Leaves-bind (Fits 16) _ _ (read_half-Leaves addr r h)
        λ v r q h. Leaves-ok _ r (sign_extend-FitsHalf signed v q) h

  pub safe_load_word : Leaves IsWfRam (Fits 32) (Safe.load_word addr r)
  unfolding Safe.load_word
  safe_load_word =
      Leaves-bind Any _ _ (check-Leaves (pos addr) 4 r h) λ _ r _ h. read_word-Leaves addr r h

  pub safe_store_byte : (v : ℕ) → Leaves IsWfRam Any (Safe.store_byte addr v r)
  unfolding Safe.store_byte
  safe_store_byte v =
      Leaves-bind Any _ _ (check-Leaves (pos addr) 1 r h)
        λ _ r _ h. write_byte-Leaves addr (v % 2 ^ 8) r (omega arith) h

  pub safe_store_half : (v : ℕ) → Leaves IsWfRam Any (Safe.store_half addr v r)
  unfolding Safe.store_half
  safe_store_half v =
      Leaves-bind Any _ _ (check-Leaves (pos addr) 2 r h)
        λ _ r _ h. write_half-Leaves addr (v % 2 ^ 16) r h

  pub safe_store_word : (v : ℕ) → Leaves IsWfRam Any (Safe.store_word addr v r)
  unfolding Safe.store_word
  safe_store_word v =
      Leaves-bind Any _ _ (check-Leaves (pos addr) 4 r h)
        λ _ r _ h. write_word-Leaves addr (v % 2 ^ 32) r h

  pub rebase-Leaves : (n : ℕ) → Leaves IsWfRam Any (rebase addr n r)
  unfolding rebase
  rebase-Leaves n =
      Leaves-bind Any _ _ (check-Leaves (pos addr -ℤ pos r.base_addr) n r h)
        λ _ r _ h. Leaves-ok _ r tt h

  pub offset_load_byte : (signed : Bool) → Leaves IsWfRam Any (Offset.load_byte addr signed r)
  unfolding Offset.load_byte
  offset_load_byte signed =
      Leaves-bind Any _ _ (rebase-Leaves 1)
        λ a r _ h. Leaves-bind (Fits 8) _ _ (read_byte-Leaves a r h) λ v r q h. Leaves-ok _ r tt h

  pub offset_load_half : (signed : Bool) → Leaves IsWfRam FitsHalf (Offset.load_half addr signed r)
  unfolding Offset.load_half
  offset_load_half signed = Leaves-bind Any _ _ (rebase-Leaves 2) λ a r _ h.
      Leaves-bind (Fits 16) _ _ (read_half-Leaves a r h)
        λ v r q h. Leaves-ok _ r (sign_extend-FitsHalf signed v q) h

  pub offset_load_word : Leaves IsWfRam (Fits 32) (Offset.load_word addr r)
  unfolding Offset.load_word
  offset_load_word = Leaves-bind Any _ _ (rebase-Leaves 4) λ a r _ h. read_word-Leaves a r h

  pub offset_store_byte : (v : ℕ) → Leaves IsWfRam Any (Offset.store_byte addr v r)
  unfolding Offset.store_byte
  offset_store_byte v =
      Leaves-bind Any _ _ (rebase-Leaves 1)
        λ a r _ h. write_byte-Leaves a (v % 2 ^ 8) r (omega arith) h

  pub offset_store_half : (v : ℕ) → Leaves IsWfRam Any (Offset.store_half addr v r)
  unfolding Offset.store_half
  offset_store_half v =
      Leaves-bind Any _ _ (rebase-Leaves 2) λ a r _ h. write_half-Leaves a (v % 2 ^ 16) r h

  pub offset_store_word : (v : ℕ) → Leaves IsWfRam Any (Offset.store_word addr v r)
  unfolding Offset.store_word
  offset_store_word v =
      Leaves-bind Any _ _ (rebase-Leaves 4) λ a r _ h. write_word-Leaves a (v % 2 ^ 32) r h
