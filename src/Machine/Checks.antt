-- ===== src/Machine/Checks.antt =====
-- `trigger_check` and `check_invariants` of class `Machine` in machine.py. An invariant that fails
-- raises InvariantViolationError, a subclass of MachineError; the messages are left out.
use riscv_python.Prelude.{
  ℕ, ◌+◌, ◌%◌, ◌^◌, Bool, true, false, not, ◌&&◌, ◌||◌, Option, none, some, List, [], ◌∷◌, ltb, leb,
  ◌==◌, if◌then◌else◌,
}
use riscv_python.State.{System, ok, err, Exec, machine_error, type_error, ◌>>=◌, ◌>>◌, pure, apply}
use riscv_python.Ram.Bytes.{slice}
use riscv_python.Ram.Access.{load_word}

-- The option --start-checks; `unset` is `None`. `at_address` has the number that `int(..., 0) & 0xFFFFFFFF` gave, and
-- `invalid` is a text that is no number.
pub data StartChecks : Type 0 where
  unset auto early at_main first_call invalid : StartChecks
  at_address : ℕ → StartChecks

-- The attributes of the machine that the checks read. The end of the
-- heap is with the emulator. `text` has `text_start`, `text_end` and
-- `text_snapshot`.
pub record CheckSettings : Type 0 where
  pub start_checks : StartChecks
  pub main_addr : Option ℕ
  pub stack_top : Option ℕ
  pub stack_bottom : Option ℕ
  pub text : Option (ℕ × ℕ × List ℕ)

-- `x == y` of a number and an optional number
abbrev is_some_of : Option ℕ → ℕ → Bool
is_some_of none n = false
is_some_of (some m) n = m == n

unfoldable pub trigger_check : StartChecks → Option ℕ → Exec System Bool
trigger_check unset main_addr s = (err type_error, s)
trigger_check auto main_addr s = (err machine_error, s)
trigger_check early main_addr s = (ok true, s)
trigger_check at_main main_addr s = (ok (is_some_of main_addr s.cpu.pc), s)
trigger_check first_call main_addr s =
    (do inst ← load_word s.cpu.pc; pure (inst % 2 ^ 7 == 0x6F || inst % 2 ^ 7 == 0x67)) s
trigger_check invalid main_addr s = (err machine_error, s)
trigger_check (at_address value) main_addr s = (ok (s.cpu.pc == value), s)

-- A test of a value that is there, and true of none.
abbrev if_some : Option ℕ → (ℕ → Bool) → Bool
if_some none test = true
if_some (some n) test = test n

abbrev same_bytes : List ℕ → List ℕ → Bool
same_bytes [] [] = true
same_bytes (x ∷ xs) (y ∷ ys) = (x == y) && same_bytes xs ys
same_bytes _ _ = false

-- The stack pointer is checked once the global pointer is set.
unfoldable pub stack_in_bounds : CheckSettings → System → Bool
stack_in_bounds m s =
    let sp = s.cpu.registers 2 in
    (s.cpu.registers 3 == 0)
    || (if_some m.stack_top (λ top. leb sp top) && if_some m.stack_bottom (λ bottom. leb bottom sp))

-- The gap between heap and stack, and the alignment of the heap's end.
unfoldable pub heap_in_bounds : CheckSettings → System → Bool
heap_in_bounds m s = if_some s.heap_end (λ heap_end.
    if_some m.stack_bottom (λ bottom. leb (heap_end + 256) bottom) && heap_end % 4 == 0)

unfoldable pub text_intact : Option (ℕ × ℕ × List ℕ) → System → Bool
unfolding slice
text_intact none s = true
text_intact (some (start, end, snapshot)) s = same_bytes (slice s.ram start end) snapshot

unfoldable pub invariants_hold : CheckSettings → System → Bool
unfolding stack_in_bounds heap_in_bounds text_intact
invariants_hold m s =
    (s.cpu.registers 0 == 0)
    && ltb s.cpu.pc s.ram.size
    && stack_in_bounds m s
    && heap_in_bounds m s
    && text_intact m.text s

-- A method of the emulator, beside `check_enable`.
abbrev pub beside_flag : {A S : Type 0} → Exec S A → Exec (S × Bool) A
beside_flag m (s, flag) = let (r, s') = m s in (r, (s', flag))

-- `trigger_check` until it has been true once.
unfoldable pub enable_checks : CheckSettings → Exec (System × Bool) (Unit {0})
unfolding trigger_check
enable_checks m (s, check_enable) =
    if check_enable
    then (ok tt, (s, true))
    else (do
      triggered ← beside_flag (trigger_check m.start_checks m.main_addr)
      apply (λ st. (st.0, triggered)))
        (s, false)

unfoldable pub check_invariants : CheckSettings → Exec (System × Bool) (Unit {0})
unfolding enable_checks invariants_hold
check_invariants m = do
  enable_checks m
  (λ st.
      if not st.1
      then (ok tt, st)
      else if invariants_hold m st.0
      then (ok tt, st)
      else (err machine_error, st))
