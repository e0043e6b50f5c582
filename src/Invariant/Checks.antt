-- ===== src/Invariant/Checks.antt =====
-- Well-formed states and the checks of the invariants that machine.py makes while it runs.
use riscv_python.Prelude.{ℕ, Bool, true, Option, not}
use riscv_python.State.{System}
use riscv_python.State.Leaves.{
  Leaves, Leaves-unit, Leaves-bind, Leaves-state, Leaves-ok, Leaves-err, Leaves-if, Any,
}
use riscv_python.Machine.Checks.{
  StartChecks, unset, auto, early, at_main, first_call, invalid, at_address, CheckSettings,
  trigger_check, enable_checks, check_invariants, invariants_hold,
}
use riscv_python.Invariant.Defs.{IsWf}
use riscv_python.Invariant.Bytes.{Fits}
use riscv_python.Invariant.Access.{load_word-Leaves}

trigger_check-Leaves :
    (c : StartChecks) (main_addr : Option ℕ) (s : System)
    → IsWf s
    → Leaves IsWf Any (trigger_check c main_addr s)
unfolding trigger_check
trigger_check-Leaves unset main_addr s h = Leaves-err _ s h
trigger_check-Leaves auto main_addr s h = Leaves-err _ s h
trigger_check-Leaves early main_addr s h = Leaves-ok true s tt h
trigger_check-Leaves at_main main_addr s h = Leaves-ok _ s tt h
trigger_check-Leaves first_call main_addr s h =
    Leaves-bind (Fits 32) _ _ (load_word-Leaves s.cpu.pc s h) λ inst s _ h. Leaves-ok _ s tt h
trigger_check-Leaves invalid main_addr s h = Leaves-err _ s h
trigger_check-Leaves (at_address value) main_addr s h = Leaves-ok _ s tt h

-- The emulator beside `check_enable`.
abbrev WfFlag : System × Bool → Type 0
WfFlag st = IsWf st.0

enable_checks-Leaves :
    (m : CheckSettings) (s : System) (flag : Bool)
    → IsWf s
    → Leaves WfFlag Any (enable_checks m (s, flag))
unfolding enable_checks
enable_checks-Leaves m s flag h = Leaves-if flag _ _ (Leaves-unit (s, true) h) (
    Leaves-bind Any _ _ (Leaves-state _ (trigger_check-Leaves m.start_checks m.main_addr s h).state)
      λ triggered (s, flag) _ h. Leaves-unit (s, triggered) h)

pub check_invariants-Leaves :
    (m : CheckSettings) (s : System) (flag : Bool)
    → IsWf s
    → Leaves WfFlag Any (check_invariants m (s, flag))
unfolding check_invariants
check_invariants-Leaves m s flag h =
    Leaves-bind Any _ _ (enable_checks-Leaves m s flag h) λ _ (s, flag) _ h.
      Leaves-if (not flag) _ _ (Leaves-unit (s, flag) h)
        (Leaves-if (invariants_hold m s) _ _ (Leaves-unit (s, flag) h) (Leaves-err _ (s, flag) h))
