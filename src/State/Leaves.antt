-- ===== src/State/Leaves.antt =====
-- What a call leaves behind: a property of the state, whether it returns or raises, and one of the
-- value that it returns. There is a rule for each way to build a method.
use riscv_python.Prelude.{Bool, true, false, if◌then◌else◌}
use riscv_python.State.Monad.{Result, ok, err, Fault, continue}

-- The claim `Q` about a value, if there is one.
abbrev pub OnOk : {A : Type 0} → (A → Type 0) → Result A → Type 0
OnOk Q (ok a) = Q a
OnOk Q (err e) = Unit

pub record Leaves {A S : Type 0} (P : S → Type 0) (Q : A → Type 0) (x : Result A × S) : Type 0 where
  pub state : P x.1
  pub value : OnOk Q x.0

-- No claim about the value.
abbrev pub Any : {A : Type 0} → A → Type 0
Any a = Unit

module _ {A S : Type 0} {P : S → Type 0} {Q : A → Type 0} where
  pub Leaves-ok : (a : A) (s : S) → Q a → P s → Leaves P Q (ok a, s)
  Leaves-ok a s q p = record { state = p; value = q }

  pub Leaves-err : (e : Fault) (s : S) → P s → Leaves P Q (err e, s)
  Leaves-err e s p = record { state = p; value = tt }

  pub Leaves-if :
      (b : Bool) (x y : Result A × S)
      → Leaves P Q x
      → Leaves P Q y
      → Leaves P Q (if b then x else y)
  Leaves-if true x y hx hy = hx
  Leaves-if false x y hx hy = hy

-- A statement that only changes the state.
pub Leaves-unit : {S : Type 0} {P : S → Type 0} (s : S) → P s → Leaves P Any (ok (tt {0}), s)
Leaves-unit s p = record { state = p; value = tt }

-- The state is all that is claimed of a call.
pub Leaves-state : {A S : Type 0} {P : S → Type 0} (x : Result A × S) → P x.1 → Leaves P Any x
Leaves-state (ok a, s) p = record { state = p; value = tt }
Leaves-state (err e, s) p = record { state = p; value = tt }

module _ {A B S : Type 0} {P : S → Type 0} {R : B → Type 0} (Q : A → Type 0) where
  pub Leaves-bind :
      (x : Result A × S) (f : A → S → Result B × S)
      → Leaves P Q x
      → ((a : A) (s : S) → Q a → P s → Leaves P R (f a s))
      → Leaves P R (continue x f)
  Leaves-bind (ok a, s) f hx hf = hf a s hx.value hx.state
  Leaves-bind (err e, s) f hx hf = record { state = hx.state; value = tt }

pub if-keeps :
    {A : Type 0} (P : A → Type 0) (b : Bool) (x y : A) → P x → P y → P (if b then x else y)
if-keeps P true x y hx hy = hx
if-keeps P false x y hx hy = hy
