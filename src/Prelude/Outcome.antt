-- ===== src/Prelude/Outcome.antt =====
-- What holds of every value that a partial computation gives.
use mathlib.Core.Path.{◌≡◌, refl, subst}
use mathlib.Core.Bool.{Bool, true, false}
use mathlib.Core.Option.{Option, none, some}
use re_terminal.Prelude.Tests.{if◌then◌else◌}

pub record Gives {ℓ κ} {A : Type ℓ} (P : A → Type κ) (o : Option A) : Type (ℓ ⊔ κ) where
  pub holds : (a : A) → o ≡ some a → P a

module _ {ℓ κ} {A : Type ℓ} (P : A → Type κ) where
  pub Gives-none : Gives P none
  Gives-none = record { holds = λ a e. cc }

  pub Gives-some : (a : A) → P a → Gives P (some a)
  Gives-some a p = record { holds = λ b e. subst P {x = a} {y = b} (cc) p }

  -- The branches may use the test.
  pub Gives-if :
      (b : Bool) (m n : Option A)
      → (b ≡ true → Gives P m)
      → (b ≡ false → Gives P n)
      → Gives P (if b then m else n)
  Gives-if true m n p q = p refl
  Gives-if false m n p q = q refl
