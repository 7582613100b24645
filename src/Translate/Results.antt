-- ===== src/Translate/Results.antt =====
-- Predicates of the results of the runs that end by one.
use re_terminal.Prelude.{◌≡◌, refl, Bool, true, false, if◌then◌else◌}
use re_terminal.Prelude.Int.{ℤ}
use re_terminal.Translate.{Run, done, failed, asserts, out_of_fuel}

-- What holds of the result of a run that ends by one.
abbrev pub Results {ℓ κ} : {A : Type ℓ} → (A → Type κ) → Run A → Type κ
Results P (done a) = P a
Results P (failed status) = Unit
Results P asserts = Unit
Results P out_of_fuel = Unit

pub Results-if {ℓ κ} :
    {A : Type ℓ} (P : A → Type κ) (b : Bool) (x y : Run A)
    → (b ≡ true → Results P x)
    → (b ≡ false → Results P y)
    → Results P (if b then x else y)
Results-if P true x y p q = p refl
Results-if P false x y p q = q refl

pub Results-map {ℓ κ μ} :
    {A : Type ℓ} (P : A → Type κ) (Q : A → Type μ) (r : Run A)
    → ((a : A) → P a → Q a)
    → Results P r
    → Results Q r
Results-map P Q (done a) f h = f a h
Results-map P Q (failed status) f h = tt
Results-map P Q asserts f h = tt
Results-map P Q out_of_fuel f h = tt

-- Behind a guard that fails.
pub Results-guard {ℓ κ} :
    {A : Type ℓ} (P : A → Type κ) (b : Bool) (status : ℤ) (y : Run A)
    → Results P y
    → Results P (if b then failed status else y)
Results-guard P true status y h = tt
Results-guard P false status y h = h
