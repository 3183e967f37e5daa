-- ===== src/Base/Outcomes.antt =====
-- A property of what a run returns, if it returns.
use mathlib.Core.Path.{◌≡◌, refl}
use mathlib.Core.Bool.{Bool, true, false}
use mathlib.Core.Option.{Option, none, some}
use nasdaq_itch_order_book_e.Base.Tests.{◌>>=◌, if◌then◌else◌}

pub record Returns {ℓ} {A : Type ℓ} (P : A → Type 0) (run : Option A) : Type ℓ where
  pub result : (a : A) → run ≡ some a → P a

module _ {ℓ} {A : Type ℓ} (P : A → Type 0) where
  pub Returns-some : (a : A) → P a → Returns P (some a)
  Returns-some a p = record { result = λ b e. let same : a ≡ b = cc e in rw same at p }

  pub Returns-none : Returns P none
  Returns-none = record { result = λ b e. cc e }

  pub Returns-if :
      (b : Bool) (x y : Option A) → Returns P x → Returns P y → Returns P (if b then x else y)
  Returns-if true x y p q = p
  Returns-if false x y p q = q

pub Returns-bind {ℓ κ} :
    {A : Type ℓ} {B : Type κ} (P : A → Type 0) (Q : B → Type 0) (run : Option A) (f : A → Option B)
    → Returns P run
    → ((a : A) → P a → Returns Q (f a))
    → Returns Q (run >>= f)
Returns-bind P Q none f r next = Returns-none Q
Returns-bind P Q (some a) f r next = next a (r.result a refl)

-- A step whose result does not matter.
pub Returns-read {ℓ κ} :
    {A : Type ℓ} {B : Type κ} (Q : B → Type 0) (run : Option A) (f : A → Option B)
    → ((a : A) → run ≡ some a → Returns Q (f a))
    → Returns Q (run >>= f)
Returns-read Q none f next = Returns-none Q
Returns-read Q (some a) f next = next a refl
