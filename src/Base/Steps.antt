-- ===== src/Base/Steps.antt =====
-- What holds of the result of a fallible step, if there is one.
use mathlib.Core.Path.{◌≡◌, refl, subst}
use mathlib.Core.Option.{Option, none, some}
use mathlib.Core.Bool.{Bool, true, false}
use mybmm.Base.Tests.{if◌then◌else◌}
use mybmm.Base.Buffers.{◌>>=◌}

abbrev pub Yields {ℓ κ} : {A : Type ℓ} → (A → Type κ) → Option A → Type κ
Yields P none = Unit
Yields P (some a) = P a

module _ {ℓ κ} {A : Type ℓ} (P : A → Type κ) where
  pub Yields-some : (m : Option A) (a : A) → Yields P m → m ≡ some a → P a
  Yields-some m a y e = subst (Yields P) e y

  module _ {ℓ'} {B : Type ℓ'} where
    pub Yields-bind {κ'} :
        (Q : B → Type κ') (m : Option B) (f : B → Option A)
        → Yields Q m
        → ((b : B) → Q b → Yields P (f b))
        → Yields P (m >>= f)
    Yields-bind Q none f y next = tt
    Yields-bind Q (some b) f y next = next b y

    pub Yields-any :
        (m : Option B) (f : B → Option A) → ((b : B) → Yields P (f b)) → Yields P (m >>= f)
    Yields-any none f next = tt
    Yields-any (some b) f next = next b

  pub Yields-if :
      (b : Bool) (m n : Option A) → Yields P m → Yields P n → Yields P (if b then m else n)
  Yields-if true m n y z = y
  Yields-if false m n y z = z

  pub Yields-weaker {κ'} :
      (Q : A → Type κ') (m : Option A) → ((a : A) → P a → Q a) → Yields P m → Yields Q m
  Yields-weaker Q none h y = tt
  Yields-weaker Q (some a) h y = h a y

-- The step succeeds, and its result is as said.
abbrev pub Gives {ℓ} : {A : Type ℓ} → (A → Type 0) → Option A → Type 0
Gives P none = ⊥
Gives P (some a) = P a

module _ {ℓ} {A : Type ℓ} (P : A → Type 0) where
  pub Gives-bind {ℓ'} :
      {B : Type ℓ'} (Q : B → Type 0) (m : Option B) (f : B → Option A)
      → Gives Q m
      → ((b : B) → Q b → Gives P (f b))
      → Gives P (m >>= f)
  Gives-bind Q none f y next = absurd y
  Gives-bind Q (some b) f y next = next b y

  pub Gives-weaker : (Q : A → Type 0) (m : Option A) → ((a : A) → P a → Q a) → Gives P m → Gives Q m
  Gives-weaker Q none h y = absurd y
  Gives-weaker Q (some a) h y = h a y

  -- with its result
  pub Gives-some : (m : Option A) → Gives P m → (a : A) × (m ≡ some a) × P a
  Gives-some none y = absurd y
  Gives-some (some a) y = (a, refl, y)
