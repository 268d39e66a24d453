-- ===== src/Prelude/Tries.antt =====
-- What an `await` comes back with: a value, or what was thrown.
use mathlib.Core.Option.{Option, none, some}
use mathlib.Core.Path.{◌≡◌, Path, refl, ap}
use native.Mathlib.Omega.{arith}

pub data Try {ℓ κ} (E : Type κ) (A : Type ℓ) : Type (ℓ ⊔ κ) where
  value : A → Try E A
  thrown : E → Try E A

module _ {ℓ κ μ} {E : Type κ} {A : Type ℓ} {B : Type μ} where
  infixl 5 ◌>>=◌
  abbrev pub ◌>>=◌ : Try E A → (A → Try E B) → Try E B
  thrown e >>= next = thrown e
  value a >>= next = next a

-- `null` where the code throws instead.
abbrev pub or_throw {ℓ κ} : {E : Type κ} {A : Type ℓ} → Option A → E → Try E A
or_throw none e = thrown e
or_throw (some a) e = value a

-- What came back came through both.
pub value-bound {ℓ κ μ} :
    {E : Type κ} {A : Type ℓ} {B : Type μ} (m : Try E A) (next : A → Try E B) (b : B)
    → (m >>= next) ≡ value b
    → (a : A) × ((m ≡ value a) × (next a ≡ value b))
value-bound (value a) next b e = (a, (refl, e))
value-bound (thrown x) next b e = ground (arith, e)

pub or_throw-value {ℓ κ} :
    {E : Type κ} {A : Type ℓ} (found : Option A) (e : E) (a : A)
    → or_throw found e ≡ value a
    → found ≡ some a
or_throw-value none e a same = ground (arith, same)
or_throw-value (some b) e a same = ground (arith, same)

pub value-inj {ℓ κ} :
    {E : Type κ} {A : Type ℓ} (a b : A) → Path (Try E A) (value a) (value b) → a ≡ b
value-inj a b same = ap (λ t. elim t [ value x ↦ x | thrown e ↦ a ]) same
