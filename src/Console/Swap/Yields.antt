-- ===== src/Console/Swap/Yields.antt =====
-- src/console/migration.ts: how what holds after a step follows from what holds before it, when each
-- step may return, throw or, in the model's loops, run out of fuel.
use hx_fortress.Prelude.{◌≡◌, refl, Bool, true, false, if◌then◌else◌, nat_eq, text_eq}
use hx_fortress.Console.Swap.{Run, Answer, got, threw, out_of_fuel, Step, continue}

-- What holds of a run when a step returns, and what holds of it otherwise.
abbrev pub Yields :
    {W A : Type 0} → (Run W → Type 0) → (A → Run W → Type 0) → Run W × Answer A → Type 0
Yields P Q (r, got a) = Q a r
Yields P Q (r, threw) = P r
Yields P Q (r, out_of_fuel) = P r

module _ {W A B : Type 0} (P : Run W → Type 0) where
  pub continue-Yields :
      (Q : A → Run W → Type 0) (R : B → Run W → Type 0) (next : A → Step W B) (x : Run W × Answer A)
      → Yields P Q x
      → ((a : A) (r : Run W) → Q a r → Yields P R (next a r))
      → Yields P R (continue next x)
  continue-Yields Q R next (r, got a) h k = k a r h
  continue-Yields Q R next (r, threw) h k = h
  continue-Yields Q R next (r, out_of_fuel) h k = h

module _ {W A : Type 0} (P : Run W → Type 0) where
  pub if-Yields :
      (Q : A → Run W → Type 0) (b : Bool) (x y : Run W × Answer A)
      → (b ≡ true → Yields P Q x)
      → (b ≡ false → Yields P Q y)
      → Yields P Q (if b then x else y)
  if-Yields Q true x y h k = h refl
  if-Yields Q false x y h k = k refl

  pub Yields-weaken :
      (P' : Run W → Type 0) (Q R : A → Run W → Type 0) (x : Run W × Answer A)
      → Yields P Q x
      → ((r : Run W) → P r → P' r)
      → ((a : A) (r : Run W) → Q a r → R a r)
      → Yields P' R x
  Yields-weaken P' Q R (r, got a) h p k = k a r h
  Yields-weaken P' Q R (r, threw) h p k = p r h
  Yields-weaken P' Q R (r, out_of_fuel) h p k = p r h

  pub Yields-end :
      (Q : A → Run W → Type 0) (x : Run W × Answer A)
      → Yields P Q x
      → ((a : A) (r : Run W) → Q a r → P r)
      → P x.0
  Yields-end Q (r, got a) h k = k a r h
  Yields-end Q (r, threw) h k = h
  Yields-end Q (r, out_of_fuel) h k = h
