-- ===== src/Prelude/Lists.antt =====
-- Lists measured and searched by native numbers and Boolean tests, under the library's names.
use Prim.Native.Nat.{ℕ, suc, ◌+◌}
use mathlib.Core.Path.{◌≡◌, refl, sym, ap, ◌∙◌, subst}
use mathlib.Core.Logic.{◌⊎◌, inl, inr}
use mathlib.Core.Bool.{Bool, true, false, ◌||◌}
use mathlib.Core.List.{List, [], ◌∷◌, ◌++◌}
use mathlib.Core.Option.{Option, none, some}
use native.Mathlib.Omega.{arith}
use hx_fortress.Prelude.Tests.{if◌then◌else◌, Bool-cases}

module _ {ℓ} {A : Type ℓ} where
  abbrev pub length : List A → ℕ
  length [] = 0
  length (x ∷ xs) = suc (length xs)

  -- `Array.prototype.filter`, `some` and `find` with a Boolean test.
  unfoldable pub keep_if : (A → Bool) → List A → List A
  keep_if p [] = []
  keep_if p (x ∷ xs) = if p x then x ∷ keep_if p xs else keep_if p xs

  unfoldable pub any : (A → Bool) → List A → Bool
  any p [] = false
  any p (x ∷ xs) = p x || any p xs

  unfoldable pub find : (A → Bool) → List A → Option A
  find p [] = none
  find p (x ∷ xs) = if p x then some x else find p xs

  abbrev pub All {κ} : (A → Type κ) → List A → Type κ
  All P [] = Unit
  All P (x ∷ xs) = P x × All P xs

  pub length-append : (xs ys : List A) → length (xs ++ ys) ≡ length xs + length ys
  length-append [] ys = omega arith
  length-append (x ∷ xs) ys = omega (arith, length-append xs ys)

module _ {ℓ} {A : Type ℓ} (q : A → Bool) where
  pub find-holds : (xs : List A) (x : A) → find q xs ≡ some x → q x ≡ true
  unfolding find
  find-holds [] x h = absurd (cc)
  find-holds (y ∷ ys) x h = elim (Bool-cases (q y)) [
    | inl hit ↦ let e : y ≡ x = cc (rw hit at h) in subst (λ z. q z ≡ true) e hit
    | inr miss ↦ find-holds ys x (rw miss at h)
  ]

  pub find-none : (xs : List A) → All (λ x. q x ≡ false) xs → find q xs ≡ none
  unfolding find
  find-none [] h = refl
  find-none (y ∷ ys) h = rw h.0 (find-none ys h.1)

  -- What a search finds is there to be found by any test that it passes.
  pub find-some :
      (r : A → Bool) (xs : List A) (x : A)
      → find q xs ≡ some x
      → r x ≡ true
      → (y : A) × (find r xs ≡ some y)
  unfolding find
  find-some r [] x h k = absurd (cc)
  find-some r (y ∷ ys) x h k = elim (Bool-cases (r y)) [
    | inl hit ↦ (y, rw hit)
    | inr miss ↦ elim (Bool-cases (q y)) [
      | inl at ↦ let e : y ≡ x = cc (rw at at h) in absurd (ground (arith, miss, k, ap r e))
      | inr later ↦ rw miss (find-some r ys x (rw later at h) k)
    ]
  ]

module _ {A : Type 0} where
  -- The element is one of the list.
  abbrev pub Among : A → List A → Type 0
  Among x [] = ⊥
  Among x (y ∷ ys) = (x ≡ y) ⊎ Among x ys

  pub Among-append : (x last : A) (xs : List A) → Among x xs → Among x (xs ++ last ∷ [])
  Among-append x last [] there = elim there [ ]
  Among-append x last (y ∷ ys) (inl e) = inl e
  Among-append x last (y ∷ ys) (inr h) = inr (Among-append x last ys h)

  pub Among-last : (x : A) (xs : List A) → Among x (xs ++ x ∷ [])
  Among-last x [] = inl refl
  Among-last x (y ∷ ys) = inr (Among-last x ys)

  pub Among-left : (x : A) (xs ys : List A) → Among x xs → Among x (xs ++ ys)
  Among-left x [] ys there = elim there [ ]
  Among-left x (z ∷ xs) ys (inl e) = inl e
  Among-left x (z ∷ xs) ys (inr there) = inr (Among-left x xs ys there)

  pub Among-right : (x : A) (xs ys : List A) → Among x ys → Among x (xs ++ ys)
  Among-right x [] ys there = there
  Among-right x (z ∷ xs) ys there = inr (Among-right x xs ys there)

  pub Among-either : (x : A) (xs ys : List A) → Among x (xs ++ ys) → Among x xs ⊎ Among x ys
  Among-either x [] ys there = inr there
  Among-either x (z ∷ xs) ys (inl e) = inl (inl e)
  Among-either x (z ∷ xs) ys (inr there) = elim (Among-either x xs ys there) [
    | inl before ↦ inl (inr before)
    | inr after ↦ inr after
  ]

  pub Among-one : (x y : A) → Among x (y ∷ []) → x ≡ y
  Among-one x y (inl e) = e
  Among-one x y (inr there) = elim there [ ]

  pub append_nested : (xs : List A) (x : A) (ys : List A) → (xs ++ x ∷ []) ++ ys ≡ xs ++ x ∷ ys
  append_nested [] x ys = refl
  append_nested (z ∷ xs) x ys = ap (λ rest. z ∷ rest) (append_nested xs x ys)

  pub append_nil : (xs : List A) → xs ++ [] ≡ xs
  append_nil [] = refl
  append_nil (x ∷ xs) = ap (λ rest. x ∷ rest) (append_nil xs)

  pub Among-keep_if :
      (p : A → Bool) (x : A) (xs : List A) → p x ≡ true → Among x xs → Among x (keep_if p xs)
  unfolding keep_if
  Among-keep_if p x [] h there = elim there [ ]
  Among-keep_if p x (y ∷ ys) h (inl e) = let kept : p y ≡ true = ap p (sym e) ∙ h in rw kept (inl e)
  Among-keep_if p x (y ∷ ys) h (inr there) = elim (Bool-cases (p y)) [
    | inl kept ↦ rw kept (inr (Among-keep_if p x ys h there))
    | inr gone ↦ rw gone (Among-keep_if p x ys h there)
  ]

  -- What a filter keeps was there, and passes it.
  pub keep_if-Among :
      (p : A → Bool) (x : A) (xs : List A) → Among x (keep_if p xs) → Among x xs × (p x ≡ true)
  unfolding keep_if
  keep_if-Among p x [] there = elim there [ ]
  keep_if-Among p x (y ∷ ys) there = elim (Bool-cases (p y)) [
    | inr gone ↦ let rest = keep_if-Among p x ys (rw gone at there) in (inr rest.0, rest.1)
    | inl kept ↦ elim (rw kept at there) [
      | inl e ↦ (inl e, ap p e ∙ kept)
      | inr later ↦ let rest = keep_if-Among p x ys later in (inr rest.0, rest.1)
    ]
  ]
