-- ===== src/Prelude/Texts.antt =====
-- JavaScript strings as the list of their code units.
use Prim.Native.Nat.{ℕ}
use Prim.Native.Char.{code}
use Prim.Native.String.{String}
use mathlib.Core.Path.{◌≡◌, refl}
use mathlib.Core.Logic.{◌↔◌}
use mathlib.Core.Bool.{Bool, true, false, ◌&&◌}
use mathlib.Core.List.{List, [], ◌∷◌, ◌++◌}
use native.Mathlib.Omega.{arith}
use hx_fortress.Prelude.Tests.{Eq, nat_beq}

abbrev pub Text : Type 0
Text = List ℕ

-- A string literal of the source.
abbrev pub codes : String → Text
codes String.[] = []
codes (String.◌∷◌ c s) = code c ∷ codes s

unfoldable pub text_beq : Text → Text → Bool
text_beq [] [] = true
text_beq [] (y ∷ ys) = false
text_beq (x ∷ xs) [] = false
text_beq (x ∷ xs) (y ∷ ys) = nat_beq x y && text_beq xs ys

text_beq_sound : (xs ys : Text) → text_beq xs ys ≡ true → xs ≡ ys
unfolding text_beq
text_beq_sound [] [] h = refl
text_beq_sound [] (y ∷ ys) h = ground arith
text_beq_sound (x ∷ xs) [] h = ground arith
text_beq_sound (x ∷ xs) (y ∷ ys) h = ground (arith, text_beq_sound xs ys)

text_beq_refl : (xs : Text) → text_beq xs xs ≡ true
unfolding text_beq
text_beq_refl [] = refl
text_beq_refl (x ∷ xs) = ground (arith, text_beq_refl xs)

pub text_beq_iff : (xs ys : Text) → (text_beq xs ys ≡ true) ↔ (xs ≡ ys)
text_beq_iff xs ys = (text_beq_sound xs ys, λ e. rw e (text_beq_refl ys))

instance abbrev pub text_eq : Eq Text
text_eq = record { beq = text_beq; beq_iff = text_beq_iff }

-- A separator that no left part holds: the parts of a joined key can be told apart.
abbrev pub IsFree : ℕ → Text → Type 0
IsFree c [] = Unit {0}
IsFree c (x ∷ xs) = (x ≡ c → ⊥) × IsFree c xs

pub append-separator :
    (c : ℕ) (xs ys us vs : Text)
    → IsFree c xs
    → IsFree c ys
    → xs ++ c ∷ us ≡ ys ++ c ∷ vs
    → (xs ≡ ys) × (us ≡ vs)
append-separator c [] [] us vs h k e = (refl, cc)
append-separator c [] (y ∷ ys) us vs h k e = absurd (k.0 (cc))
append-separator c (x ∷ xs) [] us vs h k e = absurd (h.0 (cc))
append-separator c (x ∷ xs) (y ∷ ys) us vs h k e =
    let r : (xs ≡ ys) × (us ≡ vs) = append-separator c xs ys us vs h.1 k.1 (cc) in
    (ground arith, r.1)
