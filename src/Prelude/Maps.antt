-- ===== src/Prelude/Maps.antt =====
-- JavaScript's `Map` as its entries in insertion order.
use Prim.Native.Nat.{ℕ, suc, ◌+◌}
use mathlib.Core.Path.{◌≡◌, refl, subst}
use mathlib.Core.Bool.{Bool, false}
use mathlib.Core.Logic.{inl, inr}
use mathlib.Core.List.{List, [], ◌∷◌}
use mathlib.Core.Option.{Option, none, some}
use native.Mathlib.Omega.{arith}
use hx_fortress.Prelude.Tests.{Eq, if◌then◌else◌, ◌==◌, Bool-cases, beq_refl}
use hx_fortress.Prelude.Lists.{length}

-- Sweeping loops: `for (const [k, v] of m) if (drop(v)) m.delete(k)`.
module _ {ℓ} {A : Type ℓ} {V : Type 0} where
  unfoldable pub prune : (V → Bool) → List (A × V) → List (A × V)
  prune drop [] = []
  prune drop ((j, w) ∷ m) = if drop w then prune drop m else (j, w) ∷ prune drop m

  -- How many entries such a loop deletes.
  unfoldable pub pruned : (V → Bool) → List (A × V) → ℕ
  pruned drop [] = 0
  pruned drop ((j, w) ∷ m) = if drop w then suc (pruned drop m) else pruned drop m

  pub prune-pruned :
      (drop : V → Bool) (m : List (A × V)) → length (prune drop m) + pruned drop m ≡ length m
  unfolding prune pruned
  prune-pruned drop [] = omega arith
  prune-pruned drop ((j, w) ∷ m) = ground (arith, prune-pruned drop m)

-- What a sweep leaves of an entry.
abbrev pub kept_if {ℓ} : {V : Type ℓ} → (V → Bool) → Option V → Option V
kept_if drop none = none
kept_if drop (some v) = if drop v then none else some v

pub kept_if-ext {ℓ} :
    {V : Type ℓ} (p q : V → Bool) (o : Option V) → ((v : V) → p v ≡ q v) → kept_if p o ≡ kept_if q o
kept_if-ext p q none h = refl
kept_if-ext p q (some v) h = rw (h v) refl

module _ {V : Type 0} {K : Type 0} ⦃e : Eq K⦄ where
  unfoldable pub get : K → List (K × V) → Option V
  get k [] = none
  get k ((j, w) ∷ m) = if j == k then some w else get k m

  -- An update keeps the entry's place; a new key goes to the end.
  unfoldable pub set : K → V → List (K × V) → List (K × V)
  set k v [] = (k, v) ∷ []
  set k v ((j, w) ∷ m) = if j == k then (j, v) ∷ m else (j, w) ∷ set k v m

  unfoldable pub delete : K → List (K × V) → List (K × V)
  delete k [] = []
  delete k ((j, w) ∷ m) = if j == k then delete k m else (j, w) ∷ delete k m

  -- No key twice: what a `Map` is, over this list of entries.
  abbrev pub IsMap : List (K × V) → Type 0
  IsMap [] = Unit {0}
  IsMap ((j, w) ∷ m) = (get j m ≡ none) × IsMap m

  pub get-set :
      (k j : K) (v : V) (m : List (K × V))
      → get j (set k v m) ≡ (if k == j then some v else get j m)
  unfolding get set
  get-set k j v [] = refl
  get-set k j v ((i, w) ∷ m) =
      ground (arith, e.beq_iff k j, e.beq_iff i k, e.beq_iff i j, get-set k j v m)

  pub get-set_self : (k : K) (v : V) (m : List (K × V)) → get k (set k v m) ≡ some v
  get-set_self k v m = rw (get-set k k v m, beq_refl k)

  pub get-set_ne :
      (k j : K) (v : V) (m : List (K × V)) → (k == j) ≡ false → get j (set k v m) ≡ get j m
  get-set_ne k j v m h = rw (get-set k j v m, h)

  pub get-delete :
      (k j : K) (m : List (K × V)) → get j (delete k m) ≡ (if k == j then none else get j m)
  unfolding get delete
  get-delete k j [] = ground arith
  get-delete k j ((i, w) ∷ m) =
      ground (arith, e.beq_iff k j, e.beq_iff i k, e.beq_iff i j, get-delete k j m)

  get-set-none :
      (k j : K) (v : V) (m : List (K × V))
      → get j m ≡ none
      → (k == j) ≡ false
      → get j (set k v m) ≡ none
  get-set-none k j v m h n = ground (arith, get-set k j v m)

  pub set-IsMap : (k : K) (v : V) (m : List (K × V)) → IsMap m → IsMap (set k v m)
  unfolding get set
  set-IsMap k v [] h = (refl, tt)
  set-IsMap k v ((i, w) ∷ m) h = elim (Bool-cases (i == k)) [
    | inl same ↦ rw same h
    | inr other ↦
        rw other
          (ground (arith, get-set k i v m, e.beq_iff k i, e.beq_iff i k), set-IsMap k v m h.1)
  ]

  pub delete-IsMap : (k : K) (m : List (K × V)) → IsMap m → IsMap (delete k m)
  unfolding get delete
  delete-IsMap k [] h = tt
  delete-IsMap k ((i, w) ∷ m) h = elim (Bool-cases (i == k)) [
    | inl same ↦ rw same (delete-IsMap k m h.1)
    | inr other ↦ rw other (ground (arith, get-delete k i m), delete-IsMap k m h.1)
  ]

  get-prune-none :
      (drop : V → Bool) (k : K) (m : List (K × V)) → get k m ≡ none → get k (prune drop m) ≡ none
  unfolding get prune
  get-prune-none drop k [] h = refl
  get-prune-none drop k ((i, w) ∷ m) h = ground (arith, get-prune-none drop k m)

  -- A sweep removes the entries that it is meant to, and no other.
  pub get-prune :
      (drop : V → Bool) (k : K) (m : List (K × V))
      → IsMap m
      → get k (prune drop m) ≡ kept_if drop (get k m)
  unfolding get prune
  get-prune drop k [] h = refl
  get-prune drop k ((i, w) ∷ m) h =
      ground (arith, get-prune drop k m h.1, e.beq_iff i k, get-prune-none drop k m)

  pub prune-IsMap : (drop : V → Bool) (m : List (K × V)) → IsMap m → IsMap (prune drop m)
  unfolding get prune
  prune-IsMap drop [] h = tt
  prune-IsMap drop ((i, w) ∷ m) h = elim (Bool-cases (drop w)) [
    | inl gone ↦ rw gone (prune-IsMap drop m h.1)
    | inr kept ↦ rw kept (get-prune-none drop i m h.0, prune-IsMap drop m h.1)
  ]

-- A property of every value of a map.
abbrev pub AllValues {ℓ} : {A : Type ℓ} {V : Type 0} → (V → Type 0) → List (A × V) → Type 0
AllValues P [] = Unit {0}
AllValues P ((j, w) ∷ m) = P w × AllValues P m

pub prune-AllValues {ℓ} :
    {A : Type ℓ} {V : Type 0} (P : V → Type 0) (drop : V → Bool) (m : List (A × V))
    → AllValues P m
    → AllValues P (prune drop m)
unfolding prune
prune-AllValues P drop [] h = tt
prune-AllValues P drop ((j, w) ∷ m) h = elim (Bool-cases (drop w)) [
  | inl gone ↦ rw gone (prune-AllValues P drop m h.1)
  | inr kept ↦ rw kept (h.0, prune-AllValues P drop m h.1)
]

pub AllValues-mono {ℓ} :
    {A : Type ℓ} {V : Type 0} (P Q : V → Type 0) (m : List (A × V))
    → ((v : V) → P v → Q v)
    → AllValues P m
    → AllValues Q m
AllValues-mono P Q [] f h = tt
AllValues-mono P Q ((j, w) ∷ m) f h = (f w h.0, AllValues-mono P Q m f h.1)

module _ {V : Type 0} {K : Type 0} ⦃e : Eq K⦄ (P : V → Type 0) where
  pub set-AllValues :
      (k : K) (v : V) (m : List (K × V)) → P v → AllValues P m → AllValues P (set k v m)
  unfolding set
  set-AllValues k v [] p h = (p, tt)
  set-AllValues k v ((j, w) ∷ m) p h = elim (Bool-cases (j == k)) [
    | inl same ↦ rw same (p, h.1)
    | inr other ↦ rw other (h.0, set-AllValues k v m p h.1)
  ]

  pub delete-AllValues : (k : K) (m : List (K × V)) → AllValues P m → AllValues P (delete k m)
  unfolding delete
  delete-AllValues k [] h = tt
  delete-AllValues k ((j, w) ∷ m) h = elim (Bool-cases (j == k)) [
    | inl same ↦ rw same (delete-AllValues k m h.1)
    | inr other ↦ rw other (h.0, delete-AllValues k m h.1)
  ]

  pub get-AllValues : (k : K) (v : V) (m : List (K × V)) → AllValues P m → get k m ≡ some v → P v
  unfolding get
  get-AllValues k v [] h e = absurd (cc)
  get-AllValues k v ((j, w) ∷ m) h e = elim (Bool-cases (j == k)) [
    | inl same ↦ let q : w ≡ v = cc (rw same at e) in subst P q h.0
    | inr other ↦ get-AllValues k v m h.1 (rw other at e)
  ]
