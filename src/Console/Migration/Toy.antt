-- ===== src/Console/Migration/Toy.antt =====
-- A store in memory, which honours the contract: for the concrete runs.
use hx_fortress.Prelude.{
  ℕ, ◌≡◌, refl, sym, ap, subst, inl, inr, true, false, ◌&&◌, Option, none, some, List, [], ◌∷◌,
  arith, if◌then◌else◌, Bool-cases, nat_eq, length, any, Among, Text, text_beq, text_beq_iff,
  text_eq,
}
use hx_fortress.Console.Migration.{SessionKey, key_beq, key_beq_iff, Store}
use hx_fortress.Console.Migration.Contract.{is_deleted_with, Honours, Measures}
use hx_fortress.Console.Migration.Succeeds.{Keeps}

pub record Sidecar : Type 0 where
  pub key : SessionKey
  pub name : Text
  pub text : Text

pub record Memory : Type 0 where
  pub all_keys : List SessionKey
  pub canonical : SessionKey → Option Text
  pub sidecars : List Sidecar

abbrev size_of : Option Text → Option ℕ
size_of none = none
size_of (some x) = some (length x)

unfoldable pub read_side : List Sidecar → SessionKey → Text → Option Text
read_side [] key name = none
read_side (s ∷ sides) key name =
    let rest = read_side sides key name in
    if key_beq s.key key && text_beq s.name name then some s.text else rest

unfoldable pub names_of : List Sidecar → SessionKey → List Text
names_of [] key = []
names_of (s ∷ sides) key =
    let rest = names_of sides key in if key_beq s.key key then s.name ∷ rest else rest

unfoldable pub without : SessionKey → List Sidecar → List Sidecar
without key [] = []
without key (s ∷ sides) =
    let rest = without key sides in if is_deleted_with key s.key then rest else s ∷ rest

abbrev pub memory_store : Store
memory_store = record {
  State = Memory;
  keys = λ m. Memory.all_keys m;
  stat = λ m key. size_of (Memory.canonical m key);
  read_canonical = λ m key. Memory.canonical m key;
  write_canonical = λ m key x. record m {
    canonical = λ j. if key_beq key j then some x else Memory.canonical m j;
  };
  artifacts = λ m key. names_of (Memory.sidecars m) key;
  read_artifact = λ m key name. read_side (Memory.sidecars m) key name;
  write_artifact = λ m key name x. record m {
    sidecars = record { key = key; name = name; text = x } ∷ Memory.sidecars m;
  };
  delete_session = λ m key. (
    record m {
      canonical = λ j. if is_deleted_with key j then none else Memory.canonical m j;
      sidecars = without key (Memory.sidecars m);
    },
    true,
  );
}

key_apart : (k j : SessionKey) → (k ≡ j → ⊥) → key_beq k j ≡ false
key_apart k j n = elim (Bool-cases (key_beq k j)) [
  | inl same ↦ absurd (n ((key_beq_iff k j).0 same))
  | inr apart ↦ apart
]

read_side-without :
    (k j : SessionKey) (name : Text) (sides : List Sidecar)
    → is_deleted_with k j ≡ false
    → read_side (without k sides) j name ≡ read_side sides j name
unfolding read_side without
read_side-without k j name [] n = refl
read_side-without k j name (s ∷ sides) n =
    let rest = read_side-without k j name sides n in
    elim (Bool-cases (is_deleted_with k s.key)) [
      | inl gone ↦
          let apart : key_beq s.key j ≡ false =
            key_apart s.key j
              (λ e. ground (arith, n, subst (λ i. is_deleted_with k i ≡ true) e gone)) in
          ground (arith, gone, apart, rest)
      | inr kept ↦ ground (arith, kept, rest)
    ]

read_side-listed :
    (sides : List Sidecar) (key : SessionKey) (name x : Text)
    → read_side sides key name ≡ some x
    → any (λ r. text_beq r name) (names_of sides key) ≡ true
unfolding read_side names_of any
read_side-listed [] key name x h = absurd (cc)
read_side-listed (s ∷ sides) key name x h = elim (Bool-cases (key_beq s.key key)) [
  | inl at ↦ elim (Bool-cases (text_beq s.name name)) [
    | inl same ↦ ground (arith, at, same)
    | inr other ↦
        ground (arith, at, other, read_side-listed sides key name x (ground (arith, at, other, h)))
  ]
  | inr apart ↦ ground (arith, apart, read_side-listed sides key name x (ground (arith, apart, h)))
]

pub read_side-named :
    (sides : List Sidecar) (key : SessionKey) (name : Text)
    → Among name (names_of sides key)
    → (x : Text) × (read_side sides key name ≡ some x)
unfolding read_side names_of
read_side-named [] key name there = elim there [ ]
read_side-named (s ∷ sides) key name there = elim (Bool-cases (key_beq s.key key)) [
  | inr apart ↦
      let rest = read_side-named sides key name (rw apart at there) in
      (rest.0, ground (arith, apart, rest.1))
  | inl at ↦ elim (Bool-cases (text_beq s.name name)) [
    | inl same ↦ (s.text, ground (arith, at, same))
    | inr other ↦ elim (rw at at there) [
      | inl e ↦ absurd (ground (arith, other, (text_beq_iff s.name name).1 (sym e)))
      | inr later ↦
          let rest = read_side-named sides key name later in
          (rest.0, ground (arith, at, other, rest.1))
    ]
  ]
]

pub memory_store-Honours : Honours length memory_store
unfolding read_side
memory_store-Honours = record {
  stat_written = λ t k x. ground (arith, (key_beq_iff k k).1 refl);
  write_elsewhere = λ t k j x n. ground (arith, key_apart k j n);
  write_sidecars = λ t k j x name. refl;
  sidecar_stat = λ t k j name x. refl;
  sidecar_canonical = λ t k j name x. refl;
  sidecar_elsewhere = λ t k j name x other n. ground (arith, key_apart k j n);
  sidecar_other = λ t k name x other n. elim (Bool-cases (text_beq name other)) [
    | inl same ↦ absurd (n ((text_beq_iff name other).0 same))
    | inr apart ↦ ground (arith, apart)
  ];
  delete_stat = λ t k j n. ground (arith, n);
  delete_sidecars = λ t k j name n. read_side-without k j name t.sidecars n;
  delete_complete = λ t k j c w. ground (arith, w);
  sidecar_listed = λ t k name x h. read_side-listed t.sidecars k name x h;
}

pub memory_store-Keeps : Keeps memory_store
unfolding read_side
memory_store-Keeps = record {
  read_written = λ t k x. ground (arith, (key_beq_iff k k).1 refl);
  sidecar_written =
      λ t k name x. ground (arith, (key_beq_iff k k).1 refl, (text_beq_iff name name).1 refl);
}

pub memory_store-Measures : (source : Memory) → Measures length memory_store source
memory_store-Measures source = record { stat_read = λ k x h. ap size_of h }
