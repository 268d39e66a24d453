-- ===== src/Console/Migration/Copying.antt =====
-- src/console/migration.ts, `copySession`: what holds of the target once a copy has been made.
use hx_fortress.Prelude.{
  ℕ, ◌≡◌, refl, ap, subst, ◌∙◌, ◌⊎◌, inl, inr, Bool, true, none, some, List, [], ◌∷◌, arith,
  Bool-cases, Option-cases, nat_eq, Text, text_beq, text_beq_iff, text_eq, value,
}
use hx_fortress.Console.Migration.{
  SessionKey, key_eq, Store, arrived, copy_artifacts, sidecars_current, target_is_current,
}
use hx_fortress.Console.Migration.Contract.{Honours}

module _ (sha256 : Text → Text) (byte_length : Text → ℕ) (S T : Store) (source : S.State) where
  -- Two states of the target that agree on a session's size and sidecars are as current as each other.
  sidecars_current-agree :
      (t u : T.State) (key : SessionKey)
      → ((name : Text) → T.read_artifact u key name ≡ T.read_artifact t key name)
      → (names : List Text)
      → sidecars_current sha256 byte_length S T source key names u
        ≡ sidecars_current sha256 byte_length S T source key names t
  unfolding sidecars_current
  sidecars_current-agree t u key h [] = refl
  sidecars_current-agree t u key h (name ∷ names) =
      let rest = sidecars_current-agree t u key h names in
      elim (Option-cases (S.read_artifact source key name)) [
        | inl gone ↦ ground (arith, gone, rest)
        | inr there ↦ ground (arith, there.1, h name, rest)
      ]

  pub target_is_current-agree :
      (t u : T.State) (key : SessionKey) (also : Bool)
      → ((name : Text) → T.read_artifact u key name ≡ T.read_artifact t key name)
      → T.stat u key ≡ T.stat t key
      → target_is_current sha256 byte_length S T source key also u
        ≡ target_is_current sha256 byte_length S T source key also t
  unfolding target_is_current
  target_is_current-agree t u key also h e = elim (Option-cases (S.stat source key)) [
    | inl gone ↦ ground (arith, gone)
    | inr there ↦
        ground (arith, there.1, e, sidecars_current-agree t u key h (S.artifacts source key))
  ]

  pub copy_artifacts-step :
      (t u : T.State) (key : SessionKey) (name : Text) (names : List Text)
      → copy_artifacts sha256 byte_length S T source key (name ∷ names) t ≡ value u
      → ((S.read_artifact source key name ≡ none)
          × (copy_artifacts sha256 byte_length S T source key names t ≡ value u))
        ⊎ ((x : Text) × ((S.read_artifact source key name ≡ some x)
              × ((arrived sha256 byte_length S T source
                      (T.read_artifact (T.write_artifact t key name x) key name)
                      x
                    ≡ true)
                  × (copy_artifacts sha256 byte_length S T source key names
                        (T.write_artifact t key name x)
                      ≡ value u))))
  unfolding copy_artifacts
  copy_artifacts-step t u key name names h = elim (Option-cases (S.read_artifact source key name)) [
    | inl gone ↦ inl (gone, ground (arith, gone, h))
    | inr there ↦
        elim (Bool-cases (
          arrived sha256 byte_length S T source
            (T.read_artifact (T.write_artifact t key name there.0) key name) there.0)) [
              | inl landed ↦ inr (there.0, (there.1, (landed, ground (arith, there.1, landed, h))))
              | inr lost ↦ absurd (ground (arith, there.1, lost, h))
            ]
  ]

  module _ (laws : Honours byte_length T) where
    -- A sidecar that arrives leaves those that had arrived.
    write-sidecars_current :
        (t : T.State) (key : SessionKey) (name x : Text)
        → S.read_artifact source key name ≡ some x
        → arrived sha256 byte_length S T source
            (T.read_artifact (T.write_artifact t key name x) key name)
            x
          ≡ true
        → (names : List Text) → sidecars_current sha256 byte_length S T source key names t ≡ true
        → sidecars_current sha256 byte_length S T source key names (T.write_artifact t key name x)
          ≡ true
    unfolding sidecars_current
    write-sidecars_current t key name x e a [] h = refl
    write-sidecars_current t key name x e a (other ∷ names) h =
        let rest = write-sidecars_current t key name x e a names in
        elim (Option-cases (S.read_artifact source key other)) [
          | inl gone ↦ ground (arith, gone, rest)
          | inr there ↦ elim (Bool-cases (text_beq name other)) [
            | inl same ↦
                let at : name ≡ other = (text_beq_iff name other).0 same in
                ground (arith, at, there.1, e, a, rest)
            | inr apart ↦
                let kept =
                  laws.sidecar_other t key name x other
                    (λ at. ground (arith, apart, (text_beq_iff name other).1 at)) in
                ground (arith, there.1, kept, rest)
          ]
        ]

    copy_artifacts-keeps :
        (key : SessionKey) (names : List Text) (t u : T.State)
        → copy_artifacts sha256 byte_length S T source key names t ≡ value u
        → (all : List Text) → sidecars_current sha256 byte_length S T source key all t ≡ true
        → sidecars_current sha256 byte_length S T source key all u ≡ true
    unfolding copy_artifacts
    copy_artifacts-keeps key [] t u h all c =
        let e : t ≡ u = cc in
        subst (λ s. sidecars_current sha256 byte_length S T source key all s ≡ true) e c
    copy_artifacts-keeps key (name ∷ names) t u h all c =
        elim (copy_artifacts-step t u key name names h) [
          | inl gone ↦ copy_artifacts-keeps key names t u gone.1 all c
          | inr there ↦
              copy_artifacts-keeps key names (T.write_artifact t key name there.0) u there.1.1.1 all
                (write-sidecars_current t key name there.0 there.1.0 there.1.1.0 all c)
        ]

    pub copy_artifacts-current :
        (key : SessionKey) (names : List Text) (t u : T.State)
        → copy_artifacts sha256 byte_length S T source key names t ≡ value u
        → sidecars_current sha256 byte_length S T source key names u ≡ true
    unfolding sidecars_current
    copy_artifacts-current key [] t u h = refl
    copy_artifacts-current key (name ∷ names) t u h =
        elim (copy_artifacts-step t u key name names h) [
          | inl gone ↦ ground (arith, gone.0, copy_artifacts-current key names t u gone.1)
          | inr there ↦
              let x = there.0 in
              let written = T.write_artifact t key name x in
              let one : sidecars_current sha256 byte_length S T source key (name ∷ []) written
                  ≡ true =
                ground (arith, there.1.0, there.1.1.0) in
              let first = copy_artifacts-keeps key names written u there.1.1.1 (name ∷ []) one in
              ground
                (arith, there.1.0, first, copy_artifacts-current key names written u there.1.1.1)
        ]

    -- Copying sidecars leaves every canonical, and every other session's sidecars.
    pub copy_artifacts-frame :
        (key : SessionKey) (names : List Text) (t u : T.State)
        → copy_artifacts sha256 byte_length S T source key names t ≡ value u
        → (j : SessionKey)
        → (T.stat u j ≡ T.stat t j)
          × ((T.read_canonical u j ≡ T.read_canonical t j)
              × ((key ≡ j → ⊥)
                  → (other : Text) → T.read_artifact u j other ≡ T.read_artifact t j other))
    unfolding copy_artifacts
    copy_artifacts-frame key [] t u h j =
        let e : u ≡ t = cc in
        (
          ap (λ s. T.stat s j) e,
          (ap (λ s. T.read_canonical s j) e, λ n other. ap (λ s. T.read_artifact s j other) e),
        )
    copy_artifacts-frame key (name ∷ names) t u h j =
        elim (copy_artifacts-step t u key name names h) [
          | inl gone ↦ copy_artifacts-frame key names t u gone.1 j
          | inr there ↦
              let x = there.0 in
              let rest =
                copy_artifacts-frame key names (T.write_artifact t key name x) u there.1.1.1 j in
              (
                rest.0 ∙ laws.sidecar_stat t key j name x,
                (
                  rest.1.0 ∙ laws.sidecar_canonical t key j name x,
                  λ n other. rest.1.1 n other ∙ laws.sidecar_elsewhere t key j name x other n,
                ),
              )
        ]
