-- ===== src/Console/Migration/Whole.antt =====
-- src/console/migration.ts, what the cut runs inside the pause, the final delta pass and the replay of
-- the permanent deletes, against what the verification looks for afterwards.
use hx_fortress.Prelude.{
  ℕ, ◌≡◌, refl, ◌∙◌, inl, inr, true, false, some, List, [], ◌∷◌, arith, Option-cases, nat_eq, Among,
  Text, text_eq, value,
}
use hx_fortress.Console.Migration.{
  SessionKey, Store, target_is_current, sidecars_current, Progress, delta_pass, replay_tombstones,
  missing_sidecars, verify_session, verify_keys, verify_target,
}
use hx_fortress.Console.Migration.Contract.{is_deleted_with, Honours, Measures, Lists}
use hx_fortress.Console.Migration.Delta.{IsNamed}
use hx_fortress.Console.Migration.Passes.{delta_pass-current}
use hx_fortress.Console.Migration.Verified.{replay-current}

module _ (sha256 : Text → Text) (byte_length : Text → ℕ) (S T : Store) (source : S.State) where
  -- Sidecars that are current, and that the source can read, are not missing.
  none_missing :
      Honours byte_length T
      → (key : SessionKey) (u : T.State) (names : List Text)
      → ((name : Text) → Among name names → (x : Text) × (S.read_artifact source key name ≡ some x))
      → sidecars_current sha256 byte_length S T source key names u ≡ true
      → missing_sidecars key (T.artifacts u key) names ≡ []
  unfolding sidecars_current missing_sidecars
  none_missing laws key u [] reads h = refl
  none_missing laws key u (name ∷ names) reads h =
      let here = reads name (inl refl) in
      elim (Option-cases (T.read_artifact u key name)) [
        | inl gone ↦ absurd (ground (arith, here.1, gone, h))
        | inr there ↦
            let rest =
              none_missing laws key u names (λ other at. reads other (inr at))
                (ground (arith, here.1, there.1, h)) in
            ground (arith, laws.sidecar_listed u key name there.0 there.1, rest)
      ]

  current-verified :
      Honours byte_length T
      → Lists S source
      → (key : SessionKey) (u : T.State) → Among key (S.keys source)
      → target_is_current sha256 byte_length S T source key true u ≡ true
      → verify_session sha256 byte_length S T source key u ≡ []
  unfolding target_is_current verify_session
  current-verified laws lists key u at h =
      let wanted = lists.listed key at in
      elim (Option-cases (T.stat u key)) [
        | inl gone ↦ absurd (ground (arith, wanted.1, gone, h))
        | inr there ↦
            let rest =
              none_missing laws key u (S.artifacts source key) (lists.readable key)
                (ground (arith, wanted.1, there.1, h)) in
            let size : there.0 ≡ wanted.0 = ground (arith, wanted.1, there.1, h) in
            ground (arith, wanted.1, there.1, size, rest)
      ]

  all-verified :
      (keys : List SessionKey) (u : T.State)
      → ((k : SessionKey) → Among k keys → verify_session sha256 byte_length S T source k u ≡ [])
      → verify_keys sha256 byte_length S T source keys u ≡ []
  unfolding verify_keys
  all-verified [] u h = refl
  all-verified (key ∷ keys) u h =
      ground (arith, h key (inl refl), all-verified keys u (λ k at. h k (inr at)))

  module _ (laws : Honours byte_length T) (measured : Measures byte_length S source)
      (lists : Lists S source) where
    -- Once the final delta pass and then the replay of the permanent deletes have ended without an
    -- error, the verification finds nothing missing: no session, no shorter canonical, no sidecar. The
    -- source lists no session that a tombstone names and no lane of one, and the user ids and families
    -- have no slash.
    pub final_pass-verified :
        (tombstones : List SessionKey) (p q : Progress T) (u : T.State)
        → ((j : SessionKey) → Among j (S.keys source) → IsNamed j)
        → ((j k : SessionKey)
            → Among j (S.keys source)
            → Among k tombstones
            → is_deleted_with k j ≡ false)
        → delta_pass sha256 byte_length S T source true p ≡ value q
        → replay_tombstones sha256 byte_length S T source tombstones q.target ≡ value u
        → verify_target sha256 byte_length S T source u ≡ []
    unfolding verify_target
    final_pass-verified tombstones p q u named apart passed replayed =
        all-verified (S.keys source) u (λ k at. current-verified laws lists k u at (
          replay-current sha256 byte_length S T source laws tombstones q.target u k true replayed
            (λ gone named_gone. apart k gone at named_gone)
          ∙ delta_pass-current sha256 byte_length S T source laws measured true p q k named passed
              at))
