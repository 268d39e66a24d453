-- ===== src/Console/Migration/Converges.antt =====
-- src/console/migration.ts, the bound on the passes of one permanent delete.
use hx_fortress.Prelude.{
  ℕ, zero, suc, ◌+◌, ◌*◌, ◌≤◌, ◌<◌, ◌≡◌, refl, subst, inl, inr, false, List, [], ◌∷◌, arith,
  Bool-cases, nat_eq, Text, text_eq, value,
}
use hx_fortress.Console.Migration.{
  SessionKey, Store, max_delete_passes, delete_until, replay_tombstones,
}

-- `DELETE_BATCH_LIMIT`: a deletion that is not complete has removed so many objects.
abbrev delete_batch_limit : ℕ
delete_batch_limit = 800

module _ (sha256 : Text → Text) (byte_length : Text → ℕ) (S T : Store) (source : S.State) where
  delete_until-converges :
      (objects : T.State → SessionKey → ℕ)
      → ((t : T.State) (k : SessionKey)
          → (T.delete_session t k).1 ≡ false
          → objects (T.delete_session t k).0 k + delete_batch_limit ≤ objects t k)
      → (passes : ℕ) (key : SessionKey) (t : T.State) → objects t key < passes * delete_batch_limit
      → (u : T.State) × (delete_until sha256 byte_length S T source passes key t ≡ value u)
  unfolding delete_until
  delete_until-converges objects batch zero key t few = absurd (omega (arith, few))
  delete_until-converges objects batch (suc passes) key t few =
      elim (Bool-cases (T.delete_session t key).1) [
        | inl complete ↦ ((T.delete_session t key).0, ground (arith, complete))
        | inr partial ↦
            let rest =
              delete_until-converges objects batch passes key (T.delete_session t key).0
                (omega (arith, batch t key partial, few)) in
            (rest.0, ground (arith, partial, rest.1))
      ]

  delete_until-shrinks :
      (objects : T.State → SessionKey → ℕ)
      → ((t : T.State) (k j : SessionKey) → objects (T.delete_session t k).0 j ≤ objects t j)
      → (passes : ℕ) (key j : SessionKey) (t u : T.State)
      → delete_until sha256 byte_length S T source passes key t ≡ value u
      → objects u j ≤ objects t j
  unfolding delete_until
  delete_until-shrinks objects shrinks zero key j t u h = absurd (cc)
  delete_until-shrinks objects shrinks (suc passes) key j t u h =
      let after = T.delete_session t key in
      elim (Bool-cases after.1) [
        | inl complete ↦
            let e : after.0 ≡ u = ground (arith, complete, h) in
            subst (λ s. objects s j ≤ objects t j) e (shrinks t key j)
        | inr partial ↦ omega (
          arith,
          shrinks t key j,
          delete_until-shrinks objects shrinks passes key j after.0 u (ground (arith, partial, h)),
        )
      ]

  replay-first :
      (key : SessionKey) (keys : List SessionKey) (t s u : T.State)
      → delete_until sha256 byte_length S T source max_delete_passes key t ≡ value s
      → replay_tombstones sha256 byte_length S T source keys s ≡ value u
      → replay_tombstones sha256 byte_length S T source (key ∷ keys) t ≡ value u
  unfolding replay_tombstones
  replay-first key keys t s u h k = ground (arith, h, k)

  -- The replay of the permanent deletes ends for any list of tombstones, when no session of the target
  -- has as many as 640,000 objects: provided that a deletion removes a batch of 800 when it is not
  -- complete, and gives no session more objects.
  pub replay_tombstones-converges :
      (objects : T.State → SessionKey → ℕ)
      → ((t : T.State) (k : SessionKey)
          → (T.delete_session t k).1 ≡ false
          → objects (T.delete_session t k).0 k + delete_batch_limit ≤ objects t k)
      → ((t : T.State) (k j : SessionKey) → objects (T.delete_session t k).0 j ≤ objects t j)
      → (keys : List SessionKey) (t : T.State) → ((j : SessionKey) → objects t j < 640000)
      → (u : T.State) × (replay_tombstones sha256 byte_length S T source keys t ≡ value u)
  unfolding replay_tombstones
  replay_tombstones-converges objects batch shrinks [] t few = (t, refl)
  replay_tombstones-converges objects batch shrinks (key ∷ keys) t few =
      let one = delete_until-converges objects batch max_delete_passes key t (few key) in
      let rest = replay_tombstones-converges objects batch shrinks keys one.0 (λ j. omega (
        arith,
        few j,
        delete_until-shrinks objects shrinks max_delete_passes key j t one.0 one.1,
      )) in
      (rest.0, replay-first key keys t one.0 rest.0 one.1 rest.1)
