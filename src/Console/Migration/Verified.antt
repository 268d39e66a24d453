-- ===== src/Console/Migration/Verified.antt =====
-- src/console/migration.ts, `replayTombstones` and `verifyTarget`.
use hx_fortress.Prelude.{
  ℕ, zero, suc, ◌≡◌, refl, ap, subst, ◌∙◌, inl, inr, Bool, true, false, none, List, [], ◌∷◌, arith,
  Bool-cases, nat_eq, Among, Text, text_eq, Try, value, thrown, ◌>>=◌,
}
use hx_fortress.Console.Migration.{
  SessionKey, Store, MigrationError, max_delete_passes, target_is_current, delete_until,
  replay_tombstones,
}
use hx_fortress.Console.Migration.Contract.{Honours, is_deleted_with}
use hx_fortress.Console.Migration.Copying.{target_is_current-agree}

module _ (sha256 : Text → Text) (byte_length : Text → ℕ) (S T : Store) (source : S.State) where
  -- What a deletion that ends has done: the last pass was complete.
  delete_until-frame :
      Honours byte_length T
      → (passes : ℕ) (key j : SessionKey) (t u : T.State)
      → delete_until sha256 byte_length S T source passes key t ≡ value u
      → is_deleted_with key j ≡ false
      → (T.stat u j ≡ T.stat t j)
        × ((name : Text) → T.read_artifact u j name ≡ T.read_artifact t j name)
  unfolding delete_until
  delete_until-frame laws zero key j t u h n = absurd (cc)
  delete_until-frame laws (suc passes) key j t u h n =
      let after = T.delete_session t key in
      elim (Bool-cases after.1) [
        | inl complete ↦
            let e : u ≡ after.0 = ground (arith, complete, h) in
            (
              ap (λ s. T.stat s j) e ∙ laws.delete_stat t key j n,
              λ name. ap (λ s. T.read_artifact s j name) e ∙ laws.delete_sidecars t key j name n,
            )
        | inr partial ↦
            let rest =
              delete_until-frame laws passes key j after.0 u (ground (arith, partial, h)) n in
            (
              rest.0 ∙ laws.delete_stat t key j n,
              λ name. rest.1 name ∙ laws.delete_sidecars t key j name n,
            )
      ]

  delete_until-gone :
      Honours byte_length T
      → (passes : ℕ) (key j : SessionKey) (t u : T.State)
      → delete_until sha256 byte_length S T source passes key t ≡ value u
      → is_deleted_with key j ≡ true
      → T.stat u j ≡ none
  unfolding delete_until
  delete_until-gone laws zero key j t u h w = absurd (cc)
  delete_until-gone laws (suc passes) key j t u h w =
      let after = T.delete_session t key in
      elim (Bool-cases after.1) [
        | inl complete ↦
            let e : u ≡ after.0 = ground (arith, complete, h) in
            ap (λ s. T.stat s j) e ∙ laws.delete_complete t key j complete w
        | inr partial ↦ delete_until-gone laws passes key j after.0 u (ground (arith, partial, h)) w
      ]

  replay-step :
      (key : SessionKey) (keys : List SessionKey) (t u : T.State)
      → replay_tombstones sha256 byte_length S T source (key ∷ keys) t ≡ value u
      → (s : T.State) × ((delete_until sha256 byte_length S T source max_delete_passes key t
            ≡ value s)
          × (replay_tombstones sha256 byte_length S T source keys s ≡ value u))
  unfolding replay_tombstones
  replay-step key keys t u h =
      go (delete_until sha256 byte_length S T source max_delete_passes key t) refl h
    where
      go :
          (answer : Try MigrationError T.State)
          → delete_until sha256 byte_length S T source max_delete_passes key t ≡ answer
          → (answer >>= λ s. replay_tombstones sha256 byte_length S T source keys s) ≡ value u
          → (s : T.State) × ((delete_until sha256 byte_length S T source max_delete_passes key t
                ≡ value s)
              × (replay_tombstones sha256 byte_length S T source keys s ≡ value u))
      go (thrown e) c k = absurd (cc)
      go (value s) c k = (s, (c, k))

  -- A session that no tombstone deletes is as current after the replay as before.
  pub replay-current :
      Honours byte_length T
      → (keys : List SessionKey) (t u : T.State) (j : SessionKey) (also : Bool)
      → replay_tombstones sha256 byte_length S T source keys t ≡ value u
      → ((k : SessionKey) → Among k keys → is_deleted_with k j ≡ false)
      → target_is_current sha256 byte_length S T source j also u
        ≡ target_is_current sha256 byte_length S T source j also t
  unfolding replay_tombstones
  replay-current laws [] t u j also h n =
      let e : u ≡ t = cc in ap (λ s. target_is_current sha256 byte_length S T source j also s) e
  replay-current laws (key ∷ keys) t u j also h n =
      let step = replay-step key keys t u h in
      let framed =
        delete_until-frame laws max_delete_passes key j t step.0 step.1.0 (n key (inl refl)) in
      replay-current laws keys step.0 u j also step.1.1 (λ k there. n k (inr there))
      ∙ target_is_current-agree sha256 byte_length S T source t step.0 j also framed.1 framed.0

  replay-stays_gone :
      Honours byte_length T
      → (keys : List SessionKey) (t u : T.State) (j : SessionKey)
      → replay_tombstones sha256 byte_length S T source keys t ≡ value u
      → T.stat t j ≡ none
      → T.stat u j ≡ none
  unfolding replay_tombstones
  replay-stays_gone laws [] t u j h gone = let e : u ≡ t = cc in ap (λ s. T.stat s j) e ∙ gone
  replay-stays_gone laws (key ∷ keys) t u j h gone =
      let step = replay-step key keys t u h in
      replay-stays_gone laws keys step.0 u j step.1.1 (elim (Bool-cases (is_deleted_with key j)) [
        | inl at ↦ delete_until-gone laws max_delete_passes key j t step.0 step.1.0 at
        | inr apart ↦
            (delete_until-frame laws max_delete_passes key j t step.0 step.1.0 apart).0 ∙ gone
      ])

  -- When the replay of the permanent deletes ends without an error, the target has none of the
  -- sessions that a tombstone names and none of their lanes, whatever order and however often they are
  -- named.
  pub replay_tombstones-gone :
      Honours byte_length T
      → (keys : List SessionKey) (t u : T.State) (i j : SessionKey)
      → replay_tombstones sha256 byte_length S T source keys t ≡ value u
      → Among i keys
      → is_deleted_with i j ≡ true
      → T.stat u j ≡ none
  replay_tombstones-gone laws [] t u i j h there with_it = elim there [ ]
  replay_tombstones-gone laws (key ∷ keys) t u i j h there with_it =
      let step = replay-step key keys t u h in
      elim there [
        | inl at ↦ replay-stays_gone laws keys step.0 u j step.1.1 (
            delete_until-gone laws max_delete_passes key j t step.0 step.1.0
              (subst (λ k. is_deleted_with k j ≡ true) at with_it))
        | inr later ↦ replay_tombstones-gone laws keys step.0 u i j step.1.1 later with_it
      ]
