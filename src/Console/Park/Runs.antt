-- ===== src/Console/Park/Runs.antt =====
-- src/console/artifact-replay.ts: `drainOnce` is one of the orders of effects of Console/Park/Crashes.
use hx_fortress.Prelude.{
  ◌≡◌, refl, sym, subst, ◌⊎◌, inl, inr, Option, none, some, List, [], ◌∷◌, ◌++◌, nat_eq, Among,
  text_eq,
}
use hx_fortress.Console.Park.{
  ParkedArtifact, ParkFiles, entries_of, park_artifact, park_all, return_from, return_orphans,
  move_park, rename_park, put_all, by_parked_at, Written, wrote, dropped, refused, ReplayResult,
  no_replay, replayed_as, replay, drain_once,
}
use hx_fortress.Console.Park.Crashes.{
  Stage, resting, renaming, returning, replaying, reparking, World, Step, begins, returns, returned,
  renames, has_none, writes, fails, ends, reparks, finishes, Reaches, here, then_step, first_world,
}
use hx_fortress.Console.Park.Held.{parked_is_held}
use hx_fortress.Console.Park.Order.{put_all-Among}

pub Reaches-trans : (s t u : World) → Reaches s t → Reaches t u → Reaches s u
Reaches-trans s _ _ r (here t) = r
Reaches-trans s _ _ r (then_step t u v q step) = then_step s u v (Reaches-trans s t u r q) step

one_step : (s t : World) → Step s t → Reaches s t
one_step s t step = then_step s s t (here s) step

-- A world with these files, at this stage.
abbrev world_at : World → ParkFiles → Stage → World
world_at w files stage = record w { files = files; stage = stage }

return-Reaches :
    (entries : List ParkedArtifact) (w : World) (files : ParkFiles)
    → Reaches
        (world_at w files (returning entries))
        (world_at w (park_all entries files) (returning []))
unfolding park_all
return-Reaches [] w files = here _
return-Reaches (entry ∷ entries) w files =
    Reaches-trans _ (world_at w (park_artifact entry files) (returning entries)) _
      (one_step _ _ (returns entry entries (world_at w files (returning (entry ∷ entries))) refl))
      (return-Reaches entries w (park_artifact entry files))

orphans-Reaches :
    (w : World) (park : Option (List ParkedArtifact)) (draining : List ParkedArtifact)
    → Reaches
        (world_at w (record { park = park; draining = draining }) resting)
        (world_at w (return_from draining (record { park = park; draining = draining })) renaming)
orphans-Reaches w park [] =
    then_step _ (world_at w (record { park = park; draining = [] }) (returning [])) _
      (one_step _ _ (begins (world_at w (record { park = park; draining = [] }) resting) refl))
      (returned (world_at w (record { park = park; draining = [] }) (returning [])) refl)
orphans-Reaches w park (entry ∷ entries) =
    let files : ParkFiles = record { park = park; draining = entry ∷ entries } in
    then_step _ (world_at w (park_all (entry ∷ entries) files) (returning [])) _
      (Reaches-trans _ (world_at w files (returning (entry ∷ entries))) _
        (one_step _ _ (begins (world_at w files resting) refl))
        (return-Reaches (entry ∷ entries) w files))
      (returned (world_at w (park_all (entry ∷ entries) files) (returning [])) refl)

-- What is set aside by the time of the rename is nothing, or the rename replaces it.
rename-Reaches :
    (w : World) (park : Option (List ParkedArtifact)) (draining : List ParkedArtifact)
    → (park ≡ none → draining ≡ [])
    → Reaches (world_at w (record { park = park; draining = draining }) renaming) (
        world_at w (move_park park (record { park = park; draining = draining })) (
          replaying
            (by_parked_at (move_park park (record { park = park; draining = draining })).draining)
            []))
unfolding put_all
rename-Reaches w none draining gone =
    let files : ParkFiles = record { park = none; draining = draining } in
    subst
      (λ d. Reaches (world_at w files renaming) (world_at w files (replaying (by_parked_at d) [])))
      (sym (gone refl)) (one_step _ _ (has_none (world_at w files renaming) refl refl))
rename-Reaches w (some entries) draining gone =
    let files : ParkFiles = record { park = some entries; draining = draining } in
    one_step _ _ (
      renames entries (by_parked_at entries) (world_at w files renaming) refl refl
        (λ e there. put_all-Among e [] entries (inr there)))

module _ {W : Type 0} (write : ParkedArtifact → W → Written × W) where
  -- What a replay settles, beside what was settled before.
  abbrev settled_after : List ParkedArtifact → ParkedArtifact → Written → List ParkedArtifact
  settled_after settled entry wrote = settled ++ entry ∷ []
  settled_after settled entry dropped = settled ++ entry ∷ []
  settled_after settled entry refused = settled

  unfoldable pub settled_all : List ParkedArtifact → W → List ParkedArtifact → List ParkedArtifact
  settled_all [] store settled = settled
  settled_all (entry ∷ todo) store settled =
      settled_all todo (write entry store).1 (settled_after settled entry (write entry store).0)

  entry-Reaches :
      (entry : ParkedArtifact) (todo : List ParkedArtifact) (w : World) (files : ParkFiles)
      (result : ReplayResult) (written : Written)
      → Reaches (world_at w files (replaying (entry ∷ todo) result.still_failing)) (record w {
        files = files;
        settled = settled_after w.settled entry written;
        stage = replaying todo (replayed_as write entry written result).still_failing;
      })
  entry-Reaches entry todo w files result wrote = one_step _ _ (
      writes entry todo result.still_failing
        (world_at w files (replaying (entry ∷ todo) result.still_failing)) refl)
  entry-Reaches entry todo w files result dropped = one_step _ _ (
      writes entry todo result.still_failing
        (world_at w files (replaying (entry ∷ todo) result.still_failing)) refl)
  entry-Reaches entry todo w files result refused = one_step _ _ (
      fails entry todo result.still_failing
        (world_at w files (replaying (entry ∷ todo) result.still_failing)) refl)

  replay-Reaches :
      (todo : List ParkedArtifact) (w : World) (files : ParkFiles) (result : ReplayResult)
      (store : W)
      → Reaches (world_at w files (replaying todo result.still_failing)) (record w {
        files = files;
        settled = settled_all todo store w.settled;
        stage = replaying [] (replay write todo (result, store)).0.still_failing;
      })
  unfolding replay settled_all
  replay-Reaches [] w files result store = here _
  replay-Reaches (entry ∷ todo) w files result store =
      Reaches-trans _ _ _ (entry-Reaches entry todo w files result (write entry store).0) (
        replay-Reaches todo
          (record w { settled = settled_after w.settled entry (write entry store).0 }) files
          (replayed_as write entry (write entry store).0 result) (write entry store).1)

  repark-Reaches :
      (failing : List ParkedArtifact) (w : World) (files : ParkFiles)
      → Reaches
          (world_at w files (reparking failing))
          (world_at w (park_all failing files) (reparking []))
  unfolding park_all
  repark-Reaches [] w files = here _
  repark-Reaches (entry ∷ failing) w files =
      Reaches-trans _ (world_at w (park_artifact entry files) (reparking failing)) _
        (one_step _ _ (reparks entry failing (world_at w files (reparking (entry ∷ failing))) refl))
        (repark-Reaches failing w (park_artifact entry files))

  return_from-draining :
      (park : Option (List ParkedArtifact)) (draining : List ParkedArtifact)
      → (return_from draining (record { park = park; draining = draining })).draining ≡ []
  return_from-draining park [] = refl
  return_from-draining park (entry ∷ entries) = refl

  -- What a whole drain moves aside, and settles.
  abbrev pub moved : ParkFiles → ParkFiles
  moved files = rename_park (return_orphans files)

  drain_once-Reaches :
      (w : World) (files : ParkFiles) (store : W)
      → Reaches (world_at w files resting) (record w {
        files = (drain_once write files store).1;
        settled = settled_all (by_parked_at (moved files).draining) store w.settled;
        stage = resting;
      })
  unfolding drain_once return_orphans rename_park
  drain_once-Reaches w files store =
      let back = return_from files.draining files in
      let aside = move_park back.park back in
      let todo = by_parked_at aside.draining in
      let failing = (replay write todo (no_replay, store)).0.still_failing in
      let done = record w { settled = settled_all todo store w.settled } in
      then_step _ (world_at done (park_all failing aside) (reparking [])) _
        (Reaches-trans _ (world_at done aside (reparking failing)) _
          (then_step _ (world_at done aside (replaying [] failing)) _
            (Reaches-trans _ (world_at w aside (replaying todo [])) _
              (Reaches-trans _ (world_at w back renaming) _
                (orphans-Reaches w files.park files.draining)
                (rename-Reaches w back.park back.draining
                  (λ e. return_from-draining files.park files.draining)))
              (replay-Reaches todo w aside no_replay store))
            (ends failing (world_at done aside (replaying [] failing)) refl))
          (repark-Reaches failing done aside))
        (finishes (world_at done (park_all failing aside) (reparking [])) refl)

  -- A drain that runs to its end, from any state that deaths of the daemon and commits can have left,
  -- leaves nothing aside: every write that was ever parked has been written or dropped by the store, in
  -- this drain or before it, or is in the park file again.
  pub drain_once_keeps :
      (w : World) (store : W) (e : ParkedArtifact)
      → Reaches first_world w
      → w.stage ≡ resting
      → Among e w.parked
      → Among e (settled_all (by_parked_at (moved w.files).draining) store w.settled)
        ⊎ Among e (entries_of (drain_once write w.files store).1.park)
  unfolding drain_once
  drain_once_keeps w store e reached rests there =
      let start : Reaches first_world (world_at w w.files resting) =
        subst (λ stage. Reaches first_world (world_at w w.files stage)) rests reached in
      elim (parked_is_held _ e
        (Reaches-trans first_world _ _ start (drain_once-Reaches w w.files store)) there) [
          | inl done ↦ inl done
          | inr held ↦ elim held [ inl parked ↦ inr parked | inr aside ↦ elim aside [ ] ]
        ]
