-- ===== src/Console/Park/Tests.antt =====
-- Concrete parks and drains, and the theorems at them.
use hx_fortress.Prelude.{
  ℕ, ◌+◌, ◌≡◌, refl, ◌⊎◌, inl, inr, true, false, none, some, [], ◌∷◌, nat_eq, Among, codes, text_eq,
}
use hx_fortress.Console.Park.{
  ParkFiles, ParkedArtifact, entries_of, park_artifact, park_all, put_entry, put_all, by_parked_at,
  Written, refused, replay, drain_once, return_orphans, rename_park, due, settle,
}
use hx_fortress.Console.Park.Crashes.{
  resting, renaming, returning, replaying, World, parks, dies, begins, returned, renames, Reaches,
  here, then_step, first_world, IsHeld,
}
use hx_fortress.Console.Park.Held.{parked_is_held}
use hx_fortress.Console.Park.Order.{InOrder, noting, drain_once-InOrder}
use hx_fortress.Console.Park.Runs.{settled_all, moved, drain_once_keeps}

abbrev older : ParkedArtifact
older = record {
  key = record { user_id = codes "u"; family = codes "f"; session_id = codes "s" };
  name = codes "session.json";
  text = codes "old";
  parked_at = some 5;
  replace = false;
}

abbrev newer : ParkedArtifact
newer = record older { text = codes "new"; parked_at = some 9 }

by_parked_at-order : by_parked_at (newer ∷ older ∷ []) ≡ older ∷ newer ∷ []
unfolding put_all put_entry
by_parked_at-order = refl

-- A drain that dies after its rename.
abbrev dead : World
dead = record {
  files = record { park = none; draining = older ∷ [] };
  stage = resting;
  parked = older ∷ [];
  settled = [];
}

dead-reached : Reaches first_world dead
unfolding park_artifact
dead-reached =
    let one : World = record first_world {
      files = record { park = some (older ∷ []); draining = [] };
      parked = older ∷ [];
    } in
    let two : World = record one { stage = returning [] } in
    let three : World = record one { stage = renaming } in
    let four : World = record dead { stage = replaying (older ∷ []) [] } in
    then_step first_world four dead
      (then_step first_world three four
        (then_step first_world two three
          (then_step first_world one two
            (then_step first_world first_world one (here first_world) (parks older first_world))
            (begins one refl))
          (returned two refl))
        (renames (older ∷ []) (older ∷ []) three refl refl (λ e there. there)))
      (dies four)

parked_is_held_example : IsHeld dead older
parked_is_held_example = parked_is_held dead older dead-reached (inl refl)

-- A store that refuses every write, and counts them.
abbrev refuses : ParkedArtifact → ℕ → Written × ℕ
refuses entry n = (refused, n + 1)

drain_once_keeps_example :
    Among older
      (settled_all refuses (by_parked_at (moved refuses dead.files).draining) 0 dead.settled)
    ⊎ Among older (entries_of (drain_once refuses dead.files 0).1.park)
drain_once_keeps_example = drain_once_keeps refuses dead 0 older dead-reached refl (inl refl)

refused-parked :
    (drain_once refuses dead.files 0).1 ≡ record { park = some (older ∷ []); draining = [] }
unfolding drain_once return_orphans rename_park park_all park_artifact put_all put_entry replay
refused-parked = refl

-- A pause that lapses unseen leaves the latch owed, and only a drain that left nothing clears it.
latch-owed : ((due true false).0 ≡ true) × ((settle 1 true ≡ true) × (settle 0 true ≡ false))
unfolding due settle
latch-owed = (refl, (refl, refl))

-- The store refuses, and is asked for the orphan, which is older, before what is parked.
abbrev mixed : ParkFiles
mixed = record { park = some (newer ∷ []); draining = older ∷ [] }

drain_once-InOrder_example :
    InOrder (drain_once (noting refuses) mixed ([], 0)).0.1.0
    × Among older (drain_once (noting refuses) mixed ([], 0)).0.1.0
drain_once-InOrder_example =
    drain_once-InOrder refuses mixed 0 older (refl, _) (refl, _) (inr (inl refl))
