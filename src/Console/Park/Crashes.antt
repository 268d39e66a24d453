-- ===== src/Console/Park/Crashes.antt =====
-- src/console/artifact-replay.ts: a drain as its single effects on the disk and on the store, between which
-- the daemon may die and other commits may park.
use hx_fortress.Prelude.{◌≡◌, ◌⊎◌, none, some, List, [], ◌∷◌, ◌++◌, nat_eq, Among, text_eq}
use hx_fortress.Console.Park.{ParkedArtifact, ParkFiles, entries_of, park_artifact, unlink_draining}

-- Where a drain is: not running, returning orphans, about to rename, replaying what is left to do, with
-- what has failed so far, and parking again what failed.
pub data Stage : Type 0 where
  resting renaming : Stage
  returning : List ParkedArtifact → Stage
  replaying : List ParkedArtifact → List ParkedArtifact → Stage
  reparking : List ParkedArtifact → Stage

-- The disk, with what has ever been parked, and what `write` has written or dropped.
pub record World : Type 0 where
  pub files : ParkFiles
  pub stage : Stage
  pub parked : List ParkedArtifact
  pub settled : List ParkedArtifact

abbrev pub at_stage : Stage → World → World
at_stage stage w = record w { stage = stage }

pub data Step : World → World → Type 0 where
  -- A commit parks its write, at any moment.
  parks :
      (entry : ParkedArtifact) (w : World)
      → Step w (record w { files = park_artifact entry w.files; parked = w.parked ++ entry ∷ [] })
  -- The daemon dies, at any moment, and with it what the drain had in memory.
  dies : (w : World) → Step w (at_stage resting w)
  begins : (w : World) → w.stage ≡ resting → Step w (at_stage (returning w.files.draining) w)
  returns :
      (entry : ParkedArtifact) (entries : List ParkedArtifact) (w : World)
      → w.stage ≡ returning (entry ∷ entries)
      → Step w (record w { files = park_artifact entry w.files; stage = returning entries })
  returned :
      (w : World)
      → w.stage ≡ returning []
      → Step w (record w { files = unlink_draining w.files; stage = renaming })
  -- The rename, and the reading of what was renamed, in some order.
  renames :
      (entries todo : List ParkedArtifact) (w : World)
      → w.stage ≡ renaming
      → w.files.park ≡ some entries
      → ((e : ParkedArtifact) → Among e entries → Among e todo)
      → Step w (record w {
        files = record { park = none; draining = entries };
        stage = replaying todo [];
      })
  -- No park to rename.
  has_none :
      (w : World) → w.stage ≡ renaming → w.files.park ≡ none → Step w (at_stage (replaying [] []) w)
  writes :
      (entry : ParkedArtifact) (todo failing : List ParkedArtifact) (w : World)
      → w.stage ≡ replaying (entry ∷ todo) failing
      → Step w (record w { settled = w.settled ++ entry ∷ []; stage = replaying todo failing })
  fails :
      (entry : ParkedArtifact) (todo failing : List ParkedArtifact) (w : World)
      → w.stage ≡ replaying (entry ∷ todo) failing
      → Step w (at_stage (replaying todo (failing ++ entry ∷ [])) w)
  ends :
      (failing : List ParkedArtifact) (w : World)
      → w.stage ≡ replaying [] failing
      → Step w (at_stage (reparking failing) w)
  reparks :
      (entry : ParkedArtifact) (failing : List ParkedArtifact) (w : World)
      → w.stage ≡ reparking (entry ∷ failing)
      → Step w (record w { files = park_artifact entry w.files; stage = reparking failing })
  finishes :
      (w : World)
      → w.stage ≡ reparking []
      → Step w (record w { files = unlink_draining w.files; stage = resting })

pub data Reaches : World → World → Type 0 where
  here : (w : World) → Reaches w w
  then_step : (s t u : World) → Reaches s t → Step t u → Reaches s u

-- Where an entry is safe: settled, in the park, or set aside.
abbrev pub IsHeld : World → ParkedArtifact → Type 0
IsHeld w e = Among e w.settled ⊎ (Among e (entries_of w.files.park) ⊎ Among e w.files.draining)

abbrev pub first_world : World
first_world = record {
  files = record { park = none; draining = [] };
  stage = resting;
  parked = [];
  settled = [];
}
