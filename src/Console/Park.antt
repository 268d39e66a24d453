-- ===== src/Console/Park.antt =====
-- src/console/artifact-replay.ts: the park of the artifact writes that the pause refused, its drain, and
-- the latch that says when a drain is owed.
pub mod Crashes
pub mod Held
pub mod Order
pub mod Runs
mod Tests
use hx_fortress.Prelude.{
  ℕ, zero, suc, ◌+◌, ◌-◌, ◌*◌, ◌/◌, ◌%◌, ◌≤◌, ◌<◌, min, max, ◌≡◌, refl, sym, ap, subst, ◌∙◌, ◌≢◌,
  ◌↔◌, ◌⊎◌, inl, inr, Bool, true, false, ◌&&◌, ◌||◌, not, Option, none, some, List, [], ◌∷◌, ◌++◌,
  map, arith, ltb, leb, nat_beq, if◌then◌else◌, Bool-cases, Option-cases, Eq, ◌==◌, nat_eq,
  beq_refl, beq_ne, length, keep_if, any, find, All, Among, Among-append, Among-last, Among-keep_if,
  keep_if-Among, Text, codes, text_beq, text_beq_iff, text_eq, get, set, delete, IsMap, prune,
  pruned, get-set, get-set_self, get-set_ne, get-delete, Try, value, thrown, ◌>>=◌, or_throw,
}
use hx_fortress.Console.Migration.{SessionKey}

-- An entry, with the instant at which it was parked; `none` is a stamp that does not parse.
pub record ParkedArtifact : Type 0 where
  pub key : SessionKey
  pub name : Text
  pub text : Text
  pub parked_at : Option ℕ
  pub replace : Bool

-- The park file, which may not be there, and what `.draining` holds.
pub record ParkFiles : Type 0 where
  pub park : Option (List ParkedArtifact)
  pub draining : List ParkedArtifact

abbrev pub entries_of : Option (List ParkedArtifact) → List ParkedArtifact
entries_of none = []
entries_of (some entries) = entries

unfoldable pub park_artifact : ParkedArtifact → ParkFiles → ParkFiles
park_artifact entry files = record files { park = some (entries_of files.park ++ entry ∷ []) }

unfoldable pub park_all : List ParkedArtifact → ParkFiles → ParkFiles
park_all [] files = files
park_all (entry ∷ entries) files = park_all entries (park_artifact entry files)

abbrev pub unlink_draining : ParkFiles → ParkFiles
unlink_draining files = record files { draining = [] }

-- What the orphans of a drain that died are returned to.
abbrev pub return_from : List ParkedArtifact → ParkFiles → ParkFiles
return_from [] files = files
return_from (entry ∷ entries) files = unlink_draining (park_all (entry ∷ entries) files)

unfoldable pub return_orphans : ParkFiles → ParkFiles
return_orphans files = return_from files.draining files

-- `rename`, which overwrites; a park that is not there is not renamed.
abbrev pub move_park : Option (List ParkedArtifact) → ParkFiles → ParkFiles
move_park none files = files
move_park (some entries) files = record { park = none; draining = entries }

unfoldable pub rename_park : ParkFiles → ParkFiles
rename_park files = move_park files.park files

-- The comparison of the replay: by instant, where both parse and differ, else by place; `a` stands
-- after `b`, so `a` comes first only if it is earlier.
abbrev pub comes_first : Option ℕ → Option ℕ → Bool
comes_first none b = false
comes_first (some a) none = false
comes_first (some a) (some b) = ltb a b

-- An entry put before those it comes after in the file, behind those it does not precede.
unfoldable pub put_entry : List ParkedArtifact → ParkedArtifact → List ParkedArtifact
put_entry [] entry = entry ∷ []
put_entry (held ∷ entries) entry =
    let rest = put_entry entries entry in
    if comes_first entry.parked_at held.parked_at then entry ∷ (held ∷ entries) else held ∷ rest

unfoldable pub put_all : List ParkedArtifact → List ParkedArtifact → List ParkedArtifact
put_all sorted [] = sorted
put_all sorted (entry ∷ entries) = put_all (put_entry sorted entry) entries

abbrev pub by_parked_at : List ParkedArtifact → List ParkedArtifact
by_parked_at entries = put_all [] entries

-- What `write` does with an entry.
pub data Written : Type 0 where
  wrote dropped refused : Written

pub record ReplayResult : Type 0 where
  pub n_replayed : ℕ
  pub n_dropped : ℕ
  pub rewrote : List SessionKey
  pub still_failing : List ParkedArtifact

abbrev pub no_replay : ReplayResult
no_replay = record { n_replayed = 0; n_dropped = 0; rewrote = []; still_failing = [] }

-- The store as `write` finds it, which the writes move on.
module _ {W : Type 0} (write : ParkedArtifact → W → Written × W) where
  abbrev pub replayed_as : ParkedArtifact → Written → ReplayResult → ReplayResult
  replayed_as entry wrote result = record result {
    n_replayed = result.n_replayed + 1;
    rewrote = result.rewrote ++ entry.key ∷ [];
  }
  replayed_as entry dropped result = record result { n_dropped = result.n_dropped + 1 }
  replayed_as entry refused result = record result {
    still_failing = result.still_failing ++ entry ∷ [];
  }

  unfoldable pub replay : List ParkedArtifact → ReplayResult × W → ReplayResult × W
  replay [] (result, world) = (result, world)
  replay (entry ∷ entries) (result, world) =
      replay entries (replayed_as entry (write entry world).0 result, (write entry world).1)

  -- `drainOnce`.
  unfoldable pub drain_once : ParkFiles → W → (ReplayResult × W) × ParkFiles
  drain_once files world =
      let moved = rename_park (return_orphans files) in
      let done = replay (by_parked_at moved.draining) (no_replay, world) in
      (done, unlink_draining (park_all done.0.still_failing moved))

-- `ParkReplayLatch`: the latch after the question, and the answer.
unfoldable pub due : Bool → Bool → Bool × Bool
due paused owed = if paused then (true, false) else (owed, owed)

unfoldable pub settle : ℕ → Bool → Bool
settle failed owed = if nat_beq failed 0 then false else owed
