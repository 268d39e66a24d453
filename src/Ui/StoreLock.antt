-- ===== src/Ui/StoreLock.antt =====
-- src/ui/store-lock.ts: the lock file with its one rule of reclaiming, and `JsonCasStore`, which writes
-- the next version of a document under it. What other processes do to the file between two reads is an
-- argument; JSON and the document's parser are one partial function. A version is a natural number.
pub mod Updating
pub mod Waiting
mod Tests
use hx_fortress.Prelude.{
  ℕ, zero, suc, ◌+◌, ◌-◌, ◌*◌, ◌≤◌, ◌<◌, min, max, ◌≡◌, refl, sym, ap, subst, ◌∙◌, ◌≢◌, ◌↔◌, ◌⊎◌,
  inl, inr, Bool, true, false, ◌&&◌, ◌||◌, not, Option, none, some, List, [], ◌∷◌, ◌++◌, map, arith,
  ltb, leb, nat_beq, if◌then◌else◌, Bool-cases, Option-cases, Eq, ◌==◌, nat_eq, beq_refl, beq_ne,
  length, keep_if, any, find, All, Text, codes, text_beq, text_eq, get, set, delete, IsMap, prune,
  pruned, get-set, get-set_self, get-set_ne, get-delete,
}
use mathlib.Core.Option

abbrev pub lock_stale_ms : ℕ
lock_stale_ms = 10_000

abbrev pub lock_wait_ms : ℕ
lock_wait_ms = 5_000

abbrev pub max_cas_retries : ℕ
max_cas_retries = 5

pub record LockOwner : Type 0 where
  pub pid : ℕ
  pub boot_id : Text
  pub at : Text

pub data ReclaimReason : Type 0 where
  owner_gone stale_lock unreadable_lock : ReclaimReason

pub record LockReclaim : Type 0 where
  pub owner : Option LockOwner
  pub reason : ReclaimReason

-- What one open of a lock file tells: its owner if its text is one, and its `mtime`.
pub record LockFile : Type 0 where
  pub owner : Option LockOwner
  pub mtime_ms : ℕ

-- `reclaimableLock` in the process of a boot id; `alive` is what signalling a pid answers.
unfoldable pub reclaimable_owner : Text → (ℕ → Bool) → ℕ → LockOwner → ℕ → Option LockReclaim
reclaimable_owner boot_id alive now owner mtime_ms =
    if not (text_beq owner.boot_id boot_id) && not (alive owner.pid)
    then some (record { owner = some owner; reason = owner_gone })
    else if ltb (mtime_ms + lock_stale_ms) now
    then some (record { owner = some owner; reason = stale_lock })
    else none

unfoldable pub reclaimable_lock : Text → (ℕ → Bool) → ℕ → Option LockFile → Option LockReclaim
reclaimable_lock boot_id alive now none = none
reclaimable_lock boot_id alive now (some held) = elim held.owner [
  | none ↦ some (record { owner = none; reason = unreadable_lock })
  | some owner ↦ reclaimable_owner boot_id alive now owner held.mtime_ms
]

-- One turn of `acquire`: whether the exclusive creation met a file, what the open that follows found,
-- which pids are alive, and the clock.
pub record Turn : Type 0 where
  pub exists : Bool
  pub held : Option LockFile
  pub alive : ℕ → Bool
  pub now : ℕ

pub data Acquired : Type 0 where
  acquired locked : Acquired

-- The loop from turn `n`, with fuel for the turns: `none` is fuel run out. The reclaims are reported
-- in order.
unfoldable pub acquire : Text → (ℕ → Turn) → ℕ → ℕ → ℕ → Option (Acquired × List LockReclaim)
acquire boot_id turns deadline zero n = none
acquire boot_id turns deadline (suc fuel) n =
    let rest = acquire boot_id turns deadline fuel (suc n) in
    if not (turns n).exists
    then some (acquired, [])
    else elim (reclaimable_lock boot_id (turns n).alive (turns n).now (turns n).held) [
      | some reclaim ↦ Option.map (λ r. (r.0, reclaim ∷ r.1)) rest
      | none ↦ if leb deadline (turns n).now then some (locked, []) else rest
    ]

-- A JSON document: its version, and the rest of it.
pub record Document : Type 0 where
  pub version : Option ℕ
  pub body : Text

-- What reading the path gives: no file, an error, or its text.
pub data Disk : Type 0 where
  missing failing : Disk
  holds : Text → Disk

pub data StoreRead : Type 0 where
  absent corrupt : StoreRead
  read_ok : Document → StoreRead

unfoldable pub version_of : Option Document → ℕ
version_of none = 0
version_of (some d) = elim d.version [ none ↦ 0 | some v ↦ v ]

pub data UpdateError : Type 0 where
  store_corrupt store_locked mutate_threw lost_races : UpdateError

pub data Updated : Type 0 where
  written : Document → Updated
  refused_update : UpdateError → Updated

-- What surrounds an `update`, by the count of its own steps: whether the lock is got, and what other
-- processes make of the file; with the codec and the caller's function.
pub record Surroundings : Type 0 where
  pub lock_got : ℕ → Bool
  pub others : ℕ → Disk → Disk
  pub parse : Text → Option Document
  pub print : Document → Text
  pub mutate : Option Document → Option Document

unfoldable pub read : Surroundings → Disk → StoreRead
read s missing = absent
read s failing = corrupt
read s (holds text) = elim (s.parse text) [ none ↦ corrupt | some d ↦ read_ok d ]

abbrev pub doc_of : StoreRead → Option Document
doc_of (read_ok d) = some d
doc_of _ = none

abbrev pub is_corrupt : StoreRead → Bool
is_corrupt corrupt = true
is_corrupt _ = false

abbrev pub next_version : ℕ → Document → Document
next_version expected next = record next { version = some (expected + 1) }

-- One attempt, from the first read on: `none` is a lost race.
unfoldable pub attempt : Surroundings → ℕ → Disk → Disk × Option Updated
attempt s n disk =
    let first = s.others n disk in
    let second = s.others (n + 1) first in
    if is_corrupt (read s first)
    then (first, some (refused_update store_corrupt))
    else elim (s.mutate (doc_of (read s first))) [
      | none ↦ (first, some (refused_update mutate_threw))
      | some next ↦
          if is_corrupt (read s second)
          then (second, some (refused_update store_corrupt))
          else if nat_beq (version_of (doc_of (read s second))) (version_of (doc_of (read s first)))
          then (
            holds (s.print (next_version (version_of (doc_of (read s first))) next)),
            some (written (next_version (version_of (doc_of (read s first))) next)),
          )
          else (second, none)
    ]

unfoldable pub attempts : ℕ → Surroundings → ℕ → Disk → Disk × Updated
attempts zero s n disk = (disk, refused_update lost_races)
attempts (suc left) s n disk =
    let tried = attempt s n disk in
    let rest = attempts left s (n + 3) tried.0 in
    if not (s.lock_got n)
    then (disk, refused_update store_locked)
    else elim tried.1 [ none ↦ rest | some answer ↦ (tried.0, answer) ]

unfoldable pub update : Surroundings → Disk → Disk × Updated
update s disk = attempts max_cas_retries s 0 disk
