-- ===== src/Console/Commands.antt =====
-- src/console/commands.ts with the routines of src/host/postgres/console-plane.ts that it calls: the
-- table of console commands, the boot fence and the poll. The table is its rows by primary key, an
-- instant is its milliseconds, `params` the JSON text of its column. Between any two calls of the
-- database the other principals take their turn, and each call is counted by `tick`. Failing disks
-- and database connections, whose exceptions leave the pass, are not modelled.
pub mod Boot
pub mod Drive
pub mod Routines
pub mod Fencing
pub mod Fenced
pub mod Outcome
pub mod Driven
pub mod Due
mod Tests
use hx_fortress.Prelude.{
  ℕ, zero, suc, ◌+◌, ◌-◌, ◌*◌, ◌≤◌, ◌<◌, min, max, ◌≡◌, refl, sym, ap, subst, ◌∙◌, ◌≢◌, ◌↔◌, ◌⊎◌,
  inl, inr, Bool, true, false, ◌&&◌, ◌||◌, not, Option, none, some, List, [], ◌∷◌, ◌++◌, map, arith,
  ltb, leb, nat_beq, if◌then◌else◌, Bool-cases, Option-cases, Eq, ◌==◌, nat_eq, beq_refl, beq_ne,
  length, keep_if, any, find, All, Text, codes, text_beq, text_eq, get, set, delete, IsMap, prune,
  pruned, get-set, get-set_self, get-set_ne, get-delete,
}

abbrev pub command_request_ttl_ms : ℕ
command_request_ttl_ms = 30 * 60 * 1000

abbrev pub reject_boot_fence : Text
reject_boot_fence = codes "rejected_boot_fence"

abbrev pub reject_deadline : Text
reject_deadline = codes "rejected_deadline"

abbrev pub reject_invalid_params : Text
reject_invalid_params = codes "rejected_invalid_params"

abbrev pub fail_credential_consumed : Text
fail_credential_consumed = codes "credential consumed — re-issue"

-- The texts that the program writes and reads in the column, and any other text.
pub data Status : Type 0 where
  requested running done failed rejected : Status
  other : Text → Status

pub record Command : Type 0 where
  pub kind : Text
  pub params : Text
  pub status : Status
  pub requested_at : ℕ
  pub deadline_at : Option ℕ
  pub credential_ref : Option Text
  pub claimed_by : Option Text
  pub claimed_at : Option ℕ
  pub completed_at : Option ℕ
  pub outcome : Option Text
  pub error : Option Text

-- A row as `listOpen` hands it on: its id, and its columns at that moment.
pub record CommandRow : Type 0 where
  pub id : Text
  pub command : Command

abbrev pub Table : Type 0
Table = List (Text × Command)

unfoldable pub is_terminal : Status → Bool
is_terminal done = true
is_terminal failed = true
is_terminal rejected = true
is_terminal _ = false

abbrev pub is_open : Status → Bool
is_open requested = true
is_open running = true
is_open _ = false

-- `UPDATE … WHERE id = p_id AND …`, and whether it changed one row.
unfoldable pub update_where : (Command → Bool) → (Command → Command) → Text → Table → Table × Bool
update_where eligible change id table = elim (get id table) [
  | none ↦ (table, false)
  | some row ↦ if eligible row then (set id (change row) table, true) else (table, false)
]

-- What `claim_command` asks of a row's status and time.
abbrev pub claimable_at : Status → Bool → ℕ → ℕ → Bool
claimable_at requested redrive requested_at now = leb requested_at now
claimable_at running redrive requested_at now = redrive && leb requested_at now
claimable_at _ redrive requested_at now = false

abbrev pub claimable : Bool → ℕ → Command → Bool
claimable redrive now row = claimable_at row.status redrive row.requested_at now

-- `hx.claim_command`, `hx.complete_command` and `hx.reject_command`, at `pg_catalog.now()`.
unfoldable pub claim_command : Text → Text → Bool → ℕ → Table → Table × Bool
claim_command id claimed_by redrive now table =
    update_where (claimable redrive now)
      (λ row. record row { status = running; claimed_by = some claimed_by; claimed_at = some now })
      id table

-- The two statuses that `complete` takes.
abbrev pub completed_status : Bool → Status
completed_status true = done
completed_status false = failed

abbrev pub is_running : Status → Bool
is_running running = true
is_running _ = false

unfoldable pub complete_command : Text → Bool → Option Text → Option Text → ℕ → Table → Table × Bool
complete_command id well outcome error now table =
    update_where (λ row. is_running row.status)
      (λ row. record row {
        status = completed_status well;
        outcome = outcome;
        error = error;
        completed_at = some now;
      })
      id table

unfoldable pub reject_command : Text → Text → ℕ → Table → Table × Bool
reject_command id reason now table =
    update_where (λ row. is_open row.status)
      (λ row. record row { status = rejected; error = some reason; completed_at = some now }) id
      table

-- `listOpen`: the open rows, the oldest request first.
unfoldable pub insert_row : CommandRow → List CommandRow → List CommandRow
insert_row row [] = row ∷ []
insert_row row (first ∷ rows) =
    if leb first.command.requested_at row.command.requested_at
    then first ∷ insert_row row rows
    else row ∷ first ∷ rows

unfoldable pub list_open : Table → List CommandRow
list_open [] = []
list_open ((id, command) ∷ table) =
    if is_open command.status
    then insert_row (record { id = id; command = command }) (list_open table)
    else list_open table

pub data Transition : Type 0 where
  was_claimed was_done was_failed was_rejected : Transition

pub record TransitionRecord : Type 0 where
  pub id : Text
  pub kind : Text
  pub transition : Transition
  pub outcome : Option Text
  pub error : Option Text
  pub reason : Option Text
  pub accepted : Bool
  pub at : ℕ

pub data ParamCheck : Type 0 where
  valid_params : Text → ParamCheck
  invalid_params : Text → ParamCheck

-- What an executor comes back with: its outcome, or the message of what it threw.
pub data Execution : Type 0 where
  finished : Option Text → Execution
  threw : Text → Execution

-- What surrounds the daemon at each tick: the other principals of the database, the two clocks, the
-- check of the parameters (`validateCommandParams`) and the executors.
pub record Environment : Type 0 where
  pub others : ℕ → Table → Table
  pub db_now : ℕ → ℕ
  pub clock : ℕ → ℕ
  pub validate : Text → Text → ParamCheck
  pub execute : ℕ → Text → Text → Option Text → Execution
  pub claimed_by : Text

pub record Machine : Type 0 where
  pub table : Table
  pub tick : ℕ
  -- The 0600 file of commands in flight, in the order of its array.
  pub in_flight : List Text
  -- What `onTransition` was called with, and the ids that an executor was entered for; newest first.
  pub records : List TransitionRecord
  pub executed : List Text

unfoldable pub has_id : Text → List Text → Bool
has_id id ids = any (λ other_id. other_id == id) ids

unfoldable pub without : Text → List Text → List Text
without id ids = keep_if (λ other_id. not (other_id == id)) ids

-- `addInFlight` and `removeInFlight` of src/console/runtime-files.ts.
unfoldable pub add_in_flight : Text → Machine → Machine
add_in_flight id m =
    if has_id id m.in_flight then m else record m { in_flight = m.in_flight ++ id ∷ [] }

unfoldable pub remove_in_flight : Text → Machine → Machine
remove_in_flight id m = record m { in_flight = without id m.in_flight }

unfoldable pub record_transition : TransitionRecord → Machine → Machine
record_transition entry m = record m { records = entry ∷ m.records }

-- A truthy `credentialRef`.
abbrev pub has_credential : Option Text → Bool
has_credential none = false
has_credential (some []) = false
has_credential (some (c ∷ cs)) = true
