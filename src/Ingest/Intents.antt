-- ===== src/Ingest/Intents.antt =====
-- src/ingest/intents.ts: the table of chunk intents. An instant is its milliseconds; the database's
-- `now()` and its choice of rows under a LIMIT without ORDER BY, the table's order here, are arguments
-- or stated at the definition.
pub mod Signal
pub mod Stale
mod Tests
use hx_fortress.Prelude.{
  ℕ, zero, suc, ◌+◌, ◌-◌, ◌*◌, ◌≤◌, ◌<◌, min, max, ◌≡◌, refl, sym, ap, subst, ◌∙◌, ◌≢◌, ◌↔◌, ◌⊎◌,
  inl, inr, Bool, true, false, ◌&&◌, ◌||◌, not, Option, none, some, List, [], ◌∷◌, ◌++◌, map, arith,
  ltb, leb, nat_beq, if◌then◌else◌, Bool-cases, Option-cases, Eq, ◌==◌, nat_eq, beq_refl, beq_ne,
  length, keep_if, any, find, All, Text, codes, text_beq, text_eq, get, set, delete, IsMap, prune,
  pruned, get-set, get-set_self, get-set_ne, get-delete,
}

-- A parent lane has no agent.
pub record Lane : Type 0 where
  pub user_external_id : Text
  pub family : Text
  pub session_id : Text
  pub agent_external_id : Option Text

pub record ChunkIntent : Type 0 where
  pub lane : Lane
  pub chunk_id : Text
  pub total_bytes : ℕ

-- A row of `hx.chunk_intents`.
pub record IntentRow : Type 0 where
  pub intent : ChunkIntent
  pub created_at : ℕ
  pub cleared_at : Option ℕ

-- `isNull(…)` of both, or `eq`.
abbrev pub agent_beq : Option Text → Option Text → Bool
agent_beq none none = true
agent_beq (some a) (some b) = text_beq a b
agent_beq _ _ = false

unfoldable pub lane_beq : Lane → Lane → Bool
lane_beq a b =
    text_beq a.user_external_id b.user_external_id
    && (text_beq a.family b.family
        && (text_beq a.session_id b.session_id
            && agent_beq a.agent_external_id b.agent_external_id))

abbrev pub same_identity : Lane → Text → IntentRow → Bool
same_identity lane chunk_id row =
    lane_beq lane row.intent.lane && text_beq chunk_id row.intent.chunk_id

abbrev pub is_uncleared : IntentRow → Bool
is_uncleared row = elim row.cleared_at [ none ↦ true | some at ↦ false ]

-- `recordChunkIntent`: nothing happens where the identity is there already.
unfoldable pub record_chunk_intent : ChunkIntent → ℕ → List IntentRow → List IntentRow
record_chunk_intent intent now rows =
    if any (same_identity intent.lane intent.chunk_id) rows
    then rows
    else rows ++ record { intent = intent; created_at = now; cleared_at = none } ∷ []

-- `UPDATE … SET cleared_at WHERE … AND cleared_at IS NULL`, and how many rows it changed.
unfoldable pub clear_where : (IntentRow → Bool) → ℕ → List IntentRow → List IntentRow
clear_where test now [] = []
clear_where test now (row ∷ rows) =
    let rest = clear_where test now rows in
    if is_uncleared row && test row then record row { cleared_at = some now } ∷ rest else row ∷ rest

unfoldable pub count_where : (IntentRow → Bool) → List IntentRow → ℕ
count_where test rows = length (keep_if (λ row. is_uncleared row && test row) rows)

unfoldable pub clear_chunk_intent : Lane → Text → ℕ → List IntentRow → List IntentRow
clear_chunk_intent lane chunk_id now rows = clear_where (same_identity lane chunk_id) now rows

-- The rows of a lane that a write of so many indexed bytes subsumes.
abbrev pub subsumed : Lane → ℕ → IntentRow → Bool
subsumed lane indexed row = lane_beq lane row.intent.lane && leb row.intent.total_bytes indexed

unfoldable pub clear_subsumed_chunk_intents : Lane → ℕ → ℕ → List IntentRow → List IntentRow × ℕ
clear_subsumed_chunk_intents lane indexed now rows =
    (clear_where (subsumed lane indexed) now rows, count_where (subsumed lane indexed) rows)

abbrev pub of_lane : Lane → IntentRow → Bool
of_lane lane row = lane_beq lane row.intent.lane

unfoldable pub close_terminal_chunk_intents : Lane → ℕ → List IntentRow → List IntentRow × ℕ
close_terminal_chunk_intents lane now rows =
    (clear_where (of_lane lane) now rows, count_where (of_lane lane) rows)

-- Uncleared, and recorded before `now - olderThanMs`.
unfoldable pub is_stale : ℕ → ℕ → IntentRow → Bool
is_stale older_than_ms now row = is_uncleared row && ltb (row.created_at + older_than_ms) now

-- A lane of `GROUP BY`, with the least `created_at` of its rows.
pub record LaneGroup : Type 0 where
  pub lane : Lane
  pub oldest : ℕ

unfoldable pub group_row : IntentRow → List LaneGroup → List LaneGroup
group_row row [] = record { lane = row.intent.lane; oldest = row.created_at } ∷ []
group_row row (group ∷ groups) =
    let rest = group_row row groups in
    if lane_beq group.lane row.intent.lane
    then record group { oldest = min group.oldest row.created_at } ∷ groups
    else group ∷ rest

unfoldable pub group_rows : List IntentRow → List LaneGroup
group_rows [] = []
group_rows (row ∷ rows) = group_row row (group_rows rows)

-- `ORDER BY min(created_at) ASC`.
unfoldable pub insert_group : LaneGroup → List LaneGroup → List LaneGroup
insert_group group [] = group ∷ []
insert_group group (first ∷ groups) =
    let rest = insert_group group groups in
    if leb first.oldest group.oldest then first ∷ rest else group ∷ first ∷ groups

unfoldable pub sort_groups : List LaneGroup → List LaneGroup
sort_groups [] = []
sort_groups (group ∷ groups) = insert_group group (sort_groups groups)

unfoldable pub first_lanes : ℕ → List LaneGroup → List Lane
first_lanes zero groups = []
first_lanes (suc n) [] = []
first_lanes (suc n) (group ∷ groups) = group.lane ∷ first_lanes n groups

abbrev pub default_limit : ℕ
default_limit = 200

unfoldable pub stale_intent_sessions : ℕ → ℕ → ℕ → List IntentRow → List Lane
stale_intent_sessions older_than_ms limit now rows =
    first_lanes limit (sort_groups (group_rows (keep_if (is_stale older_than_ms now) rows)))

unfoldable pub count_stale_intents : ℕ → ℕ → List IntentRow → ℕ
count_stale_intents older_than_ms now rows = length (keep_if (is_stale older_than_ms now) rows)

-- Cleared, and before `nowMs - olderThanMs`.
unfoldable pub is_prunable : ℕ → ℕ → IntentRow → Bool
is_prunable older_than_ms now row = elim row.cleared_at [
  | none ↦ false
  | some at ↦ ltb (at + older_than_ms) now
]

-- The first `batch` prunable rows go; the second result counts them.
unfoldable pub prune_batch : ℕ → ℕ → ℕ → List IntentRow → List IntentRow × ℕ
prune_batch older_than_ms now batch [] = ([], 0)
prune_batch older_than_ms now zero (row ∷ rows) = (row ∷ rows, 0)
prune_batch older_than_ms now (suc batch) (row ∷ rows) =
    let gone = prune_batch older_than_ms now batch rows in
    let kept = prune_batch older_than_ms now (suc batch) rows in
    if is_prunable older_than_ms now row then (gone.0, gone.1 + 1) else (row ∷ kept.0, kept.1)
