-- ===== src/Ingest/Intents/Tests.antt =====
-- A dropped write, a repair of its lane and one that came too early, and the theorems at them.
use hx_fortress.Prelude.{
  ◌≤◌, ◌≡◌, refl, true, false, ◌&&◌, none, some, List, [], ◌∷◌, arith, ltb, nat_eq, length, keep_if,
  any, All, codes, text_beq, text_eq,
}
use hx_fortress.Ingest.Intents.{
  Lane, ChunkIntent, IntentRow, lane_beq, same_identity, is_uncleared, of_lane, record_chunk_intent,
  clear_where, clear_chunk_intent, clear_subsumed_chunk_intents, is_stale, group_row, group_rows,
  stale_intent_sessions, count_stale_intents, prune_batch, is_prunable,
}
use hx_fortress.Ingest.Intents.Signal.{Event, cleared, repaired, pruned_batch, apply_events, spares}
use hx_fortress.Ingest.Intents.Stale.{names_lane, open_intent_is_signalled}

abbrev parent_lane : Lane
parent_lane = record {
  user_external_id = codes "u";
  family = codes "claude";
  session_id = codes "s";
  agent_external_id = none;
}

-- The same session's agent lane: a lane of its own.
abbrev agent_lane : Lane
agent_lane = record parent_lane { agent_external_id = some (codes "a") }

abbrev dropped : ChunkIntent
dropped = record { lane = parent_lane; chunk_id = codes "c1"; total_bytes = 500 }

-- Another lane's repair, a repair that read too little, the clearing of another chunk, and a pruning.
abbrev meanwhile : List Event
meanwhile =
    repaired agent_lane 900 2_000
    ∷ repaired parent_lane 499 2_001
    ∷ cleared parent_lane (codes "c2") 2_002
    ∷ pruned_batch 0 9_000 10
    ∷ []

abbrev later_table : List IntentRow
later_table = apply_events meanwhile (record_chunk_intent dropped 1_000 [])

still_open : later_table ≡ record { intent = dropped; created_at = 1_000; cleared_at = none } ∷ []
unfolding record_chunk_intent any clear_where clear_subsumed_chunk_intents clear_chunk_intent
    lane_beq text_beq prune_batch is_prunable
still_open = refl

not_there : any (same_identity parent_lane (codes "c1")) [] ≡ false
unfolding any
not_there = refl

meanwhile_spared :
    All
      (λ event.
        spares (record { intent = dropped; created_at = 1_000; cleared_at = none }) event ≡ true)
      meanwhile
unfolding lane_beq text_beq
meanwhile_spared = (refl, (refl, (refl, (refl, tt))))

one_group : length (group_rows (keep_if (is_stale 60_000 70_000) later_table)) ≤ 200
unfolding record_chunk_intent any clear_where clear_subsumed_chunk_intents clear_chunk_intent
    lane_beq text_beq prune_batch is_prunable keep_if is_stale group_rows group_row
one_group = omega arith

open_intent_is_signalled_example :
    (names_lane parent_lane (stale_intent_sessions 60_000 200 70_000 later_table) ≡ true)
    × (1 ≤ count_stale_intents 60_000 70_000 later_table)
open_intent_is_signalled_example =
    open_intent_is_signalled dropped 1_000 [] meanwhile 60_000 200 70_000 not_there meanwhile_spared
      (omega arith) one_group

abbrev open_row : IntentRow
open_row = record { intent = dropped; created_at = 1_000; cleared_at = none }

covered_row :
    All
      (λ row.
        (is_uncleared row && of_lane parent_lane row && ltb 500 row.intent.total_bytes) ≡ false)
      (open_row ∷ [])
unfolding lane_beq text_beq
covered_row = (refl, tt)
