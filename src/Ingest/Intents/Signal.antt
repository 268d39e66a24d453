-- ===== src/Ingest/Intents/Signal.antt =====
-- src/ingest/intents.ts: the signal of a dropped index write is not lost, and ends with the repair.
use hx_fortress.Prelude.{text_beq_iff, Among, Among-append}
use hx_fortress.Prelude.{
  ℕ, zero, suc, ◌≡◌, sym, ap, ◌∙◌, ◌↔◌, inl, inr, Bool, true, false, ◌&&◌, not, Option, none, some,
  List, [], ◌∷◌, arith, Bool-cases, nat_eq, any, All, Text, text_eq,
}
use hx_fortress.Ingest.Intents.{
  Lane, ChunkIntent, IntentRow, agent_beq, lane_beq, same_identity, is_uncleared,
  record_chunk_intent, clear_where, clear_chunk_intent, subsumed, clear_subsumed_chunk_intents,
  of_lane, close_terminal_chunk_intents, is_prunable, prune_batch,
}

agent_beq_iff : (a b : Option Text) → (agent_beq a b ≡ true) ↔ (a ≡ b)
agent_beq_iff none none = ground arith
agent_beq_iff none (some b) = ground arith
agent_beq_iff (some a) none = ground arith
agent_beq_iff (some a) (some b) = ground (arith, text_beq_iff a b)

pub lane_beq_iff : (a b : Lane) → (lane_beq a b ≡ true) ↔ (a ≡ b)
unfolding lane_beq
lane_beq_iff a b = ground (
  arith,
  text_beq_iff a.user_external_id b.user_external_id,
  text_beq_iff a.family b.family,
  text_beq_iff a.session_id b.session_id,
  agent_beq_iff a.agent_external_id b.agent_external_id,
)

Among-clear_where :
    (test : IntentRow → Bool) (now : ℕ) (row : IntentRow) (rows : List IntentRow)
    → test row ≡ false
    → Among row rows
    → Among row (clear_where test now rows)
unfolding clear_where
Among-clear_where test now row [] h there = elim there [ ]
Among-clear_where test now row (first ∷ rows) h (inl e) =
    let spared : test first ≡ false = ap test (sym e) ∙ h in
    elim (Bool-cases (is_uncleared first && test first)) [
      | inl taken ↦ absurd (ground arith)
      | inr left ↦ rw left (inl e)
    ]
Among-clear_where test now row (first ∷ rows) h (inr there) =
    elim (Bool-cases (is_uncleared first && test first)) [
      | inl taken ↦ rw taken (inr (Among-clear_where test now row rows h there))
      | inr left ↦ rw left (inr (Among-clear_where test now row rows h there))
    ]

Among-prune_batch :
    (older now batch : ℕ) (row : IntentRow) (rows : List IntentRow)
    → is_prunable older now row ≡ false
    → Among row rows
    → Among row (prune_batch older now batch rows).0
unfolding prune_batch
Among-prune_batch older now zero row [] h there = elim there [ ]
Among-prune_batch older now (suc batch) row [] h there = elim there [ ]
Among-prune_batch older now zero row (first ∷ rows) h there = there
Among-prune_batch older now (suc batch) row (first ∷ rows) h (inl e) =
    let kept : is_prunable older now first ≡ false = ap (is_prunable older now) (sym e) ∙ h in
    rw kept (inl e)
Among-prune_batch older now (suc batch) row (first ∷ rows) h (inr there) =
    elim (Bool-cases (is_prunable older now first)) [
      | inl gone ↦ rw gone (Among-prune_batch older now batch row rows h there)
      | inr kept ↦ rw kept (inr (Among-prune_batch older now (suc batch) row rows h there))
    ]

-- What happens to the table.
pub data Event : Type 0 where
  recorded : ChunkIntent → ℕ → Event
  cleared : Lane → Text → ℕ → Event
  repaired : Lane → ℕ → ℕ → Event
  closed : Lane → ℕ → Event
  pruned_batch : ℕ → ℕ → ℕ → Event

abbrev pub apply_event : Event → List IntentRow → List IntentRow
apply_event (recorded intent now) rows = record_chunk_intent intent now rows
apply_event (cleared lane chunk_id now) rows = clear_chunk_intent lane chunk_id now rows
apply_event (repaired lane indexed now) rows =
    (clear_subsumed_chunk_intents lane indexed now rows).0
apply_event (closed lane now) rows = (close_terminal_chunk_intents lane now rows).0
apply_event (pruned_batch older now batch) rows = (prune_batch older now batch rows).0

abbrev pub apply_events : List Event → List IntentRow → List IntentRow
apply_events [] rows = rows
apply_events (event ∷ events) rows = apply_events events (apply_event event rows)

-- The event is not one that ends this row: not the indexing of its own chunk, nor a repair of its lane
-- that read the canonical with the chunk in it, nor the closing of its lane.
abbrev pub spares : IntentRow → Event → Bool
spares row (recorded intent now) = true
spares row (cleared lane chunk_id now) = not (same_identity lane chunk_id row)
spares row (repaired lane indexed now) = not (subsumed lane indexed row)
spares row (closed lane now) = not (of_lane lane row)
spares row (pruned_batch older now batch) = true

not-true : (b : Bool) → not b ≡ true → b ≡ false
not-true b h = ground arith

Among-apply_event :
    (row : IntentRow) (event : Event) (rows : List IntentRow)
    → row.cleared_at ≡ none
    → spares row event ≡ true
    → Among row rows
    → Among row (apply_event event rows)
unfolding record_chunk_intent clear_chunk_intent clear_subsumed_chunk_intents
    close_terminal_chunk_intents is_prunable
Among-apply_event row (recorded intent now) rows o h there =
    elim (Bool-cases (any (same_identity intent.lane intent.chunk_id) rows)) [
      | inl known ↦ rw known there
      | inr fresh ↦ rw fresh (Among-append row _ rows there)
    ]
Among-apply_event row (cleared lane chunk_id now) rows o h there =
    Among-clear_where (same_identity lane chunk_id) now row rows
      (not-true (same_identity lane chunk_id row) h) there
Among-apply_event row (repaired lane indexed now) rows o h there =
    Among-clear_where (subsumed lane indexed) now row rows (not-true (subsumed lane indexed row) h)
      there
Among-apply_event row (closed lane now) rows o h there =
    Among-clear_where (of_lane lane) now row rows (not-true (of_lane lane row) h) there
Among-apply_event row (pruned_batch older now batch) rows o h there =
    Among-prune_batch older now batch row rows (ground arith) there

pub Among-apply_events :
    (row : IntentRow) (events : List Event) (rows : List IntentRow)
    → row.cleared_at ≡ none
    → All (λ event. spares row event ≡ true) events
    → Among row rows
    → Among row (apply_events events rows)
Among-apply_events row [] rows o h there = there
Among-apply_events row (event ∷ events) rows o h there =
    Among-apply_events row events (apply_event event rows) o h.1
      (Among-apply_event row event rows o h.0 there)
