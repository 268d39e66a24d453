-- ===== src/Ingest/Intents/Stale.antt =====
-- src/ingest/intents.ts, `staleIntentSessions`: a dropped index write stays visible until it is repaired,
-- and no longer.
use hx_fortress.Prelude.{
  Among, Among-last, Among-keep_if, ℕ, zero, suc, ◌+◌, ◌≤◌, ◌<◌, ◌≡◌, refl, sym, ap, subst, ◌∙◌,
  inl, inr, Bool, true, false, ◌&&◌, ◌||◌, none, List, [], ◌∷◌, arith, ltb, Bool-cases, nat_eq,
  length, keep_if, any, All, text_eq,
}
use hx_fortress.Ingest.Intents.{
  Lane, ChunkIntent, IntentRow, lane_beq, same_identity, is_uncleared, record_chunk_intent,
  clear_where, subsumed, clear_subsumed_chunk_intents, of_lane, is_stale, LaneGroup, group_row,
  group_rows, insert_group, sort_groups, first_lanes, stale_intent_sessions, count_stale_intents,
}
use hx_fortress.Ingest.Intents.Signal.{
  lane_beq_iff, Event, apply_events, spares, Among-apply_events,
}

unfoldable pub names_lane : Lane → List Lane → Bool
names_lane lane lanes = any (λ l. lane_beq l lane) lanes

unfoldable groups_lane : Lane → List LaneGroup → Bool
groups_lane lane groups = any (λ g. lane_beq g.lane lane) groups

-- Grouping a row names its lane, and changes what is said of no other.
groups_lane-group_row :
    (lane : Lane) (row : IntentRow) (groups : List LaneGroup)
    → groups_lane lane (group_row row groups)
      ≡ (lane_beq row.intent.lane lane || groups_lane lane groups)
unfolding groups_lane any group_row
groups_lane-group_row lane row [] = refl
groups_lane-group_row lane row (group ∷ groups) =
    elim (Bool-cases (lane_beq group.lane row.intent.lane)) [
      | inr apart ↦ rw apart (ground (arith, groups_lane-group_row lane row groups))
      | inl same ↦
          let e : group.lane ≡ row.intent.lane = (lane_beq_iff group.lane row.intent.lane).0 same in
          let f : lane_beq group.lane lane ≡ lane_beq row.intent.lane lane =
            ap (λ l. lane_beq l lane) e in
          rw same (ground arith)
    ]

groups_lane-insert_group :
    (lane : Lane) (group : LaneGroup) (groups : List LaneGroup)
    → groups_lane lane (insert_group group groups)
      ≡ (lane_beq group.lane lane || groups_lane lane groups)
unfolding groups_lane any insert_group
groups_lane-insert_group lane group [] = refl
groups_lane-insert_group lane group (first ∷ groups) =
    ground (arith, groups_lane-insert_group lane group groups)

groups_lane-sort_groups :
    (lane : Lane) (groups : List LaneGroup)
    → groups_lane lane (sort_groups groups) ≡ groups_lane lane groups
unfolding groups_lane any sort_groups
groups_lane-sort_groups lane [] = refl
groups_lane-sort_groups lane (group ∷ groups) =
    groups_lane-insert_group lane group (sort_groups groups)
    ∙ ap (λ b. lane_beq group.lane lane || b) (groups_lane-sort_groups lane groups)

length-insert_group :
    (group : LaneGroup) (groups : List LaneGroup)
    → length (insert_group group groups) ≡ suc (length groups)
unfolding insert_group
length-insert_group group [] = refl
length-insert_group group (first ∷ groups) = ground (arith, length-insert_group group groups)

length-sort_groups : (groups : List LaneGroup) → length (sort_groups groups) ≡ length groups
unfolding sort_groups
length-sort_groups [] = refl
length-sort_groups (group ∷ groups) =
    length-insert_group group (sort_groups groups) ∙ ap suc (length-sort_groups groups)

names_lane-first_lanes :
    (lane : Lane) (n : ℕ) (groups : List LaneGroup)
    → length groups ≤ n
    → names_lane lane (first_lanes n groups) ≡ groups_lane lane groups
unfolding names_lane groups_lane any first_lanes
names_lane-first_lanes lane zero [] h = refl
names_lane-first_lanes lane zero (group ∷ groups) h = absurd (omega arith)
names_lane-first_lanes lane (suc n) [] h = refl
names_lane-first_lanes lane (suc n) (group ∷ groups) h =
    ap (λ b. lane_beq group.lane lane || b) (names_lane-first_lanes lane n groups (omega arith))

names_lane-none :
    (lane : Lane) (n : ℕ) (groups : List LaneGroup)
    → groups_lane lane groups ≡ false
    → names_lane lane (first_lanes n groups) ≡ false
unfolding names_lane groups_lane any first_lanes
names_lane-none lane zero groups h = refl
names_lane-none lane (suc n) [] h = refl
names_lane-none lane (suc n) (group ∷ groups) h = ground (arith, names_lane-none lane n groups)

groups_lane-Among :
    (row : IntentRow) (rows : List IntentRow)
    → Among row rows
    → groups_lane row.intent.lane (group_rows rows) ≡ true
unfolding group_rows
groups_lane-Among row [] there = elim there [ ]
groups_lane-Among row (first ∷ rows) (inl e) =
    let own : lane_beq first.intent.lane row.intent.lane ≡ true =
      (lane_beq_iff first.intent.lane row.intent.lane).1 (ap (λ r. r.intent.lane) (sym e)) in
    groups_lane-group_row row.intent.lane first (group_rows rows) ∙ ground arith
groups_lane-Among row (first ∷ rows) (inr there) =
    let rest = groups_lane-Among row rows there in
    groups_lane-group_row row.intent.lane first (group_rows rows) ∙ ground arith

length-Among : (row : IntentRow) (rows : List IntentRow) → Among row rows → 1 ≤ length rows
length-Among row [] there = elim there [ ]
length-Among row (first ∷ rows) there = omega arith

recorded-Among :
    (intent : ChunkIntent) (at : ℕ) (rows : List IntentRow)
    → any (same_identity intent.lane intent.chunk_id) rows ≡ false
    → Among
        (record { intent = intent; created_at = at; cleared_at = none })
        (record_chunk_intent intent at rows)
unfolding record_chunk_intent
recorded-Among intent at rows fresh =
    rw fresh (Among-last (record { intent = intent; created_at = at; cleared_at = none }) rows)

fresh_row-is_stale :
    (intent : ChunkIntent) (at older now : ℕ)
    → at + older < now
    → is_stale older now (record { intent = intent; created_at = at; cleared_at = none }) ≡ true
unfolding is_stale
fresh_row-is_stale intent at older now late = ground arith

none_grouped : (lane : Lane) → groups_lane lane [] ≡ false
unfolding groups_lane any
none_grouped lane = refl

-- A chunk is recorded whose identity the table does not have, and then anything happens to the table
-- that is not the indexing of this chunk, a repair of its lane that read the canonical with the chunk
-- in it, or the closing of its lane: other intents, clearings, repairs, closings and prunings, in any
-- number and order. From the end of the grace period on, its lane is among the stale ones, as long as
-- they are no more than the limit, and the operator's count is not zero.
pub open_intent_is_signalled :
    (intent : ChunkIntent) (at : ℕ) (rows : List IntentRow) (events : List Event)
    (older limit now : ℕ)
    → any (same_identity intent.lane intent.chunk_id) rows ≡ false
    → All
        (λ event.
          spares (record { intent = intent; created_at = at; cleared_at = none }) event ≡ true)
        events
    → at + older < now
    → length (
        group_rows
          (keep_if (is_stale older now) (apply_events events (record_chunk_intent intent at rows))))
      ≤ limit
    → (names_lane intent.lane (
          stale_intent_sessions older limit now
            (apply_events events (record_chunk_intent intent at rows)))
        ≡ true)
      × (1
          ≤ count_stale_intents older now
              (apply_events events (record_chunk_intent intent at rows)))
unfolding stale_intent_sessions count_stale_intents
open_intent_is_signalled intent at rows events older limit now fresh spared late few =
    let row : IntentRow = record { intent = intent; created_at = at; cleared_at = none } in
    let after = apply_events events (record_chunk_intent intent at rows) in
    let stale = keep_if (is_stale older now) after in
    let there : Among row stale =
      Among-keep_if (is_stale older now) row after (fresh_row-is_stale intent at older now late) (
        Among-apply_events row events (record_chunk_intent intent at rows) refl spared
          (recorded-Among intent at rows fresh)) in
    (
      names_lane-first_lanes intent.lane limit (sort_groups (group_rows stale))
            (subst (λ n. n ≤ limit) (sym (length-sort_groups (group_rows stale))) few)
          ∙ groups_lane-sort_groups intent.lane (group_rows stale)
          ∙ groups_lane-Among row stale there,
      length-Among row stale there,
    )

lane_beq_sym : (a b : Lane) → lane_beq a b ≡ lane_beq b a
lane_beq_sym a b = ground (arith, lane_beq_iff a b, lane_beq_iff b a)

-- No row of the lane is uncleared.
abbrev pub Quiet : Lane → List IntentRow → Type 0
Quiet lane rows = All (λ row. (is_uncleared row && of_lane lane row) ≡ false) rows

clear_where-Quiet :
    (lane : Lane) (indexed now : ℕ) (rows : List IntentRow)
    → All
        (λ row.
          (is_uncleared row && of_lane lane row && ltb indexed row.intent.total_bytes) ≡ false)
        rows
    → Quiet lane (clear_where (subsumed lane indexed) now rows)
unfolding clear_where
clear_where-Quiet lane indexed now [] h = tt
clear_where-Quiet lane indexed now (row ∷ rows) h =
    elim (Bool-cases (is_uncleared row && subsumed lane indexed row)) [
      | inl taken ↦ rw taken (refl, clear_where-Quiet lane indexed now rows h.1)
      | inr left ↦ rw left (ground arith, clear_where-Quiet lane indexed now rows h.1)
    ]

keep_if-groups :
    (lane : Lane) (older now : ℕ) (rows : List IntentRow)
    → Quiet lane rows
    → groups_lane lane (group_rows (keep_if (is_stale older now) rows)) ≡ false
unfolding keep_if group_rows is_stale
keep_if-groups lane older now [] h = none_grouped lane
keep_if-groups lane older now (row ∷ rows) h =
    let rest = keep_if-groups lane older now rows h.1 in
    elim (Bool-cases (is_stale older now row)) [
      | inr fresh ↦ rw fresh rest
      | inl stale ↦
          let other : lane_beq lane row.intent.lane ≡ false = ground arith in
          rw stale (
            groups_lane-group_row lane row (group_rows (keep_if (is_stale older now) rows))
            ∙ ground (arith, lane_beq_sym lane row.intent.lane))
    ]

-- A repair of a lane that read a canonical with every uncleared chunk of the lane in it ends the
-- signal: the lane is not among the stale ones at any later moment, whatever the grace period and the
-- limit are.
pub repair_ends_signal :
    (lane : Lane) (indexed at : ℕ) (rows : List IntentRow) (older limit now : ℕ)
    → All
        (λ row.
          (is_uncleared row && of_lane lane row && ltb indexed row.intent.total_bytes) ≡ false)
        rows
    → names_lane lane (
        stale_intent_sessions older limit now (clear_subsumed_chunk_intents lane indexed at rows).0)
      ≡ false
unfolding stale_intent_sessions clear_subsumed_chunk_intents
repair_ends_signal lane indexed at rows older limit now h =
    let after = clear_where (subsumed lane indexed) at rows in
    names_lane-none lane limit _ (
      groups_lane-sort_groups lane (group_rows (keep_if (is_stale older now) after))
      ∙ keep_if-groups lane older now after (clear_where-Quiet lane indexed at rows h))
