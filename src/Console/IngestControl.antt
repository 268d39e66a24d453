-- ===== src/Console/IngestControl.antt =====
-- src/console/ingest-control.ts: the pause of store writes and the clamp that bounds it. A `Date` is
-- its milliseconds.
pub mod Bound
mod Tests
use hx_fortress.Prelude.{
  ℕ, ◌+◌, ◌*◌, Bool, true, false, Text, Option, none, some, if◌then◌else◌, ltb, leb, min,
}

abbrev pub pause_cap_ms : ℕ
pause_cap_ms = 15 * 60 * 1000

pub record IngestControlRow : Type 0 where
  pub id : Text
  pub paused_until : ℕ
  pub resumed_at : Option ℕ
  pub row_written_at : ℕ
  pub reason : Option Text

pub record EffectivePause : Type 0 where
  -- When the gate reopens, or `none` when it is open.
  pub until : Option ℕ
  pub capped : Bool

abbrev pub open_gate : EffectivePause
open_gate = record { until = none; capped = false }

-- `args.firstObservedAt ?? now`.
abbrev pub anchor_of : Option ℕ → ℕ → ℕ
anchor_of none now = now
anchor_of (some first) now = first

-- `Math.min(...terms)`.
unfoldable pub effective_of : IngestControlRow → Option ℕ → ℕ → ℕ
effective_of row first_observed_at now =
    min row.paused_until
      (min (row.row_written_at + pause_cap_ms) (anchor_of first_observed_at now + pause_cap_ms))

unfoldable pub clamp_row : IngestControlRow → Option ℕ → ℕ → EffectivePause
unfolding effective_of
clamp_row row first_observed_at now =
    let effective = effective_of row first_observed_at now in
    let capped = ltb effective row.paused_until in
    if leb effective now
    then record { until = none; capped = capped }
    else record { until = some effective; capped = capped }

unfoldable pub effective_pause : Option IngestControlRow → Option ℕ → ℕ → EffectivePause
unfolding clamp_row
effective_pause none first_observed_at now = open_gate
effective_pause (some row) first_observed_at now = elim row.resumed_at [
  | none ↦ clamp_row row first_observed_at now
  | some resumed ↦ open_gate
]

-- The daemon's cached view of the pause.
pub record PauseState : Type 0 where
  pub effective : EffectivePause
  pub stale : Bool

abbrev pub fresh_state : PauseState
fresh_state = record { effective = open_gate; stale = false }

unfoldable pub observe : EffectivePause → PauseState → PauseState
observe pause state = record { effective = pause; stale = false }

unfoldable pub observe_unavailable : PauseState → PauseState
observe_unavailable state = record state { stale = true }

-- The deadline in force, or `none` when writes are open.
unfoldable pub paused_until : ℕ → PauseState → Option ℕ
paused_until now state = elim state.effective.until [
  | none ↦ none
  | some until ↦ if leb until now then none else some until
]

unfoldable pub is_paused : ℕ → PauseState → Bool
unfolding paused_until
is_paused now state = elim (paused_until now state) [ none ↦ false | some until ↦ true ]
