-- ===== src/Console/IngestControl/Tests.antt =====
-- Pause episodes on concrete clocks, and the theorems at them.
use hx_fortress.Prelude.{ℕ, ◌≡◌, refl, ◌⊎◌, true, false, none, some, nat_eq, codes, text_eq}
use hx_fortress.Console.IngestControl.{IngestControlRow, effective_pause, clamp_row, effective_of}
use hx_fortress.Console.IngestControl.Bound.{pause_bounded, BoundCases}

-- An hour asked for, which the cap cuts to a quarter.
abbrev hour_long : IngestControlRow
hour_long = record {
  id = codes "e1";
  paused_until = 3_600_000;
  resumed_at = none;
  row_written_at = 1_000;
  reason = none;
}

capped_pause :
    effective_pause (some hour_long) (some 2_000) 5_000
    ≡ record { until = some 901_000; capped = true }
unfolding effective_pause clamp_row effective_of
capped_pause = refl

pause_bounded_example :
    (((hour_long.resumed_at ≡ none)
        × BoundCases hour_long
            (some 2_000)
            5_000
            (effective_pause (some hour_long) (some 2_000) 5_000))
      ⊎ (((at : ℕ) × (hour_long.resumed_at ≡ some at))
          × ((effective_pause (some hour_long) (some 2_000) 5_000).until ≡ none)))
    × (effective_pause none (some 2_000) 5_000 ≡ record { until = none; capped = false })
pause_bounded_example = pause_bounded hour_long (some 2_000) 5_000
