-- ===== src/Console/IngestControl/Bound.antt =====
-- src/console/ingest-control.ts: how long a pause can hold the gate, and what a lost database does.
use hx_fortress.Prelude.{
  ℕ, zero, suc, ◌+◌, ◌≤◌, ◌<◌, ◌≡◌, refl, sym, ap, ◌∙◌, ◌⊎◌, inl, inr, true, false, Option, none,
  some, arith, leb, Bool-cases, Option-cases, nat_eq, text_eq,
}
use hx_fortress.Console.IngestControl.{
  pause_cap_ms, IngestControlRow, EffectivePause, anchor_of, effective_of, clamp_row,
  effective_pause, PauseState, observe, observe_unavailable, paused_until, is_paused,
}

-- The three instants that bound the episode are all still ahead.
abbrev pub InForce : IngestControlRow → ℕ → ℕ → Type 0
InForce row anchor now =
    (now < row.paused_until)
    × (now < row.row_written_at + pause_cap_ms)
    × (now < anchor + pause_cap_ms)

abbrev pub BoundCases : IngestControlRow → Option ℕ → ℕ → EffectivePause → Type 0
BoundCases row first now pause =
    ((until : ℕ) × ((pause.until ≡ some until)
        × (until ≤ row.paused_until)
        × (until ≤ row.row_written_at + pause_cap_ms)
        × (until ≤ anchor_of first now + pause_cap_ms)
        × InForce row (anchor_of first now) now))
    ⊎ ((pause.until ≡ none)
        × ((row.paused_until ≤ now)
            ⊎ ((row.row_written_at + pause_cap_ms ≤ now)
                ⊎ (anchor_of first now + pause_cap_ms ≤ now))))

clamp_row-cases :
    (row : IngestControlRow) (first : Option ℕ) (now : ℕ)
    → BoundCases row first now (clamp_row row first now)
unfolding clamp_row effective_of
clamp_row-cases row first now = elim (Bool-cases (leb (effective_of row first now) now)) [
  | inl past ↦ rw past (inr (refl, ground arith))
  | inr ahead ↦ rw ahead (
      inl (effective_of row first now, (refl, omega arith, omega arith, omega arith, ground arith)))
]

-- A row that is not resumed closes the gate exactly while none of the three bounds has passed: what
-- was asked for, the cap past the row's own stamp, and the cap past the daemon's first sight of it.
-- What it closes the gate until is no later than any of them. A row leaves the gate open otherwise only
-- where it is resumed; and with no row the gate is open, and nothing is capped.
pub pause_bounded :
    (row : IngestControlRow) (first : Option ℕ) (now : ℕ)
    → (((row.resumed_at ≡ none) × BoundCases row first now (effective_pause (some row) first now))
        ⊎ (((at : ℕ) × (row.resumed_at ≡ some at))
            × ((effective_pause (some row) first now).until ≡ none)))
      × (effective_pause none first now ≡ record { until = none; capped = false })
unfolding effective_pause
pause_bounded row first now = elim (Option-cases row.resumed_at) [
  | inl running ↦ rw running (inl (refl, clamp_row-cases row first now), refl)
  | inr (at, resumed) ↦ rw resumed (inr ((at, refl), refl), refl)
]

-- `count` status heartbeats in a row that cannot read the row.
unfoldable pub outage : ℕ → PauseState → PauseState
outage zero state = state
outage (suc n) state = outage n (observe_unavailable state)

pub outage-effective : (n : ℕ) (state : PauseState) → (outage n state).effective ≡ state.effective
unfolding outage observe_unavailable
outage-effective zero state = refl
outage-effective (suc n) state = outage-effective n (observe_unavailable state)

pub paused_until-outage :
    (n : ℕ) (now : ℕ) (state : PauseState)
    → paused_until now (outage n state) ≡ paused_until now state
unfolding paused_until
paused_until-outage n now state = rw (outage-effective n state)

clamp_row-until :
    (row : IngestControlRow) (first : Option ℕ) (now until : ℕ)
    → (effective_pause (some row) first now).until ≡ some until
    → (until ≤ row.paused_until)
      × (until ≤ row.row_written_at + pause_cap_ms)
      × (until ≤ anchor_of first now + pause_cap_ms)
clamp_row-until row first now until h = elim (pause_bounded row first now).0 [
  | inr (resumed, gone) ↦ absurd (cc)
  | inl (running, inr (gone, _)) ↦ absurd (cc)
  | inl (running, inl (u, (at, a, b, c, _))) ↦ let e : until ≡ u = ground arith in rw e (a, b, c)
]

is_paused-open :
    (now : ℕ) (state : PauseState) → state.effective.until ≡ none → is_paused now state ≡ false
unfolding is_paused paused_until
is_paused-open now state h = rw h refl

is_paused-past :
    (now until : ℕ) (state : PauseState)
    → state.effective.until ≡ some until
    → leb until now ≡ true
    → is_paused now state ≡ false
unfolding is_paused paused_until
is_paused-past now until state h k = ground arith

closed_within :
    (row : IngestControlRow) (first : Option ℕ) (read now : ℕ) (state : PauseState)
    → state.effective ≡ effective_pause (some row) first read
    → (is_paused now state ≡ false) ⊎ InForce row (anchor_of first read) now
closed_within row first read now state e = elim (Option-cases state.effective.until) [
  | inl gone ↦ inl (is_paused-open now state gone)
  | inr (until, at) ↦ elim (Bool-cases (leb until now)) [
    | inl past ↦ inl (is_paused-past now until state at past)
    | inr ahead ↦
        let bounds : (until ≤ row.paused_until)
            × (until ≤ row.row_written_at + pause_cap_ms)
            × (until ≤ anchor_of first read + pause_cap_ms) =
          clamp_row-until row first read until (ap (λ p. p.until) (sym e) ∙ at) in
        inr (ground arith)
  ]
]

observed_effective :
    (n : ℕ) (row : IngestControlRow) (first : Option ℕ) (read : ℕ) (state : PauseState)
    → (outage n (observe (effective_pause (some row) first read) state)).effective
      ≡ effective_pause (some row) first read
unfolding observe
observed_effective n row first read state =
    outage-effective n (observe (effective_pause (some row) first read) state)

-- The database goes away after one good read, for any number of heartbeats: the gate answers at every
-- later instant as it would have with the last good read, so it does not reopen before the deadline
-- it knew; and when it is closed, then the cap past the row's stamp, and past the daemon's anchor at
-- that read, is still ahead, so it does not stay closed beyond them.
pub outage_keeps_deadline :
    (n : ℕ) (row : IngestControlRow) (first : Option ℕ) (read now : ℕ) (state : PauseState)
    → (paused_until now (outage n (observe (effective_pause (some row) first read) state))
        ≡ paused_until now (observe (effective_pause (some row) first read) state))
      × ((is_paused now (outage n (observe (effective_pause (some row) first read) state)) ≡ false)
          ⊎ InForce row (anchor_of first read) now)
outage_keeps_deadline n row first read now state =
    let last = observe (effective_pause (some row) first read) state in
    (
      paused_until-outage n now last,
      closed_within row first read now (outage n last) (observed_effective n row first read state),
    )
