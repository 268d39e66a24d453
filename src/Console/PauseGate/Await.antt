-- ===== src/Console/PauseGate/Await.antt =====
-- src/console/pause-gate.ts, `awaitQuiesced`: the loop over what its polls see.
use hx_fortress.Prelude.{
  ℕ, zero, suc, ◌+◌, ◌≤◌, ◌<◌, ◌≡◌, refl, inl, inr, Bool, true, false, Option, none, some, arith,
  ltb, if◌then◌else◌, Bool-cases, nat_eq, text_eq,
}
use hx_fortress.Console.PauseGate.{IngestQuiesce, is_quiesced}

-- One turn of the loop: its two readings of the clock, and the accounting at the second of them,
-- after the turn's sleep, heartbeat and flush.
pub record Poll : Type 0 where
  pub loop_clock : ℕ
  pub check_clock : ℕ
  pub quiesce : IngestQuiesce

-- The loop from turn `n`, with fuel for the turns: `none` is fuel run out.
unfoldable pub await_quiesced : (ℕ → Poll) → ℕ → ℕ → ℕ → Option Bool
await_quiesced polls deadline zero n = none
await_quiesced polls deadline (suc fuel) n =
    let rest = await_quiesced polls deadline fuel (suc n) in
    if ltb (polls n).loop_clock deadline
    then if is_quiesced (polls n).check_clock (polls n).quiesce then some true else rest
    else some (is_quiesced (polls n).check_clock (polls n).quiesce)

-- What an answer of the loop says: there is a turn at which the accounting was quiet, or one past the
-- deadline at which it was not.
abbrev pub Says : (ℕ → Poll) → ℕ → Bool → Type 0
Says polls deadline true = (m : ℕ) × (is_quiesced (polls m).check_clock (polls m).quiesce ≡ true)
Says polls deadline false =
    (m : ℕ) × ((deadline ≤ (polls m).loop_clock)
      × (is_quiesced (polls m).check_clock (polls m).quiesce ≡ false))

-- On a clock that advances from turn to turn, the wait ends within as many turns as there are
-- milliseconds to the deadline, and one more. It answers true only after a turn at which nothing was
-- in flight and no signature outstanding, and false only past the deadline, when that did not hold.
pub wait_is_bounded :
    (polls : ℕ → Poll) (deadline fuel n : ℕ)
    → ((m : ℕ) → (polls m).loop_clock < (polls (suc m)).loop_clock)
    → deadline ≤ (polls n).loop_clock + fuel
    → (quiet : Bool) × ((await_quiesced polls deadline (suc fuel) n ≡ some quiet)
        × Says polls deadline quiet)
unfolding await_quiesced
wait_is_bounded polls deadline zero n advancing enough =
    let past : ltb (polls n).loop_clock deadline ≡ false = ground arith in
    elim (Bool-cases (is_quiesced (polls n).check_clock (polls n).quiesce)) [
      | inl quiet ↦ (true, (rw (past, quiet) refl, (n, quiet)))
      | inr busy ↦ (false, (rw (past, busy) refl, (n, (ground arith, busy))))
    ]
wait_is_bounded polls deadline (suc fuel) n advancing enough =
    elim (Bool-cases (ltb (polls n).loop_clock deadline)) [
      | inr past ↦ elim (Bool-cases (is_quiesced (polls n).check_clock (polls n).quiesce)) [
        | inl quiet ↦ (true, (rw (past, quiet) refl, (n, quiet)))
        | inr busy ↦ (false, (rw (past, busy) refl, (n, (ground arith, busy))))
      ]
      | inl early ↦ elim (Bool-cases (is_quiesced (polls n).check_clock (polls n).quiesce)) [
        | inl quiet ↦ (true, (rw (early, quiet) refl, (n, quiet)))
        | inr busy ↦
            let rest =
              wait_is_bounded polls deadline fuel (suc n) advancing (omega (arith, advancing n)) in
            (rest.0, (rw (early, busy) rest.1.0, rest.1.1))
      ]
    ]
