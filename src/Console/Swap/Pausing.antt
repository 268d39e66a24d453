-- ===== src/Console/Swap/Pausing.antt =====
-- src/console/migration.ts, the pause: arming it, its heartbeats, the wait for the gate, the wait for
-- quiet, and the work between the beats.
use hx_fortress.Prelude.{
  ℕ, zero, suc, ◌+◌, ◌-◌, ◌*◌, min, Bool, true, false, ◌||◌, Option, none, some, List, [], ◌∷◌, ltb,
  leb, if◌then◌else◌, nat_eq, Text, text_eq,
}
use hx_fortress.Console.Swap.{
  GateState, Deps, Times, armed, checked, got, threw, out_of_fuel, Step, continue, ◌>>=◌, ◌>>◌,
  pure, modify, unless, noted,
}
use hx_fortress.Console.PauseGate.{is_quiesced}

-- A turn of a loop that has its answer, or goes on.
abbrev pub turn_ends : {W A : Type 0} → Option A → Step W A → Step W A
turn_ends none rest = rest
turn_ends (some a) rest = pure a

module _ (D : Deps) (times : Times) (budget_ends : ℕ) where
  abbrev pub clock : Step D.World ℕ
  clock r = (record r { world = (D.clock r.world).1 }, got (D.clock r.world).0)

  abbrev pub refresh : Step D.World (Unit {0})
  refresh r = (
    record r { world = (D.refresh_gate r.world).0 },
    if (D.refresh_gate r.world).1 then got _ else threw,
  )

  abbrev pub sleep : ℕ → Step D.World (Unit {0})
  sleep ms r = (record r { world = D.sleep ms r.world }, got _)

  -- What `deps.armPause` answers: it throws, or the episode is the one to release.
  abbrev pub episode_armed : Option Text → Step D.World (Unit {0})
  episode_armed none r = (r, threw)
  episode_armed (some episode) r =
      (record r { calls = armed r.armed_until episode ∷ r.calls; episode = episode }, got _)

  abbrev pub request_pause : Step D.World (Unit {0})
  request_pause r =
      episode_armed (D.arm_pause r.armed_until r.world).1
        (record r { world = (D.arm_pause r.armed_until r.world).0 })

  -- `episode = await armPause()`.
  unfoldable pub arm_pause : Step D.World (Unit {0})
  arm_pause = do
    now ← clock
    modify (λ r. record r { armed_until = min budget_ends (now + times.heartbeat_ms) })
    request_pause

  -- `pauseSpent`, with a note of what it read.
  unfoldable pub pause_spent : Step D.World Bool
  pause_spent = do
    now ← clock
    λ r. (noted (checked r.armed_until now) r, got (leb r.armed_until now))

  -- `armedUntil - now > heartbeatMs / 2`, whose division is not of whole numbers.
  abbrev pub has_half : ℕ → ℕ → Bool
  has_half now armed_until = ltb times.heartbeat_ms (2 * (armed_until - now))

  unfoldable pub heartbeat : Step D.World (Unit {0})
  heartbeat = do
    now ← clock
    spent ← pause_spent
    modify (λ r. record r { pause_lapsed = if spent then true else r.pause_lapsed })
    λ r. unless (leb budget_ends now || has_half now r.armed_until) arm_pause r

  -- Whether the loop has its answer: a clamped episode is one, and so is a deadline not before the one
  -- that was armed.
  abbrev pub reaches : Option ℕ → ℕ → Bool
  reaches none armed_until = false
  reaches (some until) armed_until = leb armed_until until

  -- One turn's reading of the gate, and what the loop makes of it; `none` is to go on.
  -- Past its deadline, the loop answers that no pause is in force.
  abbrev pub past_deadline : Bool → Bool → Option GateState
  past_deadline true capped = some (record { paused_until = none; capped = capped })
  past_deadline false capped = none

  abbrev pub gate_read : ℕ → GateState → Step D.World (Option GateState)
  gate_read deadline state r =
      if state.capped || reaches state.paused_until r.armed_until
      then (r, got (some state))
      else continue (λ now s. (s, got (past_deadline (leb deadline now) state.capped))) (clock r)

  unfoldable pub gate_turn : ℕ → Step D.World (Option GateState)
  gate_turn deadline = do refresh; λ r. gate_read deadline (D.gate r.world) r

  unfoldable pub await_loop : ℕ → ℕ → Step D.World GateState
  await_loop deadline zero r = (r, out_of_fuel)
  await_loop deadline (suc fuel) r =
      let rest = sleep 250 >> await_loop deadline fuel in
      continue (λ answer. turn_ends answer rest) (gate_turn deadline r)

  unfoldable pub await_in_force : ℕ → Step D.World GateState
  await_in_force fuel = do now ← clock; await_loop (now + times.gate_confirm_ms) fuel

  abbrev pub quiet_now : Step D.World Bool
  quiet_now = do at ← clock; λ s. (s, got (is_quiesced at (D.quiesce s.world)))

  -- One turn of `awaitQuiesced`; `none` is to go on.
  unfoldable pub quiet_turn : ℕ → Step D.World (Option Bool)
  quiet_turn deadline = do
    now ← clock
    quiet ← quiet_now
    pure (if ltb now deadline then if quiet then some true else none else some quiet)

  -- `awaitQuiesced`, with the heartbeat at every poll.
  unfoldable pub await_quiesced : ℕ → ℕ → Step D.World Bool
  await_quiesced deadline zero r = (r, out_of_fuel)
  await_quiesced deadline (suc fuel) r =
      let rest = (sleep 250 >> heartbeat) >> await_quiesced deadline fuel in
      continue (λ answer. turn_ends answer rest) (quiet_turn deadline r)

  -- A piece of the work between two beats; `false` is one that throws.
  unfoldable pub piece_of_work : (D.World → D.World × Bool) → Step D.World (Unit {0})
  piece_of_work piece r =
      (record r { world = (piece r.world).0 }, if (piece r.world).1 then got _ else threw)

  -- The final delta and the replay of the tombstones: after the first piece, a beat before each.
  unfoldable pub beaten_pieces : List (D.World → D.World × Bool) → Step D.World (Unit {0})
  beaten_pieces [] = pure _
  beaten_pieces (piece ∷ pieces) = (heartbeat >> piece_of_work piece) >> beaten_pieces pieces
