-- ===== src/Console/Swap/Cutting.antt =====
-- src/console/migration.ts, the cut: what has to hold before it, the fence, the swap and what follows,
-- and what is released on every path.
use hx_fortress.Prelude.{
  ℕ, ◌+◌, min, Bool, true, false, ◌||◌, not, Option, none, some, List, ◌∷◌, ltb, if◌then◌else◌,
  nat_eq, text_eq,
}
use hx_fortress.Console.Swap.{
  GateState, Deps, Times, fence_margin_ms, switching, verifying, finished, Reason, clamped,
  never_in_force, not_quiet, pause_expired, nearly_spent, not_bound, not_verified, not_whole,
  fenced, swapped, resumed, Run, got, threw, Step, continue, ◌>>=◌, ◌>>◌, modify, noted, released,
  set_phase, abort,
}
use hx_fortress.Console.Swap.Pausing.{
  clock, pause_spent, arm_pause, await_in_force, await_quiesced, piece_of_work, beaten_pieces,
}

module _ (D : Deps) (times : Times) (budget_ends : ℕ) where
  -- The check after the pieces: `pauseLapsed || pauseSpent()`.
  unfoldable pub lapsed_by_now : Step D.World Bool
  lapsed_by_now r = if r.pause_lapsed then (r, got true) else pause_spent D times budget_ends r

  -- `fence.capped || remaining < FENCE_MARGIN_MS`, and a note of a fence that is passed.
  abbrev pub fence_within : Bool → Option ℕ → Step D.World Bool
  fence_within capped none r = (r, got false)
  fence_within capped (some until) r =
      continue
        (λ now s.
          if capped || ltb until (now + fence_margin_ms)
          then (s, got false)
          else (noted (fenced until now s.armed_until) s, got true))
        (clock D times budget_ends r)

  unfoldable pub fence_holds : GateState → Step D.World Bool
  fence_holds fence = fence_within fence.capped fence.paused_until

  -- What `swapCredentials` answers; one that throws has no version to note.
  abbrev pub version_written : Option ℕ → Step D.World (Unit {0})
  version_written none r = (r, threw)
  version_written (some version) r = (
    record r {
      calls = swapped version ∷ r.calls;
      result = record (Run.result r) { version = some version };
    },
    got _,
  )

  unfoldable pub swap : Step D.World (Unit {0})
  swap r =
      version_written (D.swap_credentials r.world).1
        (record r { world = (D.swap_credentials r.world).0 })

  abbrev pub mark_switched : Step D.World (Unit {0})
  mark_switched = modify (λ r. record r { result = record (Run.result r) { switched = true } })

  abbrev pub rebind : Step D.World Bool
  rebind r = (record r { world = (D.rebind_store r.world).0 }, got (D.rebind_store r.world).1)

  abbrev pub finish : Option Reason → Step D.World (Unit {0})
  finish reason =
      modify
        (λ r. record r { result = record (Run.result r) { phase = finished; reason = reason } })

  -- What the number of objects that are missing comes to; `none` is a verification that throws.
  abbrev pub verdict : Option ℕ → Option Reason
  verdict none = some not_verified
  verdict (some missing) = if ltb 0 missing then some (not_whole missing) else none

  abbrev pub verify : Step D.World (Option ℕ)
  verify r = (record r { world = (D.verify r.world).0 }, got (D.verify r.world).1)

  unfoldable pub served : Step D.World (Unit {0})
  served = do mark_switched; set_phase verifying; missing ← verify; finish (verdict missing)

  -- From the cut on: nothing goes back.
  unfoldable pub cut : Step D.World (Unit {0})
  cut = do
    set_phase switching
    swap
    bound ← rebind
    if bound then served else (abort not_bound >> mark_switched)

  -- The fence, re-armed and proved again.
  unfoldable pub fence_and_cut : ℕ → Step D.World (Unit {0})
  fence_and_cut fuel = do
    arm_pause D times budget_ends
    fence ← await_in_force D times budget_ends fuel
    holds ← fence_holds fence
    if holds then cut else abort nearly_spent

  unfoldable pub work_and_cut :
      ℕ → (D.World → D.World × Bool) → List (D.World → D.World × Bool) → Step D.World (Unit {0})
  work_and_cut fuel first pieces = do
    piece_of_work D times budget_ends first
    beaten_pieces D times budget_ends pieces
    lapsed ← lapsed_by_now
    if lapsed then abort pause_expired else fence_and_cut fuel

  unfoldable pub barrier : ℕ → Step D.World Bool
  barrier fuel = do
    now ← clock D times budget_ends
    await_quiesced D times budget_ends (min budget_ends (now + times.barrier_ms)) fuel

  unfoldable pub quiet_and_cut :
      ℕ → (D.World → D.World × Bool) → List (D.World → D.World × Bool) → Step D.World (Unit {0})
  quiet_and_cut fuel first pieces = do
    quiet ← barrier fuel
    if quiet then work_and_cut fuel first pieces else abort not_quiet

  abbrev pub held_until :
      Option ℕ
      → ℕ
      → (D.World → D.World × Bool)
      → List (D.World → D.World × Bool)
      → Step D.World (Unit {0})
  held_until none fuel first pieces = abort never_in_force
  held_until (some until) fuel first pieces = quiet_and_cut fuel first pieces

  -- The body of the inner `try`.
  unfoldable pub held :
      ℕ → (D.World → D.World × Bool) → List (D.World → D.World × Bool) → Step D.World (Unit {0})
  held fuel first pieces = do
    in_force ← await_in_force D times budget_ends fuel
    if in_force.capped then abort clamped else held_until in_force.paused_until fuel first pieces

  -- The `finally` of the pause: the episode in force is released, or that it was not is reported.
  unfoldable pub release : Step D.World (Unit {0})
  release r = (
    record r {
      world = (D.resume_ingest r.episode r.world).0;
      calls = resumed r.episode ∷ r.calls;
      result = record (Run.result r) { resume_failed = not (D.resume_ingest r.episode r.world).1 };
    },
    got _,
  )

  -- Once the first episode is armed, the release is certain.
  unfoldable pub pause_and_cut :
      ℕ → (D.World → D.World × Bool) → List (D.World → D.World × Bool) → Step D.World (Unit {0})
  pause_and_cut fuel first pieces = do
    arm_pause D times budget_ends
    λ r. released (held fuel first pieces r) release
