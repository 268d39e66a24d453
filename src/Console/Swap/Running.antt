-- ===== src/Console/Swap/Running.antt =====
-- src/console/migration.ts, `runStorageMigration` from its plan to its release: the modes, the bulk
-- copy and the delta passes, the drain of the long-lived signatures, and the cut.
use hx_fortress.Prelude.{
  ℕ, zero, suc, ◌+◌, min, Bool, true, false, Option, none, some, List, [], ◌∷◌, leb, nat_beq,
  if◌then◌else◌, nat_eq, text_eq,
}
use hx_fortress.Console.Swap.{
  Deps, Times, planning, provisioning, copying, delta_phase, draining, quiescing, finished,
  MigrationResult, drain_set, Run, got, threw, out_of_fuel, Step, continue, ◌>>=◌, ◌>>◌, unless,
  released, set_phase,
}
use hx_fortress.Console.PauseGate.{IngestQuiesce}
use hx_fortress.Console.Swap.Pausing.{clock, sleep}
use hx_fortress.Console.Swap.Cutting.{pause_and_cut}

pub data MigrationMode : Type 0 where
  plan copy switch : MigrationMode

abbrev pub max_delta_passes : ℕ
max_delta_passes = 8

abbrev pub new_result : MigrationResult
new_result = record {
  phase = planning;
  switched = false;
  version = none;
  reason = none;
  resume_failed = false;
}

abbrev pub new_run : {W : Type 0} → W → Run W
new_run world = record {
  world = world;
  armed_until = 0;
  episode = [];
  pause_lapsed = false;
  result = new_result;
  calls = [];
}

module _ (D : Deps) (times : Times) where
  abbrev pub checked_call : (D.World → D.World × Bool) → Step D.World (Unit {0})
  checked_call call r =
      (record r { world = (call r.world).0 }, if (call r.world).1 then got _ else threw)

  abbrev pub passed : Option ℕ → Step D.World ℕ
  passed none r = (r, threw)
  passed (some behind) r = (r, got behind)

  abbrev pub delta_pass : Step D.World ℕ
  delta_pass r = passed (D.delta_pass r.world).1 (record r { world = (D.delta_pass r.world).0 })

  -- The loop of the delta phase, which a pass that finds nothing behind ends.
  unfoldable pub delta_passes : ℕ → Step D.World (Unit {0})
  delta_passes zero r = (r, got _)
  delta_passes (suc passes) r =
      let rest = delta_passes passes in
      continue (λ behind. unless (nat_beq behind 0) rest) (delta_pass r)

  -- `while (clock() < runOff) { deltaPass; sleep }`, with fuel for the turns.
  unfoldable pub drain_loop : ℕ → ℕ → Step D.World (Unit {0})
  drain_loop run_off zero r = (r, out_of_fuel)
  drain_loop run_off (suc fuel) r =
      let rest = (delta_pass >> sleep D times 0 1000) >> drain_loop run_off fuel in
      continue (λ now. unless (leb run_off now) rest) (clock D times 0 r)

  abbrev pub set_drain : Bool → Step D.World (Unit {0})
  set_drain on r =
      (record r { world = D.arm_drain on r.world; calls = drain_set on ∷ r.calls }, got _)

  -- `heartbeatMs` is no longer than the budget.
  abbrev pub held_times : Times
  held_times = record times { heartbeat_ms = min times.heartbeat_ms times.budget_ms }

  -- The body of the outer `try`.
  unfoldable pub drained :
      ℕ → (D.World → D.World × Bool) → List (D.World → D.World × Bool) → Step D.World (Unit {0})
  drained fuel first pieces = do
    λ r. drain_loop (IngestQuiesce.signature_floor_ms (D.quiesce r.world)) fuel r
    set_phase quiescing
    now ← clock D times 0
    pause_and_cut D held_times (now + times.budget_ms) fuel first pieces

  unfoldable pub drain_and_cut :
      ℕ → (D.World → D.World × Bool) → List (D.World → D.World × Bool) → Step D.World (Unit {0})
  drain_and_cut fuel first pieces = do
    set_phase draining
    set_drain true
    λ r. released (drained fuel first pieces r) (set_drain false)

  unfoldable pub copy_and_narrow : Step D.World (Unit {0})
  copy_and_narrow = do
    set_phase provisioning
    checked_call D.self_test
    set_phase copying
    checked_call D.copy_plan
    set_phase delta_phase
    delta_passes max_delta_passes

  -- `runStorageMigration`, whose pieces are those of the final delta and of the replay.
  unfoldable pub run_storage_migration :
      MigrationMode
      → ℕ
      → (D.World → D.World × Bool)
      → List (D.World → D.World × Bool)
      → Step D.World (Unit {0})
  run_storage_migration plan fuel first pieces = set_phase finished
  run_storage_migration copy fuel first pieces = copy_and_narrow >> set_phase finished
  run_storage_migration switch fuel first pieces =
      copy_and_narrow >> drain_and_cut fuel first pieces
