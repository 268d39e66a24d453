-- ===== src/Console/Swap/Tests.antt =====
-- Concrete runs of the control, and the theorems at them.
use hx_fortress.Prelude.{
  ℕ, ◌+◌, ◌≡◌, refl, ◌≢◌, Bool, true, false, none, some, List, [], ◌∷◌, map, arith, nat_eq, codes,
  text_eq,
}
use hx_fortress.Console.Swap.{
  Deps, finished, aborted_phase, pause_expired, Run, Answer, out_of_fuel,
}
use hx_fortress.Console.PauseGate.{fresh_quiesce, is_quiesced}
use hx_fortress.Console.Swap.{default_times}
use hx_fortress.Console.Swap.Pausing.{
  pause_spent, arm_pause, heartbeat, gate_turn, await_loop, await_in_force, quiet_turn,
  await_quiesced, piece_of_work, beaten_pieces,
}
use hx_fortress.Console.Swap.Cutting.{
  lapsed_by_now, fence_holds, swap, served, cut, fence_and_cut, work_and_cut, barrier,
  quiet_and_cut, held, release, pause_and_cut,
}
use hx_fortress.Console.Swap.Running.{
  switch, new_run, delta_passes, drain_loop, drained, drain_and_cut, copy_and_narrow,
  run_storage_migration,
}
use hx_fortress.Console.Swap.Fenced.{IsSafe, swap-IsSafe}
use hx_fortress.Console.Swap.Released.{IsRunReleased, run-IsRunReleased}
use hx_fortress.Console.Swap.Honest.{IsHonest, pause_and_cut-IsHonest}
use hx_fortress.Console.Swap.Waiting.{Advances, waits-end}

-- A clock, and the deadline that the gate enforces.
pub record ToyWorld : Type 0 where
  pub time : ℕ
  pub deadline : ℕ

-- A daemon whose store cannot be bound to the new bucket when `bindable` is not set.
abbrev toy_deps : Bool → Deps
toy_deps bindable = record {
  World = ToyWorld;
  clock = λ w. (ToyWorld.time w, record w { time = ToyWorld.time w + 1 });
  sleep = λ ms w. record w { time = ToyWorld.time w + ms + 1 };
  arm_pause = λ until w. (record w { deadline = until }, some (codes "episode"));
  resume_ingest = λ episode w. (record w { deadline = 0 }, true);
  gate = λ w. record { paused_until = some (ToyWorld.deadline w); capped = false };
  refresh_gate = λ w. (w, true);
  quiesce = λ w. fresh_quiesce;
  arm_drain = λ on w. w;
  swap_credentials = λ w. (w, some 7);
  rebind_store = λ w. (w, bindable);
  self_test = λ w. (w, true);
  copy_plan = λ w. (w, true);
  delta_pass = λ w. (w, some 0);
  verify = λ w. (w, some 0);
}

abbrev start : ToyWorld
start = record { time = 1000; deadline = 0 }

-- A piece of the work that takes so many milliseconds.
abbrev takes : ℕ → ToyWorld → ToyWorld × Bool
takes ms w = (record w { time = w.time + ms }, true)

abbrev ran : Bool → List ℕ → Run ToyWorld × Answer (Unit {0})
ran bindable pieces =
    run_storage_migration (toy_deps bindable) default_times switch 3 (takes 10)
      (map (λ ms. takes ms) pieces) (new_run start)

-- A run whose work stays inside its pause swaps, and one whose work outlasts an episode does not.
run-swapped : Run.result (ran true (40000 ∷ 10 ∷ [])).0 ≡ record {
  phase = finished;
  switched = true;
  version = some 7;
  reason = none;
  resume_failed = false;
}
unfolding run_storage_migration copy_and_narrow delta_passes drain_and_cut drained drain_loop
    pause_and_cut arm_pause held await_in_force await_loop gate_turn quiet_and_cut barrier
    await_quiesced quiet_turn heartbeat pause_spent work_and_cut piece_of_work beaten_pieces
    lapsed_by_now fence_and_cut fence_holds cut swap served release is_quiesced
run-swapped = refl

run-expired : Run.result (ran true (70000 ∷ 10 ∷ [])).0 ≡ record {
  phase = aborted_phase;
  switched = false;
  version = none;
  reason = some pause_expired;
  resume_failed = false;
}
unfolding run_storage_migration copy_and_narrow delta_passes drain_and_cut drained drain_loop
    pause_and_cut arm_pause held await_in_force await_loop gate_turn quiet_and_cut barrier
    await_quiesced quiet_turn heartbeat pause_spent work_and_cut piece_of_work beaten_pieces
    lapsed_by_now fence_and_cut fence_holds cut swap served release is_quiesced
run-expired = refl

swap-IsSafe_example : IsSafe (Run.calls (ran true (40000 ∷ 10 ∷ [])).0)
swap-IsSafe_example =
    swap-IsSafe (toy_deps true) default_times switch 3 (takes 10)
      (map (λ ms. takes ms) (40000 ∷ 10 ∷ [])) start

run-IsRunReleased_example : IsRunReleased (Run.calls (ran true (70000 ∷ 10 ∷ [])).0)
run-IsRunReleased_example =
    run-IsRunReleased (toy_deps true) default_times switch 3 (takes 10)
      (map (λ ms. takes ms) (70000 ∷ 10 ∷ [])) start

pause_and_cut-IsHonest_example :
    IsHonest 400000
      (pause_and_cut (toy_deps false) default_times 400000 3 (takes 10) [] (new_run start)).0
pause_and_cut-IsHonest_example =
    pause_and_cut-IsHonest (toy_deps false) default_times 400000 3 (takes 10) [] (new_run start)
      (refl, refl, refl, refl, _)

abbrev toy_advances : Advances (toy_deps true)
toy_advances = record {
  time = λ w. ToyWorld.time w;
  reads = λ w. omega arith;
  read_after = λ w. omega arith;
  sleeps = λ ms w. omega arith;
  refreshes = λ w. omega arith;
  arms_pause = λ until w. omega arith;
}

waits-end_example :
    ((await_in_force (toy_deps true) default_times 400000 120001 (new_run start)).1 ≢ out_of_fuel)
    × ((barrier (toy_deps true) default_times 400000 120001 (new_run start)).1 ≢ out_of_fuel)
waits-end_example =
    waits-end (toy_deps true) default_times 400000 toy_advances 120001 (new_run start) (omega arith)
      (omega arith)
