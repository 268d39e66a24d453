-- ===== src/Console/Swap/Guarded.antt =====
-- src/console/migration.ts: what a whole run ends with, from what holds at its start, while the drain is
-- engaged, after the cut and at its end.
use hx_fortress.Prelude.{ℕ, ◌+◌, Bool, true, false, List, ◌∷◌, nat_eq, text_eq}
use hx_fortress.Console.Swap.{
  Deps, Times, draining, quiescing, finished, drain_set, Run, Answer, got, threw, out_of_fuel, Step,
  continue, ◌>>=◌, ◌>>◌, set_phase,
}
use hx_fortress.Console.PauseGate.{IngestQuiesce}
use hx_fortress.Console.Swap.Pausing.{clock}
use hx_fortress.Console.Swap.Cutting.{pause_and_cut}
use hx_fortress.Console.Swap.Running.{
  MigrationMode, plan, copy, switch, drain_loop, held_times, drained, drain_and_cut,
  copy_and_narrow, run_storage_migration,
}
use hx_fortress.Console.Swap.Yields.{Yields}
use hx_fortress.Console.Swap.Carried.{IsCarried, drain_loop-Yields, copy_and_narrow-Yields}

-- At the start, while draining, after the cut, and at the end.
pub record Stages (D : Deps) (times : Times) (P Q R S : Run D.World → Type 0) : Type 0 where
  pub start_carried : IsCarried D.World P
  pub drain_carried : IsCarried D.World Q
  pub engages :
      (r : Run D.World) (w : D.World)
      → P r
      → Q (record r { world = w; calls = drain_set true ∷ r.calls })
  pub cuts :
      (budget_ends fuel : ℕ) (first : D.World → D.World × Bool)
      (pieces : List (D.World → D.World × Bool)) (r : Run D.World)
      → Q r
      → R (pause_and_cut D (held_times D times) budget_ends fuel first pieces r).0
  pub gives_up : (r : Run D.World) → Q r → R r
  pub disengages :
      (r : Run D.World) (w : D.World)
      → R r
      → S (record r { world = w; calls = drain_set false ∷ r.calls })
  pub stops : (r : Run D.World) → P r → S r

module _ (D : Deps) (times : Times) (P Q R S : Run D.World → Type 0)
    (stages : Stages D times P Q R S) where
  drained-ends :
      (fuel : ℕ) (first : D.World → D.World × Bool) (pieces : List (D.World → D.World × Bool))
      (r : Run D.World)
      → Q r
      → R (drained D times fuel first pieces r).0
  unfolding drained
  drained-ends fuel first pieces r q =
      let looped =
        drain_loop D times (IngestQuiesce.signature_floor_ms (D.quiesce r.world)) fuel r in
      let after : Step D.World (Unit {0}) =
        set_phase quiescing
        >> (clock D times 0 >>= λ now.
            pause_and_cut D (held_times D times) (now + times.budget_ms) fuel first pieces) in
      go after looped
        (drain_loop-Yields D times Q stages.drain_carried
          (IngestQuiesce.signature_floor_ms (D.quiesce r.world)) fuel r q)
        (λ s h. stages.cuts ((D.clock s.world).0 + times.budget_ms) fuel first pieces _ (
          stages.drain_carried.carries_world _ (D.clock s.world).1
            (stages.drain_carried.carries_phase s quiescing h)))
    where
      go :
          (after : Step D.World (Unit {0})) (x : Run D.World × Answer (Unit {0}))
          → Yields Q (λ a. Q) x
          → ((s : Run D.World) → Q s → R (after s).0)
          → R (continue (λ a. after) x).0
      go after (s, got a) h k = k s h
      go after (s, threw) h k = stages.gives_up s h
      go after (s, out_of_fuel) h k = stages.gives_up s h

  copied-ends :
      (last : Step D.World (Unit {0})) (r : Run D.World)
      → P r
      → ((s : Run D.World) → P s → S (last s).0)
      → S (continue (λ a. last) (copy_and_narrow D times r)).0
  copied-ends last r p k =
      go (copy_and_narrow D times r) (copy_and_narrow-Yields D times P stages.start_carried r p)
    where
      go :
          (x : Run D.World × Answer (Unit {0})) → Yields P (λ a. P) x → S (continue (λ a. last) x).0
      go (s, got a) h = k s h
      go (s, threw) h = stages.stops s h
      go (s, out_of_fuel) h = stages.stops s h

  pub run-ends :
      (mode : MigrationMode) (fuel : ℕ) (first : D.World → D.World × Bool)
      (pieces : List (D.World → D.World × Bool)) (r : Run D.World)
      → P r
      → S (run_storage_migration D times mode fuel first pieces r).0
  unfolding run_storage_migration drain_and_cut
  run-ends plan fuel first pieces r p =
      stages.stops _ (stages.start_carried.carries_phase r finished p)
  run-ends copy fuel first pieces r p =
      copied-ends (set_phase finished) r p
        (λ s q. stages.stops _ (stages.start_carried.carries_phase s finished q))
  run-ends switch fuel first pieces r p =
      copied-ends (drain_and_cut D times fuel first pieces) r p (λ s q. stages.disengages _ _ (
        drained-ends fuel first pieces _
          (stages.engages _ _ (stages.start_carried.carries_phase s draining q))))
