-- ===== src/Console/Swap/Carried.antt =====
-- src/console/migration.ts: what a whole run keeps outside the pause, for any property of a run that the
-- copying and the drain keep.
use hx_fortress.Prelude.{
  ℕ, zero, suc, Bool, true, false, Option, none, some, leb, nat_beq, if◌then◌else◌, nat_eq, text_eq,
}
use hx_fortress.Console.Swap.{
  Deps, Times, MigrationPhase, provisioning, copying, delta_phase, Run, got, threw, Step, ◌>>◌,
  unless, set_phase,
}
use hx_fortress.Console.Swap.Pausing.{sleep}
use hx_fortress.Console.Swap.Running.{
  max_delta_passes, checked_call, passed, delta_pass, delta_passes, drain_loop, copy_and_narrow,
}
use hx_fortress.Console.Swap.Yields.{Yields, continue-Yields}

-- The changes outside the pause.
pub record IsCarried (W : Type 0) (P : Run W → Type 0) : Type 0 where
  pub carries_world : (r : Run W) (w : W) → P r → P (record r { world = w })
  pub carries_phase :
      (r : Run W) (phase : MigrationPhase)
      → P r
      → P (record r { result = record (Run.result r) { phase = phase } })

module _ (D : Deps) (times : Times) (P : Run D.World → Type 0) (carried : IsCarried D.World P) where
  checked_call-Yields :
      (call : D.World → D.World × Bool) (r : Run D.World)
      → P r
      → Yields P (λ a. P) (checked_call D times call r)
  checked_call-Yields call r p = go (call r.world).1 (carried.carries_world r (call r.world).0 p)
    where
      go :
          (ok : Bool) {s : Run D.World}
          → P s
          → Yields P (λ (a : Unit {0}). P) (s, if ok then got _ else threw)
      go true q = q
      go false q = q

  delta_pass-Yields : (r : Run D.World) → P r → Yields P (λ a. P) (delta_pass D times r)
  delta_pass-Yields r p =
      go (D.delta_pass r.world).1 (carried.carries_world r (D.delta_pass r.world).0 p)
    where
      go :
          (answer : Option ℕ) {s : Run D.World}
          → P s
          → Yields P (λ (a : ℕ). P) (passed D times answer s)
      go none q = q
      go (some n) q = q

  unless-Yields :
      (skip : Bool) (rest : Step D.World (Unit {0})) (r : Run D.World)
      → P r
      → Yields P (λ a. P) (rest r)
      → Yields P (λ a. P) (unless skip rest r)
  unless-Yields true rest r p h = p
  unless-Yields false rest r p h = h

  delta_passes-Yields :
      (passes : ℕ) (r : Run D.World) → P r → Yields P (λ a. P) (delta_passes D times passes r)
  unfolding delta_passes
  delta_passes-Yields zero r p = p
  delta_passes-Yields (suc passes) r p =
      continue-Yields P (λ a. P) (λ a. P)
        (λ behind. unless (nat_beq behind 0) (delta_passes D times passes)) (delta_pass D times r)
        (delta_pass-Yields r p)
        (λ behind s q.
          unless-Yields (nat_beq behind 0) (delta_passes D times passes) s q
            (delta_passes-Yields passes s q))

  pub drain_loop-Yields :
      (run_off fuel : ℕ) (r : Run D.World)
      → P r
      → Yields P (λ a. P) (drain_loop D times run_off fuel r)
  unfolding drain_loop
  drain_loop-Yields run_off zero r p = p
  drain_loop-Yields run_off (suc fuel) r p =
      let moved = carried.carries_world r (D.clock r.world).1 p in
      let s = record r { world = (D.clock r.world).1 } in
      let pass_sleep : Step D.World (Unit {0}) = delta_pass D times >> sleep D times 0 1000 in
      unless-Yields (leb run_off (D.clock r.world).0)
        (pass_sleep >> drain_loop D times run_off fuel) s moved
        (continue-Yields P (λ a. P) (λ a. P) (λ a. drain_loop D times run_off fuel) (pass_sleep s)
          (continue-Yields P (λ a. P) (λ a. P) (λ a. sleep D times 0 1000) (delta_pass D times s)
            (delta_pass-Yields s moved) (λ a t q. carried.carries_world t (D.sleep 1000 t.world) q))
          (λ a t q. drain_loop-Yields run_off fuel t q))

  pub copy_and_narrow-Yields :
      (r : Run D.World) → P r → Yields P (λ a. P) (copy_and_narrow D times r)
  unfolding copy_and_narrow
  copy_and_narrow-Yields r p =
      let narrow : Step D.World (Unit {0}) =
        set_phase delta_phase >> delta_passes D times max_delta_passes in
      let bulk : Step D.World (Unit {0}) =
        set_phase copying >> (checked_call D times D.copy_plan >> narrow) in
      let begun = (set_phase provisioning r).0 in
      continue-Yields P (λ a. P) (λ a. P) (λ a. bulk) (checked_call D times D.self_test begun)
        (checked_call-Yields D.self_test begun (carried.carries_phase r provisioning p))
        (λ a s q.
          continue-Yields P (λ b. P) (λ b. P) (λ b. narrow)
            (checked_call D times D.copy_plan (set_phase copying s).0)
            (checked_call-Yields D.copy_plan _ (carried.carries_phase s copying q))
            (λ b t u.
              delta_passes-Yields max_delta_passes _ (carried.carries_phase t delta_phase u)))
