-- ===== src/Console/Swap/Waiting.antt =====
-- src/console/migration.ts: the waits for the gate and for quiet, and the drain, end.
use hx_fortress.Prelude.{
  ℕ, zero, suc, ◌+◌, ◌≤◌, ◌<◌, min, ◌≡◌, refl, ◌≢◌, Bool, true, false, ◌||◌, Option, none, some,
  arith, ltb, leb, if◌then◌else◌, nat_eq, Text, text_eq,
}
use hx_fortress.Console.Swap.{
  GateState, Deps, Times, Run, Answer, got, threw, out_of_fuel, Step, continue, ◌>>◌, unless,
}
use hx_fortress.Console.PauseGate.{is_quiesced}
use hx_fortress.Console.Swap.Pausing.{
  clock, sleep, episode_armed, pause_spent, arm_pause, heartbeat, reaches, gate_read, past_deadline,
  gate_turn, turn_ends, await_loop, await_in_force, quiet_turn, await_quiesced,
}
use hx_fortress.Console.Swap.Cutting.{barrier}

-- A clock that no call puts back, and that every sleep moves on.
pub record Advances (D : Deps) : Type 0 where
  pub time : D.World → ℕ
  pub reads : (w : D.World) → time w ≤ (D.clock w).0
  pub read_after : (w : D.World) → (D.clock w).0 ≤ time (D.clock w).1
  pub sleeps : (ms : ℕ) (w : D.World) → time w < time (D.sleep ms w)
  pub refreshes : (w : D.World) → time w ≤ time (D.refresh_gate w).0
  pub arms_pause : (until : ℕ) (w : D.World) → time w ≤ time (D.arm_pause until w).0

-- A step that answers, or throws, but does not run out of fuel.
abbrev pub Ends : {W A : Type 0} → (A → Run W → Type 0) → Run W × Answer A → Type 0
Ends Q (r, got a) = Q a r
Ends Q (r, threw) = Unit {0}
Ends Q (r, out_of_fuel) = ⊥

continue-Ends :
    {W A B : Type 0} (Q : A → Run W → Type 0) (R : B → Run W → Type 0) (next : A → Step W B)
    (x : Run W × Answer A)
    → Ends Q x
    → ((a : A) (r : Run W) → Q a r → Ends R (next a r))
    → Ends R (continue next x)
continue-Ends Q R next (r, got a) h k = k a r h
continue-Ends Q R next (r, threw) h k = _
continue-Ends Q R next (r, out_of_fuel) h k = h

Ends-answers :
    {W A : Type 0} (x : Run W × Answer A) → Ends (λ a r. Unit {0}) x → x.1 ≡ out_of_fuel → ⊥
Ends-answers (r, got a) h e = absurd (cc)
Ends-answers (r, threw) h e = absurd (cc)
Ends-answers (r, out_of_fuel) h e = h

module _ (D : Deps) (times : Times) (budget_ends : ℕ) (advances : Advances D) where
  abbrev time_of : Run D.World → ℕ
  time_of r = advances.time r.world

  -- What a turn says: time has not gone back, and a loop that goes on has not reached its deadline.
  abbrev Turned : {A : Type 0} → ℕ → ℕ → Option A → Run D.World → Type 0
  Turned from deadline answer s = (from ≤ time_of s) × (answer ≡ none → from < deadline)

  gate_turn-Ends :
      (deadline : ℕ) (r : Run D.World)
      → Ends (Turned (time_of r) deadline) (gate_turn D times budget_ends deadline r)
  unfolding gate_turn
  gate_turn-Ends deadline r = go (D.refresh_gate r.world).1 _ (advances.refreshes r.world)
    where
      late :
          (state : GateState) (s : Run D.World)
          → advances.time r.world ≤ advances.time s.world
          → (passed : Bool) → leb deadline (D.clock s.world).0 ≡ passed
          → past_deadline D times budget_ends passed state.capped ≡ none
          → advances.time r.world < deadline
      late state s from true e h = absurd (cc)
      late state s from false e h = ground (arith, e, from, advances.reads s.world)

      read :
          (state : GateState) (has : Bool) (s : Run D.World)
          → advances.time r.world ≤ advances.time s.world
          → Ends
              (λ answer t.
                (advances.time r.world ≤ advances.time t.world)
                × (answer ≡ none → advances.time r.world < deadline))
              (if has
                then (s, got (some state))
                else continue
                    (λ now t.
                      (t, got (past_deadline D times budget_ends (leb deadline now) state.capped)))
                    (clock D times budget_ends s))
      read state true s from = (from, λ e. absurd (cc))
      read state false s from = (
        omega (arith, from, advances.reads s.world, advances.read_after s.world),
        late state s from (leb deadline (D.clock s.world).0) refl,
      )

      go :
          (ok : Bool) (s : Run D.World)
          → advances.time r.world ≤ advances.time s.world
          → Ends
              (λ answer t.
                (advances.time r.world ≤ advances.time t.world)
                × (answer ≡ none → advances.time r.world < deadline))
              (continue
                (λ (a : Unit {0}) t. gate_read D times budget_ends deadline (D.gate t.world) t)
                (s, if ok then got _ else threw))
      go true s from =
          read (D.gate s.world)
            ((D.gate s.world).capped
              || reaches D times budget_ends (D.gate s.world).paused_until s.armed_until)
            s from
      go false s from = _

  -- The wait that begins at a turn which may be the last.
  turn_ends-Ends :
      {A : Type 0} (answer : Option A) (rest : Step D.World A) (s : Run D.World)
      → (answer ≡ none → Ends (λ a t. Unit {0}) (rest s))
      → Ends (λ a t. Unit {0}) (turn_ends answer rest s)
  turn_ends-Ends none rest s h = h refl
  turn_ends-Ends (some a) rest s h = _

  await_loop-Ends :
      (deadline fuel : ℕ) (r : Run D.World)
      → deadline ≤ time_of r + fuel
      → Ends (λ a s. Unit {0}) (await_loop D times budget_ends deadline (suc fuel) r)
  unfolding await_loop
  await_loop-Ends deadline zero r enough =
      let rest : Step D.World GateState =
        sleep D times budget_ends 250 >> await_loop D times budget_ends deadline zero in
      continue-Ends (Turned (time_of r) deadline) (λ a s. Unit {0})
        (λ answer. turn_ends answer rest) (gate_turn D times budget_ends deadline r)
        (gate_turn-Ends deadline r)
        (λ answer s turned.
          turn_ends-Ends answer rest s (λ on. absurd (omega (arith, enough, turned.1 on))))
  await_loop-Ends deadline (suc fuel) r enough =
      let rest : Step D.World GateState =
        sleep D times budget_ends 250 >> await_loop D times budget_ends deadline (suc fuel) in
      continue-Ends (Turned (time_of r) deadline) (λ a s. Unit {0})
        (λ answer. turn_ends answer rest) (gate_turn D times budget_ends deadline r)
        (gate_turn-Ends deadline r)
        (λ answer s turned. turn_ends-Ends answer rest s (λ on.
          await_loop-Ends deadline fuel _
            (omega (arith, enough, turned.0, advances.sleeps 250 s.world))))

  await_in_force-ends :
      (fuel : ℕ) (r : Run D.World)
      → times.gate_confirm_ms < fuel
      → (await_in_force D times budget_ends fuel r).1 ≡ out_of_fuel
      → ⊥
  unfolding await_in_force
  await_in_force-ends zero r enough spent = omega (arith, enough)
  await_in_force-ends (suc fuel) r enough spent =
      Ends-answers (await_in_force D times budget_ends (suc fuel) r)
        (await_loop-Ends ((D.clock r.world).0 + times.gate_confirm_ms) fuel
          (record r { world = (D.clock r.world).1 })
          (omega (arith, enough, advances.read_after r.world)))
        spent

  quiet_turn-Ends :
      (deadline : ℕ) (r : Run D.World)
      → Ends (Turned (time_of r) deadline) (quiet_turn D times budget_ends deadline r)
  unfolding quiet_turn
  quiet_turn-Ends deadline r =
      let first = (D.clock r.world).1 in
      (
        omega (
          arith,
          advances.reads r.world,
          advances.read_after r.world,
          advances.reads first,
          advances.read_after first,
        ),
        early (ltb (D.clock r.world).0 deadline)
            (is_quiesced (D.clock first).0 (D.quiesce (D.clock first).1)) refl,
      )
    where
      early :
          (before quiet : Bool)
          → ltb (D.clock r.world).0 deadline ≡ before
          → (if before then if quiet then some true else none else some quiet) ≡ none
          → advances.time r.world < deadline
      early true quiet e h = ground (arith, e, advances.reads r.world)
      early false quiet e h = absurd (cc)

  unless-Ends :
      (skip : Bool) (from : ℕ) (r : Run D.World)
      → from ≤ time_of r
      → Ends (λ a s. from ≤ time_of s) (unless skip (arm_pause D times budget_ends) r)
  unfolding arm_pause
  unless-Ends true from r h = h
  unless-Ends false from r h =
      let until = min budget_ends ((D.clock r.world).0 + times.heartbeat_ms) in
      let after = (D.clock r.world).1 in
      asked (D.arm_pause until after).1 _ (
        omega (
          arith,
          h,
          advances.reads r.world,
          advances.read_after r.world,
          advances.arms_pause until after,
        ))
    where
      asked :
          (answer : Option Text) (s : Run D.World)
          → from ≤ advances.time s.world
          → Ends
              (λ (a : Unit {0}) t. from ≤ advances.time t.world)
              (episode_armed D times budget_ends answer s)
      asked none s h = _
      asked (some episode) s h = h

  heartbeat-Ends :
      (r : Run D.World) → Ends (λ a s. time_of r ≤ time_of s) (heartbeat D times budget_ends r)
  unfolding heartbeat pause_spent
  heartbeat-Ends r =
      let first = (D.clock r.world).1 in
      unless-Ends _ (time_of r) _ (
        omega (
          arith,
          advances.reads r.world,
          advances.read_after r.world,
          advances.reads first,
          advances.read_after first,
        ))

  await_quiesced-Ends :
      (deadline fuel : ℕ) (r : Run D.World)
      → deadline ≤ time_of r + fuel
      → Ends (λ a s. Unit {0}) (await_quiesced D times budget_ends deadline (suc fuel) r)
  unfolding await_quiesced
  await_quiesced-Ends deadline zero r enough =
      let rest : Step D.World Bool =
        (sleep D times budget_ends 250 >> heartbeat D times budget_ends)
        >> await_quiesced D times budget_ends deadline zero in
      continue-Ends (Turned (time_of r) deadline) (λ a s. Unit {0})
        (λ answer. turn_ends answer rest) (quiet_turn D times budget_ends deadline r)
        (quiet_turn-Ends deadline r)
        (λ answer s turned.
          turn_ends-Ends answer rest s (λ on. absurd (omega (arith, enough, turned.1 on))))
  await_quiesced-Ends deadline (suc fuel) r enough =
      let rest : Step D.World Bool =
        (sleep D times budget_ends 250 >> heartbeat D times budget_ends)
        >> await_quiesced D times budget_ends deadline (suc fuel) in
      continue-Ends (Turned (time_of r) deadline) (λ a s. Unit {0})
        (λ answer. turn_ends answer rest) (quiet_turn D times budget_ends deadline r)
        (quiet_turn-Ends deadline r)
        (λ answer s turned. turn_ends-Ends answer rest s (λ on.
          let slept = record s { world = D.sleep 250 s.world } in
          continue-Ends (λ a t. time_of slept ≤ time_of t) (λ a t. Unit {0})
            (λ a. await_quiesced D times budget_ends deadline (suc fuel))
            (heartbeat D times budget_ends slept) (heartbeat-Ends slept)
            (λ a t later.
              await_quiesced-Ends deadline fuel t
                (omega (arith, enough, turned.0, later, advances.sleeps 250 s.world)))))

  barrier-ends :
      (fuel : ℕ) (r : Run D.World)
      → times.barrier_ms < fuel
      → (barrier D times budget_ends fuel r).1 ≡ out_of_fuel
      → ⊥
  unfolding barrier
  barrier-ends zero r enough spent = omega (arith, enough)
  barrier-ends (suc fuel) r enough spent =
      Ends-answers (barrier D times budget_ends (suc fuel) r)
        (await_quiesced-Ends (min budget_ends ((D.clock r.world).0 + times.barrier_ms)) fuel
          (record r { world = (D.clock r.world).1 })
          (omega (arith, enough, advances.read_after r.world)))
        spent

  -- Both waits of the cut end, whatever the gate and the store say and whatever the heartbeats do, within
  -- as many turns as their time has milliseconds, and one more: the wait for the daemon's gate, and the
  -- barrier. No call puts the clock back, and every sleep moves it on.
  pub waits-end :
      (fuel : ℕ) (r : Run D.World)
      → times.gate_confirm_ms < fuel
      → times.barrier_ms < fuel
      → ((await_in_force D times budget_ends fuel r).1 ≢ out_of_fuel)
        × ((barrier D times budget_ends fuel r).1 ≢ out_of_fuel)
  waits-end fuel r confirm quiet = (await_in_force-ends fuel r confirm, barrier-ends fuel r quiet)
