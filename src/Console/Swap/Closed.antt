-- ===== src/Console/Swap/Closed.antt =====
-- src/console/migration.ts: what every step of the pause keeps, for any property of a run that the
-- single changes keep.
use hx_fortress.Prelude.{
  ℕ, zero, suc, ◌+◌, ◌≤◌, min, ◌≡◌, refl, ap, subst, ◌⊎◌, inl, inr, Bool, true, false, ◌||◌, Option,
  none, some, List, [], ◌∷◌, arith, leb, if◌then◌else◌, nat_eq, Text, text_eq,
}
use hx_fortress.Console.Swap.{
  GateState, Deps, Times, armed, checked, Run, got, threw, Step, ◌>>◌, unless,
}
use hx_fortress.Console.Swap.Pausing.{
  sleep, pause_spent, arm_pause, heartbeat, reaches, episode_armed, gate_read, past_deadline,
  turn_ends, gate_turn, await_loop, await_in_force, quiet_turn, await_quiesced, piece_of_work,
  beaten_pieces,
}
use hx_fortress.Console.Swap.Yields.{Yields, continue-Yields, if-Yields}

-- The changes that the steps of the pause make to a run.
pub record IsClosed (W : Type 0) (budget_ends : ℕ) (P : Run W → Type 0) : Type 0 where
  pub world_moves : (r : Run W) (w : W) → P r → P (record r { world = w })
  pub aim :
      (r : Run W) (until : ℕ) → until ≤ budget_ends → P r → P (record r { armed_until = until })
  pub arms :
      (r : Run W) (episode : Text)
      → r.armed_until ≤ budget_ends
      → P r
      → P (record r { calls = armed r.armed_until episode ∷ r.calls; episode = episode })

-- The tests of the pause at each heartbeat.
pub record IsChecked (W : Type 0) (P : Run W → Type 0) : Type 0 where
  pub checks :
      (r : Run W) (now : ℕ)
      → P r
      → P (record r {
        calls = checked r.armed_until now ∷ r.calls;
        pause_lapsed = if leb r.armed_until now then true else r.pause_lapsed;
      })

turn_ends-Yields :
    {W A : Type 0} (P : Run W → Type 0) (Q : A → Run W → Type 0) (answer : Option A)
    (rest : Step W A) (s : Run W)
    → (answer ≡ none → Yields P Q (rest s))
    → ((a : A) → answer ≡ some a → Q a s)
    → Yields P Q (turn_ends answer rest s)
turn_ends-Yields P Q none rest s h k = h refl
turn_ends-Yields P Q (some a) rest s h k = k a refl

module _ (D : Deps) (times : Times) (budget_ends : ℕ) (P : Run D.World → Type 0)
    (closed : IsClosed D.World budget_ends P) where
  episode_armed-Yields :
      (answer : Option Text) (r : Run D.World)
      → r.armed_until ≤ budget_ends
      → P r
      → Yields P (λ a. P) (episode_armed D times budget_ends answer r)
  episode_armed-Yields none r bounded p = p
  episode_armed-Yields (some episode) r bounded p = closed.arms r episode bounded p

  pub arm_pause-Yields :
      (r : Run D.World) → P r → Yields P (λ a. P) (arm_pause D times budget_ends r)
  unfolding arm_pause
  arm_pause-Yields r p =
      let bounded : min budget_ends ((D.clock r.world).0 + times.heartbeat_ms) ≤ budget_ends =
        omega arith in
      episode_armed-Yields _ _ bounded (
        closed.world_moves _ _
          (closed.aim _ _ bounded (closed.world_moves r (D.clock r.world).1 p)))

  -- What the wait for the gate comes back with: no deadline, a clamped one, or one that is not before
  -- the deadline armed.
  abbrev pub Backed : GateState → Run D.World → Type 0
  Backed state r =
      P r
      × ((state.paused_until ≡ none)
          ⊎ ((state.capped || reaches D times budget_ends state.paused_until r.armed_until) ≡ true))

  gate_read-Yields :
      (deadline : ℕ) (state : GateState) (r : Run D.World)
      → P r
      → Yields P
          (λ answer s. P s × ((given : GateState) → answer ≡ some given → Backed given s))
          (gate_read D times budget_ends deadline state r)
  gate_read-Yields deadline state r p =
      let moved = closed.world_moves r (D.clock r.world).1 p in
      if-Yields P (λ answer s. P s × ((given : GateState) → answer ≡ some given → Backed given s))
        (state.capped || reaches D times budget_ends state.paused_until r.armed_until) _ _
        (λ has. (
          p,
          λ given e.
              let same : state ≡ given = cc in
              (
                p,
                inr (
                    subst
                      (λ g.
                        (GateState.capped g
                          || reaches D times budget_ends (GateState.paused_until g) r.armed_until)
                        ≡ true)
                      same has),
              ),
        ))
        (λ no. (moved, λ given e. (moved, inl (late (leb deadline (D.clock r.world).0) given e))))
    where
      late :
          (past : Bool) (given : GateState)
          → past_deadline D times budget_ends past state.capped ≡ some given
          → given.paused_until ≡ none
      late true given e =
          let same : given ≡ record { paused_until = none; capped = state.capped } = cc in
          ap GateState.paused_until same
      late false given e = absurd (cc)

  gate_turn-Yields :
      (deadline : ℕ) (r : Run D.World)
      → P r
      → Yields P
          (λ answer s. P s × ((state : GateState) → answer ≡ some state → Backed state s))
          (gate_turn D times budget_ends deadline r)
  unfolding gate_turn
  gate_turn-Yields deadline r p =
      continue-Yields P (λ a. P)
        (λ answer s. P s × ((state : GateState) → answer ≡ some state → Backed state s)) _ _
        (go (D.refresh_gate r.world).1 (closed.world_moves r (D.refresh_gate r.world).0 p))
        (λ a s q. gate_read-Yields deadline (D.gate s.world) s q)
    where
      go :
          (ok : Bool) {s : Run D.World}
          → P s
          → Yields P (λ (a : Unit {0}). P) (s, if ok then got _ else threw)
      go true q = q
      go false q = q

  await_loop-Yields :
      (deadline fuel : ℕ) (r : Run D.World)
      → P r
      → Yields P Backed (await_loop D times budget_ends deadline fuel r)
  unfolding await_loop
  await_loop-Yields deadline zero r p = p
  await_loop-Yields deadline (suc fuel) r p =
      let rest : Step D.World GateState =
        sleep D times budget_ends 250 >> await_loop D times budget_ends deadline fuel in
      continue-Yields P
        (λ answer s. P s × ((state : GateState) → answer ≡ some state → Backed state s)) Backed
        (λ answer. turn_ends answer rest) (gate_turn D times budget_ends deadline r)
        (gate_turn-Yields deadline r p)
        (λ answer s q.
          turn_ends-Yields P Backed answer rest s
            (λ on.
              await_loop-Yields deadline fuel _ (closed.world_moves s (D.sleep 250 s.world) q.0))
            q.1)

  pub await_in_force-Yields :
      (fuel : ℕ) (r : Run D.World)
      → P r
      → Yields P Backed (await_in_force D times budget_ends fuel r)
  unfolding await_in_force
  await_in_force-Yields fuel r p =
      await_loop-Yields _ fuel _ (closed.world_moves r (D.clock r.world).1 p)

  module _ (tested : IsChecked D.World P) where
    pub heartbeat-Yields :
        (r : Run D.World) → P r → Yields P (λ a. P) (heartbeat D times budget_ends r)
    unfolding heartbeat pause_spent
    heartbeat-Yields r p =
        let moved = closed.world_moves r (D.clock r.world).1 p in
        let again = closed.world_moves _ (D.clock (D.clock r.world).1).1 moved in
        let noticed = tested.checks _ (D.clock (D.clock r.world).1).0 again in
        unless-Yields _ _ noticed
      where
        unless-Yields :
            (skip : Bool) (s : Run D.World)
            → P s
            → Yields P (λ a. P) (unless skip (arm_pause D times budget_ends) s)
        unless-Yields true s q = q
        unless-Yields false s q = arm_pause-Yields s q

    pub piece_of_work-Yields :
        (piece : D.World → D.World × Bool) (r : Run D.World)
        → P r
        → Yields P (λ a. P) (piece_of_work D times budget_ends piece r)
    unfolding piece_of_work
    piece_of_work-Yields piece r p = go (piece r.world).1 (closed.world_moves r (piece r.world).0 p)
      where
        go :
            (ok : Bool) {s : Run D.World}
            → P s
            → Yields P (λ (a : Unit {0}). P) (s, if ok then got _ else threw)
        go true q = q
        go false q = q

    pub beaten_pieces-Yields :
        (pieces : List (D.World → D.World × Bool)) (r : Run D.World)
        → P r
        → Yields P (λ a. P) (beaten_pieces D times budget_ends pieces r)
    unfolding beaten_pieces
    beaten_pieces-Yields [] r p = p
    beaten_pieces-Yields (piece ∷ pieces) r p =
        continue-Yields P (λ a. P) (λ a. P) _ _
          (continue-Yields P (λ a. P) (λ a. P) _ _ (heartbeat-Yields r p)
            (λ a s q. piece_of_work-Yields piece s q))
          (λ a s q. beaten_pieces-Yields pieces s q)

    pub await_quiesced-Yields :
        (deadline fuel : ℕ) (r : Run D.World)
        → P r
        → Yields P (λ a. P) (await_quiesced D times budget_ends deadline fuel r)
    unfolding await_quiesced quiet_turn
    await_quiesced-Yields deadline zero r p = p
    await_quiesced-Yields deadline (suc fuel) r p =
        let rest : Step D.World Bool =
          (sleep D times budget_ends 250 >> heartbeat D times budget_ends)
          >> await_quiesced D times budget_ends deadline fuel in
        continue-Yields P (λ a. P) (λ a. P) (λ answer. turn_ends answer rest)
          (quiet_turn D times budget_ends deadline r)
          (closed.world_moves _ _ (closed.world_moves r (D.clock r.world).1 p))
          (λ answer s q.
            turn_ends-Yields P (λ a. P) answer rest s
              (λ on.
                continue-Yields P (λ a. P) (λ a. P)
                  (λ a. await_quiesced D times budget_ends deadline fuel)
                  (heartbeat D times budget_ends (record s { world = D.sleep 250 s.world }))
                  (heartbeat-Yields _ (closed.world_moves s (D.sleep 250 s.world) q))
                  (λ a t. await_quiesced-Yields deadline fuel t))
              (λ a e. q))
