-- ===== src/Console/Swap/Chain.antt =====
-- src/console/migration.ts, the steps from the pause to the cut, for any properties that each of them
-- passes on: while the pause is watched, when it is known not to have lapsed, and past the fence.
use hx_fortress.Prelude.{
  ℕ, ◌+◌, ◌≤◌, ◌<◌, ◌≡◌, refl, ◌⊎◌, inl, inr, Bool, true, false, ◌||◌, Option, none, some, List,
  ◌∷◌, arith, ltb, leb, if◌then◌else◌, nat_eq, text_eq,
}
use hx_fortress.Console.Swap.{
  GateState, Deps, Times, fence_margin_ms, Reason, clamped, never_in_force, not_quiet,
  pause_expired, nearly_spent, checked, fenced, Run, Answer, got, threw, out_of_fuel, Step,
  continue, ◌>>=◌, released, abort,
}
use hx_fortress.Console.Swap.Pausing.{
  pause_spent, arm_pause, reaches, await_in_force, piece_of_work, beaten_pieces,
}
use hx_fortress.Console.Swap.Cutting.{
  lapsed_by_now, fence_within, fence_holds, cut, fence_and_cut, work_and_cut, barrier,
  quiet_and_cut, held_until, held, release, pause_and_cut,
}
use hx_fortress.Console.Swap.Yields.{Yields, continue-Yields, if-Yields, Yields-weaken}
use hx_fortress.Console.Swap.Closed.{
  IsClosed, IsChecked, arm_pause-Yields, Backed, await_in_force-Yields, await_quiesced-Yields,
  beaten_pieces-Yields, piece_of_work-Yields,
}

-- The steps hand on `P` while the pause is watched, `N` once it is known not to have lapsed, `F` past
-- the fence, `Q` when the body returns and `E` when it does not.
pub record Chain (D : Deps) (times : Times) (budget_ends : ℕ) (P N F E Q : Run D.World → Type 0)
    : Type 0 where
  pub watched : IsClosed D.World budget_ends P
  pub tested : IsChecked D.World P
  pub unlapsed : IsClosed D.World budget_ends N
  pub watched_exits : (r : Run D.World) → P r → E r
  pub unlapsed_exits : (r : Run D.World) → N r → E r
  pub watched_aborts : (r : Run D.World) (reason : Reason) → P r → Q (abort reason r).0
  pub expired :
      (r : Run D.World) (w : D.World) (now : ℕ)
      → P r
      → Q
          (abort pause_expired
            (record r { world = w; calls = checked r.armed_until now ∷ r.calls })).0
  pub unspent :
      (r : Run D.World) (w : D.World) (now : ℕ)
      → P r
      → r.pause_lapsed ≡ false
      → now < r.armed_until
      → N (record r { world = w; calls = checked r.armed_until now ∷ r.calls })
  pub unlapsed_aborts : (r : Run D.World) (reason : Reason) → N r → Q (abort reason r).0
  pub passes :
      (r : Run D.World) (w : D.World) (now until : ℕ)
      → N r
      → now + fence_margin_ms ≤ until
      → r.armed_until ≤ until
      → F (record r { world = w; calls = fenced until now r.armed_until ∷ r.calls })
  pub cuts : (r : Run D.World) → F r → Yields E (λ a. Q) (cut D times budget_ends r)

module _ (D : Deps) (times : Times) (budget_ends : ℕ) (P N F E Q : Run D.World → Type 0)
    (chain : Chain D times budget_ends P N F E Q) where
  fence_within-Yields :
      (capped : Bool) (until : Option ℕ) (r : Run D.World)
      → N r
      → (until ≡ none) ⊎ ((capped || reaches D times budget_ends until r.armed_until) ≡ true)
      → Yields E
          (λ holds s. if holds then F s else N s)
          (fence_within D times budget_ends capped until r)
  fence_within-Yields capped none r p backed = p
  fence_within-Yields capped (some until) r p backed =
      let now = (D.clock r.world).0 in
      if-Yields E (λ holds s. if holds then F s else N s)
        (capped || ltb until (now + fence_margin_ms)) _ _
        (λ short. chain.unlapsed.world_moves r (D.clock r.world).1 p)
        (λ long.
          let reached : r.armed_until ≤ until = elim backed [
            | inl shut ↦ absurd (cc)
            | inr reached ↦ ground (arith, long, reached)
          ] in
          chain.passes r (D.clock r.world).1 now until p (ground (arith, long)) reached)

  fence_and_cut-Chain :
      (fuel : ℕ) (r : Run D.World)
      → N r
      → Yields E (λ a. Q) (fence_and_cut D times budget_ends fuel r)
  unfolding fence_and_cut fence_holds
  fence_and_cut-Chain fuel r p =
      let closed = chain.unlapsed in
      let last : GateState → Step D.World (Unit {0}) = λ fence.
        fence_holds D times budget_ends fence >>= λ holds.
        if holds then cut D times budget_ends else abort nearly_spent in
      continue-Yields E (λ a. N) (λ a. Q)
        (λ a s. continue last (await_in_force D times budget_ends fuel s))
        (arm_pause D times budget_ends r)
        (Yields-weaken N E (λ a. N) (λ a. N) (arm_pause D times budget_ends r)
          (arm_pause-Yields D times budget_ends N closed r p) chain.unlapsed_exits (λ a s q. q))
        (λ a s q.
          continue-Yields E (Backed D times budget_ends N closed) (λ a. Q) last
            (await_in_force D times budget_ends fuel s)
            (Yields-weaken N E (Backed D times budget_ends N closed)
              (Backed D times budget_ends N closed) (await_in_force D times budget_ends fuel s)
              (await_in_force-Yields D times budget_ends N closed fuel s q) chain.unlapsed_exits
              (λ b t u. u))
            (λ fence t u.
              continue-Yields E (λ holds s. if holds then F s else N s) (λ a. Q)
                (λ holds. if holds then cut D times budget_ends else abort nearly_spent)
                (fence_within D times budget_ends fence.capped fence.paused_until t)
                (fence_within-Yields fence.capped fence.paused_until t u.0 u.1)
                (λ holds v w. cut_if-Chain holds v w)))
    where
      cut_if-Chain :
          (holds : Bool) (s : Run D.World)
          → (if holds then F s else N s)
          → Yields E
              (λ (a : Unit {0}). Q)
              ((if holds then cut D times budget_ends else abort nearly_spent) s)
      cut_if-Chain true s p = chain.cuts s p
      cut_if-Chain false s p = chain.unlapsed_aborts s nearly_spent p

  -- What the check after the work leaves.
  abbrev Cleared : Bool → Run D.World → Type 0
  Cleared true s = Q (abort pause_expired s).0
  Cleared false s = N s

  pause_spent-Cleared :
      (r : Run D.World)
      → P r
      → r.pause_lapsed ≡ false
      → Yields E Cleared (pause_spent D times budget_ends r)
  unfolding pause_spent
  pause_spent-Cleared r p kept = let now = (D.clock r.world).0 in go (leb r.armed_until now) refl
    where
      go :
          (spent : Bool)
          → leb r.armed_until (D.clock r.world).0 ≡ spent
          → Cleared spent (record r {
            world = (D.clock r.world).1;
            calls = checked r.armed_until (D.clock r.world).0 ∷ r.calls;
          })
      go true e = chain.expired r (D.clock r.world).1 (D.clock r.world).0 p
      go false e =
          chain.unspent r (D.clock r.world).1 (D.clock r.world).0 p kept (ground (arith, e))

  lapsed_by_now-Cleared :
      (r : Run D.World) → P r → Yields E Cleared (lapsed_by_now D times budget_ends r)
  unfolding lapsed_by_now
  lapsed_by_now-Cleared r p =
      if-Yields E Cleared r.pause_lapsed (r, got true) (pause_spent D times budget_ends r)
        (λ spent. chain.watched_aborts r pause_expired p) (λ kept. pause_spent-Cleared r p kept)

  work_and_cut-Chain :
      (fuel : ℕ) (first : D.World → D.World × Bool) (pieces : List (D.World → D.World × Bool))
      (r : Run D.World)
      → P r
      → Yields E (λ a. Q) (work_and_cut D times budget_ends fuel first pieces r)
  unfolding work_and_cut
  work_and_cut-Chain fuel first pieces r p =
      let closed = chain.watched in
      let test : Step D.World (Unit {0}) = lapsed_by_now D times budget_ends >>= λ lapsed.
      if lapsed then abort pause_expired else fence_and_cut D times budget_ends fuel in
      let weaker : (x : Run D.World × Answer (Unit {0}))
          → Yields P (λ a. P) x
          → Yields E (λ a. P) x =
        λ x h. Yields-weaken P E (λ a. P) (λ a. P) x h chain.watched_exits (λ a s q. q) in
      continue-Yields E (λ a. P) (λ a. Q)
        (λ a s. continue (λ b. test) (beaten_pieces D times budget_ends pieces s))
        (piece_of_work D times budget_ends first r)
        (weaker (piece_of_work D times budget_ends first r)
          (piece_of_work-Yields D times budget_ends P closed chain.tested first r p))
        (λ a s q.
          continue-Yields E (λ b. P) (λ b. Q) (λ b. test)
            (beaten_pieces D times budget_ends pieces s)
            (weaker (beaten_pieces D times budget_ends pieces s)
              (beaten_pieces-Yields D times budget_ends P closed chain.tested pieces s q))
            (λ b t u.
              continue-Yields E Cleared (λ c. Q)
                (λ lapsed.
                  if lapsed then abort pause_expired else fence_and_cut D times budget_ends fuel)
                (lapsed_by_now D times budget_ends t) (lapsed_by_now-Cleared t u)
                (λ lapsed v w. unlapsed-Chain lapsed v w)))
    where
      unlapsed-Chain :
          (lapsed : Bool) (s : Run D.World)
          → Cleared lapsed s
          → Yields E
              (λ (a : Unit {0}). Q)
              ((if lapsed then abort pause_expired else fence_and_cut D times budget_ends fuel) s)
      unlapsed-Chain true s p = p
      unlapsed-Chain false s p = fence_and_cut-Chain fuel s p

  quiet_and_cut-Chain :
      (fuel : ℕ) (first : D.World → D.World × Bool) (pieces : List (D.World → D.World × Bool))
      (r : Run D.World)
      → P r
      → Yields E (λ a. Q) (quiet_and_cut D times budget_ends fuel first pieces r)
  unfolding quiet_and_cut barrier
  quiet_and_cut-Chain fuel first pieces r p =
      let wait = barrier D times budget_ends fuel r in
      continue-Yields E (λ a. P) (λ a. Q)
        (λ quiet.
          if quiet then work_and_cut D times budget_ends fuel first pieces else abort not_quiet)
        wait
        (Yields-weaken P E (λ a. P) (λ a. P) wait
          (await_quiesced-Yields D times budget_ends P chain.watched chain.tested _ fuel _
            (chain.watched.world_moves r (D.clock r.world).1 p))
          chain.watched_exits (λ a s q. q))
        (λ quiet s q. quiet-Chain quiet s q)
    where
      quiet-Chain :
          (quiet : Bool) (s : Run D.World)
          → P s
          → Yields E
              (λ (a : Unit {0}). Q)
              ((if quiet
                  then work_and_cut D times budget_ends fuel first pieces
                  else abort not_quiet)
                s)
      quiet-Chain true s p = work_and_cut-Chain fuel first pieces s p
      quiet-Chain false s p = chain.watched_aborts s not_quiet p

  pub held-Chain :
      (fuel : ℕ) (first : D.World → D.World × Bool) (pieces : List (D.World → D.World × Bool))
      (r : Run D.World)
      → P r
      → Yields E (λ a. Q) (held D times budget_ends fuel first pieces r)
  unfolding held
  held-Chain fuel first pieces r p =
      let closed = chain.watched in
      let wait = await_in_force D times budget_ends fuel r in
      continue-Yields E (Backed D times budget_ends P closed) (λ a. Q)
        (λ in_force.
          if in_force.capped
          then abort clamped
          else held_until D times budget_ends in_force.paused_until fuel first pieces)
        wait
        (Yields-weaken P E (Backed D times budget_ends P closed)
          (Backed D times budget_ends P closed) wait
          (await_in_force-Yields D times budget_ends P closed fuel r p) chain.watched_exits
          (λ a s q. q))
        (λ in_force s q. unclamped-Chain in_force.capped in_force.paused_until s q.0)
    where
      unclamped-Chain :
          (capped : Bool) (until : Option ℕ) (s : Run D.World)
          → P s
          → Yields E
              (λ (a : Unit {0}). Q)
              ((if capped
                  then abort clamped
                  else held_until D times budget_ends until fuel first pieces)
                s)
      unclamped-Chain true until s p = chain.watched_aborts s clamped p
      unclamped-Chain false none s p = chain.watched_aborts s never_in_force p
      unclamped-Chain false (some until) s p = quiet_and_cut-Chain fuel first pieces s p

  -- The whole of the pause: `S` is what the first episode's refusal leaves, `R` is what the release makes
  -- of `Q` and of `E`.
  pub pause_and_cut-Chain :
      (S R : Run D.World → Type 0) (fuel : ℕ) (first : D.World → D.World × Bool)
      (pieces : List (D.World → D.World × Bool)) (r : Run D.World)
      → Yields S (λ a. P) (arm_pause D times budget_ends r)
      → ((s : Run D.World) → S s → R s)
      → ((s : Run D.World) → Q s → R (release D times budget_ends s).0)
      → ((s : Run D.World) → E s → R (release D times budget_ends s).0)
      → R (pause_and_cut D times budget_ends fuel first pieces r).0
  unfolding pause_and_cut
  pause_and_cut-Chain S R fuel first pieces r begun refused ends exits =
      go (arm_pause D times budget_ends r) begun (λ s p.
        over (held D times budget_ends fuel first pieces s) (held-Chain fuel first pieces s p))
    where
      over :
          (x : Run D.World × Answer (Unit {0}))
          → Yields E (λ a. Q) x
          → R (released x (release D times budget_ends)).0
      over (s, got a) q = ends s q
      over (s, threw) e = exits s e
      over (s, out_of_fuel) e = exits s e

      go :
          (x : Run D.World × Answer (Unit {0}))
          → Yields S (λ a. P) x
          → ((s : Run D.World)
              → P s
              → R
                  (released
                    (held D times budget_ends fuel first pieces s)
                    (release D times budget_ends)).0)
          → R
              (continue
                (λ a s.
                  released
                    (held D times budget_ends fuel first pieces s)
                    (release D times budget_ends))
                x).0
      go (s, got a) p k = k s p
      go (s, threw) e k = refused s e
      go (s, out_of_fuel) e k = refused s e
