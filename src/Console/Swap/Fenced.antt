-- ===== src/Console/Swap/Fenced.antt =====
-- src/console/migration.ts: what has to hold when the credentials are swapped.
use hx_fortress.Prelude.{
  ℕ, ◌+◌, ◌≤◌, ◌<◌, ◌≡◌, inl, inr, Bool, true, false, Option, none, some, List, [], ◌∷◌, arith, leb,
  if◌then◌else◌, Bool-cases, nat_eq, text_eq,
}
use hx_fortress.Console.Swap.{
  Deps, Times, fence_margin_ms, switching, not_bound, Call, armed, checked, fenced, swapped,
  resumed, drain_set, Run, continue, ◌>>◌, set_phase, abort,
}
use hx_fortress.Console.Swap.Cutting.{
  version_written, swap, mark_switched, rebind, served, cut, held, release, pause_and_cut,
}
use hx_fortress.Console.Swap.Yields.{Yields, continue-Yields}
use hx_fortress.Console.Swap.Closed.{IsClosed, IsChecked, arm_pause-Yields}
use hx_fortress.Console.Swap.Chain.{Chain, pause_and_cut-Chain}
use hx_fortress.Console.Swap.Running.{MigrationMode, new_run, held_times, run_storage_migration}
use hx_fortress.Console.Swap.Carried.{IsCarried}
use hx_fortress.Console.Swap.Guarded.{run-ends}

-- Every test of the pause read a clock before the deadline that was armed.
abbrev pub NoLapse : List Call → Type 0
NoLapse [] = Unit {0}
NoLapse (checked armed_until now ∷ calls) = (now < armed_until) × NoLapse calls
NoLapse (armed until episode ∷ calls) = NoLapse calls
NoLapse (fenced until now armed_until ∷ calls) = NoLapse calls
NoLapse (swapped version ∷ calls) = NoLapse calls
NoLapse (resumed episode ∷ calls) = NoLapse calls
NoLapse (drain_set on ∷ calls) = NoLapse calls

-- The last thing done was to pass the fence: the deadline that the gate enforces is not before the one
-- that was armed, and at least the margin away; and no test of the pause before it had found it spent.
abbrev pub IsFenced : List Call → Type 0
IsFenced [] = ⊥
IsFenced (checked armed_until now ∷ calls) = ⊥
IsFenced (armed until episode ∷ calls) = ⊥
IsFenced (fenced until now armed_until ∷ calls) =
    (now + fence_margin_ms ≤ until) × ((armed_until ≤ until) × NoLapse calls)
IsFenced (swapped version ∷ calls) = ⊥
IsFenced (resumed episode ∷ calls) = ⊥
IsFenced (drain_set on ∷ calls) = ⊥

-- Every swap comes directly after a fence that was passed.
abbrev pub IsSafe : List Call → Type 0
IsSafe [] = Unit {0}
IsSafe (checked armed_until now ∷ calls) = IsSafe calls
IsSafe (armed until episode ∷ calls) = IsSafe calls
IsSafe (fenced until now armed_until ∷ calls) = IsSafe calls
IsSafe (swapped version ∷ calls) = IsFenced calls × IsSafe calls
IsSafe (resumed episode ∷ calls) = IsSafe calls
IsSafe (drain_set on ∷ calls) = IsSafe calls

module _ {W : Type 0} where
  abbrev pub Safe : Run W → Type 0
  Safe r = IsSafe r.calls

  -- The flag tells what the tests have read.
  abbrev Watched : Run W → Type 0
  Watched r = IsSafe r.calls × (r.pause_lapsed ≡ false → NoLapse r.calls)

  abbrev Unlapsed : Run W → Type 0
  Unlapsed r = IsSafe r.calls × NoLapse r.calls

  Watched-IsClosed : (budget_ends : ℕ) → IsClosed W budget_ends Watched
  Watched-IsClosed budget_ends = record {
    world_moves = λ r w p. p;
    aim = λ r until b p. p;
    arms = λ r episode b p. p;
  }

  Unlapsed-IsClosed : (budget_ends : ℕ) → IsClosed W budget_ends Unlapsed
  Unlapsed-IsClosed budget_ends = record {
    world_moves = λ r w p. p;
    aim = λ r until b p. p;
    arms = λ r episode b p. p;
  }

  Watched-IsChecked : IsChecked W Watched
  Watched-IsChecked = record {
    checks = λ r now p. (
      p.0,
      λ e. elim (Bool-cases (leb r.armed_until now)) [
        | inl spent ↦ absurd (ground (arith, spent, e))
        | inr held ↦
            let kept : r.pause_lapsed ≡ false = ground (arith, held, e) in
            let early : now < r.armed_until = ground (arith, held) in (early, p.1 kept)
      ],
    );
  }

module _ (D : Deps) (times : Times) (budget_ends : ℕ) where
  version_written-Safe :
      (version : Option ℕ) (r : Run D.World)
      → IsFenced r.calls × IsSafe r.calls
      → Yields Safe (λ a. Safe) (version_written D times budget_ends version r)
  version_written-Safe none r p = p.1
  version_written-Safe (some version) r p = p

  cut-Safe :
      (r : Run D.World)
      → IsFenced r.calls × IsSafe r.calls
      → Yields Safe (λ a. Safe) (cut D times budget_ends r)
  unfolding cut swap served
  cut-Safe r p =
      continue-Yields Safe (λ a. Safe) (λ a. Safe)
        (λ a s.
          continue
            (λ bound.
              if bound
              then served D times budget_ends
              else (abort not_bound >> mark_switched D times budget_ends))
            (rebind D times budget_ends s))
        (swap D times budget_ends (set_phase switching r).0)
        (version_written-Safe (D.swap_credentials r.world).1 _ p)
        (λ a s q. go (D.rebind_store s.world).1 _ q)
    where
      go :
          (bound : Bool) (s : Run D.World)
          → Safe s
          → Yields Safe
              (λ (a : Unit {0}). Safe)
              ((if bound
                  then served D times budget_ends
                  else (abort not_bound >> mark_switched D times budget_ends))
                s)
      go true s q = q
      go false s q = q

  chain-Safe :
      Chain D times budget_ends Watched Unlapsed (λ r. IsFenced r.calls × IsSafe r.calls) Safe Safe
  chain-Safe = record {
    watched = Watched-IsClosed budget_ends;
    tested = Watched-IsChecked;
    unlapsed = Unlapsed-IsClosed budget_ends;
    watched_exits = λ r p. p.0;
    unlapsed_exits = λ r p. p.0;
    watched_aborts = λ r reason p. p.0;
    expired = λ r w now p. p.0;
    unspent = λ r w now p kept early. (p.0, (early, p.1 kept));
    unlapsed_aborts = λ r reason p. p.0;
    passes = λ r w now until p margin reached. ((margin, (reached, p.1)), p.0);
    cuts = cut-Safe;
  }

  pause_and_cut-Safe :
      (fuel : ℕ) (first : D.World → D.World × Bool) (pieces : List (D.World → D.World × Bool))
      (r : Run D.World)
      → Unlapsed r
      → Safe (pause_and_cut D times budget_ends fuel first pieces r).0
  unfolding release
  pause_and_cut-Safe fuel first pieces r p =
      pause_and_cut-Chain D times budget_ends Watched Unlapsed
        (λ s. IsFenced s.calls × IsSafe s.calls) Safe Safe chain-Safe Watched Safe fuel first pieces
        r
        (arm_pause-Yields D times budget_ends Watched (Watched-IsClosed budget_ends) r
          (p.0, λ e. p.1))
        (λ s q. q.0) (λ s q. q) (λ s q. q)

module _ (D : Deps) (times : Times) where
  Unlapsed-IsCarried : IsCarried D.World Unlapsed
  Unlapsed-IsCarried = record { carries_world = λ r w p. p; carries_phase = λ r phase p. p }

  -- In every run, whatever the stores, the gate, the clock and the database do, the credentials are
  -- swapped only directly after the fence: the daemon's gate enforces a deadline that is not before the
  -- one that was armed and at least 30 seconds away, and every test of the pause, at each heartbeat and
  -- after the last piece of the work, had found it not yet spent.
  pub swap-IsSafe :
      (mode : MigrationMode) (fuel : ℕ) (first : D.World → D.World × Bool)
      (pieces : List (D.World → D.World × Bool)) (world : D.World)
      → IsSafe (Run.calls (run_storage_migration D times mode fuel first pieces (new_run world)).0)
  swap-IsSafe mode fuel first pieces world =
      run-ends D times Unlapsed Unlapsed Safe Safe
        (record {
          start_carried = Unlapsed-IsCarried;
          drain_carried = Unlapsed-IsCarried;
          engages = λ r w p. p;
          cuts = λ budget_ends fuel' first' pieces' r p.
              pause_and_cut-Safe D (held_times D times) budget_ends fuel' first' pieces' r p;
          gives_up = λ r p. p.0;
          disengages = λ r w p. p;
          stops = λ r p. p.0;
        })
        mode fuel first pieces (new_run world) (_, _)
