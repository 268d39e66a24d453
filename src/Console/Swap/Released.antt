-- ===== src/Console/Swap/Released.antt =====
-- src/console/migration.ts: what is released, and how far a pause is armed, on every path.
use hx_fortress.Prelude.{
  ℕ, ◌+◌, min, ◌≡◌, refl, ap, ◌⊎◌, inl, inr, Bool, true, false, ◌&&◌, Option, none, some, List, [],
  ◌∷◌, if◌then◌else◌, nat_eq, Text, text_eq,
}
use hx_fortress.Console.Swap.{
  Deps, Times, switching, not_bound, Call, armed, checked, fenced, swapped, resumed, drain_set, Run,
  continue, ◌>>◌, set_phase, abort,
}
use hx_fortress.Console.Swap.Pausing.{arm_pause, episode_armed}
use hx_fortress.Console.Swap.Cutting.{
  version_written, swap, mark_switched, rebind, served, cut, release, pause_and_cut,
}
use hx_fortress.Console.Swap.Yields.{Yields, continue-Yields}
use hx_fortress.Console.Swap.Closed.{IsClosed}
use hx_fortress.Console.Swap.Chain.{Chain, pause_and_cut-Chain}
use hx_fortress.Console.Swap.Running.{MigrationMode, new_run, held_times, run_storage_migration}
use hx_fortress.Console.Swap.Guarded.{run-ends}

-- The episode that was armed last.
abbrev pub latest : List Call → Option Text
latest [] = none
latest (checked armed_until now ∷ calls) = latest calls
latest (armed until episode ∷ calls) = some episode
latest (fenced until now armed_until ∷ calls) = latest calls
latest (swapped version ∷ calls) = latest calls
latest (resumed episode ∷ calls) = latest calls
latest (drain_set on ∷ calls) = latest calls

-- Nothing has been released yet: no episode, and not the drain.
abbrev pub is_holding : List Call → Bool
is_holding [] = true
is_holding (checked armed_until now ∷ calls) = is_holding calls
is_holding (armed until episode ∷ calls) = is_holding calls
is_holding (fenced until now armed_until ∷ calls) = is_holding calls
is_holding (swapped version ∷ calls) = is_holding calls
is_holding (resumed episode ∷ calls) = false
is_holding (drain_set on ∷ calls) = on && is_holding calls

-- The pause as it is left: no episode was ever armed, or the last call resumes the one armed last, and
-- it is the only release.
abbrev pub IsPauseReleased : List Call → Type 0
IsPauseReleased calls =
    ((latest calls ≡ none) × (is_holding calls ≡ true))
    ⊎ ((episode : Text) × ((rest : List Call) × ((calls ≡ resumed episode ∷ rest)
            × ((latest rest ≡ some episode) × (is_holding rest ≡ true)))))

-- The run as it is left: it made no call, or its last is to end the drain, over a pause that is released.
abbrev pub IsRunReleased : List Call → Type 0
IsRunReleased calls =
    (calls ≡ []) ⊎ ((rest : List Call) × ((calls ≡ drain_set false ∷ rest) × IsPauseReleased rest))

module _ {W : Type 0} where
  abbrev Holding : Run W → Type 0
  Holding r = (latest r.calls ≡ some r.episode) × (is_holding r.calls ≡ true)

  abbrev Idle : Run W → Type 0
  Idle r = (latest r.calls ≡ none) × (is_holding r.calls ≡ true)

  Holding-IsClosed : (budget_ends : ℕ) → IsClosed W budget_ends Holding
  Holding-IsClosed budget_ends = record {
    world_moves = λ r w p. p;
    aim = λ r until b p. p;
    arms = λ r episode b p. (refl, p.1);
  }

module _ (D : Deps) (times : Times) (budget_ends : ℕ) where
  version_written-Holding :
      (version : Option ℕ) (r : Run D.World)
      → Holding r
      → Yields Holding (λ a. Holding) (version_written D times budget_ends version r)
  version_written-Holding none r p = p
  version_written-Holding (some version) r p = p

  cut-Holding :
      (r : Run D.World) → Holding r → Yields Holding (λ a. Holding) (cut D times budget_ends r)
  unfolding cut swap served
  cut-Holding r p =
      continue-Yields Holding (λ a. Holding) (λ a. Holding)
        (λ a s.
          continue
            (λ bound.
              if bound
              then served D times budget_ends
              else (abort not_bound >> mark_switched D times budget_ends))
            (rebind D times budget_ends s))
        (swap D times budget_ends (set_phase switching r).0)
        (version_written-Holding (D.swap_credentials r.world).1 _ p)
        (λ a s q. go (D.rebind_store s.world).1 _ q)
    where
      go :
          (bound : Bool) (s : Run D.World)
          → Holding s
          → Yields Holding
              (λ (a : Unit {0}). Holding)
              ((if bound
                  then served D times budget_ends
                  else (abort not_bound >> mark_switched D times budget_ends))
                s)
      go true s q = q
      go false s q = q

  chain-Holding : Chain D times budget_ends Holding Holding Holding Holding Holding
  chain-Holding = record {
    watched = Holding-IsClosed budget_ends;
    tested = record { checks = λ r now p. p };
    unlapsed = Holding-IsClosed budget_ends;
    watched_exits = λ r p. p;
    unlapsed_exits = λ r p. p;
    watched_aborts = λ r reason p. p;
    expired = λ r w now p. p;
    unspent = λ r w now p kept early. p;
    unlapsed_aborts = λ r reason p. p;
    passes = λ r w now until p margin reached. p;
    cuts = cut-Holding;
  }

  arm_pause-Holding :
      (r : Run D.World) → Idle r → Yields Idle (λ a. Holding) (arm_pause D times budget_ends r)
  unfolding arm_pause
  arm_pause-Holding r p =
      go
        (D.arm_pause (min budget_ends ((D.clock r.world).0 + times.heartbeat_ms))
          (D.clock r.world).1).1
        _ p
    where
      go :
          (answer : Option Text) (s : Run D.World)
          → Idle s
          → Yields Idle (λ a. Holding) (episode_armed D times budget_ends answer s)
      go none s q = q
      go (some episode) s q = (refl, q.1)

  pause_and_cut-IsPauseReleased :
      (fuel : ℕ) (first : D.World → D.World × Bool) (pieces : List (D.World → D.World × Bool))
      (r : Run D.World)
      → Idle r
      → IsPauseReleased (Run.calls (pause_and_cut D times budget_ends fuel first pieces r).0)
  unfolding release
  pause_and_cut-IsPauseReleased fuel first pieces r p =
      pause_and_cut-Chain D times budget_ends Holding Holding Holding Holding Holding chain-Holding
        Idle (λ s. IsPauseReleased s.calls) fuel first pieces r (arm_pause-Holding r p)
        (λ s q. inl q) (λ s q. inr (s.episode, (s.calls, (refl, q))))
        (λ s q. inr (s.episode, (s.calls, (refl, q))))

module _ (D : Deps) (times : Times) where
  -- Whatever a run meets, an error that is thrown included, its calls end with what it owes: if it
  -- engaged the drain, ending the drain is its last call; if it armed a pause, the call before that
  -- resumes the episode that was armed last; and neither was released any earlier.
  pub run-IsRunReleased :
      (mode : MigrationMode) (fuel : ℕ) (first : D.World → D.World × Bool)
      (pieces : List (D.World → D.World × Bool)) (world : D.World)
      → IsRunReleased
          (Run.calls (run_storage_migration D times mode fuel first pieces (new_run world)).0)
  run-IsRunReleased mode fuel first pieces world =
      run-ends D times (λ r. r.calls ≡ []) Idle (λ r. IsPauseReleased r.calls)
        (λ r. IsRunReleased r.calls)
        (record {
          start_carried = record { carries_world = λ r w p. p; carries_phase = λ r phase p. p };
          drain_carried = record { carries_world = λ r w p. p; carries_phase = λ r phase p. p };
          engages = λ r w p. (ap latest p, ap is_holding p);
          cuts = λ budget_ends fuel' first' pieces' r p.
              pause_and_cut-IsPauseReleased D (held_times D times) budget_ends fuel' first' pieces'
                r p;
          gives_up = λ r p. inl p;
          disengages = λ r w p. inr (r.calls, (refl, p));
          stops = λ r p. inl p;
        })
        mode fuel first pieces (new_run world) refl
