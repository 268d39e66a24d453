-- ===== src/Console/Swap/Honest.antt =====
-- src/console/migration.ts: what the result of a cut says, against what was done; and how far a pause
-- is ever armed.
use hx_fortress.Prelude.{
  ℕ, ◌≤◌, ◌≡◌, refl, sym, ap, ◌∙◌, Bool, true, false, Option, none, some, List, [], ◌∷◌, arith,
  if◌then◌else◌, nat_eq, text_eq,
}
use hx_fortress.Console.Swap.{
  Deps, Times, MigrationPhase, switching, finished, Reason, pause_expired, not_bound, Call, armed,
  checked, fenced, swapped, resumed, drain_set, Run, continue, ◌>>◌, set_phase, abort,
}
use hx_fortress.Console.Swap.Cutting.{
  version_written, swap, mark_switched, rebind, served, cut, release, pause_and_cut,
}
use hx_fortress.Console.Swap.Yields.{Yields, continue-Yields}
use hx_fortress.Console.Swap.Closed.{IsClosed, arm_pause-Yields}
use hx_fortress.Console.Swap.Chain.{Chain, pause_and_cut-Chain}

-- The version that a swap wrote, if there was one.
abbrev pub swapped_version : List Call → Option ℕ
swapped_version [] = none
swapped_version (checked armed_until now ∷ calls) = swapped_version calls
swapped_version (armed until episode ∷ calls) = swapped_version calls
swapped_version (fenced until now armed_until ∷ calls) = swapped_version calls
swapped_version (swapped version ∷ calls) = some version
swapped_version (resumed episode ∷ calls) = swapped_version calls
swapped_version (drain_set on ∷ calls) = swapped_version calls

abbrev pub is_some : {A : Type 0} → Option A → Bool
is_some none = false
is_some (some a) = true

abbrev pub is_finished : MigrationPhase → Bool
is_finished finished = true
is_finished _ = false

-- Every pause that was armed ends by the budget.
abbrev pub InBudget : ℕ → List Call → Type 0
InBudget budget_ends [] = Unit {0}
InBudget budget_ends (checked armed_until now ∷ calls) = InBudget budget_ends calls
InBudget budget_ends (armed until episode ∷ calls) =
    (until ≤ budget_ends) × InBudget budget_ends calls
InBudget budget_ends (fenced until now armed_until ∷ calls) = InBudget budget_ends calls
InBudget budget_ends (swapped version ∷ calls) = InBudget budget_ends calls
InBudget budget_ends (resumed episode ∷ calls) = InBudget budget_ends calls
InBudget budget_ends (drain_set on ∷ calls) = InBudget budget_ends calls

module _ {W : Type 0} (budget_ends : ℕ) where
  -- The result tells of a swap what the calls tell, and a run is finished only after one.
  abbrev pub IsHonest : Run W → Type 0
  IsHonest r =
      (r.result.version ≡ swapped_version r.calls)
      × (r.result.switched ≡ is_some (swapped_version r.calls))
      × (is_finished r.result.phase ≡ true → is_some (swapped_version r.calls) ≡ true)
      × InBudget budget_ends r.calls

  abbrev pub IsUnswapped : Run W → Type 0
  IsUnswapped r =
      (r.result.version ≡ none)
      × (r.result.switched ≡ false)
      × (is_finished r.result.phase ≡ false)
      × (swapped_version r.calls ≡ none)
      × InBudget budget_ends r.calls

  unswapped-IsHonest : (r : Run W) → IsUnswapped r → IsHonest r
  unswapped-IsHonest r p =
      (p.0 ∙ sym p.3, p.1 ∙ sym (ap is_some p.3), λ e. absurd (ground (arith, e, p.2)), p.4)

  aborted-IsHonest : (r : Run W) (reason : Reason) → IsUnswapped r → IsHonest (abort reason r).0
  aborted-IsHonest r reason p = (p.0 ∙ sym p.3, p.1 ∙ sym (ap is_some p.3), λ e. absurd (cc), p.4)

  Unswapped-IsClosed : IsClosed W budget_ends IsUnswapped
  Unswapped-IsClosed = record {
    world_moves = λ r w p. p;
    aim = λ r until b p. p;
    arms = λ r episode b p. (p.0, p.1, p.2, p.3, (b, p.4));
  }

module _ (D : Deps) (times : Times) (budget_ends : ℕ) where
  -- After the swap, before it is known whether the store could be bound.
  abbrev Written : Run D.World → Type 0
  Written r =
      (r.result.version ≡ swapped_version r.calls)
      × (is_some (swapped_version r.calls) ≡ true)
      × InBudget budget_ends r.calls

  version_written-Written :
      (version : Option ℕ) (r : Run D.World)
      → IsUnswapped budget_ends r
      → Yields (IsHonest budget_ends) (λ a. Written) (version_written D times budget_ends version r)
  version_written-Written none r p = unswapped-IsHonest budget_ends r p
  version_written-Written (some version) r p = (refl, refl, p.4)

  cut-IsHonest :
      (r : Run D.World)
      → IsUnswapped budget_ends r
      → Yields (IsHonest budget_ends) (λ a. IsHonest budget_ends) (cut D times budget_ends r)
  unfolding cut swap served
  cut-IsHonest r p =
      continue-Yields (IsHonest budget_ends) (λ a. Written) (λ a. IsHonest budget_ends)
        (λ a s.
          continue
            (λ bound.
              if bound
              then served D times budget_ends
              else (abort not_bound >> mark_switched D times budget_ends))
            (rebind D times budget_ends s))
        (swap D times budget_ends (set_phase switching r).0)
        (version_written-Written (D.swap_credentials r.world).1 _ (p.0, p.1, refl, p.3, p.4))
        (λ a s q. go (D.rebind_store s.world).1 _ q)
    where
      go :
          (bound : Bool) (s : Run D.World)
          → Written s
          → Yields
              (IsHonest budget_ends)
              (λ (a : Unit {0}). IsHonest budget_ends)
              ((if bound
                  then served D times budget_ends
                  else (abort not_bound >> mark_switched D times budget_ends))
                s)
      go true s q = (q.0, sym q.1, λ e. q.1, q.2)
      go false s q = (q.0, sym q.1, λ e. q.1, q.2)

  chain-IsHonest :
      Chain D times budget_ends
        (IsUnswapped budget_ends)
        (IsUnswapped budget_ends)
        (IsUnswapped budget_ends)
        (IsHonest budget_ends)
        (IsHonest budget_ends)
  chain-IsHonest = record {
    watched = Unswapped-IsClosed budget_ends;
    tested = record { checks = λ r now p. p };
    unlapsed = Unswapped-IsClosed budget_ends;
    watched_exits = unswapped-IsHonest budget_ends;
    unlapsed_exits = unswapped-IsHonest budget_ends;
    watched_aborts = aborted-IsHonest budget_ends;
    expired = λ r w now p. aborted-IsHonest budget_ends r pause_expired p;
    unspent = λ r w now p kept early. p;
    unlapsed_aborts = aborted-IsHonest budget_ends;
    passes = λ r w now until p margin reached. p;
    cuts = cut-IsHonest;
  }

  -- Whatever happens from the arming of the pause to its release, errors that are thrown included, the
  -- result tells of the swap what was done: `switched` is set just when the credentials were swapped,
  -- a daemon that could not bind to the new store included, `version` is what the swap wrote, and the
  -- phase is `done` only after a swap. No pause is armed past the end of the budget. The run starts
  -- with nothing swapped and no call made against the budget.
  pub pause_and_cut-IsHonest :
      (fuel : ℕ) (first : D.World → D.World × Bool) (pieces : List (D.World → D.World × Bool))
      (r : Run D.World)
      → IsUnswapped budget_ends r
      → IsHonest budget_ends (pause_and_cut D times budget_ends fuel first pieces r).0
  unfolding release
  pause_and_cut-IsHonest fuel first pieces r p =
      pause_and_cut-Chain D times budget_ends (IsUnswapped budget_ends) (IsUnswapped budget_ends)
        (IsUnswapped budget_ends) (IsHonest budget_ends) (IsHonest budget_ends) chain-IsHonest
        (IsUnswapped budget_ends) (IsHonest budget_ends) fuel first pieces r
        (arm_pause-Yields D times budget_ends (IsUnswapped budget_ends)
          (Unswapped-IsClosed budget_ends) r p)
        (unswapped-IsHonest budget_ends) (λ s q. q) (λ s q. q)
