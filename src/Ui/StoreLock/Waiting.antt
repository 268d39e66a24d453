-- ===== src/Ui/StoreLock/Waiting.antt =====
-- src/ui/store-lock.ts, `reclaimableLock` and `acquire`: whose lock is taken, and how long a writer waits.
use hx_fortress.Prelude.{
  ℕ, zero, suc, ◌+◌, ◌≤◌, ◌<◌, ◌≡◌, refl, ◌⊎◌, inl, inr, Bool, true, none, some, [], arith, leb,
  Bool-cases, nat_eq, Text, text_beq, text_eq,
}
use hx_fortress.Ui.StoreLock.{
  lock_stale_ms, LockOwner, LockReclaim, reclaimable_owner, reclaimable_lock, Turn, locked, acquire,
}

-- A lock of a process that is alive is left to it for as long as its file is no older than the limit;
-- so is one of this very process, whatever its pid answers.
pub live_lock_kept :
    (boot_id : Text) (alive : ℕ → Bool) (now : ℕ) (owner : LockOwner) (mtime : ℕ)
    → (alive owner.pid ≡ true) ⊎ (text_beq owner.boot_id boot_id ≡ true)
    → now ≤ mtime + lock_stale_ms
    → reclaimable_lock boot_id alive now (some (record { owner = some owner; mtime_ms = mtime }))
      ≡ none
unfolding reclaimable_lock reclaimable_owner
live_lock_kept boot_id alive now owner mtime h young = ground arith

-- A writer that meets a lock at every turn, none of them reclaimable, on a clock that advances from turn
-- to turn, is refused by the deadline.
acquire-locked :
    (boot_id : Text) (turns : ℕ → Turn) (deadline fuel n : ℕ)
    → ((m : ℕ) → (turns m).now < (turns (suc m)).now)
    → ((m : ℕ) → (turns m).exists ≡ true)
    → ((m : ℕ) → reclaimable_lock boot_id (turns m).alive (turns m).now (turns m).held ≡ none)
    → deadline ≤ (turns n).now + fuel
    → acquire boot_id turns deadline (suc fuel) n ≡ some (locked, [])
unfolding acquire
acquire-locked boot_id turns deadline zero n advancing met kept enough =
    ground (arith, met n, kept n)
acquire-locked boot_id turns deadline (suc fuel) n advancing met kept enough =
    elim (Bool-cases (leb deadline (turns n).now)) [
      | inl over ↦ ground (arith, met n, kept n)
      | inr early ↦
          let rest =
            acquire-locked boot_id turns deadline fuel (suc n) advancing met kept
              (omega (arith, advancing n)) in
          ground (arith, met n, kept n)
    ]

-- A lock that can be reclaimed but not removed, which a failing `unlink` leaves in place: the loop goes on
-- past every deadline, for any number of turns, since a reclaim neither waits nor looks at the clock.
pub reclaim_spins :
    (boot_id : Text) (turns : ℕ → Turn) (deadline fuel n : ℕ)
    → ((m : ℕ) → (turns m).exists ≡ true)
    → ((m : ℕ)
        → (r : LockReclaim) × (reclaimable_lock boot_id (turns m).alive (turns m).now (turns m).held
            ≡ some r))
    → acquire boot_id turns deadline fuel n ≡ none
unfolding acquire
reclaim_spins boot_id turns deadline zero n met stale = refl
reclaim_spins boot_id turns deadline (suc fuel) n met stale =
    ground (arith, met n, (stale n).1, reclaim_spins boot_id turns deadline fuel (suc n) met stale)
