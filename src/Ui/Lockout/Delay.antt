-- ===== src/Ui/Lockout/Delay.antt =====
-- `LockoutTable`: failures are counted, the delay grows.
use hx_fortress.Prelude.{
  ℕ, suc, ◌+◌, ◌-◌, ◌≤◌, ◌≡◌, refl, ap, ◌∙◌, Text, text_eq, List, [], ◌∷◌, some, if◌then◌else◌, ltb,
  arith, get, get-set_self, length,
}
use hx_fortress.Ui.Lockout.{
  lockout_max_ms, failure_memory_ms, FailureRecord, LockoutState, locked, unlocked, LockoutTable,
  record_key, state_of, state, failures_of, delay_of, record_failure,
}

pub delay_of-le : (n : ℕ) → delay_of n ≤ lockout_max_ms
unfolding delay_of
delay_of-le n = ground arith

-- What a failure answers, in full: one more failure than the state before it, and the delay that
-- this many failures cost.
abbrev pub lock_after : ℕ → LockoutState
lock_after n = if ltb 0 (delay_of n) then locked n (delay_of n) else unlocked n

record_failure-verdict :
    (l r : Text) (e now : ℕ) (t : LockoutTable)
    → (record_failure l r e now t).1 ≡ lock_after (failures_of (state l r e now t).1 + 1)
unfolding record_failure
record_failure-verdict l r e now t = refl

record_failure-get :
    (l r : Text) (e now : ℕ) (t : LockoutTable)
    → get (record_key l r) (record_failure l r e now t).0.records
      ≡ some (record {
        failures = failures_of (state l r e now t).1 + 1;
        last_at = now;
        locked_until = now + delay_of (failures_of (state l r e now t).1 + 1);
        epoch = e;
      })
unfolding record_failure
record_failure-get l r e now t = get-set_self (record_key l r) _ (state l r e now t).0.records

state-live :
    (l r : Text) (e now : ℕ) (t : LockoutTable) (rec : FailureRecord)
    → get (record_key l r) t.records ≡ some rec
    → e ≤ rec.epoch
    → now ≤ rec.last_at + failure_memory_ms
    → state l r e now t ≡ (t, state_of now rec)
unfolding state
state-live l r e now t rec h fresh near = rw (h, state) (ground arith)

-- The state that a failure leaves is the one a later attempt meets, for as long as the failure is
-- remembered and the epoch stands.
pub state-record_failure :
    (l r : Text) (e now later : ℕ) (t : LockoutTable)
    → now ≤ later
    → later ≤ now + failure_memory_ms
    → let n = failures_of (state l r e now t).1 + 1 in
      (state l r e later (record_failure l r e now t).0).1
      ≡ (if ltb later (now + delay_of n) then locked n (now + delay_of n - later) else unlocked n)
state-record_failure l r e now later t le near =
    rw
      (state-live l r e later (record_failure l r e now t).0 _ (record_failure-get l r e now t)
        (omega arith) near)
      refl

-- Failures of one principal at the given moments, in order.
unfoldable pub fail_all : Text → Text → ℕ → List ℕ → LockoutTable → LockoutTable
fail_all l r e [] t = t
fail_all l r e (now ∷ times) t = fail_all l r e times (record_failure l r e now t).0

-- Each moment follows the one before within the memory of a failure.
abbrev pub Chained : ℕ → List ℕ → Type 0
Chained first [] = Unit {0}
Chained first (x ∷ xs) = (first ≤ x) × (x ≤ first + failure_memory_ms) × Chained x xs

abbrev pub last_of : ℕ → List ℕ → ℕ
last_of first [] = first
last_of first (x ∷ xs) = last_of x xs

failures_of-lock : (n : ℕ) → failures_of (lock_after n) ≡ n
failures_of-lock n = ground arith

failures_of-record_failure :
    (l r : Text) (e now later : ℕ) (t : LockoutTable)
    → now ≤ later
    → later ≤ now + failure_memory_ms
    → failures_of (state l r e later (record_failure l r e now t).0).1
      ≡ failures_of (state l r e now t).1 + 1
failures_of-record_failure l r e now later t le near =
    rw (state-record_failure l r e now later t le near) (ground arith)

state-record_failure_now :
    (l r : Text) (e now : ℕ) (t : LockoutTable)
    → (state l r e now (record_failure l r e now t).0).1
      ≡ lock_after (failures_of (state l r e now t).1 + 1)
state-record_failure_now l r e now t =
    rw (state-record_failure l r e now now t (omega arith) (omega arith)) (ground arith)

-- Failures add up, and their number alone decides the delay: none up to the free attempts, then
-- one second, doubling with each, up to the ceiling.
pub consecutive_failures :
    (l r : Text) (e first : ℕ) (times : List ℕ) (t : LockoutTable)
    → Chained first times
    → (state l r e (last_of first times) (fail_all l r e (first ∷ times) t)).1
      ≡ lock_after (failures_of (state l r e first t).1 + suc (length times))
unfolding fail_all
consecutive_failures l r e first [] t c = state-record_failure_now l r e first t
consecutive_failures l r e first (x ∷ xs) t c =
    consecutive_failures l r e x xs (record_failure l r e first t).0 c.2
    ∙ ap lock_after (omega (arith, failures_of-record_failure l r e first x t c.0 c.1))
