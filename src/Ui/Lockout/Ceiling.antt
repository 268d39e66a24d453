-- ===== src/Ui/Lockout/Ceiling.antt =====
-- `LockoutTable`: the delay is never a wall, whatever the history.
use hx_fortress.Prelude.{
  ℕ, ◌+◌, ◌≤◌, inl, inr, Text, text_eq, List, [], ◌∷◌, arith, get, Bool-cases, Option-cases,
  AllValues, set-AllValues, delete-AllValues, get-AllValues, prune-AllValues, AllValues-mono,
}
use hx_fortress.Ui.Lockout.{
  lockout_max_ms, FailureRecord, LockoutState, locked, unlocked, LockoutTable, record_key,
  forgotten_record, state, failures_of, record_failure, record_success, sweep, hydrate,
  hydrate_entry, snapshot, empty_table,
}
use hx_fortress.Ui.Lockout.Delay.{delay_of-le}

-- What can happen to the table, with the moment at which it does.
pub data Op : Type 0 where
  asks fails : Text → Text → ℕ → ℕ → Op
  succeeds : Text → Text → ℕ → Op
  sweeps restarts : ℕ → Op

abbrev pub time_of : Op → ℕ
time_of (asks l r e now) = now
time_of (fails l r e now) = now
time_of (succeeds l r now) = now
time_of (sweeps now) = now
time_of (restarts now) = now

unfoldable pub apply : Op → LockoutTable → LockoutTable
apply (asks l r e now) t = (state l r e now t).0
apply (fails l r e now) t = (record_failure l r e now t).0
apply (succeeds l r now) t = record_success l r t
apply (sweeps now) t = (sweep now t).0
apply (restarts now) t = hydrate now (snapshot t) empty_table

unfoldable pub run : List Op → LockoutTable → LockoutTable
run [] t = t
run (op ∷ ops) t = run ops (apply op t)

abbrev pub InOrder : ℕ → List Op → Type 0
InOrder clock [] = Unit {0}
InOrder clock (op ∷ ops) = (clock ≤ time_of op) × InOrder (time_of op) ops

abbrev pub clock_of : ℕ → List Op → ℕ
clock_of clock [] = clock
clock_of clock (op ∷ ops) = clock_of (time_of op) ops

abbrev IsBounded : ℕ → FailureRecord → Type 0
IsBounded clock r = (r.last_at ≤ clock) × (r.locked_until ≤ r.last_at + lockout_max_ms)

abbrev AllBounded : ℕ → LockoutTable → Type 0
AllBounded clock t = AllValues (IsBounded clock) t.records

state-AllBounded :
    (l r : Text) (e now clock : ℕ) (t : LockoutTable)
    → AllBounded clock t
    → AllBounded clock (state l r e now t).0
unfolding state
state-AllBounded l r e now clock t h = elim (Option-cases (get (record_key l r) t.records)) [
  | inl n ↦ rw (n, state) h
  | inr (rec, q) ↦
      ground (arith, q, delete-AllValues (IsBounded clock) (record_key l r) t.records h)
]

hydrate_entry-AllBounded :
    (now clock : ℕ) (entry : Text × FailureRecord) (t : LockoutTable)
    → IsBounded clock entry.1
    → AllBounded clock t
    → AllBounded clock (hydrate_entry now t entry)
unfolding hydrate_entry
hydrate_entry-AllBounded now clock (key, r) t h b = elim (Bool-cases (forgotten_record now r)) [
  | inl old ↦ rw (old, hydrate_entry) b
  | inr kept ↦ rw (kept, hydrate_entry) (set-AllValues (IsBounded clock) key r t.records h b)
]

hydrate-AllBounded :
    (now clock : ℕ) (es : List (Text × FailureRecord)) (t : LockoutTable)
    → AllValues (IsBounded clock) es
    → AllBounded clock t
    → AllBounded clock (hydrate now es t)
unfolding hydrate
hydrate-AllBounded now clock [] t h b = b
hydrate-AllBounded now clock ((key, r) ∷ es) t h b =
    hydrate-AllBounded now clock es (hydrate_entry now t (key, r)) h.1
      (hydrate_entry-AllBounded now clock (key, r) t h.0 b)

apply-AllBounded :
    (op : Op) (clock : ℕ) (t : LockoutTable)
    → clock ≤ time_of op
    → AllBounded clock t
    → AllBounded (time_of op) (apply op t)
unfolding apply record_failure record_success sweep empty_table
apply-AllBounded op clock t le h =
    go op
      (AllValues-mono (IsBounded clock) (IsBounded (time_of op)) t.records (λ v b. omega arith) h)
  where
    go : (op : Op) → AllBounded (time_of op) t → AllBounded (time_of op) (apply op t)
    go (asks l r e now) b = state-AllBounded l r e now now t b
    go (fails l r e now) b =
        set-AllValues (IsBounded now) (record_key l r) _ (state l r e now t).0.records
          (omega (arith, delay_of-le (failures_of (state l r e now t).1 + 1)))
          (state-AllBounded l r e now now t b)
    go (succeeds l r now) b = delete-AllValues (IsBounded now) (record_key l r) t.records b
    go (sweeps now) b = prune-AllValues (IsBounded now) (forgotten_record now) t.records b
    go (restarts now) b = hydrate-AllBounded now now t.records empty_table b tt

run-AllBounded :
    (ops : List Op) (clock : ℕ) (t : LockoutTable)
    → InOrder clock ops
    → AllBounded clock t
    → AllBounded (clock_of clock ops) (run ops t)
unfolding run
run-AllBounded [] clock t o h = h
run-AllBounded (op ∷ ops) clock t o h =
    run-AllBounded ops (time_of op) (apply op t) o.1 (apply-AllBounded op clock t o.0 h)

abbrev pub wait_of : LockoutState → ℕ
wait_of (unlocked n) = 0
wait_of (locked n wait) = wait

state-wait :
    (l r : Text) (e now clock : ℕ) (t : LockoutTable)
    → AllBounded clock t
    → clock ≤ now
    → wait_of (state l r e now t).1 ≤ lockout_max_ms
unfolding state
state-wait l r e now clock t h le = elim (Option-cases (get (record_key l r) t.records)) [
  | inl n ↦ rw (n, state) (omega arith)
  | inr (rec, q) ↦
      ground (arith, q, get-AllValues (IsBounded clock) (record_key l r) rec t.records h q)
]

-- A delay, never a wall: after any history of failures, successes, sweeps and restarts, nobody is
-- told to wait longer than the ceiling.
pub never_a_wall :
    (ops : List Op) (l r : Text) (e now : ℕ)
    → InOrder 0 ops
    → clock_of 0 ops ≤ now
    → wait_of (state l r e now (run ops empty_table)).1 ≤ lockout_max_ms
unfolding empty_table
never_a_wall ops l r e now o le =
    state-wait l r e now (clock_of 0 ops) (run ops empty_table)
      (run-AllBounded ops 0 empty_table o tt) le
