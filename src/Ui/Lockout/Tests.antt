-- ===== src/Ui/Lockout/Tests.antt =====
-- The lockout table at work: one operator behind a shared address.
use hx_fortress.Prelude.{ℕ, ◌≤◌, ◌≡◌, refl, Text, codes, List, [], ◌∷◌, arith, get}
use hx_fortress.Ui.Lockout.{
  FailureRecord, LockoutTable, locked, record_key, state, empty_table, lockout_max_ms, delay_of,
}
use hx_fortress.Ui.Lockout.Delay.{lock_after}
use hx_fortress.Ui.Lockout.Ceiling.{
  Op, fails, asks, succeeds, sweeps, restarts, never_a_wall, wait_of, run,
}
use hx_fortress.Ui.Lockout.Persistence.{IsTable}

abbrev alice : Text
alice = codes "al"

abbrev bob : Text
bob = codes "bo"

abbrev proxy : Text
proxy = codes "10.0"

abbrev times : List ℕ
times = 20 ∷ 30 ∷ 40 ∷ 50 ∷ 60 ∷ 70 ∷ []

seventh_failure : lock_after 7 ≡ locked 7 2_000
unfolding delay_of
seventh_failure = refl

abbrev history : List Op
history =
    fails alice proxy 0 10
    ∷ fails alice proxy 0 20
    ∷ restarts 30
    ∷ fails alice proxy 0 40
    ∷ succeeds bob proxy 45
    ∷ sweeps 50
    ∷ asks alice proxy 0 55
    ∷ []

never_a_wall_example : wait_of (state alice proxy 0 60 (run history empty_table)).1 ≤ lockout_max_ms
never_a_wall_example = never_a_wall history alice proxy 0 60 (omega arith) (omega arith)

abbrev held_record : FailureRecord
held_record = record { failures = 7; last_at = 70; locked_until = 2_070; epoch = 0 }

abbrev held_table : LockoutTable
held_table = record {
  records = (record_key alice proxy, held_record) ∷ [];
  recent_by_remote = (proxy, 70) ∷ [];
  recent_by_login = (alice, record { seen_at = 70; epoch = 0 }) ∷ [];
}

held_table-IsTable : IsTable held_table
unfolding get
held_table-IsTable = record {
  records_map = (refl, tt);
  remotes_map = (refl, tt);
  logins_map = (refl, tt);
}
