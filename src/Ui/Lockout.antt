-- ===== src/Ui/Lockout.antt =====
-- src/ui/rate-limit.ts, `LockoutTable`: failed sign-ins by (login, remote), the growing delay, and
-- the memory of recent failures. Times are milliseconds, an argument of each call.
pub mod Delay
pub mod Ceiling
pub mod Isolation
pub mod Persistence
mod Tests
use hx_fortress.Prelude.{
  ℕ, zero, suc, ◌+◌, ◌-◌, ◌*◌, ◌^◌, min, ◌≡◌, Bool, true, false, ◌||◌, Text, List, [], ◌∷◌, ◌++◌,
  Option, none, some, if◌then◌else◌, ltb, leb, nat_beq, get, set, delete, prune, pruned, length,
  text_eq,
}

abbrev pub lockout_free_attempts : ℕ
lockout_free_attempts = 5

abbrev pub lockout_base_ms : ℕ
lockout_base_ms = 1_000

abbrev pub lockout_max_ms : ℕ
lockout_max_ms = 15 * 60_000

abbrev pub failure_memory_ms : ℕ
failure_memory_ms = 30 * 60_000

pub record FailureRecord : Type 0 where
  pub failures : ℕ
  pub last_at : ℕ
  pub locked_until : ℕ
  pub epoch : ℕ

pub data LockoutState : Type 0 where
  unlocked : ℕ → LockoutState
  locked : ℕ → ℕ → LockoutState

-- What `recentByLogin` holds.
pub record Held : Type 0 where
  pub seen_at : ℕ
  pub epoch : ℕ

pub record LockoutTable : Type 0 where
  pub records : List (Text × FailureRecord)
  pub recent_by_remote : List (Text × ℕ)
  pub recent_by_login : List (Text × Held)

unfoldable pub empty_table : LockoutTable
empty_table = record { records = []; recent_by_remote = []; recent_by_login = [] }

-- `${login} ${remoteKey}`.
unfoldable pub record_key : Text → Text → Text
record_key login remote_key = login ++ b' ' ∷ remote_key

-- `now - at > FAILURE_MEMORY_MS`.
abbrev pub forgotten : ℕ → ℕ → Bool
forgotten now at = ltb (at + failure_memory_ms) now

abbrev pub forgotten_record : ℕ → FailureRecord → Bool
forgotten_record now r = forgotten now r.last_at

abbrev pub forgotten_login : ℕ → Held → Bool
forgotten_login now h = forgotten now h.seen_at

-- What a record that is still consulted says.
abbrev pub state_of : ℕ → FailureRecord → LockoutState
state_of now r =
    if ltb now r.locked_until then locked r.failures (r.locked_until - now) else unlocked r.failures

unfoldable pub state : Text → Text → ℕ → ℕ → LockoutTable → LockoutTable × LockoutState
unfolding record_key
state login remote_key lockout_epoch now t = elim (get (record_key login remote_key) t.records) [
  | none ↦ (t, unlocked 0)
  | some r ↦
      if ltb r.epoch lockout_epoch || forgotten_record now r
      then (record t { records = delete (record_key login remote_key) t.records }, unlocked 0)
      else (t, state_of now r)
]

abbrev pub failures_of : LockoutState → ℕ
failures_of (unlocked n) = n
failures_of (locked n wait) = n

-- The delay after so many failures.
unfoldable pub delay_of : ℕ → ℕ
delay_of failures =
    let over = failures - lockout_free_attempts in
    if leb over 0 then 0 else min (lockout_base_ms * 2 ^ (over - 1)) lockout_max_ms

unfoldable pub record_failure : Text → Text → ℕ → ℕ → LockoutTable → LockoutTable × LockoutState
unfolding state record_key
record_failure login remote_key lockout_epoch now t =
    let (u, current) = state login remote_key lockout_epoch now t in
    let failures = failures_of current + 1 in
    let delay = delay_of failures in
    let r : FailureRecord = record {
      failures = failures;
      last_at = now;
      locked_until = now + delay;
      epoch = lockout_epoch;
    } in
    (
      record {
        records = set (record_key login remote_key) r u.records;
        recent_by_remote = set remote_key now u.recent_by_remote;
        recent_by_login =
            set login (record { seen_at = now; epoch = lockout_epoch }) u.recent_by_login;
      },
      if ltb 0 delay then locked failures delay else unlocked failures,
    )

unfoldable pub record_success : Text → Text → LockoutTable → LockoutTable
unfolding record_key
record_success login remote_key t = record t {
  records = delete (record_key login remote_key) t.records;
  recent_by_login = delete login t.recent_by_login;
}

unfoldable pub is_clean : Text → ℕ → LockoutTable → Bool
is_clean remote_key now t = elim (get remote_key t.recent_by_remote) [
  | none ↦ true
  | some at ↦ forgotten now at
]

unfoldable pub is_clean_principal : Text → Text → ℕ → ℕ → LockoutTable → Bool
unfolding is_clean
is_clean_principal login remote_key now lockout_epoch t =
    if is_clean remote_key now t then true else elim (get login t.recent_by_login) [
      | none ↦ true
      | some h ↦ if ltb h.epoch lockout_epoch then true else forgotten_login now h
    ]

unfoldable pub sweep : ℕ → LockoutTable → LockoutTable × ℕ
sweep now t = (
  record {
    records = prune (forgotten_record now) t.records;
    recent_by_remote = prune (forgotten now) t.recent_by_remote;
    recent_by_login = prune (forgotten_login now) t.recent_by_login;
  },
  pruned (forgotten_record now) t.records,
)

-- `key.split(" ")`: the first two pieces, where there are two.
unfoldable pub first_piece : Text → Text
first_piece [] = []
first_piece (c ∷ cs) = if nat_beq c b' ' then [] else c ∷ first_piece cs

unfoldable pub second_piece : Text → Option Text
unfolding first_piece
second_piece [] = none
second_piece (c ∷ cs) = if nat_beq c b' ' then some (first_piece cs) else second_piece cs

abbrev pub snapshot : LockoutTable → List (Text × FailureRecord)
snapshot t = t.records

-- `if (piece) map.set(piece, …)`: an absent or empty piece sets nothing.
abbrev pub set_piece : {V : Type 0} → Option Text → V → List (Text × V) → List (Text × V)
set_piece none v m = m
set_piece (some []) v m = m
set_piece (some (c ∷ cs)) v m = set (c ∷ cs) v m

unfoldable pub hydrate_entry : ℕ → LockoutTable → Text × FailureRecord → LockoutTable
unfolding first_piece second_piece
hydrate_entry now t (key, r) = if forgotten_record now r then t else record {
  records = set key r t.records;
  recent_by_remote = set_piece (second_piece key) r.last_at t.recent_by_remote;
  recent_by_login =
      set_piece (some (first_piece key)) (record { seen_at = r.last_at; epoch = r.epoch })
        t.recent_by_login;
}

unfoldable pub hydrate : ℕ → List (Text × FailureRecord) → LockoutTable → LockoutTable
hydrate now [] t = t
hydrate now (entry ∷ entries) t = hydrate now entries (hydrate_entry now t entry)

unfoldable pub size : LockoutTable → ℕ
size t = length t.records
