-- ===== src/Console/Swap.antt =====
-- src/console/migration.ts, the control of a run: the pause and its heartbeats, the wait for the gate,
-- the barrier, the fence, the cut, and what is released on every path. The dependencies are an
-- interface over a state of the world, which every reading of the clock and every call moves on; what
-- the objects' part does inside the pause comes as its pieces between two heartbeats. A record of the
-- calls, newest first, is kept beside the run's own variables.
pub mod Pausing
pub mod Cutting
pub mod Yields
pub mod Closed
pub mod Chain
pub mod Fenced
pub mod Running
pub mod Carried
pub mod Guarded
pub mod Released
pub mod Honest
pub mod Waiting
mod Tests
use hx_fortress.Prelude.{
  ℕ, zero, suc, ◌+◌, ◌-◌, ◌*◌, ◌/◌, ◌%◌, ◌≤◌, ◌<◌, min, max, ◌≡◌, refl, sym, ap, subst, ◌∙◌, ◌≢◌,
  ◌↔◌, ◌⊎◌, inl, inr, Bool, true, false, ◌&&◌, ◌||◌, not, Option, none, some, List, [], ◌∷◌, ◌++◌,
  map, arith, ltb, leb, nat_beq, if◌then◌else◌, Bool-cases, Option-cases, Eq, ◌==◌, nat_eq,
  beq_refl, beq_ne, length, keep_if, any, find, All, Among, Among-append, Among-last, Among-keep_if,
  keep_if-Among, Text, codes, text_beq, text_beq_iff, text_eq, get, set, delete, IsMap, prune,
  pruned, get-set, get-set_self, get-set_ne, get-delete, Try,
}
use hx_fortress.Console.PauseGate.{IngestQuiesce, is_quiesced}

pub record GateState : Type 0 where
  pub paused_until : Option ℕ
  pub capped : Bool

-- `MigrationDeps`. `none`, or `false`, is a call that throws.
pub record Deps : Type 1 where
  pub World : Type 0
  pub clock : World → ℕ × World
  pub sleep : ℕ → World → World
  pub arm_pause : ℕ → World → World × Option Text
  pub resume_ingest : Text → World → World × Bool
  pub gate : World → GateState
  pub refresh_gate : World → World × Bool
  pub quiesce : World → IngestQuiesce
  pub arm_drain : Bool → World → World
  pub swap_credentials : World → World × Option ℕ
  pub rebind_store : World → World × Bool
  -- Of the objects' part: the test of the target and the bulk copy, a delta pass with the number of
  -- sessions it copied again, and how many objects the verification misses.
  pub self_test : World → World × Bool
  pub copy_plan : World → World × Bool
  pub delta_pass : World → World × Option ℕ
  pub verify : World → World × Option ℕ

pub record Times : Type 0 where
  pub budget_ms : ℕ
  pub heartbeat_ms : ℕ
  pub gate_confirm_ms : ℕ
  pub barrier_ms : ℕ

-- The constants of a run that is given no others.
abbrev pub default_times : Times
default_times = record {
  budget_ms = 5 * 60000;
  heartbeat_ms = 60000;
  gate_confirm_ms = 30000;
  barrier_ms = 2 * 60000;
}

abbrev pub fence_margin_ms : ℕ
fence_margin_ms = 30000

pub data MigrationPhase : Type 0 where
  planning provisioning copying delta_phase draining : MigrationPhase
  quiescing switching verifying finished aborted_phase : MigrationPhase

-- The messages of `result.aborted`.
pub data Reason : Type 0 where
  clamped never_in_force not_quiet pause_expired nearly_spent not_bound not_verified : Reason
  not_whole : ℕ → Reason

pub record MigrationResult : Type 0 where
  pub phase : MigrationPhase
  pub switched : Bool
  pub version : Option ℕ
  pub reason : Option Reason
  pub resume_failed : Bool

-- What was called, and what a test of the pause read: the clock, and the deadline that was armed.
pub data Call : Type 0 where
  armed : ℕ → Text → Call
  checked : ℕ → ℕ → Call
  -- The fence that was passed: the deadline that the gate enforces, the clock, the deadline armed.
  fenced : ℕ → ℕ → ℕ → Call
  swapped : ℕ → Call
  resumed : Text → Call
  drain_set : Bool → Call

pub record Run (World : Type 0) : Type 0 where
  pub world : World
  pub armed_until : ℕ
  pub episode : Text
  pub pause_lapsed : Bool
  pub result : MigrationResult
  pub calls : List Call

pub data Answer (A : Type 0) : Type 0 where
  got : A → Answer A
  threw : Answer A
  out_of_fuel : Answer A

abbrev pub Step : Type 0 → Type 0 → Type 0
Step W A = Run W → Run W × Answer A

abbrev pub continue : {W A B : Type 0} → (A → Step W B) → Run W × Answer A → Run W × Answer B
continue next (r, got a) = next a r
continue next (r, threw) = (r, threw)
continue next (r, out_of_fuel) = (r, out_of_fuel)

infixl 5 ◌>>=◌ ◌>>◌
abbrev pub ◌>>=◌ : {W A B : Type 0} → Step W A → (A → Step W B) → Step W B
(m >>= next) r = continue next (m r)

abbrev pub ◌>>◌ : {W A B : Type 0} → Step W A → Step W B → Step W B
(m >> next) r = continue (λ a. next) (m r)

abbrev pub pure : {W A : Type 0} → A → Step W A
pure a r = (r, got a)

abbrev pub modify : {W : Type 0} → (Run W → Run W) → Step W (Unit {0})
modify f r = (f r, got _)

-- `if (skip) return;` before the rest.
abbrev pub unless : {W : Type 0} → Bool → Step W (Unit {0}) → Step W (Unit {0})
unless true rest = pure _
unless false rest = rest

abbrev pub noted : {W : Type 0} → Call → Run W → Run W
noted call r = record r { calls = call ∷ r.calls }

-- `try { … } finally { … }`, where what is released throws nothing.
abbrev pub released : {W A : Type 0} → Run W × Answer A → Step W (Unit {0}) → Run W × Answer A
released (r, answer) release = ((release r).0, answer)

abbrev pub set_phase : {W : Type 0} → MigrationPhase → Step W (Unit {0})
set_phase phase = modify (λ r. record r { result = record (Run.result r) { phase = phase } })

-- `result.phase = "aborted"`, with the message.
abbrev pub abort : {W : Type 0} → Reason → Step W (Unit {0})
abort reason = modify (λ r. record r {
  result = record (Run.result r) { phase = aborted_phase; reason = some reason };
})
