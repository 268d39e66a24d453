-- ===== src/Console/PauseGate/Tests.antt =====
-- Concrete calls, worlds and polls, and the theorems at them.
use hx_fortress.Prelude.{
  ℕ, ◌+◌, ◌*◌, ◌≤◌, ◌≡◌, refl, true, false, some, List, [], ◌∷◌, arith, nat_eq, All, text_eq,
}
use hx_fortress.Console.IngestControl.{paused_until, is_paused}
use hx_fortress.Console.PauseGate.{
  fresh_quiesce, is_quiesced, enter, leave, note_signature, begin, goes_through_gate, Gate,
  StoreMethod, delete_session, stat_canonical, write_artifact, sign_staging_upload, staging_options,
  gated, assert_writable,
}
use hx_fortress.Console.PauseGate.Routing.{
  begin_all, changes_of, reads_of, AllPaused, pause_admits_no_write,
}
use hx_fortress.Console.PauseGate.Quiet.{
  World, store_call, first_world, called, call, Reaches, here, then_step, quiet_means_quiet,
  with_quiesce, signed, noted,
}
use hx_fortress.Console.PauseGate.Await.{Poll, await_quiesced}

-- An armed drain cuts a signature's life to a minute, whatever was asked for.
armed_ttl : staging_options true (some (some 900)) ≡ some (some 60)
unfolding staging_options
armed_ttl = refl

unarmed_ttl : staging_options false (some (some 900)) ≡ some (some 900)
unfolding staging_options
unarmed_ttl = refl

abbrev paused_gate : Gate
paused_gate = record {
  state = record { effective = record { until = some 10_000; capped = false }; stale = false };
  quiesce = fresh_quiesce;
  refusals = 4;
}

abbrev calls : List (StoreMethod × ℕ)
calls = (delete_session, 5_000) ∷ (stat_canonical, 6_000) ∷ (write_artifact, 7_000) ∷ []

all_paused : AllPaused paused_gate.state calls
unfolding is_paused paused_until
all_paused = (refl, (refl, (refl, _)))

pause_admits_no_write_example :
    begin_all calls paused_gate
    ≡ (record paused_gate { refusals = paused_gate.refusals + changes_of calls }, reads_of calls)
pause_admits_no_write_example = pause_admits_no_write calls paused_gate all_paused

two_refused : (changes_of calls ≡ 2) × (reads_of calls ≡ stat_canonical ∷ [])
two_refused = (refl, refl)

-- One upload that asks for its signature.
abbrev signing_world : World
signing_world = call sign_staging_upload 1_000 first_world

signing_world-reached : Reaches first_world signing_world
signing_world-reached =
    then_step first_world signing_world here (called sign_staging_upload 1_000 first_world)

abbrev signed_world : World
signed_world = record (with_quiesce leave signing_world) {
  running = [];
  signatures = 61_000 ∷ [];
  unnoted = 61_000 ∷ [];
}

signing_alone : signing_world.running ≡ store_call sign_staging_upload ∷ []
unfolding call begin goes_through_gate gated assert_writable paused_until
signing_alone = refl

signing_floor : signing_world.gate.quiesce.signature_floor_ms ≤ 2_000
unfolding call begin goes_through_gate gated assert_writable paused_until enter
signing_floor = omega arith

-- The signature got and noted.
abbrev noted_world : World
noted_world = record (with_quiesce (note_signature (some 61_000)) signed_world) { unnoted = [] }

noted_world-reached : Reaches first_world noted_world
unfolding call
noted_world-reached =
    then_step signed_world noted_world
      (then_step signing_world signed_world signing_world-reached
        (signed 61_000 [] [] signing_world signing_alone))
      (noted 61_000 [] [] signed_world refl)

noted_quiet : is_quiesced 61_000 noted_world.gate.quiesce ≡ true
unfolding is_quiesced with_quiesce call begin goes_through_gate gated assert_writable paused_until
    enter leave note_signature
noted_quiet = refl

quiet_means_quiet_example :
    (noted_world.running ≡ []) × All (λ e. e ≤ 61_000) noted_world.signatures
quiet_means_quiet_example =
    quiet_means_quiet noted_world 61_000 noted_world-reached refl noted_quiet

abbrev busy_polls : ℕ → Poll
busy_polls n = record {
  loop_clock = n * 250;
  check_clock = n * 250;
  quiesce = record { in_flight = 1; signature_floor_ms = 0 };
}

busy_wait : await_quiesced busy_polls 500 3 0 ≡ some false
unfolding await_quiesced is_quiesced
busy_wait = refl
