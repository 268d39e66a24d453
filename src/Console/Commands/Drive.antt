-- ===== src/Console/Commands/Drive.antt =====
-- src/console/commands.ts, `pollCommands`: one pass over the open rows.
use hx_fortress.Prelude.{
  ℕ, ◌+◌, Bool, true, false, ◌&&◌, not, Option, none, some, List, [], ◌∷◌, ◌++◌, ltb, leb,
  if◌then◌else◌, nat_eq, Text, codes, text_eq,
}
use hx_fortress.Console.Commands.{
  command_request_ttl_ms, reject_deadline, reject_invalid_params, is_terminal, is_running,
  CommandRow, claim_command, complete_command, reject_command, TransitionRecord, Transition,
  was_claimed, was_done, was_failed, was_rejected, valid_params, invalid_params, Execution,
  finished, threw, Environment, Machine, has_id, without, add_in_flight, remove_in_flight,
  record_transition,
}
use hx_fortress.Console.Commands.Boot.{call_routine, open_rows}

pub record Poll : Type 0 where
  pub machine : Machine
  -- The permissions to claim a running row again.
  pub tickets : List Text
  pub handled : ℕ

unfoldable pub entry_of :
    Environment
    → CommandRow
    → Transition
    → Option Text
    → Option Text
    → Option Text
    → Bool
    → Machine
    → TransitionRecord
entry_of env row transition outcome error reason accepted m = record {
  id = row.id;
  kind = row.command.kind;
  transition = transition;
  outcome = outcome;
  error = error;
  reason = reason;
  accepted = accepted;
  at = env.clock m.tick;
}

-- `deadlineAt ?? requestedAt + COMMAND_REQUEST_TTL_MS`.
unfoldable pub deadline_of : CommandRow → ℕ
deadline_of row = elim row.command.deadline_at [
  | none ↦ row.command.requested_at + command_request_ttl_ms
  | some deadline ↦ deadline
]

-- The three branches that reject a row.
unfoldable pub poll_rejected : Environment → CommandRow → Text → Poll → Poll
unfolding call_routine
poll_rejected env row reason p =
    let answer = call_routine env (reject_command row.id reason) p.machine in
    record p {
      machine =
          record_transition
            (entry_of env row was_rejected none none (some reason) answer.1 answer.0) answer.0;
      handled = if answer.1 then p.handled + 1 else p.handled;
    }

-- What follows the executor, by how it came back.
unfoldable pub conclude : Environment → CommandRow → Execution → Machine → Machine
conclude env row (finished outcome) m =
    let answer = call_routine env (complete_command row.id true outcome none) m in
    record_transition (entry_of env row was_done outcome none none answer.1 answer.0) answer.0
conclude env row (threw message) m =
    let answer = call_routine env (complete_command row.id false none (some message)) m in
    record_transition (entry_of env row was_failed none (some message) none answer.1 answer.0)
      answer.0

-- A claim that landed: its record, the executor, the outcome, and out of the in-flight file.
unfoldable pub run_claimed : Environment → CommandRow → Text → Machine → Machine
run_claimed env row checked m =
    let recorded = record_transition (entry_of env row was_claimed none none none true m) m in
    let entered = record recorded { executed = row.id ∷ recorded.executed } in
    let execution = env.execute entered.tick row.command.kind checked row.command.credential_ref in
    remove_in_flight row.id (conclude env row execution entered)

unfoldable pub poll_claim : Environment → CommandRow → Text → Bool → Poll → Poll
poll_claim env row checked redrive p =
    let answer =
      call_routine env (claim_command row.id env.claimed_by redrive)
        (add_in_flight row.id p.machine) in
    if answer.1
    then record {
      machine = run_claimed env row checked answer.0;
      tickets = if redrive then without row.id p.tickets else p.tickets;
      handled = p.handled + 1;
    }
    else record p { machine = remove_in_flight row.id answer.0 }

unfoldable pub poll_live : Environment → CommandRow → Bool → Poll → Poll
poll_live env row redrive p = elim (env.validate row.command.kind row.command.params) [
  | valid_params checked ↦ poll_claim env row checked redrive p
  | invalid_params reason ↦ poll_rejected env row (reject_invalid_params ++ codes ": " ++ reason) p
]

unfoldable pub poll_timed : Environment → CommandRow → Bool → Poll → Poll
poll_timed env row redrive p =
    if ltb (env.clock p.machine.tick) row.command.requested_at
    then poll_rejected env row reject_deadline p
    else if leb (deadline_of row) (env.clock p.machine.tick)
    then poll_rejected env row reject_deadline p
    else poll_live env row redrive p

unfoldable pub poll_row : Environment → CommandRow → Poll → Poll
poll_row env row p =
    let redrive = is_running row.command.status && has_id row.id p.tickets in
    if is_terminal row.command.status
    then p
    else if is_running row.command.status && not redrive
    then p
    else poll_timed env row redrive p

unfoldable pub poll_rows : Environment → List CommandRow → Poll → Poll
poll_rows env [] p = p
poll_rows env (row ∷ rows) p = poll_rows env rows (poll_row env row p)

unfoldable pub poll_commands : Environment → List Text → Machine → Poll
poll_commands env tickets m = poll_rows env (open_rows env m) (record {
  machine = record m { table = env.others m.tick m.table; tick = m.tick + 1 };
  tickets = tickets;
  handled = 0;
})
