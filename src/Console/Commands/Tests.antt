-- ===== src/Console/Commands/Tests.antt =====
-- A table of two commands, a boot and a poll over it, and the theorems at them.
use hx_fortress.Prelude.{
  false, arith, ◌<◌, if◌then◌else◌, ◌+◌, ◌≡◌, refl, ◌⊎◌, true, none, some, [], ◌∷◌, nat_eq, any,
  Text, codes, text_beq, text_eq, get,
}
use hx_fortress.Console.Commands.{
  Command, CommandRow, Table, Status, requested, running, done, is_terminal, Environment, Machine,
  has_id, valid_params, finished, update_where, claim_command, complete_command, reject_command,
  list_open, insert_row, add_in_flight, remove_in_flight, record_transition,
}
use hx_fortress.Console.Commands.Boot.{
  call_routine, fence_verdict, run_boot_fence, open_rows, fence_rows, fence_rejected,
}
use hx_fortress.Console.Commands.Drive.{
  Poll, poll_row, poll_timed, poll_live, poll_claim, run_claimed, conclude, entry_of, deadline_of,
}
use hx_fortress.Console.Commands.Routines.{
  OneWayTo-refl, claim, complete, run_routines, Later, rows_move_one_way,
}
use hx_fortress.Console.Commands.Fencing.{Bounded, Closed}
use hx_fortress.Console.Commands.Outcome.{is_own, fence_settles_open_rows}
use hx_fortress.Console.Commands.Due.{due_request_is_driven}
use hx_fortress.Console.Commands.Driven.{Entered, Idle, Driven, execution_is_guarded}

abbrev command_at : Status → Command
command_at status = record {
  kind = codes "self_test";
  params = codes "{}";
  status = status;
  requested_at = 1_000;
  deadline_at = none;
  credential_ref = none;
  claimed_by = none;
  claimed_at = none;
  completed_at = none;
  outcome = none;
  error = none;
}

-- One command that waits, and one that a crash left running.
abbrev waiting_id : Text
waiting_id = codes "a"

abbrev running_id : Text
running_id = codes "b"

abbrev two_rows : Table
two_rows = (waiting_id, command_at requested) ∷ (running_id, command_at running) ∷ []

abbrev quiet_env : Environment
quiet_env = record {
  others = λ n t. t;
  db_now = λ n. 2_000 + n;
  clock = λ n. 2_000 + n;
  validate = λ kind params. valid_params params;
  execute = λ n kind params ref. finished none;
  claimed_by = codes "daemon";
}

quiet_env-Bounded : Bounded quiet_env
quiet_env-Bounded n t = OneWayTo-refl t

abbrev crashed : Machine
crashed = record {
  table = two_rows;
  tick = 0;
  in_flight = running_id ∷ [];
  records = [];
  executed = [];
}

boot_redrives : (run_boot_fence quiet_env crashed).redriven_ids ≡ running_id ∷ []
unfolding run_boot_fence open_rows list_open insert_row fence_rows fence_verdict has_id any text_beq
    is_terminal fence_rejected call_routine reject_command update_where get
boot_redrives = refl

boot_rejects : (run_boot_fence quiet_env crashed).rejected_ids ≡ waiting_id ∷ []
unfolding run_boot_fence open_rows list_open insert_row fence_rows fence_verdict has_id any text_beq
    is_terminal fence_rejected call_routine reject_command update_where get
boot_rejects = refl

running_row : get running_id two_rows ≡ some (command_at running)
unfolding get text_beq
running_row = refl

waiting_row : get waiting_id two_rows ≡ some (command_at requested)
unfolding get text_beq
waiting_row = refl

boot_names_it : has_id running_id (run_boot_fence quiet_env crashed).redriven_ids ≡ true
unfolding has_id any text_beq
boot_names_it = rw boot_redrives refl

rows_move_one_way_example :
    (after : Command) × ((get running_id (
          run_routines
            (complete running_id true none none 3_000
              ∷ claim running_id (codes "x") true 3_001
              ∷ [])
            two_rows)
        ≡ some after)
      × Later (command_at running) after)
rows_move_one_way_example =
    rows_move_one_way
      (complete running_id true none none 3_000 ∷ claim running_id (codes "x") true 3_001 ∷ [])
      two_rows running_id (command_at running) running_row

abbrev ended_table : Table
ended_table = (running_id, command_at done) ∷ []

ended_row : get running_id ended_table ≡ some (command_at done)
unfolding get text_beq
ended_row = refl

ended_final : is_terminal done ≡ true
unfolding is_terminal
ended_final = refl

fence_settles_open_rows_example :
    if is_own crashed.in_flight waiting_id (command_at requested)
    then has_id waiting_id (run_boot_fence quiet_env crashed).redriven_ids ≡ true
    else Closed waiting_id (run_boot_fence quiet_env crashed).machine.table
fence_settles_open_rows_example =
    fence_settles_open_rows quiet_env crashed waiting_id (command_at requested) quiet_env-Bounded
      waiting_row refl

abbrev first_poll : Poll
first_poll = record { machine = crashed; tickets = running_id ∷ []; handled = 0 }

abbrev running_command : CommandRow
running_command = record { id = running_id; command = command_at running }

redrive_runs : (poll_row quiet_env running_command first_poll).machine.executed ≡ running_id ∷ []
unfolding poll_row poll_timed poll_live poll_claim run_claimed conclude entry_of deadline_of
    call_routine claim_command complete_command update_where get has_id any text_beq is_terminal
    add_in_flight remove_in_flight record_transition
redrive_runs = refl

execution_is_guarded_example :
    Idle first_poll (poll_row quiet_env running_command first_poll)
    ⊎ Driven quiet_env running_command first_poll (poll_row quiet_env running_command first_poll)
execution_is_guarded_example =
    execution_is_guarded quiet_env running_command first_poll quiet_env-Bounded

-- The request that waits.
abbrev waiting_command : CommandRow
waiting_command = record { id = waiting_id; command = command_at requested }

waiting_timely : 2_000 < deadline_of waiting_command
unfolding deadline_of
waiting_timely = omega arith

due_request_is_driven_example :
    Entered quiet_env waiting_command false first_poll
      (poll_row quiet_env waiting_command first_poll)
due_request_is_driven_example =
    due_request_is_driven quiet_env waiting_command (codes "{}") first_poll quiet_env-Bounded refl
      waiting_row (omega arith) (omega arith) waiting_timely refl
