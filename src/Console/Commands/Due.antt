-- ===== src/Console/Commands/Due.antt =====
-- src/console/commands.ts, `pollCommands`: a request that is due is carried out.
use hx_fortress.Prelude.{
  ℕ, ◌≤◌, ◌<◌, ◌≡◌, sym, ap, subst, Bool, true, false, some, arith, ltb, leb, nat_eq, Text, text_eq,
  get,
}
use hx_fortress.Console.Commands.{
  requested, is_terminal, is_running, CommandRow, Command, Table, update_where, claimable,
  claim_command, Environment, Machine, valid_params, add_in_flight,
}
use hx_fortress.Console.Commands.Drive.{
  Poll, deadline_of, poll_claim, poll_live, poll_timed, poll_row,
}
use hx_fortress.Console.Commands.Fencing.{Bounded}
use hx_fortress.Console.Commands.Driven.{Entered, poll_claim-enters}

claim_command-accepts :
    (k by : Text) (redrive : Bool) (now : ℕ) (t : Table) (command : Command)
    → get k t ≡ some command
    → command.status ≡ requested
    → command.requested_at ≤ now
    → (claim_command k by redrive now t).1 ≡ true
unfolding claim_command update_where
claim_command-accepts k by redrive now t command at waits due =
    let fits : claimable redrive now command ≡ true = rw waits (ground arith) in ground arith

add_in_flight-rest :
    (k : Text) (m : Machine)
    → ((add_in_flight k m).table ≡ m.table) × ((add_in_flight k m).tick ≡ m.tick)
unfolding add_in_flight
add_in_flight-rest k m = ground arith

poll_live-claims :
    (env : Environment) (row : CommandRow) (checked : Text) (p : Poll)
    → env.validate row.command.kind row.command.params ≡ valid_params checked
    → poll_live env row false p ≡ poll_claim env row checked false p
unfolding poll_live
poll_live-claims env row checked p valid = ground arith

poll_row-claims :
    (env : Environment) (row : CommandRow) (checked : Text) (p : Poll)
    → row.command.status ≡ requested
    → row.command.requested_at ≤ env.clock p.machine.tick
    → env.clock p.machine.tick < deadline_of row
    → env.validate row.command.kind row.command.params ≡ valid_params checked
    → poll_row env row p ≡ poll_claim env row checked false p
unfolding poll_row poll_timed is_terminal
poll_row-claims env row checked p waits due timely valid =
    let lives : is_terminal row.command.status ≡ false = ap is_terminal waits in
    let idle : is_running row.command.status ≡ false = ap is_running waits in
    let early : ltb (env.clock p.machine.tick) row.command.requested_at ≡ false = ground arith in
    let late : leb (deadline_of row) (env.clock p.machine.tick) ≡ false = ground arith in
    rw (lives, idle, early, late) (poll_live-claims env row checked p valid)

-- A row that the poll read as requested, still stands so in the table after the others' turn, has its
-- request's time behind it by both clocks and its deadline ahead, and has valid parameters, is carried
-- out by the poll's step at it: an executor is entered for it, and when it is through the row is
-- terminal, out of the in-flight file and counted.
pub due_request_is_driven :
    (env : Environment) (row : CommandRow) (checked : Text) (p : Poll)
    → Bounded env
    → row.command.status ≡ requested
    → get row.id (env.others p.machine.tick p.machine.table) ≡ some row.command
    → row.command.requested_at ≤ env.db_now p.machine.tick
    → row.command.requested_at ≤ env.clock p.machine.tick
    → env.clock p.machine.tick < deadline_of row
    → env.validate row.command.kind row.command.params ≡ valid_params checked
    → Entered env row false p (poll_row env row p)
due_request_is_driven env row checked p bounded waits at db_due due timely valid =
    subst (Entered env row false p) (sym (poll_row-claims env row checked p waits due timely valid))
      (poll_claim-enters env row checked false p bounded (
        claim_command-accepts row.id env.claimed_by false
          (env.db_now (add_in_flight row.id p.machine).tick)
          (env.others (add_in_flight row.id p.machine).tick (add_in_flight row.id p.machine).table)
          row.command
          (rw ((add_in_flight-rest row.id p.machine).1, (add_in_flight-rest row.id p.machine).0) at)
          waits (rw (add_in_flight-rest row.id p.machine).1 db_due)))
