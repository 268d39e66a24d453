-- ===== src/Console/Commands/Driven.antt =====
-- src/console/commands.ts, `pollCommands`: what has to hold for an executor to be entered, and what
-- stands when it is through.
use hx_fortress.Prelude.{
  ℕ, ◌+◌, ◌≤◌, ◌<◌, ◌≡◌, refl, ap, ◌∙◌, ◌⊎◌, inl, inr, Bool, true, false, ◌&&◌, not, none, some,
  List, [], ◌∷◌, ◌++◌, arith, ltb, leb, if◌then◌else◌, Bool-cases, Option-cases, nat_eq, keep_if,
  any, Text, codes, text_eq, get, get-set_self,
}
use hx_fortress.Console.Commands.{
  is_terminal, is_running, CommandRow, Command, Table, update_where, claimable, claim_command,
  reject_deadline, Environment, Machine, has_id, without, add_in_flight, remove_in_flight,
  record_transition, reject_invalid_params, was_claimed, ParamCheck, valid_params, invalid_params,
  Execution, finished, threw,
}
use hx_fortress.Console.Commands.Boot.{call_routine}
use hx_fortress.Console.Commands.Drive.{
  entry_of, Poll, deadline_of, poll_rejected, conclude, run_claimed, poll_claim, poll_live,
  poll_timed, poll_row,
}
use hx_fortress.Console.Commands.Routines.{is_begun}
use hx_fortress.Console.Commands.Fencing.{
  Bounded, Stands, Closed, Begun-later, complete_command-Closed,
}

pub has_id-without : (k : Text) (ids : List Text) → has_id k (without k ids) ≡ false
unfolding has_id without any keep_if
has_id-without k [] = refl
has_id-without k (i ∷ ids) = ground (arith, has_id-without k ids)

update_where-changes :
    (eligible : Command → Bool) (change : Command → Command) (k : Text) (t : Table)
    → (update_where eligible change k t).1 ≡ true
    → (row : Command) × (get k (update_where eligible change k t).0 ≡ some (change row))
unfolding update_where
update_where-changes eligible change k t h = elim (Option-cases (get k t)) [
  | inl missing ↦ absurd (ground arith)
  | inr (row, at) ↦ elim (Bool-cases (eligible row)) [
    | inl fits ↦ (row, ground (arith, get-set_self k (change row) t))
    | inr shut ↦ absurd (ground arith)
  ]
]

claim_command-begins :
    (k by : Text) (redrive : Bool) (now : ℕ) (t : Table)
    → (claim_command k by redrive now t).1 ≡ true
    → Stands is_begun k (claim_command k by redrive now t).0
unfolding claim_command
claim_command-begins k by redrive now t h =
    let changed = update_where-changes (claimable redrive now) _ k t h in (_, (changed.1, refl))

-- How an executor can have been entered for a row.
abbrev pub Driven : Environment → CommandRow → Poll → Poll → Type 0
Driven env row p q =
    (q.machine.executed ≡ row.id ∷ p.machine.executed)
    × ((is_running row.command.status ≡ false) ⊎ (has_id row.id p.tickets ≡ true))
    × (row.command.requested_at ≤ env.clock p.machine.tick)
    × (env.clock p.machine.tick < deadline_of row)
    × Closed row.id q.machine.table
    × (has_id row.id q.machine.in_flight ≡ false)
    × ((is_running row.command.status ≡ false) ⊎ (has_id row.id q.tickets ≡ false))
    × (q.handled ≡ p.handled + 1)

conclude-facts :
    (env : Environment) (row : CommandRow) (x : Execution) (m : Machine)
    → Bounded env
    → Stands is_begun row.id m.table
    → Closed row.id (conclude env row x m).table × ((conclude env row x m).executed ≡ m.executed)
unfolding conclude call_routine record_transition
conclude-facts env row (finished outcome) m bounded begun = (
  complete_command-Closed row.id true outcome none (env.db_now m.tick) (env.others m.tick m.table)
      (Begun-later row.id m.table (env.others m.tick m.table) (bounded m.tick m.table) begun),
  refl,
)
conclude-facts env row (threw message) m bounded begun = (
  complete_command-Closed row.id false none (some message) (env.db_now m.tick)
      (env.others m.tick m.table)
      (Begun-later row.id m.table (env.others m.tick m.table) (bounded m.tick m.table) begun),
  refl,
)

run_claimed-facts :
    (env : Environment) (row : CommandRow) (checked : Text) (m : Machine)
    → Bounded env
    → Stands is_begun row.id m.table
    → Closed row.id (run_claimed env row checked m).table
      × ((run_claimed env row checked m).executed ≡ row.id ∷ m.executed)
      × (has_id row.id (run_claimed env row checked m).in_flight ≡ false)
unfolding run_claimed remove_in_flight record_transition
run_claimed-facts env row checked m bounded begun =
    let entered = record m {
      records = entry_of env row was_claimed none none none true m ∷ m.records;
      executed = row.id ∷ m.executed;
    } in
    let x = env.execute m.tick row.command.kind checked row.command.credential_ref in
    let facts = conclude-facts env row x entered bounded begun in
    (facts.0, facts.1, has_id-without row.id (conclude env row x entered).in_flight)

-- Nothing was entered, and no ticket spent.
abbrev pub Idle : Poll → Poll → Type 0
Idle p q = (q.machine.executed ≡ p.machine.executed) × (q.tickets ≡ p.tickets)

poll_rejected-Idle :
    (env : Environment) (row : CommandRow) (reason : Text) (p : Poll)
    → Idle p (poll_rejected env row reason p)
unfolding poll_rejected call_routine record_transition
poll_rejected-Idle env row reason p = (refl, refl)

abbrev pub Entered : Environment → CommandRow → Bool → Poll → Poll → Type 0
Entered env row redrive p q =
    (q.machine.executed ≡ row.id ∷ p.machine.executed)
    × Closed row.id q.machine.table
    × (has_id row.id q.machine.in_flight ≡ false)
    × ((redrive ≡ false) ⊎ (has_id row.id q.tickets ≡ false))
    × (q.handled ≡ p.handled + 1)

add_in_flight-executed : (id : Text) (m : Machine) → (add_in_flight id m).executed ≡ m.executed
unfolding add_in_flight
add_in_flight-executed id m = ground arith

spent :
    (redrive : Bool) (k : Text) (tickets : List Text)
    → (redrive ≡ false) ⊎ (has_id k (if redrive then without k tickets else tickets) ≡ false)
spent false k tickets = inl refl
spent true k tickets = inr (has_id-without k tickets)

-- What the claim of a poll answers: the others have their turn after the in-flight file is written.
abbrev pub claim_answer : Environment → CommandRow → Bool → Poll → Table × Bool
claim_answer env row redrive p =
    claim_command row.id env.claimed_by redrive (env.db_now (add_in_flight row.id p.machine).tick)
      (env.others (add_in_flight row.id p.machine).tick (add_in_flight row.id p.machine).table)

pub poll_claim-enters :
    (env : Environment) (row : CommandRow) (checked : Text) (redrive : Bool) (p : Poll)
    → Bounded env
    → (claim_answer env row redrive p).1 ≡ true
    → Entered env row redrive p (poll_claim env row checked redrive p)
unfolding poll_claim remove_in_flight call_routine
poll_claim-enters env row checked redrive p bounded ours =
    let ready = add_in_flight row.id p.machine in
    let facts =
      run_claimed-facts env row checked
        (record ready { table = (claim_answer env row redrive p).0; tick = ready.tick + 1 }) bounded
        (claim_command-begins row.id env.claimed_by redrive (env.db_now ready.tick)
          (env.others ready.tick ready.table) ours) in
    rw ours (
      facts.1 ∙ ap (λ es. row.id ∷ es) (add_in_flight-executed row.id p.machine),
      facts.0,
      facts.2,
      spent redrive row.id p.tickets,
      refl,
    )

poll_claim-idles :
    (env : Environment) (row : CommandRow) (checked : Text) (redrive : Bool) (p : Poll)
    → (claim_answer env row redrive p).1 ≡ false
    → Idle p (poll_claim env row checked redrive p)
unfolding poll_claim remove_in_flight call_routine
poll_claim-idles env row checked redrive p taken =
    rw taken (add_in_flight-executed row.id p.machine, refl)

poll_claim-cases :
    (env : Environment) (row : CommandRow) (checked : Text) (redrive : Bool) (p : Poll)
    → Bounded env
    → Idle p (poll_claim env row checked redrive p)
      ⊎ Entered env row redrive p (poll_claim env row checked redrive p)
poll_claim-cases env row checked redrive p bounded =
    elim (Bool-cases (claim_answer env row redrive p).1) [
      | inr taken ↦ inl (poll_claim-idles env row checked redrive p taken)
      | inl ours ↦ inr (poll_claim-enters env row checked redrive p bounded ours)
    ]

poll_live-cases :
    (env : Environment) (row : CommandRow) (redrive : Bool) (p : Poll)
    → Bounded env
    → Idle p (poll_live env row redrive p) ⊎ Entered env row redrive p (poll_live env row redrive p)
unfolding poll_live
poll_live-cases env row redrive p bounded =
    by_check (env.validate row.command.kind row.command.params)
  where
    by_check :
        (c : ParamCheck)
        → Idle p (elim c [
          | valid_params checked ↦ poll_claim env row checked redrive p
          | invalid_params reason ↦
              poll_rejected env row (reject_invalid_params ++ codes ": " ++ reason) p
        ])
          ⊎ Entered env row redrive p (elim c [
            | valid_params checked ↦ poll_claim env row checked redrive p
            | invalid_params reason ↦
                poll_rejected env row (reject_invalid_params ++ codes ": " ++ reason) p
          ])
    by_check (valid_params checked) = poll_claim-cases env row checked redrive p bounded
    by_check (invalid_params reason) =
        inl (poll_rejected-Idle env row (reject_invalid_params ++ codes ": " ++ reason) p)

poll_timed-cases :
    (env : Environment) (row : CommandRow) (redrive : Bool) (p : Poll)
    → Bounded env
    → Idle p (poll_timed env row redrive p)
      ⊎ (Entered env row redrive p (poll_timed env row redrive p)
          × (row.command.requested_at ≤ env.clock p.machine.tick)
          × (env.clock p.machine.tick < deadline_of row))
unfolding poll_timed
poll_timed-cases env row redrive p bounded =
    elim (Bool-cases (ltb (env.clock p.machine.tick) row.command.requested_at)) [
      | inl early ↦ rw early (inl (poll_rejected-Idle env row reject_deadline p))
      | inr begun ↦ rw begun (elim (Bool-cases (leb (deadline_of row) (env.clock p.machine.tick))) [
        | inl late ↦ rw late (inl (poll_rejected-Idle env row reject_deadline p))
        | inr timely ↦ rw timely (elim (poll_live-cases env row redrive p bounded) [
          | inl idle ↦ inl idle
          | inr entered ↦ inr (entered, ground arith, ground arith)
        ])
      ])
    ]

redrive_spent :
    (running ticket ticket_after : Bool)
    → ((running && ticket) ≡ false) ⊎ (ticket_after ≡ false)
    → (running && not (running && ticket)) ≡ false
    → ((running ≡ false) ⊎ (ticket ≡ true)) × ((running ≡ false) ⊎ (ticket_after ≡ false))
redrive_spent false ticket after h k = (inl refl, inl refl)
redrive_spent true true after (inr gone) k = (inr refl, inr gone)
redrive_spent true true after (inl never) k = absurd (ground arith)
redrive_spent true false after h k = absurd (ground arith)

-- A poll's step at one row, the other principals having called routines and inserted rows between any
-- two of its own calls. Either it enters no executor and spends no ticket, or it enters one, for this
-- row alone, and then: a row that was running had its ticket; the request's time had come and its
-- deadline had not; afterwards the row's status is terminal, its id is out of the in-flight file,
-- a running row's ticket is spent, and the row is counted.
pub execution_is_guarded :
    (env : Environment) (row : CommandRow) (p : Poll)
    → Bounded env
    → Idle p (poll_row env row p) ⊎ Driven env row p (poll_row env row p)
unfolding poll_row
execution_is_guarded env row p bounded = elim (Bool-cases (is_terminal row.command.status)) [
  | inl final ↦ rw final (inl (refl, refl))
  | inr lives ↦
      let runs = is_running row.command.status in
      let ticket = has_id row.id p.tickets in
      rw lives (elim (Bool-cases (runs && not (runs && ticket))) [
        | inl foreign ↦ rw foreign (inl (refl, refl))
        | inr ours ↦ rw ours (elim (poll_timed-cases env row (runs && ticket) p bounded) [
          | inl idle ↦ inl idle
          | inr (entered, due, timely) ↦
              let tickets = redrive_spent runs ticket _ entered.3 ours in
              inr (entered.0, tickets.0, due, timely, entered.1, entered.2, tickets.1, entered.4)
        ])
      ])
]
