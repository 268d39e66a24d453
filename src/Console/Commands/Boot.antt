-- ===== src/Console/Commands/Boot.antt =====
-- src/console/commands.ts, `runBootFence`: what boot does with the rows that a crash left open.
use hx_fortress.Prelude.{
  ℕ, ◌+◌, Bool, false, ◌&&◌, none, some, List, [], ◌∷◌, ◌++◌, if◌then◌else◌, nat_eq, Text, text_eq,
}
use hx_fortress.Console.Commands.{
  reject_boot_fence, fail_credential_consumed, is_terminal, is_running, CommandRow, Table,
  complete_command, reject_command, list_open, was_failed, was_rejected, Environment, Machine,
  has_id, remove_in_flight, record_transition, has_credential,
}

-- One call of a routine, after the others' turn.
unfoldable pub call_routine : Environment → (ℕ → Table → Table × Bool) → Machine → Machine × Bool
call_routine env routine m =
    let answer = routine (env.db_now m.tick) (env.others m.tick m.table) in
    (record m { table = answer.0; tick = m.tick + 1 }, answer.1)

pub data FenceVerdict : Type 0 where
  skipped redriven credential_gone fenced : FenceVerdict

-- The branch that a row takes, by the in-flight file as boot found it.
unfoldable pub fence_verdict : List Text → CommandRow → FenceVerdict
fence_verdict in_flight row =
    if is_terminal row.command.status
    then skipped
    else if is_running row.command.status && has_id row.id in_flight
    then if has_credential row.command.credential_ref then credential_gone else redriven
    else fenced

unfoldable pub fence_failed : Environment → CommandRow → Machine → Machine × Bool
fence_failed env row m =
    let answer =
      call_routine env (complete_command row.id false none (some fail_credential_consumed)) m in
    (
      remove_in_flight row.id (
          record_transition
            (record {
              id = row.id;
              kind = row.command.kind;
              transition = was_failed;
              outcome = none;
              error = some fail_credential_consumed;
              reason = none;
              accepted = answer.1;
              at = env.clock answer.0.tick;
            })
            answer.0),
      answer.1,
    )

unfoldable pub fence_rejected : Environment → CommandRow → Machine → Machine × Bool
fence_rejected env row m =
    let answer = call_routine env (reject_command row.id reject_boot_fence) m in
    (
      remove_in_flight row.id (
          record_transition
            (record {
              id = row.id;
              kind = row.command.kind;
              transition = was_rejected;
              outcome = none;
              error = none;
              reason = some reject_boot_fence;
              accepted = answer.1;
              at = env.clock answer.0.tick;
            })
            answer.0),
      answer.1,
    )

pub record Fence : Type 0 where
  pub machine : Machine
  pub redriven_ids : List Text
  pub rejected_ids : List Text
  pub failed_ids : List Text

-- `if (accepted) ids.push(id)`.
abbrev pub push_if : Bool → Text → List Text → List Text
push_if accepted id ids = if accepted then ids ++ id ∷ [] else ids

abbrev pub fence_by : FenceVerdict → Environment → CommandRow → Fence → Fence
fence_by skipped env row f = f
fence_by redriven env row f = record f { redriven_ids = f.redriven_ids ++ row.id ∷ [] }
fence_by credential_gone env row f =
    let answer = fence_failed env row f.machine in
    record f { machine = answer.0; failed_ids = push_if answer.1 row.id f.failed_ids }
fence_by fenced env row f =
    let answer = fence_rejected env row f.machine in
    record f { machine = answer.0; rejected_ids = push_if answer.1 row.id f.rejected_ids }

unfoldable pub fence_rows : Environment → List Text → List CommandRow → Fence → Fence
fence_rows env in_flight [] f = f
fence_rows env in_flight (row ∷ rows) f =
    fence_rows env in_flight rows (fence_by (fence_verdict in_flight row) env row f)

-- The rows that the fence goes through: the query is a call of the database like the others.
unfoldable pub open_rows : Environment → Machine → List CommandRow
open_rows env m = list_open (env.others m.tick m.table)

unfoldable pub run_boot_fence : Environment → Machine → Fence
run_boot_fence env m = fence_rows env m.in_flight (open_rows env m) (record {
  machine = record m { table = env.others m.tick m.table; tick = m.tick + 1 };
  redriven_ids = [];
  rejected_ids = [];
  failed_ids = [];
})
