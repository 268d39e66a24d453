-- ===== src/Console/Commands/Fenced.antt =====
-- src/console/commands.ts, `runBootFence`: what the fence has done with every open row when it is through.
use hx_fortress.Prelude.{
  ℕ, ◌≡◌, inl, inr, Bool, true, false, ◌&&◌, ◌||◌, none, some, List, [], ◌∷◌, ◌++◌, arith,
  Bool-cases, ◌==◌, nat_eq, beq_refl, any, Text, text_eq, get,
}
use hx_fortress.Console.Commands.{
  reject_boot_fence, fail_credential_consumed, is_terminal, is_open, is_running, CommandRow,
  Command, Table, complete_command, reject_command, list_open, Environment, Machine, has_id,
  has_credential, remove_in_flight, record_transition,
}
use hx_fortress.Console.Commands.Boot.{
  call_routine, FenceVerdict, skipped, redriven, credential_gone, fenced, fence_verdict,
  fence_failed, fence_rejected, Fence, fence_by, fence_rows, open_rows, run_boot_fence,
}
use hx_fortress.Console.Commands.Routines.{
  is_known, is_begun, OneWayTo, OneWayTo-refl, OneWayTo-trans, complete_command-OneWayTo,
  reject_command-OneWayTo,
}
use hx_fortress.Console.Commands.Fencing.{
  Bounded, Stands, Closed, Closed-later, Known-later, Begun-later, reject_command-Closed,
  complete_command-Closed, Listed, first_row, later_row, list_open-Listed, running_begun,
  open_facts,
}

-- What the branch of a row asks of the table, and what it leaves.
abbrev pub Ready : FenceVerdict → Text → Table → Type 0
Ready skipped k t = Closed k t
Ready redriven k t = Unit {0}
Ready credential_gone k t = Stands is_begun k t
Ready fenced k t = Stands is_known k t

Ready-later : (v : FenceVerdict) (k : Text) (t u : Table) → OneWayTo t u → Ready v k t → Ready v k u
Ready-later skipped k t u f h = Closed-later k t u f h
Ready-later redriven k t u f h = tt
Ready-later credential_gone k t u f h = Begun-later k t u f h
Ready-later fenced k t u f h = Known-later k t u f h

module _ (env : Environment) (bounded : Bounded env) where
  pub call_routine-OneWayTo :
      (r : ℕ → Table → Table × Bool) (m : Machine)
      → ((now : ℕ) (t : Table) → OneWayTo t (r now t).0)
      → OneWayTo m.table (call_routine env r m).0.table
  unfolding call_routine
  call_routine-OneWayTo r m moves =
      OneWayTo-trans m.table (env.others m.tick m.table)
        (r (env.db_now m.tick) (env.others m.tick m.table)).0 (bounded m.tick m.table)
        (moves (env.db_now m.tick) (env.others m.tick m.table))

  fence_by-OneWayTo :
      (v : FenceVerdict) (row : CommandRow) (f : Fence)
      → OneWayTo f.machine.table (fence_by v env row f).machine.table
  unfolding fence_failed fence_rejected remove_in_flight record_transition
  fence_by-OneWayTo skipped row f = OneWayTo-refl f.machine.table
  fence_by-OneWayTo redriven row f = OneWayTo-refl f.machine.table
  fence_by-OneWayTo credential_gone row f =
      call_routine-OneWayTo (complete_command row.id false none (some fail_credential_consumed))
        f.machine (complete_command-OneWayTo row.id false none (some fail_credential_consumed))
  fence_by-OneWayTo fenced row f =
      call_routine-OneWayTo (reject_command row.id reject_boot_fence) f.machine
        (reject_command-OneWayTo row.id reject_boot_fence)

-- A row that the fence leaves to be driven again is named in its answer; any other is terminal.
abbrev pub Settled : FenceVerdict → Text → Fence → Type 0
Settled redriven k f = has_id k f.redriven_ids ≡ true
Settled _ k f = Closed k f.machine.table

pub has_id-append :
    (k j : Text) (ids : List Text) → has_id k (ids ++ j ∷ []) ≡ (has_id k ids || (j == k))
unfolding has_id any
has_id-append k j [] = ground arith
has_id-append k j (i ∷ ids) = ground (arith, has_id-append k j ids)

module _ (env : Environment) (bounded : Bounded env) where
  fence_by-keeps_redriven :
      (v : FenceVerdict) (row : CommandRow) (f : Fence) (k : Text)
      → has_id k f.redriven_ids ≡ true
      → has_id k (fence_by v env row f).redriven_ids ≡ true
  fence_by-keeps_redriven skipped row f k h = h
  fence_by-keeps_redriven redriven row f k h = ground (arith, has_id-append k row.id f.redriven_ids)
  fence_by-keeps_redriven credential_gone row f k h = h
  fence_by-keeps_redriven fenced row f k h = h

  fence_by-keeps :
      (w v : FenceVerdict) (row : CommandRow) (f : Fence) (k : Text)
      → Settled v k f
      → Settled v k (fence_by w env row f)
  fence_by-keeps w redriven row f k h = fence_by-keeps_redriven w row f k h
  fence_by-keeps w skipped row f k h =
      Closed-later k f.machine.table (fence_by w env row f).machine.table
        (fence_by-OneWayTo env bounded w row f) h
  fence_by-keeps w credential_gone row f k h =
      Closed-later k f.machine.table (fence_by w env row f).machine.table
        (fence_by-OneWayTo env bounded w row f) h
  fence_by-keeps w fenced row f k h =
      Closed-later k f.machine.table (fence_by w env row f).machine.table
        (fence_by-OneWayTo env bounded w row f) h

  fence_by-settles :
      (v : FenceVerdict) (row : CommandRow) (f : Fence)
      → Ready v row.id f.machine.table
      → Settled v row.id (fence_by v env row f)
  unfolding fence_failed fence_rejected remove_in_flight record_transition call_routine
  fence_by-settles skipped row f h = h
  fence_by-settles redriven row f h =
      ground (arith, has_id-append row.id row.id f.redriven_ids, beq_refl row.id)
  fence_by-settles credential_gone row f h =
      complete_command-Closed row.id false none (some fail_credential_consumed)
        (env.db_now f.machine.tick) (env.others f.machine.tick f.machine.table)
        (Begun-later row.id f.machine.table (env.others f.machine.tick f.machine.table)
          (bounded f.machine.tick f.machine.table) h)
  fence_by-settles fenced row f h =
      reject_command-Closed row.id reject_boot_fence (env.db_now f.machine.tick)
        (env.others f.machine.tick f.machine.table)
        (Known-later row.id f.machine.table (env.others f.machine.tick f.machine.table)
          (bounded f.machine.tick f.machine.table) h)

  fence_rows-keeps :
      (in_flight : List Text) (rows : List CommandRow) (v : FenceVerdict) (f : Fence) (k : Text)
      → Settled v k f
      → Settled v k (fence_rows env in_flight rows f)
  unfolding fence_rows
  fence_rows-keeps in_flight [] v f k h = h
  fence_rows-keeps in_flight (row ∷ rows) v f k h =
      fence_rows-keeps in_flight rows v (fence_by (fence_verdict in_flight row) env row f) k
        (fence_by-keeps (fence_verdict in_flight row) v row f k h)

  fence_rows-settles :
      (in_flight : List Text) (k : Text) (command : Command) (rows : List CommandRow) (f : Fence)
      → Listed k command rows
      → Ready (fence_verdict in_flight (record { id = k; command = command })) k f.machine.table
      → Settled
          (fence_verdict in_flight (record { id = k; command = command }))
          k
          (fence_rows env in_flight rows f)
  unfolding fence_rows
  fence_rows-settles in_flight k command _ f (first_row rows) ready =
      let row : CommandRow = record { id = k; command = command } in
      let v = fence_verdict in_flight row in
      fence_rows-keeps in_flight rows v (fence_by v env row f) k (fence_by-settles v row f ready)
  fence_rows-settles in_flight k command _ f (later_row row rows there) ready =
      let v = fence_verdict in_flight (record { id = k; command = command }) in
      let w = fence_verdict in_flight row in
      fence_rows-settles in_flight k command rows (fence_by w env row f) there (
        Ready-later v k f.machine.table (fence_by w env row f).machine.table
          (fence_by-OneWayTo env bounded w row f) ready)

  verdict-Ready :
      (in_flight : List Text) (k : Text) (command : Command) (t : Table)
      → get k t ≡ some command
      → is_open command.status ≡ true
      → Ready (fence_verdict in_flight (record { id = k; command = command })) k t
  unfolding fence_verdict
  verdict-Ready in_flight k command t at live = elim (Bool-cases (is_terminal command.status)) [
    | inl final ↦ rw final (command, (at, final))
    | inr lives ↦ rw lives (elim (Bool-cases (is_running command.status && has_id k in_flight)) [
      | inr foreign ↦ rw foreign (command, (at, open_facts command.status live))
      | inl mine ↦ rw mine (elim (Bool-cases (has_credential command.credential_ref)) [
        | inr free ↦ rw free tt
        | inl spent ↦ rw spent (command, (at, running_begun command.status (ground arith)))
      ])
    ])
  ]

pub run_boot_fence-settles :
    (env : Environment) (m : Machine) (k : Text) (command : Command)
    → Bounded env
    → get k (env.others m.tick m.table) ≡ some command
    → is_open command.status ≡ true
    → Settled
        (fence_verdict m.in_flight (record { id = k; command = command }))
        k
        (run_boot_fence env m)
unfolding run_boot_fence open_rows
run_boot_fence-settles env m k command bounded at live =
    fence_rows-settles env bounded m.in_flight k command (list_open (env.others m.tick m.table)) _
      (list_open-Listed k command (env.others m.tick m.table) at live)
      (verdict-Ready env bounded m.in_flight k command (env.others m.tick m.table) at live)
