-- ===== src/Console/Commands/Outcome.antt =====
-- src/console/commands.ts, `runBootFence`: what the fence answers, and what stands when it is through.
use hx_fortress.Prelude.{
  ◌≡◌, refl, subst, ◌⊎◌, inl, inr, Bool, true, false, ◌&&◌, not, some, List, [], ◌∷◌, arith,
  if◌then◌else◌, Bool-cases, ◌==◌, nat_eq, any, Text, text_eq, get,
}
use hx_fortress.Prelude.{text_beq_iff}
use hx_fortress.Console.Commands.{
  is_open, is_running, CommandRow, Command, Environment, Machine, has_id, has_credential,
}
use hx_fortress.Console.Commands.Boot.{
  FenceVerdict, skipped, redriven, credential_gone, fenced, fence_verdict, Fence, fence_by,
  fence_rows, open_rows, run_boot_fence,
}
use hx_fortress.Console.Commands.Fencing.{Bounded, Closed, open_lives}
use hx_fortress.Console.Commands.Fenced.{Settled, has_id-append, run_boot_fence-settles}

-- A running command of the in-flight file, with no credential that could be gone.
abbrev pub is_own : List Text → Text → Command → Bool
is_own in_flight k command =
    is_running command.status && (has_id k in_flight && not (has_credential command.credential_ref))

own_verdict :
    (in_flight : List Text) (k : Text) (command : Command)
    → is_open command.status ≡ true
    → is_own in_flight k command ≡ true
    → fence_verdict in_flight (record { id = k; command = command }) ≡ redriven
unfolding fence_verdict
own_verdict in_flight k command live own = ground (arith, open_lives command.status live)

foreign_verdict :
    (in_flight : List Text) (k : Text) (command : Command)
    → is_open command.status ≡ true
    → is_own in_flight k command ≡ false
    → (fence_verdict in_flight (record { id = k; command = command }) ≡ credential_gone)
      ⊎ (fence_verdict in_flight (record { id = k; command = command }) ≡ fenced)
unfolding fence_verdict
foreign_verdict in_flight k command live own = ground (arith, open_lives command.status live)

-- Boot's fence is through, the other principals having called routines and inserted rows between any
-- two of its own calls. Each row that was open when the fence read the table is named among the ids
-- to be driven again if it was running, is in the in-flight file and has no credential reference; in
-- every other case it stands in the table with a terminal status.
pub fence_settles_open_rows :
    (env : Environment) (m : Machine) (k : Text) (command : Command)
    → Bounded env
    → get k (env.others m.tick m.table) ≡ some command
    → is_open command.status ≡ true
    → (if is_own m.in_flight k command
        then has_id k (run_boot_fence env m).redriven_ids ≡ true
        else Closed k (run_boot_fence env m).machine.table)
fence_settles_open_rows env m k command bounded at live =
    let settled = run_boot_fence-settles env m k command bounded at live in
    elim (Bool-cases (is_own m.in_flight k command)) [
      | inl own ↦ rw own (
          subst (λ v. Settled v k (run_boot_fence env m))
            (own_verdict m.in_flight k command live own) settled)
      | inr foreign ↦ rw foreign (elim (foreign_verdict m.in_flight k command live foreign) [
        | inl gone ↦ subst (λ v. Settled v k (run_boot_fence env m)) gone settled
        | inr shut ↦ subst (λ v. Settled v k (run_boot_fence env m)) shut settled
      ])
    ]

fence_verdict-redriven :
    (in_flight : List Text) (row : CommandRow)
    → fence_verdict in_flight row ≡ redriven
    → (is_running row.command.status ≡ true)
      × (has_id row.id in_flight ≡ true)
      × (has_credential row.command.credential_ref ≡ false)
unfolding fence_verdict
fence_verdict-redriven in_flight row h = ground arith

-- One row adds at most its own id, and only by the branch that redrives it.
fence_by-redriven :
    (env : Environment) (v : FenceVerdict) (row : CommandRow) (f : Fence) (k : Text)
    → has_id k (fence_by v env row f).redriven_ids ≡ true
    → (has_id k f.redriven_ids ≡ true) ⊎ ((v ≡ redriven) × (row.id ≡ k))
fence_by-redriven env skipped row f k h = inl h
fence_by-redriven env credential_gone row f k h = inl h
fence_by-redriven env fenced row f k h = inl h
fence_by-redriven env redriven row f k h = elim (Bool-cases (row.id == k)) [
  | inl same ↦ inr (refl, (text_beq_iff row.id k).0 same)
  | inr apart ↦ inl (ground (arith, has_id-append k row.id f.redriven_ids))
]

fence_rows-redriven :
    (env : Environment) (in_flight : List Text) (rows : List CommandRow) (f : Fence) (k : Text)
    → has_id k (fence_rows env in_flight rows f).redriven_ids ≡ true
    → (has_id k f.redriven_ids ≡ true) ⊎ (has_id k in_flight ≡ true)
unfolding fence_rows
fence_rows-redriven env in_flight [] f k h = inl h
fence_rows-redriven env in_flight (row ∷ rows) f k h =
    elim (fence_rows-redriven env in_flight rows (fence_by (fence_verdict in_flight row) env row f)
      k h) [
        | inr mine ↦ inr mine
        | inl there ↦ elim (fence_by-redriven env (fence_verdict in_flight row) row f k there) [
          | inl before ↦ inl before
          | inr (by, own) ↦
              let facts = fence_verdict-redriven in_flight row by in
              inr (subst (λ i. has_id i in_flight ≡ true) own facts.1)
        ]
      ]

no_ids : (k : Text) → has_id k [] ≡ true → ⊥
unfolding has_id any
no_ids k h = ground arith

-- Whatever stands in the table, and whatever the other principals do to it meanwhile, an id that the
-- fence names to be driven again is one of the daemon's own in-flight file.
pub redriven_is_own :
    (env : Environment) (m : Machine) (k : Text)
    → has_id k (run_boot_fence env m).redriven_ids ≡ true
    → has_id k m.in_flight ≡ true
unfolding run_boot_fence
redriven_is_own env m k h = elim (fence_rows-redriven env m.in_flight (open_rows env m) _ k h) [
  | inl nowhere ↦ absurd (no_ids k nowhere)
  | inr mine ↦ mine
]
