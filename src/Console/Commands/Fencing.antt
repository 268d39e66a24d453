-- ===== src/Console/Commands/Fencing.antt =====
-- src/console/commands.ts, `runBootFence`: no row that boot finds open is left open, but for those of
-- the daemon's own in-flight file.
use hx_fortress.Prelude.{
  text_beq_iff, ℕ, ◌≡◌, refl, sym, ap, subst, ◌∙◌, ◌⊎◌, inl, inr, Bool, true, false, ◌&&◌, Option,
  some, List, [], ◌∷◌, arith, leb, if◌then◌else◌, Bool-cases, ◌==◌, nat_eq, beq_refl, Text, text_eq,
  get,
}
use hx_fortress.Console.Commands.{
  is_terminal, is_open, is_running, Status, Command, CommandRow, Table, update_where,
  complete_command, reject_command, insert_row, list_open, Environment, requested, running, done,
  failed, rejected, other, completed_status,
}
use hx_fortress.Console.Commands.Routines.{is_known, is_begun, Later, OneWayTo, get-update_where}

-- The other principals can call the routines and insert rows: they move rows one way and lose none.
abbrev pub Bounded : Environment → Type 0
Bounded env = (n : ℕ) (t : Table) → OneWayTo t (env.others n t)

-- The row of this key is there, with a status that passes a test.
abbrev pub Stands : (Status → Bool) → Text → Table → Type 0
Stands test k t = (row : Command) × ((get k t ≡ some row) × (test row.status ≡ true))

abbrev pub Closed : Text → Table → Type 0
Closed k t = Stands is_terminal k t

pub running_begun : (s : Status) → is_running s ≡ true → is_begun s ≡ true
running_begun running h = refl
running_begun requested h = ground arith
running_begun done h = ground arith
running_begun failed h = ground arith
running_begun rejected h = ground arith
running_begun (other text) h = ground arith

terminal_facts :
    (s : Status)
    → is_terminal s ≡ true
    → (is_open s ≡ false) × (is_begun s ≡ true) × (is_known s ≡ true)
unfolding is_terminal
terminal_facts requested h = ground arith
terminal_facts running h = ground arith
terminal_facts done h = (refl, refl, refl)
terminal_facts failed h = (refl, refl, refl)
terminal_facts rejected h = (refl, refl, refl)
terminal_facts (other text) h = ground arith

pub open_lives : (s : Status) → is_open s ≡ true → is_terminal s ≡ false
unfolding is_terminal
open_lives requested h = refl
open_lives running h = refl
open_lives done h = ground arith
open_lives failed h = ground arith
open_lives rejected h = ground arith
open_lives (other text) h = ground arith

pub open_facts : (s : Status) → is_open s ≡ true → is_known s ≡ true
open_facts requested h = refl
open_facts running h = refl
open_facts done h = ground arith
open_facts failed h = ground arith
open_facts rejected h = ground arith
open_facts (other text) h = ground arith

begun_facts : (s : Status) → is_begun s ≡ true → (is_running s ≡ true) ⊎ (is_terminal s ≡ true)
unfolding is_terminal
begun_facts requested h = ground arith
begun_facts running h = inl refl
begun_facts done h = inr refl
begun_facts failed h = inr refl
begun_facts rejected h = inr refl
begun_facts (other text) h = ground arith

known_facts : (s : Status) → is_known s ≡ true → (is_open s ≡ true) ⊎ (is_terminal s ≡ true)
unfolding is_terminal
known_facts requested h = inl refl
known_facts running h = inl refl
known_facts done h = inr refl
known_facts failed h = inr refl
known_facts rejected h = inr refl
known_facts (other text) h = ground arith

pub Closed-later : (k : Text) (t u : Table) → OneWayTo t u → Closed k t → Closed k u
Closed-later k t u f (row, (at, final)) = later_closed row (f k row at).0 k u final (f k row at).1
  where
    later_closed :
        (row after : Command) (k : Text) (u : Table)
        → is_terminal row.status ≡ true
        → (get k u ≡ some after) × Later row after
        → Closed k u
    later_closed row after k u final (at, inr same) =
        (after, (at, ap (λ r. is_terminal r.status) same ∙ final))
    later_closed row after k u final (at, inl (live, _, _)) =
        absurd (ground (arith, (terminal_facts row.status final).0))

pub Known-later :
    (k : Text) (t u : Table) → OneWayTo t u → Stands is_known k t → Stands is_known k u
Known-later k t u f (row, (at, known)) = later_known row (f k row at).0 k u known (f k row at).1
  where
    later_known :
        (row after : Command) (k : Text) (u : Table)
        → is_known row.status ≡ true
        → (get k u ≡ some after) × Later row after
        → Stands is_known k u
    later_known row after k u known (at, inr same) =
        (after, (at, ap (λ r. is_known r.status) same ∙ known))
    later_known row after k u known (at, inl (live, still, _)) = (after, (at, still))

pub Begun-later :
    (k : Text) (t u : Table) → OneWayTo t u → Stands is_begun k t → Stands is_begun k u
Begun-later k t u f (row, (at, begun)) = later_begun row (f k row at).0 k u begun (f k row at).1
  where
    later_begun :
        (row after : Command) (k : Text) (u : Table)
        → is_begun row.status ≡ true
        → (get k u ≡ some after) × Later row after
        → Stands is_begun k u
    later_begun row after k u begun (at, inr same) =
        (after, (at, ap (λ r. is_begun r.status) same ∙ begun))
    later_begun row after k u begun (at, inl (live, known, inr still)) = (after, (at, still))
    later_begun row after k u begun (at, inl (live, known, inl idle)) =
        elim (begun_facts row.status begun) [
          | inl runs ↦ absurd (ground arith)
          | inr final ↦ absurd (ground (arith, (terminal_facts row.status final).0))
        ]

update_where-Closed :
    (eligible : Command → Bool) (change : Command → Command) (k : Text) (t : Table) (row : Command)
    → get k t ≡ some row
    → (eligible row ≡ true) ⊎ (is_terminal row.status ≡ true)
    → is_terminal (change row).status ≡ true
    → Closed k (update_where eligible change k t).0
update_where-Closed eligible change k t row at h final = (
  (if (k == k) && eligible row then change row else row),
  (
    get-update_where eligible change k k t row at,
    closed_either (eligible row) row (change row) (k == k) (beq_refl k) h final,
  ),
)
  where
    closed_either :
        (e : Bool) (row changed : Command) (mine : Bool)
        → mine ≡ true
        → (e ≡ true) ⊎ (is_terminal row.status ≡ true)
        → is_terminal changed.status ≡ true
        → is_terminal (if mine && e then changed else row).status ≡ true
    closed_either true row changed true m h final = final
    closed_either false row changed true m (inl shut) final = absurd (ground arith)
    closed_either false row changed true m (inr already) final = already
    closed_either e row changed false m h final = absurd (ground arith)

completed_status-final : (well : Bool) → is_terminal (completed_status well) ≡ true
unfolding is_terminal
completed_status-final true = refl
completed_status-final false = refl

pub reject_command-Closed :
    (k reason : Text) (now : ℕ) (t : Table)
    → Stands is_known k t
    → Closed k (reject_command k reason now t).0
unfolding reject_command is_terminal
reject_command-Closed k reason now t (row, (at, known)) =
    update_where-Closed _ _ k t row at (known_facts row.status known) refl

pub complete_command-Closed :
    (k : Text) (well : Bool) (outcome error : Option Text) (now : ℕ) (t : Table)
    → Stands is_begun k t
    → Closed k (complete_command k well outcome error now t).0
unfolding complete_command
complete_command-Closed k well outcome error now t (row, (at, begun)) =
    update_where-Closed _ _ k t row at (begun_facts row.status begun) (completed_status-final well)

-- A row of this key and these columns is in the list.
pub data Listed (k : Text) (command : Command) : List CommandRow → Type 0 where
  first_row :
      (rows : List CommandRow) → Listed k command (record { id = k; command = command } ∷ rows)
  later_row :
      (row : CommandRow) (rows : List CommandRow)
      → Listed k command rows
      → Listed k command (row ∷ rows)

behind_first :
    (k : Text) (command : Command) (row first : CommandRow) (rows inserted : List CommandRow)
    → (Listed k command (row ∷ rows) → Listed k command inserted)
    → Listed k command (row ∷ first ∷ rows)
    → Listed k command (first ∷ inserted)
behind_first k command row first rows inserted inner (first_row _) =
    later_row first inserted (inner (first_row rows))
behind_first k command row first rows inserted inner (later_row _ _ (first_row _)) =
    first_row inserted
behind_first k command row first rows inserted inner (later_row _ _ (later_row _ _ there)) =
    later_row first inserted (inner (later_row row rows there))

insert_row-Listed :
    (k : Text) (command : Command) (row : CommandRow) (rows : List CommandRow)
    → Listed k command (row ∷ rows)
    → Listed k command (insert_row row rows)
unfolding insert_row
insert_row-Listed k command row [] h = h
insert_row-Listed k command row (first ∷ rows) h =
    elim (Bool-cases (leb first.command.requested_at row.command.requested_at)) [
      | inr before ↦ rw before h
      | inl behind ↦ rw behind (
          behind_first k command row first rows (insert_row row rows)
            (insert_row-Listed k command row rows) h)
    ]

own_entry :
    (k j : Text) (command c : Command)
    → (j == k) ≡ true
    → c ≡ command
    → (rows : List CommandRow) → Listed k command (record { id = j; command = c } ∷ rows)
own_entry k j command c same e rows =
    let keys : j ≡ k = (text_beq_iff j k).0 same in
    subst (λ r. Listed k command (r ∷ rows))
      (sym (
        ap (λ i. record { id = i; command = c }) keys ∙ ap (λ d. record { id = k; command = d }) e))
      (first_row rows)

-- The query lists every open row.
pub list_open-Listed :
    (k : Text) (command : Command) (t : Table)
    → get k t ≡ some command
    → is_open command.status ≡ true
    → Listed k command (list_open t)
unfolding list_open get
list_open-Listed k command [] h live = absurd (cc)
list_open-Listed k command ((j, c) ∷ t) h live = elim (Bool-cases (j == k)) [
  | inl same ↦
      let e : c ≡ command = cc (rw same at h) in
      let opened : is_open c.status ≡ true = ap (λ d. is_open d.status) e ∙ live in
      rw opened (
        insert_row-Listed k command (record { id = j; command = c }) (list_open t)
          (own_entry k j command c same e (list_open t)))
  | inr apart ↦
      let rest = list_open-Listed k command t (rw apart at h) live in
      elim (Bool-cases (is_open c.status)) [
        | inr shut ↦ rw shut rest
        | inl opened ↦ rw opened (
            insert_row-Listed k command (record { id = j; command = c }) (list_open t)
              (later_row (record { id = j; command = c }) (list_open t) rest))
      ]
]
