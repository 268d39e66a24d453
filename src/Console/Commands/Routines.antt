-- ===== src/Console/Commands/Routines.antt =====
-- src/host/postgres/console-plane.ts, the routines of the command table: rows move one way.
use hx_fortress.Prelude.{
  text_beq_iff, ℕ, ◌≡◌, refl, sym, ap, subst, ◌∙◌, ◌⊎◌, inl, inr, Bool, true, false, ◌&&◌, Option,
  some, List, [], ◌∷◌, arith, if◌then◌else◌, Bool-cases, Option-cases, ◌==◌, nat_eq, Text, text_eq,
  get, get-set,
}
use hx_fortress.Console.Commands.{
  Status, requested, running, done, failed, rejected, other, Command, Table, is_terminal, is_open,
  is_running, update_where, claimable_at, claimable, claim_command, completed_status,
  complete_command, reject_command,
}

abbrev pub is_known : Status → Bool
is_known (other text) = false
is_known _ = true

-- Running, or past that.
abbrev pub is_begun : Status → Bool
is_begun requested = false
is_begun (other text) = false
is_begun _ = true

-- What a row may have become: an open row keeps a status of the five, and is not requested again once
-- it was running; otherwise it is as it was.
abbrev pub Later : Command → Command → Type 0
Later row after =
    ((is_open row.status ≡ true)
      × (is_known after.status ≡ true)
      × ((is_running row.status ≡ false) ⊎ (is_begun after.status ≡ true)))
    ⊎ (after ≡ row)

-- A change of the table that loses no row and moves rows one way.
abbrev pub OneWayTo : Table → Table → Type 0
OneWayTo t u =
    (k : Text) (row : Command)
    → get k t ≡ some row
    → (after : Command) × ((get k u ≡ some after) × Later row after)

open_begun : (s : Status) → is_open s ≡ true → is_begun s ≡ true → is_running s ≡ true
open_begun running h k = refl
open_begun requested h k = ground arith
open_begun done h k = ground arith
open_begun failed h k = ground arith
open_begun rejected h k = ground arith
open_begun (other text) h k = ground arith

Later-trans : (a b c : Command) → Later a b → Later b c → Later a c
Later-trans a b c h (inr same) = subst (Later a) (sym same) h
Later-trans a b c (inr same) k = subst (λ row. Later row c) same k
Later-trans a b c (inl (live, known, inl waiting)) (inl (live2, known2, next)) =
    inl (live, known2, inl waiting)
Later-trans a b c (inl (live, known, inr begun)) (inl (live2, known2, next)) =
    inl (live, known2, inr (ground (arith, open_begun b.status live2 begun)))

pub OneWayTo-refl : (t : Table) → OneWayTo t t
OneWayTo-refl t k row h = (row, (h, inr refl))

pub OneWayTo-trans : (t u v : Table) → OneWayTo t u → OneWayTo u v → OneWayTo t v
OneWayTo-trans t u v f g k row h =
    let first = f k row h in
    let next = g k first.0 first.1.0 in
    (next.0, (next.1.0, Later-trans row first.0 next.0 first.1.1 next.1.1))

pub get-update_where :
    (eligible : Command → Bool) (change : Command → Command) (id k : Text) (table : Table)
    (row : Command)
    → get k table ≡ some row
    → get k (update_where eligible change id table).0
      ≡ some (if (id == k) && eligible row then change row else row)
unfolding update_where
get-update_where eligible change id k table row h = elim (Bool-cases (id == k)) [
  | inl same ↦
      let e : id ≡ k = (text_beq_iff id k).0 same in
      let at : get id table ≡ some row = ap (λ i. get i table) e ∙ h in
      ground (arith, get-set id k (change row) table)
  | inr apart ↦ elim (Option-cases (get id table)) [
    | inl missing ↦ ground arith
    | inr (x, found) ↦ ground (arith, get-set id k (change x) table)
  ]
]

eligible-Later :
    (eligible : Command → Bool) (change : Command → Command) (row : Command) (mine : Bool)
    → Later row (if eligible row then change row else row)
    → Later row (if mine && eligible row then change row else row)
eligible-Later eligible change row true h = h
eligible-Later eligible change row false h = inr refl

-- An update that moves eligible rows one way moves the table one way.
update_where-OneWayTo :
    (eligible : Command → Bool) (change : Command → Command) (id : Text) (table : Table)
    → ((row : Command) → Later row (if eligible row then change row else row))
    → OneWayTo table (update_where eligible change id table).0
update_where-OneWayTo eligible change id table moves k row h = (
  (if (id == k) && eligible row then change row else row),
  (
    get-update_where eligible change id k table row h,
    eligible-Later eligible change row (id == k) (moves row),
  ),
)

begun_known : (s : Status) → is_begun s ≡ true → is_known s ≡ true
begun_known requested h = ground arith
begun_known running h = refl
begun_known done h = refl
begun_known failed h = refl
begun_known rejected h = refl
begun_known (other text) h = ground arith

begun-Later :
    (row changed : Command) (eligible : Bool)
    → (eligible ≡ false) ⊎ (is_open row.status ≡ true)
    → is_begun changed.status ≡ true
    → Later row (if eligible then changed else row)
begun-Later row changed false h begun = inr refl
begun-Later row changed true (inl shut) begun = absurd (ground arith)
begun-Later row changed true (inr live) begun =
    inl (live, begun_known changed.status begun, inr begun)

claimable-open :
    (s : Status) (redrive : Bool) (at now : ℕ)
    → (claimable_at s redrive at now ≡ false) ⊎ (is_open s ≡ true)
claimable-open requested redrive at now = inr refl
claimable-open running redrive at now = inr refl
claimable-open done redrive at now = inl refl
claimable-open failed redrive at now = inl refl
claimable-open rejected redrive at now = inl refl
claimable-open (other text) redrive at now = inl refl

running-open : (s : Status) → (is_running s ≡ false) ⊎ (is_open s ≡ true)
running-open running = inr refl
running-open requested = inl refl
running-open done = inl refl
running-open failed = inl refl
running-open rejected = inl refl
running-open (other text) = inl refl

open-open : (s : Status) → (is_open s ≡ false) ⊎ (is_open s ≡ true)
open-open s = ground arith

completed_status-begun : (well : Bool) → is_begun (completed_status well) ≡ true
completed_status-begun true = refl
completed_status-begun false = refl

pub claim_command-OneWayTo :
    (id by : Text) (redrive : Bool) (now : ℕ) (table : Table)
    → OneWayTo table (claim_command id by redrive now table).0
unfolding claim_command
claim_command-OneWayTo id by redrive now table =
    update_where-OneWayTo (claimable redrive now) _ id table (λ row.
      begun-Later row _ (claimable redrive now row)
        (claimable-open row.status redrive row.requested_at now) refl)

pub complete_command-OneWayTo :
    (id : Text) (well : Bool) (outcome error : Option Text) (now : ℕ) (table : Table)
    → OneWayTo table (complete_command id well outcome error now table).0
unfolding complete_command
complete_command-OneWayTo id well outcome error now table =
    update_where-OneWayTo (λ row. is_running row.status) _ id table
      (λ row.
        begun-Later row _ (is_running row.status) (running-open row.status)
          (completed_status-begun well))

pub reject_command-OneWayTo :
    (id reason : Text) (now : ℕ) (table : Table)
    → OneWayTo table (reject_command id reason now table).0
unfolding reject_command
reject_command-OneWayTo id reason now table =
    update_where-OneWayTo (λ row. is_open row.status) _ id table
      (λ row. begun-Later row _ (is_open row.status) (open-open row.status) refl)

-- The routines, with the arguments that any caller may give them.
pub data Routine : Type 0 where
  claim : Text → Text → Bool → ℕ → Routine
  complete : Text → Bool → Option Text → Option Text → ℕ → Routine
  reject : Text → Text → ℕ → Routine

abbrev pub target : Routine → Text
target (claim id by redrive now) = id
target (complete id well outcome error now) = id
target (reject id reason now) = id

abbrev pub routine : Routine → Table → Table × Bool
routine (claim id by redrive now) table = claim_command id by redrive now table
routine (complete id well outcome error now) table =
    complete_command id well outcome error now table
routine (reject id reason now) table = reject_command id reason now table

abbrev pub run_routines : List Routine → Table → Table
run_routines [] table = table
run_routines (r ∷ rs) table = run_routines rs (routine r table).0

routine-OneWayTo : (r : Routine) (table : Table) → OneWayTo table (routine r table).0
routine-OneWayTo (claim id by redrive now) table = claim_command-OneWayTo id by redrive now table
routine-OneWayTo (complete id well outcome error now) table =
    complete_command-OneWayTo id well outcome error now table
routine-OneWayTo (reject id reason now) table = reject_command-OneWayTo id reason now table

routines-OneWayTo : (rs : List Routine) (table : Table) → OneWayTo table (run_routines rs table)
routines-OneWayTo [] table = OneWayTo-refl table
routines-OneWayTo (r ∷ rs) table =
    OneWayTo-trans table (routine r table).0 (run_routines rs (routine r table).0)
      (routine-OneWayTo r table) (routines-OneWayTo rs (routine r table).0)

-- Whatever routines are called, by whomever, with whatever arguments and in whatever order: no row is
-- lost, an open row keeps a status of the five and is not requested again once it was running, and
-- every other row, a terminal one above all, is as it was in each of its columns.
pub rows_move_one_way :
    (rs : List Routine) (table : Table) (k : Text) (row : Command)
    → get k table ≡ some row
    → (after : Command) × ((get k (run_routines rs table) ≡ some after) × Later row after)
rows_move_one_way rs table k row at = routines-OneWayTo rs table k row at

terminal_shut :
    (s : Status)
    → is_terminal s ≡ true
    → (is_open s ≡ false)
      × (is_running s ≡ false)
      × ((redrive : Bool) (at now : ℕ) → claimable_at s redrive at now ≡ false)
unfolding is_terminal
terminal_shut requested h = ground arith
terminal_shut running h = ground arith
terminal_shut done h = (refl, refl, λ redrive at now. refl)
terminal_shut failed h = (refl, refl, λ redrive at now. refl)
terminal_shut rejected h = (refl, refl, λ redrive at now. refl)
terminal_shut (other text) h = ground arith

update_where-refuses :
    (eligible : Command → Bool) (change : Command → Command) (id : Text) (table : Table)
    (row : Command)
    → get id table ≡ some row
    → eligible row ≡ false
    → update_where eligible change id table ≡ (table, false)
unfolding update_where
update_where-refuses eligible change id table row h shut = ground arith

-- A routine that names a terminal row answers false and leaves the table as it was.
pub terminal_row_refused :
    (r : Routine) (table : Table) (row : Command)
    → get (target r) table ≡ some row
    → is_terminal row.status ≡ true
    → routine r table ≡ (table, false)
unfolding claim_command complete_command reject_command
terminal_row_refused (claim id by redrive now) table row h final =
    update_where-refuses _ _ id table row h
      ((terminal_shut row.status final).2 redrive row.requested_at now)
terminal_row_refused (complete id well outcome error now) table row h final =
    update_where-refuses _ _ id table row h (terminal_shut row.status final).1
terminal_row_refused (reject id reason now) table row h final =
    update_where-refuses _ _ id table row h (terminal_shut row.status final).0
