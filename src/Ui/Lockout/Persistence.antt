-- ===== src/Ui/Lockout/Persistence.antt =====
-- `LockoutTable`: what a sweep and a restart keep.
use hx_fortress.Prelude.{
  ℕ, ◌≤◌, ◌≡◌, refl, sym, ◌∙◌, ap, Text, text_eq, List, [], ◌∷◌, Option, none, some, if◌then◌else◌,
  arith, get, kept_if, IsMap, get-set, get-prune, text_beq_iff,
}
use hx_fortress.Ui.Lockout.{
  FailureRecord, LockoutTable, record_key, forgotten, forgotten_record, forgotten_login, state,
  is_clean, is_clean_principal, sweep, snapshot, hydrate, hydrate_entry, empty_table,
}
use hx_fortress.Ui.Lockout.Isolation.{consulted, state-consulted}

-- The three maps of the table hold no key twice.
pub record IsTable (t : LockoutTable) : Type 0 where
  pub records_map : IsMap t.records
  pub remotes_map : IsMap t.recent_by_remote
  pub logins_map : IsMap t.recent_by_login

consulted-kept :
    (e now later : ℕ) (o : Option FailureRecord)
    → now ≤ later
    → consulted e later (kept_if (forgotten_record now) o) ≡ consulted e later o
consulted-kept e now later none le = refl
consulted-kept e now later (some r) le = ground arith

-- A sweep is unseen: every later question about a pair, a remote or a principal has the answer that
-- it would have had without it.
pub sweep_unseen :
    (l r : Text) (e now later : ℕ) (t : LockoutTable)
    → IsTable t
    → now ≤ later
    → ((state l r e later (sweep now t).0).1 ≡ (state l r e later t).1)
      × (is_clean r later (sweep now t).0 ≡ is_clean r later t)
      × (is_clean_principal l r later e (sweep now t).0 ≡ is_clean_principal l r later e t)
unfolding sweep is_clean_principal
sweep_unseen l r e now later t v le = (
  state-consulted l r e later (sweep now t).0
      ∙ ap (consulted e later)
          (get-prune (forgotten_record now) (record_key l r) t.records v.records_map)
      ∙ consulted-kept e now later (get (record_key l r) t.records) le
      ∙ sym (state-consulted l r e later t),
  clean,
  ground (arith, clean, get-prune (forgotten_login now) l t.recent_by_login v.logins_map),
)
  where
    clean : is_clean r later (sweep now t).0 ≡ is_clean r later t
    clean = ground (arith, get-prune (forgotten now) r t.recent_by_remote v.remotes_map)

-- Which record a restart at `now` brings back for a key.
hydrate-get :
    (key : Text) (now : ℕ) (es : List (Text × FailureRecord)) (t : LockoutTable)
    → IsMap es
    → get key (hydrate now es t).records ≡ elim (get key es) [
      | none ↦ get key t.records
      | some r ↦ if forgotten_record now r then get key t.records else some r
    ]
unfolding hydrate get hydrate_entry
hydrate-get key now [] t m = refl
hydrate-get key now ((k, r) ∷ es) t m = ground (
  arith,
  hydrate-get key now es (hydrate_entry now t (k, r)) m.1,
  get-set k key r t.records,
  text_beq_iff k key,
)

hydrate-kept :
    (key : Text) (now : ℕ) (es : List (Text × FailureRecord))
    → IsMap es
    → get key (hydrate now es empty_table).records ≡ kept_if (forgotten_record now) (get key es)
unfolding empty_table get
hydrate-kept key now es m = ground (arith, hydrate-get key now es empty_table m)

-- A restart hands nobody a clean slate: with the snapshot taken back, every later question about a
-- pair has the answer that it would have had without the restart.
pub restart_keeps_state :
    (l r : Text) (e now later : ℕ) (t : LockoutTable)
    → IsMap t.records
    → now ≤ later
    → (state l r e later (hydrate now (snapshot t) empty_table)).1 ≡ (state l r e later t).1
unfolding empty_table get
restart_keeps_state l r e now later t m le =
    state-consulted l r e later (hydrate now (snapshot t) empty_table)
    ∙ ap (consulted e later) (hydrate-kept (record_key l r) now t.records m)
    ∙ consulted-kept e now later (get (record_key l r) t.records) le
    ∙ sym (state-consulted l r e later t)
