-- ===== src/Ui/Lockout/Isolation.antt =====
-- `LockoutTable`: whose failures count against whom, and what clears them.
use hx_fortress.Prelude.{
  ℕ, ◌<◌, ◌≡◌, refl, sym, ◌∙◌, ap, inl, inr, true, false, ◌||◌, Text, text_eq, IsFree,
  append-separator, Option, none, some, if◌then◌else◌, ltb, arith, get, get-set_self, get-set_ne,
  get-delete, ◌==◌, beq_refl, beq_ne, Option-cases,
}
use hx_fortress.Ui.Lockout.{
  FailureRecord, LockoutState, unlocked, LockoutTable, record_key, forgotten_record, state_of,
  state, delay_of, record_failure, record_success, is_clean_principal,
}

-- What `state` answers, as a function of the record that it finds.
abbrev pub consulted : ℕ → ℕ → Option FailureRecord → LockoutState
consulted e now none = unlocked 0
consulted e now (some r) =
    if ltb r.epoch e || forgotten_record now r then unlocked 0 else state_of now r

pub state-consulted :
    (l r : Text) (e now : ℕ) (t : LockoutTable)
    → (state l r e now t).1 ≡ consulted e now (get (record_key l r) t.records)
unfolding state
state-consulted l r e now t = elim (Option-cases (get (record_key l r) t.records)) [
  | inl n ↦ rw (n, state) refl
  | inr (rec, s) ↦ ground (arith, s)
]

pub record_key-injective :
    (l m r s : Text)
    → IsFree b' ' l
    → IsFree b' ' m
    → record_key l r ≡ record_key m s
    → (l ≡ m) × (r ≡ s)
unfolding record_key
record_key-injective l m r s h k e = append-separator b' ' l m r s h k e

record_key-ne :
    (l m r s : Text)
    → IsFree b' ' l
    → IsFree b' ' m
    → ((l ≡ m) × (r ≡ s) → ⊥)
    → (record_key l r == record_key m s) ≡ false
record_key-ne l m r s h k n = beq_ne _ _ λ e. n (record_key-injective l m r s h k e)

state-other :
    (l r : Text) (e now : ℕ) (t : LockoutTable) (key : Text)
    → (record_key l r == key) ≡ false
    → get key (state l r e now t).0.records ≡ get key t.records
unfolding state
state-other l r e now t key h = elim (Option-cases (get (record_key l r) t.records)) [
  | inl n ↦ rw (n, state) refl
  | inr (rec, s) ↦ ground (arith, s, h, get-delete (record_key l r) key t.records)
]

record_failure-other :
    (l r : Text) (e now : ℕ) (t : LockoutTable) (key : Text)
    → (record_key l r == key) ≡ false
    → get key (record_failure l r e now t).0.records ≡ get key t.records
unfolding record_failure
record_failure-other l r e now t key h =
    get-set_ne (record_key l r) key _ (state l r e now t).0.records h
    ∙ state-other l r e now t key h

-- A lockout is never org-wide: neither a failure nor a success of one (login, remote) pair changes
-- what any other pair is told, by its login or by its remote.
pub lockout_isolated :
    (l m r s : Text) (e f now later : ℕ) (t : LockoutTable)
    → IsFree b' ' l
    → IsFree b' ' m
    → ((l ≡ m) × (r ≡ s) → ⊥)
    → ((state m s f later (record_failure l r e now t).0).1 ≡ (state m s f later t).1)
      × ((state m s f later (record_success l r t)).1 ≡ (state m s f later t).1)
unfolding record_success
lockout_isolated l m r s e f now later t h k n =
    let ne : (record_key l r == record_key m s) ≡ false = record_key-ne l m r s h k n in
    (
      state-consulted m s f later (record_failure l r e now t).0
          ∙ ap (consulted f later) (record_failure-other l r e now t (record_key m s) ne)
          ∙ sym (state-consulted m s f later t),
      state-consulted m s f later (record_success l r t)
          ∙ ap (consulted f later)
              (ground (arith, ne, get-delete (record_key l r) (record_key m s) t.records))
          ∙ sym (state-consulted m s f later t),
    )

-- `ui user reset` reaches this table through the epoch: what was recorded under an older one locks
-- nobody, the next failure is the first, and the login counts as clean from every remote.
pub reset_clears :
    (l r s : Text) (e f now later : ℕ) (t : LockoutTable)
    → e < f
    → let u = (record_failure l r e now t).0 in
      ((state l r f later u).1 ≡ unlocked 0)
      × ((record_failure l r f later u).1 ≡ unlocked 1)
      × (is_clean_principal l s later f u ≡ true)
unfolding record_failure is_clean_principal delay_of
reset_clears l r s e f now later t lt = (cleared, rw cleared refl, clean)
  where
    cleared : (state l r f later (record_failure l r e now t).0).1 ≡ unlocked 0
    cleared =
        state-consulted l r f later (record_failure l r e now t).0
        ∙ rw (get-set_self (record_key l r) _ (state l r e now t).0.records) (ground arith)

    clean : is_clean_principal l s later f (record_failure l r e now t).0 ≡ true
    clean = ground (
      arith,
      get-set_self l (record { seen_at = now; epoch = e }) (state l r e now t).0.recent_by_login,
    )

-- A proven password ends the lockout of its pair, and the login's memory for every remote.
pub success_clears :
    (l r s : Text) (e now : ℕ) (t : LockoutTable)
    → ((state l r e now (record_success l r t)).1 ≡ unlocked 0)
      × (is_clean_principal l s now e (record_success l r t) ≡ true)
unfolding record_success is_clean_principal
success_clears l r s e now t = (
  state-consulted l r e now (record_success l r t)
      ∙ ground (
        arith,
        get-delete (record_key l r) (record_key l r) t.records,
        beq_refl (record_key l r),
      ),
  ground (arith, get-delete l l t.recent_by_login, beq_refl l),
)
