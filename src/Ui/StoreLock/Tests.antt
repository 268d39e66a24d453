-- ===== src/Ui/StoreLock/Tests.antt =====
-- A store of one document, its update and its lock, and the theorems at them.
use hx_fortress.Prelude.{
  ℕ, zero, suc, ◌*◌, ◌≡◌, refl, inl, inr, true, not, Option, none, some, [], ◌∷◌, arith,
  if◌then◌else◌, Option-cases, nat_eq, Text, codes, text_eq,
}
use hx_fortress.Ui.StoreLock.{
  LockOwner, LockReclaim, unreadable_lock, reclaimable_lock, Turn, acquire, Document, missing,
  holds, read_ok, version_of, written, refused_update, store_locked, store_corrupt, mutate_threw,
  Surroundings, read, doc_of, is_corrupt, next_version, attempt, attempts, update,
}
use hx_fortress.Ui.StoreLock.Updating.{Confirmed, update_follows_read, update_alone}
use hx_fortress.Ui.StoreLock.Waiting.{reclaim_spins}

-- A codec for the tests.
abbrev toy_print : Document → Text
toy_print d = elim d.version [ none ↦ 0 ∷ d.body | some v ↦ 1 ∷ v ∷ d.body ]

abbrev toy_parse : Text → Option Document
toy_parse (zero ∷ body) = some (record { version = none; body = body })
toy_parse (suc tag ∷ v ∷ body) = some (record { version = some v; body = body })
toy_parse _ = none

toy_codec : (d : Document) → toy_parse (toy_print d) ≡ some d
toy_codec d = elim (Option-cases d.version) [
  | inl old ↦ ground arith
  | inr (v, versioned) ↦ ground arith
]

abbrev appending : Surroundings
appending = record {
  lock_got = λ n. true;
  others = λ n d. d;
  parse = toy_parse;
  print = toy_print;
  mutate = λ d. elim d [
    | none ↦ some (record { version = none; body = 7 ∷ [] })
    | some found ↦ some (record found { body = 7 ∷ found.body })
  ];
}

first_write :
    update appending missing
    ≡ (holds (1 ∷ 1 ∷ 7 ∷ []), written (record { version = some 1; body = 7 ∷ [] }))
unfolding update attempts attempt read version_of
first_write = refl

update_follows_read_example :
    Confirmed appending 5 0 missing
      (record { version = some 1; body = 7 ∷ [] })
      (holds (1 ∷ 1 ∷ 7 ∷ []))
    × (read appending (holds (1 ∷ 1 ∷ 7 ∷ []))
        ≡ read_ok (record { version = some 1; body = 7 ∷ [] }))
update_follows_read_example =
    update_follows_read appending missing (holds (1 ∷ 1 ∷ 7 ∷ []))
      (record { version = some 1; body = 7 ∷ [] }) toy_codec first_write

update_alone_example : update appending (holds (0 ∷ [])) ≡ (
    if not (appending.lock_got 0)
    then (holds (0 ∷ []), refused_update store_locked)
    else if is_corrupt (read appending (holds (0 ∷ [])))
    then (holds (0 ∷ []), refused_update store_corrupt)
    else elim (appending.mutate (doc_of (read appending (holds (0 ∷ []))))) [
      | none ↦ (holds (0 ∷ []), refused_update mutate_threw)
      | some next ↦ (
        holds (
            appending.print
              (next_version (version_of (doc_of (read appending (holds (0 ∷ []))))) next)),
        written (next_version (version_of (doc_of (read appending (holds (0 ∷ []))))) next),
      )
    ])
update_alone_example = update_alone appending (holds (0 ∷ [])) (λ n d. refl)

abbrev writer : LockOwner
writer = record { pid = 40; boot_id = codes "b2"; at = codes "t" }

-- A lock file of no owner, which stays where it is.
abbrev stuck : ℕ → Turn
stuck n = record {
  exists = true;
  held = some (record { owner = none; mtime_ms = 0 });
  alive = λ pid. true;
  now = n * 25;
}

stuck_reclaimed :
    (m : ℕ)
    → (r : LockReclaim) × (reclaimable_lock
          (codes "b1")
          (stuck m).alive
          (stuck m).now
          (stuck m).held
        ≡ some r)
unfolding reclaimable_lock
stuck_reclaimed m = (record { owner = none; reason = unreadable_lock }, refl)

reclaim_spins_example : acquire (codes "b1") stuck 5_000 1_000_000 0 ≡ none
reclaim_spins_example =
    reclaim_spins (codes "b1") stuck 5_000 1_000_000 0 (λ m. refl) stuck_reclaimed
