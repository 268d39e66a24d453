-- ===== src/Ui/SsoGrant/Entries.antt =====
-- `EntryContexts`: the identity that the exchange stamps, until its record is too old.
use hx_fortress.Prelude.{
  ℕ, ◌+◌, ◌≤◌, ◌≡◌, refl, ◌∙◌, inl, inr, Bool, Text, text_eq, List, ◌∷◌, Option, none, some,
  if◌then◌else◌, ltb, arith, get, set, kept_if, IsMap, get-prune, prune-IsMap, set-IsMap, get-set,
  ◌==◌, Bool-cases,
}
use hx_fortress.Ui.SsoGrant.{EntryRecord, sweep_entries, create_entry, read_entry}

abbrev old : ℕ → ℕ → EntryRecord → Bool
old ttl now r = ltb (r.created_at + ttl) now

read-get :
    (ttl c now : ℕ) (cs : Text) (records : List (Text × EntryRecord))
    → IsMap records
    → (read_entry ttl (some (c ∷ cs)) now records).1 ≡ kept_if (old ttl now) (get (c ∷ cs) records)
unfolding read_entry
read-get ttl c now cs records m = get-prune (old ttl now) (c ∷ cs) records m

create-IsMap :
    (ttl now : ℕ) (id sub org : Text) (records : List (Text × EntryRecord))
    → IsMap records
    → IsMap (create_entry ttl id sub org now records).0
unfolding create_entry
create-IsMap ttl now id sub org records m = set-IsMap id _ _ (prune-IsMap (old ttl now) records m)

kept_twice :
    (ttl now later : ℕ) (o : Option EntryRecord)
    → now ≤ later
    → kept_if (old ttl later) (kept_if (old ttl now) o) ≡ kept_if (old ttl later) o
kept_twice ttl now later none le = refl
kept_twice ttl now later (some r) le = ground arith

-- An entry answers with the identity that the exchange gave it, and with its own, for exactly its
-- lifetime and as often as it is read; and making it changes no other entry's answer.
pub entry_lifetime :
    (ttl c d now later : ℕ) (cs ds sub org : Text) (records : List (Text × EntryRecord))
    → IsMap records
    → now ≤ later
    → let (after, r) = create_entry ttl (c ∷ cs) sub org now records in
      ((read_entry ttl (some (c ∷ cs)) later (read_entry ttl (some (c ∷ cs)) later after).0).1
        ≡ (read_entry ttl (some (c ∷ cs)) later after).1)
      × ((r.workbench_sub ≡ sub) × (r.org ≡ org))
      × ((read_entry ttl (some (d ∷ ds)) later after).1 ≡ (
          if (c ∷ cs) == (d ∷ ds)
          then (if ltb (now + ttl) later then none else some r)
          else (read_entry ttl (some (d ∷ ds)) later records).1))
unfolding create_entry read_entry
entry_lifetime ttl c d now later cs ds sub org records m le =
    let r : EntryRecord = record {
      id = c ∷ cs;
      workbench_sub = sub;
      org = org;
      created_at = now;
    } in
    let swept : IsMap (sweep_entries ttl now records) =
      unfold sweep_entries in prune-IsMap (old ttl now) records m in
    let after : IsMap (set (c ∷ cs) r (sweep_entries ttl now records)) =
      set-IsMap (c ∷ cs) r _ swept in
    let stored = set (c ∷ cs) r (sweep_entries ttl now records) in
    let again =
      prune-IsMap (old ttl later) (set (c ∷ cs) r (sweep_entries ttl now records)) after in
    (
      get-prune (old ttl later) (c ∷ cs) _ again
          ∙ rw (get-prune (old ttl later) (c ∷ cs) stored after)
              (kept_twice ttl later later (get (c ∷ cs) stored) (omega arith)),
      (refl, refl),
      get-prune (old ttl later) (d ∷ ds) stored after ∙ (elim (Bool-cases ((c ∷ cs) == (d ∷ ds))) [
        | inl same ↦
            rw (get-set (c ∷ cs) (d ∷ ds) r (sweep_entries ttl now records), same) (ground arith)
        | inr other ↦
            rw
              (
                get-set (c ∷ cs) (d ∷ ds) r (sweep_entries ttl now records),
                other,
                get-prune (old ttl now) (d ∷ ds) records m,
                get-prune (old ttl later) (d ∷ ds) records m,
              )
              (kept_twice ttl now later (get (d ∷ ds) records) le)
      ]),
    )
