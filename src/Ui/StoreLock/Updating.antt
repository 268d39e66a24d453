-- ===== src/Ui/StoreLock/Updating.antt =====
-- src/ui/store-lock.ts, `JsonCasStore.update`: what a write has read, and what it leaves.
use hx_fortress.Prelude.{
  ◌<◌, subst, ℕ, zero, suc, ◌+◌, ◌≡◌, refl, ap, ◌∙◌, inl, inr, true, false, not, none, some, arith,
  nat_beq, if◌then◌else◌, Bool-cases, Option-cases, nat_eq, text_eq,
}
use hx_fortress.Ui.StoreLock.{
  max_cas_retries, Document, Disk, holds, read_ok, version_of, store_corrupt, store_locked,
  mutate_threw, written, refused_update, Surroundings, read, doc_of, is_corrupt, next_version,
  attempt, attempts, update,
}

-- A write that followed from what was read: the file was readable, the caller's function made the
-- document of it, and the version is the next one of what was read.
abbrev pub Follows : Surroundings → Disk → Document → Disk → Type 0
Follows s seen doc after =
    (is_corrupt (read s seen) ≡ false)
    × ((next : Document) × ((s.mutate (doc_of (read s seen)) ≡ some next)
          × (doc ≡ next_version (version_of (doc_of (read s seen))) next)))
    × (after ≡ holds (s.print doc))

-- The file at the two reads of the `k`-th attempt, counted from 0: an attempt that lost its race wrote
-- nothing, so until then the file is what the others made of it, one move before each read.
unfoldable pub first_read : Surroundings → ℕ → ℕ → Disk → Disk
first_read s zero n disk = s.others n disk
first_read s (suc k) n disk = first_read s k (n + 3) (s.others (n + 1) (s.others n disk))

unfoldable pub second_read : Surroundings → ℕ → ℕ → Disk → Disk
second_read s zero n disk = s.others (n + 1) (s.others n disk)
second_read s (suc k) n disk = second_read s k (n + 3) (s.others (n + 1) (s.others n disk))

-- A write that followed from the first read of an attempt among so many, and the second read of that attempt
-- had the same version.
abbrev pub Confirmed : Surroundings → ℕ → ℕ → Disk → Document → Disk → Type 0
Confirmed s left n disk doc after =
    (k : ℕ) × ((k < left)
      × (Follows s (first_read s k n disk) doc after)
      × (is_corrupt (read s (second_read s k n disk)) ≡ false)
      × (version_of (doc_of (read s (second_read s k n disk)))
          ≡ version_of (doc_of (read s (first_read s k n disk)))))

attempt-Confirmed :
    (s : Surroundings) (left n : ℕ) (disk after : Disk) (doc : Document)
    → attempt s n disk ≡ (after, some (written doc))
    → Confirmed s (suc left) n disk doc after
unfolding attempt first_read second_read
attempt-Confirmed s left n disk after doc h =
    let first = s.others n disk in
    let second = s.others (n + 1) first in
    elim (Bool-cases (is_corrupt (read s first))) [
      | inl bad ↦ absurd (ground arith)
      | inr readable ↦ elim (Option-cases (s.mutate (doc_of (read s first)))) [
        | inl threw ↦ absurd (ground arith)
        | inr (next, made) ↦ elim (Bool-cases (is_corrupt (read s second))) [
          | inl bad ↦ absurd (ground arith)
          | inr confirmed ↦
              elim (Bool-cases (
                nat_beq (version_of (doc_of (read s second)))
                  (version_of (doc_of (read s first))))) [
                    | inr raced ↦ absurd (ground arith)
                    | inl same ↦ (
                      0,
                      (
                        omega arith,
                        (readable, (next, (made, ground arith)), ground arith),
                        confirmed,
                        ground arith,
                      ),
                    )
                  ]
        ]
      ]
    ]

-- A race that was lost has left the file as the others made it.
attempt-raced :
    (s : Surroundings) (n : ℕ) (disk : Disk)
    → (attempt s n disk).1 ≡ none
    → (attempt s n disk).0 ≡ s.others (n + 1) (s.others n disk)
unfolding attempt
attempt-raced s n disk h =
    let first = s.others n disk in
    let second = s.others (n + 1) first in
    elim (Bool-cases (is_corrupt (read s first))) [
      | inl bad ↦ absurd (ground arith)
      | inr readable ↦ elim (Option-cases (s.mutate (doc_of (read s first)))) [
        | inl threw ↦ absurd (ground arith)
        | inr (next, made) ↦ elim (Bool-cases (is_corrupt (read s second))) [
          | inl bad ↦ absurd (ground arith)
          | inr confirmed ↦
              elim (Bool-cases (
                nat_beq (version_of (doc_of (read s second)))
                  (version_of (doc_of (read s first))))) [
                    | inr raced ↦ ground arith
                    | inl same ↦ absurd (ground arith)
                  ]
        ]
      ]
    ]

attempts-Confirmed :
    (left : ℕ) (s : Surroundings) (n : ℕ) (disk after : Disk) (doc : Document)
    → attempts left s n disk ≡ (after, written doc)
    → Confirmed s left n disk doc after
unfolding attempts first_read second_read
attempts-Confirmed zero s n disk after doc h = absurd (ground arith)
attempts-Confirmed (suc left) s n disk after doc h = elim (Bool-cases (s.lock_got n)) [
  | inr busy ↦ absurd (ground arith)
  | inl got ↦ elim (Option-cases (attempt s n disk).1) [
    | inl raced ↦
        let moved = attempt-raced s n disk raced in
        let later : attempts left s (n + 3) (s.others (n + 1) (s.others n disk))
            ≡ (after, written doc) =
          subst (λ d. attempts left s (n + 3) d ≡ (after, written doc)) moved (ground arith) in
        let rest =
          attempts-Confirmed left s (n + 3) (s.others (n + 1) (s.others n disk)) after doc later in
        (suc rest.0, (omega (arith, rest.1.0), rest.1.1, rest.1.2, rest.1.3))
    | inr (answer, done) ↦ attempt-Confirmed s left n disk after doc (ground arith)
  ]
]

read-print :
    (s : Surroundings) (doc : Document)
    → ((d : Document) → s.parse (s.print d) ≡ some d)
    → read s (holds (s.print doc)) ≡ read_ok doc
unfolding read
read-print s doc codec = ground (arith, codec doc)

-- An update that answers with a document, whatever other processes did to the file at any moment: one of
-- its five attempts found the file, as the others had made it of the file that was there, readable at its
-- first read, the caller's function made the answer of what was read there, with the version after it, and
-- the attempt's second read met that version again; the file now holds that document. It reads as that
-- document, provided that every document that is printed parses as itself.
pub update_follows_read :
    (s : Surroundings) (disk after : Disk) (doc : Document)
    → ((d : Document) → s.parse (s.print d) ≡ some d)
    → update s disk ≡ (after, written doc)
    → Confirmed s 5 0 disk doc after × (read s after ≡ read_ok doc)
unfolding update
update_follows_read s disk after doc codec h =
    let confirmed = attempts-Confirmed max_cas_retries s 0 disk after doc h in
    let at : after ≡ holds (s.print doc) = confirmed.1.1.2 in
    (confirmed, ap (read s) at ∙ read-print s doc codec)

module _ (s : Surroundings) (n : ℕ) (disk : Disk) where
  attempt-corrupt :
      ((n : ℕ) (d : Disk) → s.others n d ≡ d)
      → is_corrupt (read s disk) ≡ true
      → attempt s n disk ≡ (disk, some (refused_update store_corrupt))
  unfolding attempt
  attempt-corrupt alone bad = ground (arith, alone n disk)

  attempt-threw :
      ((n : ℕ) (d : Disk) → s.others n d ≡ d)
      → is_corrupt (read s disk) ≡ false
      → s.mutate (doc_of (read s disk)) ≡ none
      → attempt s n disk ≡ (disk, some (refused_update mutate_threw))
  unfolding attempt
  attempt-threw alone readable threw = ground (arith, alone n disk)

  attempt-made :
      (next : Document)
      → ((n : ℕ) (d : Disk) → s.others n d ≡ d)
      → is_corrupt (read s disk) ≡ false
      → s.mutate (doc_of (read s disk)) ≡ some next
      → attempt s n disk ≡ (
        holds (s.print (next_version (version_of (doc_of (read s disk))) next)),
        some (written (next_version (version_of (doc_of (read s disk))) next)),
      )
  unfolding attempt
  attempt-made next alone readable made =
      let first : s.others n disk ≡ disk = alone n disk in
      let second : s.others (n + 1) (s.others n disk) ≡ disk =
        alone (n + 1) (s.others n disk) ∙ first in
      ground arith

-- While other processes leave the file alone, as the lock makes them, an update is one step: without
-- the lock, on an unreadable file, or when the caller's function throws, it is refused for that reason
-- and the file is as it was; otherwise the file holds what the function made of its document, with the
-- next version. It never loses a race.
pub update_alone :
    (s : Surroundings) (disk : Disk)
    → ((n : ℕ) (d : Disk) → s.others n d ≡ d)
    → update s disk ≡ (
        if not (s.lock_got 0)
        then (disk, refused_update store_locked)
        else if is_corrupt (read s disk)
        then (disk, refused_update store_corrupt)
        else elim (s.mutate (doc_of (read s disk))) [
          | none ↦ (disk, refused_update mutate_threw)
          | some next ↦ (
            holds (s.print (next_version (version_of (doc_of (read s disk))) next)),
            written (next_version (version_of (doc_of (read s disk))) next),
          )
        ])
unfolding update attempts
update_alone s disk alone = elim (Bool-cases (s.lock_got 0)) [
  | inr busy ↦ rw busy refl
  | inl got ↦ elim (Bool-cases (is_corrupt (read s disk))) [
    | inl bad ↦ ground (arith, attempt-corrupt s 0 disk alone bad)
    | inr readable ↦ elim (Option-cases (s.mutate (doc_of (read s disk)))) [
      | inl threw ↦ ground (arith, attempt-threw s 0 disk alone readable threw)
      | inr (next, made) ↦ ground (arith, attempt-made s 0 disk next alone readable made)
    ]
  ]
]
