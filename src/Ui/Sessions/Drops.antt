-- ===== src/Ui/Sessions/Drops.antt =====
-- The one removal path: every session that a loop ends is taken out, counted and told to every
-- listener, and no other session is touched.
use hx_fortress.Prelude.{
  ℕ, suc, ◌+◌, ◌*◌, ◌≡◌, ◌≢◌, refl, sym, ◌∙◌, ap, subst, inl, inr, Bool, true, false, ◌||◌, Text,
  text_eq, text_beq_iff, List, [], ◌∷◌, ◌++◌, Option, none, some, if◌then◌else◌, ◌==◌, beq_refl,
  leb, arith, get, delete, prune, pruned, kept_if, kept_if-ext, IsMap, get-prune, prune-pruned,
  Bool-cases, Option-cases,
}
use mathlib.Core.List.{append-nil, append_assoc}
use hx_fortress.Ui.Sessions.{
  UiSession, SessionPolicy, revoked, DropReason, refusal, SessionTable, notices, drop, drop_where,
  clock_refusal, lapse_reason, revoke_user, sweep, size,
}

abbrev pub dropping : (UiSession → Option DropReason) → UiSession → Bool
dropping reason_for s = elim (reason_for s) [ none ↦ false | some r ↦ true ]

-- The notices of a loop, in its order.
unfoldable pub all_notices :
    (UiSession → Option DropReason)
    → List ℕ
    → List (Text × UiSession)
    → List (ℕ × UiSession × DropReason)
all_notices reason_for ls [] = []
all_notices reason_for ls ((key, s) ∷ m) = elim (reason_for s) [
  | none ↦ all_notices reason_for ls m
  | some r ↦ notices ls s r ++ all_notices reason_for ls m
]

delete-absent : (key : Text) (m : List (Text × UiSession)) → get key m ≡ none → delete key m ≡ m
unfolding get delete
delete-absent key [] h = refl
delete-absent key ((j, s) ∷ m) h = elim (Bool-cases (j == key)) [
  | inl same ↦ absurd (ground (arith, same))
  | inr other ↦ rw other (rw (delete-absent key m (rw other at h)))
]

get-middle :
    (kept : List (Text × UiSession)) (key : Text) (s : UiSession) (m : List (Text × UiSession))
    → get key (kept ++ (key, s) ∷ m) ≢ none
unfolding get
get-middle [] key s m = λ e. ground (arith, e, beq_refl key)
get-middle ((j, r) ∷ kept) key s m = λ e. elim (Bool-cases (j == key)) [
  | inl same ↦ ground (arith, e, same)
  | inr other ↦ get-middle kept key s m (rw other at e)
]

-- The entries that the loop has passed come first; the keys of the rest are not among them.
delete-middle :
    (kept : List (Text × UiSession)) (key : Text) (s : UiSession) (m : List (Text × UiSession))
    → IsMap (kept ++ (key, s) ∷ m)
    → delete key (kept ++ (key, s) ∷ m) ≡ kept ++ m
unfolding get delete
delete-middle [] key s m h = rw (beq_refl key) (delete-absent key m h.0)
delete-middle ((j, r) ∷ kept) key s m h = elim (Bool-cases (j == key)) [
  | inl same ↦ absurd (
      get-middle kept key s m
        (subst (λ k. get k (kept ++ (key, s) ∷ m) ≡ none) ((text_beq_iff j key).0 same) h.0))
  | inr other ↦ rw other (rw (delete-middle kept key s m h.1))
]

get-append_none :
    (key : Text) (xs ys : List (Text × UiSession))
    → get key (xs ++ ys) ≡ none
    → (get key xs ≡ none) × (get key ys ≡ none)
unfolding get
get-append_none key [] ys h = (refl, h)
get-append_none key ((j, s) ∷ xs) ys h = elim (Bool-cases (j == key)) [
  | inl same ↦ absurd (ground (arith, same, h))
  | inr other ↦ let r = get-append_none key xs ys (rw other at h) in (rw other r.0, r.1)
]

get-append_both :
    (key : Text) (xs ys : List (Text × UiSession))
    → get key xs ≡ none
    → get key ys ≡ none
    → get key (xs ++ ys) ≡ none
unfolding get
get-append_both key [] ys h k = k
get-append_both key ((j, s) ∷ xs) ys h k = elim (Bool-cases (j == key)) [
  | inl same ↦ absurd (ground (arith, same, h))
  | inr other ↦ rw other (get-append_both key xs ys (rw other at h) k)
]

IsMap-middle :
    (kept : List (Text × UiSession)) (key : Text) (s : UiSession) (m : List (Text × UiSession))
    → IsMap (kept ++ (key, s) ∷ m)
    → IsMap (kept ++ m)
unfolding get
IsMap-middle [] key s m h = h.1
IsMap-middle ((j, r) ∷ kept) key s m h =
    let g = get-append_none j kept ((key, s) ∷ m) h.0 in
    (get-append_both j kept m g.0 (ground (arith, g.1)), IsMap-middle kept key s m h.1)

module _ (reason_for : UiSession → Option DropReason) where
  loop :
      (kept m : List (Text × UiSession)) (t : SessionTable)
      → t.by_digest ≡ kept ++ m
      → IsMap (kept ++ m)
      → drop_where reason_for m t ≡ (
        record t {
          by_digest = kept ++ prune (dropping reason_for) m;
          told = t.told ++ all_notices reason_for t.drop_listeners m;
        },
        pruned (dropping reason_for) m,
      )
  unfolding drop_where prune pruned all_notices drop
  loop kept [] t e h = ground (arith, e, append-nil kept, append-nil t.told)
  loop kept ((key, s) ∷ m) t e h = elim (Option-cases (reason_for s)) [
    | inl stays ↦
        let regroup : (kept ++ (key, s) ∷ []) ++ m ≡ kept ++ (key, s) ∷ m =
          append_assoc kept ((key, s) ∷ []) m in
        rw (stays, drop_where, all_notices)
          (loop (kept ++ (key, s) ∷ []) m t (e ∙ sym regroup) (rw regroup h)
            ∙ ground
                (arith, stays, append_assoc kept ((key, s) ∷ []) (prune (dropping reason_for) m)))
    | inr (r, goes) ↦
        let taken : (drop key s r t).by_digest ≡ kept ++ m =
          ap (delete key) e ∙ delete-middle kept key s m h in
        rw (goes, drop_where, all_notices)
          (ap (λ (x : SessionTable × ℕ). (x.0, suc x.1))
              (loop kept m (drop key s r t) taken (IsMap-middle kept key s m h))
            ∙ ground (
              arith,
              goes,
              append_assoc t.told (notices t.drop_listeners s r)
                  (all_notices reason_for t.drop_listeners m),
            ))
  ]

  -- A loop over the whole table.
  loop_exact :
      (t : SessionTable)
      → IsMap t.by_digest
      → drop_where reason_for t.by_digest t ≡ (
        record t {
          by_digest = prune (dropping reason_for) t.by_digest;
          told = t.told ++ all_notices reason_for t.drop_listeners t.by_digest;
        },
        pruned (dropping reason_for) t.by_digest,
      )
  loop_exact t h = loop [] t.by_digest t refl h

abbrev pub revoking : Text → UiSession → Option DropReason
revoking login s = if s.user_login == login then some (refusal revoked) else none

abbrev pub lapsing : SessionPolicy → ℕ → UiSession → Option DropReason
lapsing policy now s = lapse_reason (clock_refusal policy now s)

-- Revoking an account takes out exactly its sessions, counts them, and tells every listener of each
-- in turn.
pub revoke_user-exact :
    (login key : Text) (t : SessionTable)
    → IsMap t.by_digest
    → let (u, n) = revoke_user login t in
      (get key u.by_digest ≡ kept_if (λ s. s.user_login == login) (get key t.by_digest))
      × (u.told ≡ t.told ++ all_notices (revoking login) t.drop_listeners t.by_digest)
      × (size u + n ≡ size t)
unfolding revoke_user size
revoke_user-exact login key t h = rw (loop_exact (revoking login) t h) (
  get-prune (dropping (revoking login)) key t.by_digest h
      ∙ kept_if-ext _ _ (get key t.by_digest) (λ s. ground arith),
  refl,
  prune-pruned (dropping (revoking login)) t.by_digest,
)

-- The sweep takes out exactly the sessions whose lifetime or idle time is over, and tells every
-- listener which of the two it was.
pub sweep_exact :
    (policy : SessionPolicy) (now : ℕ) (key : Text) (t : SessionTable)
    → IsMap t.by_digest
    → let (u, n) = sweep policy now t in
      (get key u.by_digest
        ≡ kept_if
            (λ s.
              leb (s.created_at + policy.ttl_hours * 3_600_000) now
              || leb (s.last_seen_at + policy.idle_minutes * 60_000) now)
            (get key t.by_digest))
      × (u.told ≡ t.told ++ all_notices (lapsing policy now) t.drop_listeners t.by_digest)
      × (size u + n ≡ size t)
unfolding sweep size clock_refusal
sweep_exact policy now key t h = rw (loop_exact (lapsing policy now) t h) (
  get-prune (dropping (lapsing policy now)) key t.by_digest h
      ∙ kept_if-ext _ _ (get key t.by_digest) (λ s. ground arith),
  refl,
  prune-pruned (dropping (lapsing policy now)) t.by_digest,
)
