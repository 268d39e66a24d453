-- ===== src/Ui/Sessions/Edits.antt =====
-- src/ui/users.ts, seen from a session: what other processes make of the accounts file, one write after
-- another, and what none of it undoes.
use hx_fortress.Prelude.{
  ℕ, ◌≤◌, ◌≡◌, refl, ap, ◌∙◌, inl, inr, some, arith, Bool-cases, ◌==◌, nat_eq, beq_ne, Text,
  text_beq_iff, text_eq,
}
use hx_fortress.Platform.{Platform}
use hx_fortress.Ui.Users.{
  UiRole, UiUser, UsersFile, ok, find_user, create, complete_setup, completed, bump_session_epoch,
}
use hx_fortress.Ui.Users.Lookup.{create-find}
use hx_fortress.Ui.Users.Setup.{complete_setup-ok}
use hx_fortress.Ui.Users.Epochs.{Change, apply_change, apply_change-Changed, changed, changed-facts}

module _ (p : Platform) (mine : Text) where
  -- Writes of the file, of which none creates this login: a disable, a removal or a reset, an account that is
  -- created, a setup that is completed, for the account that its login finds, and a bump of the session epoch.
  pub data Edited : UsersFile → UsersFile → Type 0 where
    no_more : (f : UsersFile) → Edited f f
    changes :
        (ch : Change) (login : Text) (now : ℕ) (f g h : UsersFile)
        → apply_change p ch login now f ≡ ok g
        → Edited g h
        → Edited f h
    creates :
        (token login : Text) (role : UiRole) (now : ℕ) (f g h : UsersFile)
        → (login ≡ mine → ⊥)
        → create p token login role now f ≡ ok g
        → Edited g h
        → Edited f h
    completes :
        (token password hash : Text) (now : ℕ) (u next : UiUser) (f g h : UsersFile)
        → find_user next.login f.users ≡ some u
        → next ≡ completed hash u
        → complete_setup p token password hash now f ≡ ok (next, g)
        → Edited g h
        → Edited f h
    bumps : (f h : UsersFile) → Edited (bump_session_epoch f) h → Edited f h

  abbrev pub Keeps : ℕ → UsersFile → Type 0
  Keeps epoch file =
      (u : UiUser) × ((find_user mine file.users ≡ some u) × (epoch ≤ u.credential_epoch))

  changes-Keeps :
      (epoch : ℕ) (ch : Change) (login : Text) (now : ℕ) (f g : UsersFile)
      → apply_change p ch login now f ≡ ok g
      → Keeps epoch f
      → Keeps epoch g
  changes-Keeps epoch ch login now f g e (u, (found, above)) =
      let (w, found', live, others, same_epoch) = apply_change-Changed p ch login now f g e in
      elim (Bool-cases (login == mine)) [
        | inr apart ↦ (u, (others mine ∙ rw apart found, above))
        | inl at ↦
            let own : login ≡ mine = (text_beq_iff login mine).0 at in
            let same : w ≡ u = cc (found, found', own) in
            (
              changed p ch now w,
              (
                others mine ∙ rw at refl,
                omega (
                  arith,
                  (changed-facts p ch w now).0,
                  ap (λ (x : UiUser). x.credential_epoch) same,
                ),
              ),
            )
      ]

  creates-Keeps :
      (epoch : ℕ) (token login : Text) (role : UiRole) (now : ℕ) (f g : UsersFile)
      → (login ≡ mine → ⊥)
      → create p token login role now f ≡ ok g
      → Keeps epoch f
      → Keeps epoch g
  creates-Keeps epoch token login role now f g apart e (u, (found, above)) = (
    u,
    ((create-find p token login mine role now f g e).1 ∙ rw (beq_ne login mine apart) found, above),
  )

  completes-Keeps :
      (epoch : ℕ) (token password hash : Text) (now : ℕ) (u next : UiUser) (f g : UsersFile)
      → find_user next.login f.users ≡ some u
      → next ≡ completed hash u
      → complete_setup p token password hash now f ≡ ok (next, g)
      → Keeps epoch f
      → Keeps epoch g
  completes-Keeps epoch token password hash now u next f g own made e (v, (found, above)) =
      let (long, (w, holds, as_completed, after, same_epoch)) =
        complete_setup-ok p token password hash mine now f g next e in
      elim (Bool-cases (next.login == mine)) [
        | inr apart ↦ (v, (after ∙ rw apart found, above))
        | inl at ↦
            let login : next.login ≡ mine = (text_beq_iff next.login mine).0 at in
            let same : u ≡ v = cc (own, found, login) in
            let kept : next.credential_epoch ≡ u.credential_epoch =
              ap (λ (x : UiUser). x.credential_epoch) made in
            (
              next,
              (
                after ∙ rw at refl,
                omega (arith, kept, above, ap (λ (x : UiUser). x.credential_epoch) same),
              ),
            )
      ]

  -- No such write takes the account of this login from the file, or lowers its credential epoch.
  pub Edited-Keeps : (epoch : ℕ) (f h : UsersFile) → Edited f h → Keeps epoch f → Keeps epoch h
  unfolding bump_session_epoch
  Edited-Keeps epoch _ _ (no_more f) kept = kept
  Edited-Keeps epoch _ _ (changes ch login now f g h e more) kept =
      Edited-Keeps epoch g h more (changes-Keeps epoch ch login now f g e kept)
  Edited-Keeps epoch _ _ (creates token login role now f g h apart e more) kept =
      Edited-Keeps epoch g h more (creates-Keeps epoch token login role now f g apart e kept)
  Edited-Keeps epoch _ _ (completes token password hash now u next f g h own made e more) kept =
      Edited-Keeps epoch g h more
        (completes-Keeps epoch token password hash now u next f g own made e kept)
  Edited-Keeps epoch _ _ (bumps f h more) kept =
      Edited-Keeps epoch (bump_session_epoch f) h more kept
