-- ===== src/Ui/Users/Epochs.antt =====
-- How the accounts' changes move the epochs, which carry a revocation to the other processes.
use hx_fortress.Prelude.{
  ℕ, ◌+◌, ◌≤◌, ◌≡◌, ◌≢◌, refl, Text, text_eq, [], ◌∷◌, Option, none, some, if◌then◌else◌, arith, ap,
  ◌∙◌, ◌==◌, beq_refl,
}
use hx_fortress.Platform.{Platform}
use hx_fortress.Ui.Users.{
  UiUser, UsersFile, Result, ok, find_user, live_user, live_of, map_named, map_user, disable,
  disabled, remove, removed, reset, renewed,
}
use hx_fortress.Ui.Users.Lookup.{
  map_user-some, Changed, disable-Changed, remove-Changed, reset-Changed,
}

-- The command line's three ways to end what an account has open.
pub data Change : Type 0 where
  disables removes : Change
  resets : Text → Change

module _ (p : Platform) where
  unfoldable pub apply_change : Change → Text → ℕ → UsersFile → Result UsersFile
  apply_change disables login now file = disable p login now file
  apply_change removes login now file = remove p login now file
  apply_change (resets token) login now file = reset p token login now file

  abbrev pub changed : Change → ℕ → UiUser → UiUser
  changed disables now u = disabled p now u
  changed removes now u = removed p now u
  changed (resets token) now u = renewed p token now u

  pub apply_change-Changed :
      (c : Change) (login : Text) (now : ℕ) (file file' : UsersFile)
      → apply_change c login now file ≡ ok file'
      → Changed login (changed c now) file file'
  unfolding apply_change
  apply_change-Changed disables login now file file' h = disable-Changed p login now file file' h
  apply_change-Changed removes login now file file' h = remove-Changed p login now file file' h
  apply_change-Changed (resets token) login now file file' h =
      reset-Changed p token login now file file' h

  apply_change-eq :
      (c : Change) (login : Text) (now : ℕ) (file : UsersFile)
      → apply_change c login now file ≡ map_user file login (changed c now)
  unfolding apply_change disable remove reset
  apply_change-eq disables login now file = refl
  apply_change-eq removes login now file = refl
  apply_change-eq (resets token) login now file = refl

  pub changed-facts :
      (c : Change) (u : UiUser) (now : ℕ)
      → ((changed c now u).credential_epoch ≡ u.credential_epoch + 1)
        × (u.lockout_epoch ≤ (changed c now u).lockout_epoch)
        × ((changed c now u).pwd_hash ≡ u.pwd_hash)
  changed-facts disables u now = (refl, omega arith, refl)
  changed-facts removes u now = (refl, omega arith, refl)
  changed-facts (resets token) u now = (refl, omega arith, refl)

  -- Whether the account is still there after the change.
  abbrev pub still : Change → UiUser → Option UiUser
  still disables u = some u
  still removes u = none
  still (resets token) u = some u

  changed-live :
      (c : Change) (u : UiUser) (now : ℕ)
      → u.deleted_at ≡ none
      → live_of (some (changed c now u)) ≡ still c (changed c now u)
  changed-live disables u now h = rw h refl
  changed-live removes u now h = rw h (stamped (p.to_iso now) (p.to_iso-nonempty now))
    where
      stamped :
          (t : Text)
          → t ≢ []
          → live_of (
              some (record u {
                deleted_at = some t;
                setup_tokens = [];
                credential_epoch = u.credential_epoch + 1;
              }))
            ≡ none
      stamped [] ne = absurd (ne refl)
      stamped (c ∷ cs) ne = refl
  changed-live (resets token) u now h = rw h refl

  -- A disable, a removal or a reset of an account that is there goes through. It bumps the
  -- account's credential epoch by one, never lowers its lockout epoch, keeps its password, and
  -- leaves every other account and the session epoch as they were; only a removal ends the account.
  pub change_bumps_epoch :
      (c : Change) (login key : Text) (now : ℕ) (file : UsersFile) (u : UiUser)
      → find_user login file.users ≡ some u
      → u.deleted_at ≡ none
      → let v = changed c now u in
        (file' : UsersFile) × (apply_change c login now file ≡ ok file')
        × (v.credential_epoch ≡ u.credential_epoch + 1)
        × (u.lockout_epoch ≤ v.lockout_epoch)
        × (v.pwd_hash ≡ u.pwd_hash)
        × (find_user key file'.users ≡ (if login == key then some v else find_user key file.users))
        × (live_user file' login ≡ still c v)
        × (file'.session_epoch ≡ file.session_epoch)
  unfolding live_user
  change_bumps_epoch c login key now file u found active =
      let e =
        apply_change-eq c login now file
        ∙ map_user-some file login (changed c now) u found active in
      let (w, found', live, others, epoch) = apply_change-Changed c login now file _ e in
      let same : w ≡ u = cc found' in
      let (cred, lock, hash) = changed-facts c u now in
      (
        record file { users = map_named login (changed c now) file.users },
        e,
        cred,
        lock,
        hash,
        rw (← same) (others key),
        ap live_of {y = some (changed c now u)} (others login ∙ rw (beq_refl login, same) refl)
            ∙ changed-live c u now active,
        epoch,
      )
