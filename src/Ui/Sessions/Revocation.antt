-- ===== src/Ui/Sessions/Revocation.antt =====
-- How a change of the accounts file, made by another process, reaches the sessions of this one; and
-- the account that is removed and created again, whose old sessions it does not reach.
use hx_fortress.Prelude.{
  ℕ, ◌+◌, ◌*◌, ◌≤◌, ◌<◌, ◌≡◌, refl, ◌∙◌, ap, ◌⊎◌, inl, inr, Bool, true, false, Text, text_eq, ◌∷◌,
  none, some, if◌then◌else◌, beq_refl, arith, get, get-delete, Option-cases,
}
use hx_fortress.Platform.{Platform}
use hx_fortress.Ui.Users.{
  UiRole, UiUser, UsersFile, ok, find_user, create, remove, fresh_user, complete_setup,
  bump_session_epoch,
}
use hx_fortress.Ui.Users.Lookup.{create-find, remove-Changed}
use hx_fortress.Ui.Users.Setup.{complete_setup-ok}
use hx_fortress.Ui.Users.Epochs.{Change, apply_change, apply_change-Changed, changed, changed-facts}
use hx_fortress.Ui.Sessions.{
  UiSession, SessionPolicy, SessionRefusal, revoked, refusal, SessionCheck, valid, refused,
  SessionTable, drop, clock_refusal, revocation, touched, revalidate, find_digest, find_id,
  validate, revocation_check,
}
use hx_fortress.Ui.Sessions.Edits.{Edited, Edited-Keeps}
use hx_fortress.Ui.Sessions.Validate.{Admitted, revocation-none, revalidate-admits}

revalidate-refuses :
    (key : Text) (s : UiSession) (file : UsersFile) (policy : SessionPolicy) (now : ℕ)
    (t : SessionTable) (r : SessionRefusal)
    → revocation file s ≡ some r
    → (reason : SessionRefusal) × (revalidate key s file policy now t
        ≡ (drop key s (refusal reason) t, refused reason))
unfolding revalidate
revalidate-refuses key s file policy now t r h = elim (Option-cases (clock_refusal policy now s)) [
  | inl e ↦ (r, rw (e, h, revalidate))
  | inr (c, e) ↦ (c, rw (e, revalidate))
]

abbrev pub is_valid : SessionCheck → Bool
is_valid (valid s u) = true
is_valid (refused r) = false

module _ (p : Platform) where
  -- The request is refused, and the session is dropped, for a reason that the listeners are told.
  abbrev pub Refuses :
      Text → UsersFile → SessionPolicy → ℕ → SessionTable → Text → UiSession → Type 0
  Refuses token file policy now t key s =
      (reason : SessionRefusal) × (validate p (some token) file policy now t
        ≡ (drop key s (refusal reason) t, refused reason))

  ends :
      (c : ℕ) (cs : Text) (file : UsersFile) (policy : SessionPolicy) (now : ℕ) (t : SessionTable)
      (key : Text) (s : UiSession) (r : SessionRefusal)
      → find_digest p (p.sha256 (c ∷ cs)) t.by_digest ≡ some (key, s)
      → revocation file s ≡ some r
      → Refuses (c ∷ cs) file policy now t key s
  unfolding validate
  ends c cs file policy now t key s r at h =
      let (reason, e) = revalidate-refuses key s file policy now t r h in
      (reason, rw (at, validate) e)

  outdated :
      (file : UsersFile) (s : UiSession) (u : UiUser)
      → find_user s.user_login file.users ≡ some u
      → (s.credential_epoch < u.credential_epoch) ⊎ (s.pwd_version < u.pwd_version)
      → (r : SessionRefusal) × (revocation file s ≡ some r)
  outdated file s u found h = elim (Option-cases (revocation file s)) [
    | inr (r, e) ↦ (r, e)
    | inl e ↦
        let (v, found', epoch, present, able, credential, password) = revocation-none file s e in
        let same : v ≡ u = cc (found, found') in
        absurd (
          omega (
            arith,
            ap (λ (x : UiUser). x.credential_epoch) same,
            ap (λ (x : UiUser). x.pwd_version) same,
          ))
  ]

  -- A disable, a removal or a reset that another process makes ends every session of the account that
  -- the table holds: the next request of one is refused and drops it, however late it is and whatever
  -- was written to the accounts file in between, unless the login was created again. The credential
  -- epoch of the session is not above the account's, and each setup that is completed in between is of
  -- the account that its login finds.
  pub change_ends_session :
      (ch : Change) (login : Text) (now : ℕ) (file file' then_file : UsersFile) (u : UiUser) (c : ℕ)
      (cs : Text) (policy : SessionPolicy) (later : ℕ) (t : SessionTable) (key : Text)
      (s : UiSession)
      → apply_change p ch login now file ≡ ok file'
      → Edited p login file' then_file
      → find_user login file.users ≡ some u
      → s.user_login ≡ login
      → s.credential_epoch ≤ u.credential_epoch
      → find_digest p (p.sha256 (c ∷ cs)) t.by_digest ≡ some (key, s)
      → Refuses (c ∷ cs) then_file policy later t key s
  change_ends_session ch login now file file' then_file u c cs policy later t key s h edits found
        mine issued at =
      let (w, found', live, others, epoch) = apply_change-Changed p ch login now file file' h in
      let same : w ≡ u = cc (found, found') in
      let after : find_user login file'.users ≡ some (changed p ch now w) =
        others login ∙ rw (beq_refl login) refl in
      let bumped : u.credential_epoch + 1 ≤ (changed p ch now w).credential_epoch =
        omega (arith, (changed-facts p ch w now).0, ap (λ (x : UiUser). x.credential_epoch) same) in
      let (v, (held, above)) =
        Edited-Keeps p login (u.credential_epoch + 1) file' then_file edits
          (changed p ch now w, (after, bumped)) in
      let (r, e) = outdated then_file s v (rw mine held) (inl (omega (arith, issued, above))) in
      ends c cs then_file policy later t key s r at e

  -- So does a completed setup, which changes the password.
  pub setup_ends_session :
      (token password hash : Text) (now : ℕ) (file file' : UsersFile) (next : UiUser) (c : ℕ)
      (cs : Text) (policy : SessionPolicy) (later : ℕ) (t : SessionTable) (key : Text)
      (s : UiSession)
      → complete_setup p token password hash now file ≡ ok (next, file')
      → s.user_login ≡ next.login
      → s.pwd_version < next.pwd_version
      → find_digest p (p.sha256 (c ∷ cs)) t.by_digest ≡ some (key, s)
      → Refuses (c ∷ cs) file' policy later t key s
  setup_ends_session token password hash now file file' next c cs policy later t key s h mine old
        at =
      let (long, (w, holds, e, after, epoch)) =
        complete_setup-ok p token password hash next.login now file file' next h in
      let here : find_user s.user_login file'.users ≡ some next =
        rw mine (after ∙ rw (beq_refl next.login) refl) in
      let (r, q) = outdated file' s next here (inr old) in
      ends c cs file' policy later t key s r at q

  -- And turning the console off, which bumps the session epoch, ends every session of everybody.
  pub bump_ends_session :
      (file : UsersFile) (c : ℕ) (cs : Text) (policy : SessionPolicy) (later : ℕ) (t : SessionTable)
      (key : Text) (s : UiSession)
      → s.session_epoch ≤ file.session_epoch
      → find_digest p (p.sha256 (c ∷ cs)) t.by_digest ≡ some (key, s)
      → Refuses (c ∷ cs) (bump_session_epoch file) policy later t key s
  unfolding bump_session_epoch
  bump_ends_session file c cs policy later t key s issued at =
      ends c cs (bump_session_epoch file) policy later t key s revoked at
        (unfold revocation in ground arith)

  -- What `create` makes of a login whose account was removed: its epochs start at zero again. So a
  -- session that was issued to the removed account and not looked at in between is not outdated by
  -- the new one: within its budgets it gets through, as the new account and with its role.
  pub recreate_revives :
      (login token : Text) (role : UiRole) (now later : ℕ) (file gone again : UsersFile) (c : ℕ)
      (cs : Text) (policy : SessionPolicy) (at : ℕ) (t : SessionTable) (key : Text) (s : UiSession)
      → remove p login now file ≡ ok gone
      → create p token login role later gone ≡ ok again
      → s.user_login ≡ login
      → file.session_epoch ≤ s.session_epoch
      → at < s.created_at + policy.ttl_hours * 3_600_000
      → at < s.last_seen_at + policy.idle_minutes * 60_000
      → find_digest p (p.sha256 (c ∷ cs)) t.by_digest ≡ some (key, s)
      → let account = fresh_user p token login role later in
        (validate p (some (c ∷ cs)) again policy at t).1 ≡ valid (touched account at s) account
  unfolding validate
  recreate_revives login token role now later file gone again c cs policy at t key s h k mine epoch
        ttl busy found =
      let (u, was, live, others, same) = remove-Changed p login now file gone h in
      let (none_live, here, same') = create-find p token login login role later gone again k in
      let a : Admitted s again policy at (touched (fresh_user p token login role later) at s)
          (fresh_user p token login role later) =
        record {
          found = rw mine (here ∙ rw (beq_refl login) refl);
          within_ttl = ttl;
          not_idle = busy;
          epoch = omega arith;
          present = refl;
          able = refl;
          credential = omega arith;
          password = omega arith;
          touch = refl;
        } in
      rw
        (
          found,
          revalidate-admits key s (touched (fresh_user p token login role later) at s) again policy
              at t (fresh_user p token login role later) a,
        )
        refl

  -- The belt of an open stream asks the question of the door: within its budgets, a request of the
  -- session gets through exactly if the stream is affirmed; and a stream that is not affirmed has
  -- its session dropped.
  pub belt_agrees :
      (id : Text) (c : ℕ) (cs : Text) (file : UsersFile) (policy : SessionPolicy) (now : ℕ)
      (t : SessionTable) (key : Text) (s : UiSession)
      → find_id id t.by_digest ≡ some (key, s)
      → find_digest p (p.sha256 (c ∷ cs)) t.by_digest ≡ some (key, s)
      → now < s.created_at + policy.ttl_hours * 3_600_000
      → now < s.last_seen_at + policy.idle_minutes * 60_000
      → (is_valid (validate p (some (c ∷ cs)) file policy now t).1 ≡ (revocation_check id file t).1)
        × (get key (revocation_check id file t).0.by_digest
            ≡ (if (revocation_check id file t).1 then get key t.by_digest else none))
  unfolding validate revocation_check drop
  belt_agrees id c cs file policy now t key s by_id by_token ttl busy =
      elim (Option-cases (revocation file s)) [
        | inl e ↦
            let (user, found, epoch, present, able, credential, password) =
              revocation-none file s e in
            let a : Admitted s file policy now (touched user now s) user = record {
              found = found;
              within_ttl = ttl;
              not_idle = busy;
              epoch = epoch;
              present = present;
              able = able;
              credential = credential;
              password = password;
              touch = refl;
            } in
            (
              ground (
                arith,
                by_id,
                by_token,
                e,
                revalidate-admits key s (touched user now s) file policy now t user a,
              ),
              ground (arith, by_id, e),
            )
        | inr (r, e) ↦
            let (reason, q) = revalidate-refuses key s file policy now t r e in
            (
              ground (arith, by_id, by_token, e, q),
              ground (arith, by_id, e, get-delete key key t.by_digest, beq_refl key),
            )
      ]
