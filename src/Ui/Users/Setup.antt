-- ===== src/Ui/Users/Setup.antt =====
-- The life of a setup link: live for a day from `create` or `reset`, good for one completion, dead
-- once the account is disabled, removed, reset or completed.
use hx_fortress.Prelude.{
  ℕ, ◌+◌, ◌≤◌, ◌≡◌, ◌≢◌, refl, sym, ◌⊎◌, inl, inr, true, false, Text, text_eq, text_beq_iff, List,
  [], ◌∷◌, none, some, if◌then◌else◌, ◌==◌, beq_refl, beq_ne, ltb, arith, find, find-holds,
  find-some, find-none, All, subst, length, Bool-cases, Option-cases,
}
use hx_fortress.Platform.{Platform, max_date}
use hx_fortress.Ui.Users.{
  UiUser, UsersFile, ok, err, link_invalid, password_too_short, setup_token_ttl_ms,
  min_password_length, truthy, named, find_user, map_named, mint_setup_token, live_setup_token,
  holds_token, disabled, removed, renewed, completed, complete_setup,
}
use hx_fortress.Ui.Users.Lookup.{find_user-map_named}

module _ (p : Platform) where
  -- A fresh link is good for exactly its lifetime.
  pub link_lifetime :
      (token : Text) (now later : ℕ)
      → now + setup_token_ttl_ms ≤ max_date
      → live_setup_token p (mint_setup_token p token now ∷ []) token later ≡ (
          if ltb later (now + setup_token_ttl_ms)
          then some (mint_setup_token p token now)
          else none)
  unfolding live_setup_token mint_setup_token
  link_lifetime token now later h = ground (
    arith,
    beq_refl (p.hex_bytes (p.sha256 token)),
    p.date_parse-to_iso (now + setup_token_ttl_ms) h,
  )

  other_link_dead :
      (token other : Text) (now later : ℕ)
      → p.sha256 other ≢ p.sha256 token
      → live_setup_token p (mint_setup_token p token now ∷ []) other later ≡ none
  unfolding live_setup_token mint_setup_token
  other_link_dead token other now later ne = ground (
    arith,
    beq_ne (p.hex_bytes (p.sha256 token)) (p.hex_bytes (p.sha256 other))
        λ e. ne (sym (p.hex_bytes-sha256 token other e)),
  )

  completed_dead :
      (u : UiUser) (token hash : Text) (now : ℕ)
      → holds_token p token now (completed hash u) ≡ false
  unfolding live_setup_token
  completed_dead u token hash now = ground arith

  -- Every link that an account had dies with a disable, a removal and a completed setup; a reset
  -- leaves only its own.
  pub links_die :
      (u : UiUser) (token other hash : Text) (now later : ℕ)
      → p.sha256 other ≢ p.sha256 token
      → (holds_token p other later (disabled p now u) ≡ false)
        × (holds_token p other later (removed p now u) ≡ false)
        × (holds_token p other later (completed hash u) ≡ false)
        × (holds_token p other later (renewed p token now u) ≡ false)
  unfolding live_setup_token
  links_die u token other hash now later ne = (
    ground arith,
    ground arith,
    ground arith,
    ground (arith, other_link_dead token other now later ne),
  )

  -- A new account or a reset one that is live can be completed with its link until it expires, and
  -- not from then on.
  pub link_completes :
      (u : UiUser) (token : Text) (now later : ℕ)
      → now + setup_token_ttl_ms ≤ max_date
      → truthy u.deleted_at ≡ false
      → truthy u.disabled_at ≡ false
      → holds_token p token later (renewed p token now u) ≡ ltb later (now + setup_token_ttl_ms)
  link_completes u token now later h live able = ground (arith, link_lifetime token now later h)

  rewritten :
      (u : UiUser) (token hash : Text) (now : ℕ) (users : List UiUser)
      → find (holds_token p token now) users ≡ some u
      → find_user u.login (map_named u.login (λ _. completed hash u) users)
        ≡ some (completed hash u)
  rewritten u token hash now users found =
      let (v, at) =
        find-some (holds_token p token now) (named u.login) users u found (beq_refl u.login) in
      ground (
        arith,
        find_user-map_named u.login u.login (λ _. completed hash u) users (λ w e. refl),
        beq_refl u.login,
        is_found v at,
      )
    where
      is_found :
          (v : UiUser) → find (named u.login) users ≡ some v → find_user u.login users ≡ some v
      is_found v at = unfold find_user in at

  -- A completion happens only with a long enough password and a link that some account still
  -- holds; it sets that account's password, ends its links, and changes no other login.
  pub complete_setup-ok :
      (token password hash key : Text) (now : ℕ) (file file' : UsersFile) (next : UiUser)
      → complete_setup p token password hash now file ≡ ok (next, file')
      → (min_password_length ≤ length password)
        × ((u : UiUser) × (holds_token p token now u ≡ true)
            × (next ≡ completed hash u)
            × (find_user key file'.users
                ≡ (if next.login == key then some next else find_user key file.users))
            × (file'.session_epoch ≡ file.session_epoch))
  unfolding complete_setup
  complete_setup-ok token password hash key now file file' next h =
      elim (Option-cases (find (holds_token p token now) file.users)) [
        | inl missing ↦ absurd (ground (arith, missing))
        | inr (u, found) ↦ (
          ground (arith, found),
          (
            u,
            find-holds (holds_token p token now) file.users u found,
            ground (arith, found),
            ground (
              arith,
              found,
              rewritten u token hash now file.users found,
              find_user-map_named u.login key (λ _. completed hash u) file.users (λ v e. refl),
              text_beq_iff u.login key,
            ),
            ground (arith, found),
          ),
        )
      ]

  -- At most the account of this login holds the link.
  abbrev pub OnlyHolder : Text → Text → ℕ → List UiUser → Type 0
  OnlyHolder login token now =
      All (λ v. (named login v ≡ true) ⊎ (holds_token p token now v ≡ false))

  no_holder :
      (login token : Text) (now : ℕ) (next : UiUser) (users : List UiUser)
      → holds_token p token now next ≡ false
      → OnlyHolder login token now users
      → All (λ v. holds_token p token now v ≡ false) (map_named login (λ _. next) users)
  unfolding map_named
  no_holder login token now next [] dead h = tt
  no_holder login token now next (v ∷ vs) dead h = (
    elim (Bool-cases (named login v)) [
      | inl hit ↦ rw hit dead
      | inr miss ↦ rw miss (elim h.0 [ inl e ↦ absurd (ground (arith, e, miss)) | inr d ↦ d ])
    ],
    no_holder login token now next vs dead h.1,
  )

  -- A link is good for one completion: once it has been used, a second use is refused, at any later
  -- moment and with any password, provided that no other account's links hold the token at that moment.
  pub link_single_use :
      (token first second hash hash' : Text) (now later : ℕ) (file file' : UsersFile)
      (next : UiUser)
      → complete_setup p token first hash now file ≡ ok (next, file')
      → OnlyHolder next.login token later file.users
      → (complete_setup p token second hash' later file' ≡ err link_invalid)
        ⊎ (complete_setup p token second hash' later file' ≡ err password_too_short)
  unfolding complete_setup
  link_single_use token first second hash hash' now later file file' next h only =
      elim (Option-cases (find (holds_token p token now) file.users)) [
        | inl missing ↦ absurd (ground (arith, missing))
        | inr (u, found) ↦
            let e : next ≡ completed hash u = ground (arith, found) in
            let gone : find (holds_token p token later)
                  (map_named u.login (λ _. completed hash u) file.users)
                ≡ none =
              find-none (holds_token p token later) _ (
                no_holder u.login token later (completed hash u) file.users
                  (completed_dead u token hash later)
                  (subst (λ (n : UiUser). OnlyHolder n.login token later file.users) e only)) in
            elim (Bool-cases (ltb (length second) min_password_length)) [
              | inl short ↦ inr (ground (arith, short))
              | inr long ↦ inl (ground (arith, found, long, gone))
            ]
      ]
