-- ===== src/Ui/Sessions/Validate.antt =====
-- `validate`: who gets through, and what a refusal leaves behind.
use hx_fortress.Prelude.{
  ℕ, ◌+◌, ◌*◌, ◌≤◌, ◌<◌, ◌≡◌, refl, ◌∙◌, ◌⊎◌, inl, inr, false, Text, text_eq, text_beq_iff, List,
  [], ◌∷◌, Option, none, some, ◌==◌, beq_refl, beq_ne, arith, get, set, get-set_self, Bool-cases,
  Option-cases,
}
use mathlib.Core.Path.{subst₂}
use hx_fortress.Platform.{Platform}
use hx_fortress.Ui.Users.{UiUser, UsersFile, truthy, find_user, digests_equal}
use hx_fortress.Ui.Sessions.{
  UiSession, SessionPolicy, SessionRefusal, refusal, valid, refused, SessionTable, drop,
  session_for, clock_refusal, revocation, touched, first_refusal, revalidate, issue, find_digest,
  validate,
}

-- What a session that gets through has met, and how it is left.
pub record Admitted (s : UiSession) (file : UsersFile) (policy : SessionPolicy) (now : ℕ)
    (s' : UiSession) (user : UiUser) : Type 0 where
  pub found : find_user s.user_login file.users ≡ some user
  pub within_ttl : now < s.created_at + policy.ttl_hours * 3_600_000
  pub not_idle : now < s.last_seen_at + policy.idle_minutes * 60_000
  pub epoch : file.session_epoch ≤ s.session_epoch
  pub present : truthy user.deleted_at ≡ false
  pub able : truthy user.disabled_at ≡ false
  pub credential : user.credential_epoch ≤ s.credential_epoch
  pub password : user.pwd_version ≤ s.pwd_version
  pub touch : s' ≡ record s { role = user.role; last_seen_at = now }

pub clock_refusal-none :
    (policy : SessionPolicy) (now : ℕ) (s : UiSession)
    → clock_refusal policy now s ≡ none
    → (now < s.created_at + policy.ttl_hours * 3_600_000)
      × (now < s.last_seen_at + policy.idle_minutes * 60_000)
unfolding clock_refusal
clock_refusal-none policy now s h = ground arith

pub revocation-none :
    (file : UsersFile) (s : UiSession)
    → revocation file s ≡ none
    → (user : UiUser) × (find_user s.user_login file.users ≡ some user)
      × (file.session_epoch ≤ s.session_epoch)
      × (truthy user.deleted_at ≡ false)
      × (truthy user.disabled_at ≡ false)
      × (user.credential_epoch ≤ s.credential_epoch)
      × (user.pwd_version ≤ s.pwd_version)
unfolding revocation
revocation-none file s h = elim (Option-cases (find_user s.user_login file.users)) [
  | inl e ↦ absurd (ground (arith, e))
  | inr (u, e) ↦ (
    u,
    e,
    ground (arith, e),
    ground (arith, e),
    ground (arith, e),
    ground (arith, e),
    ground (arith, e),
  )
]

-- Conversely, a session that meets the predicates gets through.
pub revalidate-admits :
    (key : Text) (s s' : UiSession) (file : UsersFile) (policy : SessionPolicy) (now : ℕ)
    (t : SessionTable) (user : UiUser)
    → Admitted s file policy now s' user
    → revalidate key s file policy now t
      ≡ (record t { by_digest = set key s' t.by_digest }, valid s' user)
unfolding revalidate clock_refusal revocation
revalidate-admits key s s' file policy now t user a =
    rw (a.touch, a.found) (ground (arith, a.found))

-- The two ends that a revalidation can have, whatever the file says.
revalidate-cases :
    (key : Text) (s : UiSession) (file : UsersFile) (policy : SessionPolicy) (now : ℕ)
    (t : SessionTable)
    → ((user : UiUser) × Admitted s file policy now (touched user now s) user
        × (revalidate key s file policy now t ≡ (
          record t { by_digest = set key (touched user now s) t.by_digest },
          valid (touched user now s) user,
        )))
      ⊎ ((reason : SessionRefusal) × (first_refusal (clock_refusal policy now s) (revocation file s)
            ≡ some reason)
          × (revalidate key s file policy now t ≡ (drop key s (refusal reason) t, refused reason)))
unfolding revalidate
revalidate-cases key s file policy now t =
    elim (Option-cases (first_refusal (clock_refusal policy now s) (revocation file s))) [
      | inr (reason, e) ↦ inr (reason, e, rw (e, revalidate))
      | inl e ↦
          let clock : clock_refusal policy now s ≡ none = ground (arith, e) in
          let account : revocation file s ≡ none = ground (arith, e, clock) in
          let (user, found, epoch, present, able, credential, password) =
            revocation-none file s account in
          let (ttl, busy) = clock_refusal-none policy now s clock in
          inl (
            user,
            record {
              found = found;
              within_ttl = ttl;
              not_idle = busy;
              epoch = epoch;
              present = present;
              able = able;
              credential = credential;
              password = password;
              touch = refl;
            },
            rw (e, revalidate) (rw found),
          )
    ]

module _ (p : Platform) where
  -- Every key of the table is a token's digest.
  abbrev pub IsKeyed : List (Text × UiSession) → Type 0
  IsKeyed [] = Unit {0}
  IsKeyed ((key, s) ∷ m) = ((token : Text) × (key ≡ p.sha256 token)) × IsKeyed m

  digests_equal-beq :
      (a b : Text) → digests_equal p (p.sha256 a) (p.sha256 b) ≡ (p.sha256 a == p.sha256 b)
  unfolding digests_equal
  digests_equal-beq a b = elim (Bool-cases (p.sha256 a == p.sha256 b)) [
    | inl same ↦
        rw ((text_beq_iff _ _).0 same, beq_refl (p.hex_bytes (p.sha256 b)), beq_refl (p.sha256 b))
    | inr other ↦ rw other (
        beq_ne (p.hex_bytes (p.sha256 a)) (p.hex_bytes (p.sha256 b)) λ e.
          absurd (
            ground
              (arith, other, text_beq_iff (p.sha256 a) (p.sha256 b), p.hex_bytes-sha256 a b e)))
  ]

  abbrev keyed : Text → Option UiSession → Option (Text × UiSession)
  keyed key none = none
  keyed key (some s) = some (key, s)

  -- The scan by bytes finds what a lookup by key would.
  pub find_digest-get :
      (token : Text) (m : List (Text × UiSession))
      → IsKeyed m
      → find_digest p (p.sha256 token) m ≡ keyed (p.sha256 token) (get (p.sha256 token) m)
  unfolding find_digest get
  find_digest-get token [] h = refl
  find_digest-get token ((key, s) ∷ m) h =
      let bytes : digests_equal p key (p.sha256 token) ≡ (key == p.sha256 token) =
        rw h.0.1 (digests_equal-beq h.0.0 token) in
      ground (arith, bytes, text_beq_iff key (p.sha256 token), find_digest-get token m h.1)

  -- Whoever gets through presents the token of a stored session which met every predicate: its
  -- budgets, the session epoch, an account that is there and enabled, and the account's epochs. The
  -- session that is handed on, and stored, carries the account's role as it is now.
  pub validate_sound :
      (token : Option Text) (file : UsersFile) (policy : SessionPolicy) (now : ℕ)
      (t t' : SessionTable) (s' : UiSession) (user : UiUser)
      → validate p token file policy now t ≡ (t', valid s' user)
      → (presented : Text) × (key : Text) × (s : UiSession) × (token ≡ some presented)
        × (find_digest p (p.sha256 presented) t.by_digest ≡ some (key, s))
        × Admitted s file policy now s' user
        × (t' ≡ record t { by_digest = set key s' t.by_digest })
  unfolding validate
  validate_sound none file policy now t t' s' user h = absurd (ground arith)
  validate_sound (some []) file policy now t t' s' user h = absurd (ground arith)
  validate_sound (some (c ∷ cs)) file policy now t t' s' user h =
      elim (Option-cases (find_digest p (p.sha256 (c ∷ cs)) t.by_digest)) [
        | inl missing ↦ absurd (ground (arith, missing))
        | inr ((key, s), found) ↦
            let r : revalidate key s file policy now t ≡ (t', valid s' user) = rw found at h in
            elim (revalidate-cases key s file policy now t) [
              | inr (reason, e, q) ↦ absurd (ground (arith, r, q))
              | inl (who, a, q) ↦
                  let same : who ≡ user = cc (r, q) in
                  let left : touched who now s ≡ s' = cc (r, q) in
                  (
                    c ∷ cs,
                    key,
                    s,
                    refl,
                    found,
                    subst₂ (λ v u. Admitted s file policy now v u) left same a,
                    ground (arith, r, q),
                  )
            ]
      ]

  set-IsKeyed :
      (token : Text) (s : UiSession) (m : List (Text × UiSession))
      → IsKeyed m
      → IsKeyed (set (p.sha256 token) s m)
  unfolding set
  set-IsKeyed token s [] h = ((token, refl), tt)
  set-IsKeyed token s ((key, r) ∷ m) h = elim (Bool-cases (key == p.sha256 token)) [
    | inl same ↦ rw same h
    | inr other ↦ rw other (h.0, set-IsKeyed token s m h.1)
  ]

  -- A session is good at once for whoever holds its token, as long as nothing changes: until its
  -- lifetime or its idle time is over.
  pub issue-validate :
      (c : ℕ) (cs id remote_addr : Text) (user : UiUser) (file : UsersFile)
      (workbench_sub : Option Text) (policy : SessionPolicy) (now later : ℕ) (t : SessionTable)
      → IsKeyed t.by_digest
      → find_user user.login file.users ≡ some user
      → truthy user.deleted_at ≡ false
      → truthy user.disabled_at ≡ false
      → later < now + policy.ttl_hours * 3_600_000
      → later < now + policy.idle_minutes * 60_000
      → let (u, s) = issue p (c ∷ cs) id user file remote_addr workbench_sub now t in
        (validate p (some (c ∷ cs)) file policy later u).1 ≡ valid (touched user later s) user
  unfolding issue validate
  issue-validate c cs id remote_addr user file workbench_sub policy now later t k found present able
        ttl busy =
      let s : UiSession = session_for id user file remote_addr workbench_sub now in
      let at : find_digest p (p.sha256 (c ∷ cs)) (set (p.sha256 (c ∷ cs)) s t.by_digest)
          ≡ some (p.sha256 (c ∷ cs), s) =
        find_digest-get (c ∷ cs) _ (set-IsKeyed (c ∷ cs) s t.by_digest k)
        ∙ rw (get-set_self (p.sha256 (c ∷ cs)) s t.by_digest) refl in
      let a : Admitted s file policy later (touched user later s) user = record {
        found = found;
        within_ttl = ttl;
        not_idle = busy;
        epoch = omega arith;
        present = present;
        able = able;
        credential = omega arith;
        password = omega arith;
        touch = refl;
      } in
      rw
        (
          at,
          revalidate-admits (p.sha256 (c ∷ cs)) s (touched user later s) file policy later _ user a,
        )
        refl
