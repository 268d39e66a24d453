-- ===== src/Ui/Sessions.antt =====
-- src/ui/sessions.ts, `SessionTable`: who is signed in, revalidated on every request against the
-- accounts file as it is now. Random tokens and ids, the file and the clock are arguments; `told`
-- records the calls that the drop listeners receive, in order.
pub mod Validate
pub mod Edits
pub mod Revocation
pub mod Drops
mod Tests
use hx_fortress.Prelude.{
  ℕ, zero, suc, ◌+◌, ◌*◌, ◌≡◌, Bool, true, false, ◌&&◌, ◌||◌, not, Text, text_eq, nat_eq, List, [],
  ◌∷◌, ◌++◌, map, Option, none, some, if◌then◌else◌, ◌==◌, leb, ltb, length, get, set, delete,
}
use hx_fortress.Platform.{Platform}
use hx_fortress.Ui.Users.{UiRole, UiUser, UsersFile, truthy, find_user, digests_equal}

pub record UiSession : Type 0 where
  pub id : Text
  pub user_login : Text
  pub role : UiRole
  pub created_at : ℕ
  pub last_seen_at : ℕ
  pub remote_addr : Text
  pub workbench_sub : Option Text
  pub session_epoch : ℕ
  pub credential_epoch : ℕ
  pub pwd_version : ℕ

pub record SessionPolicy : Type 0 where
  pub ttl_hours : ℕ
  pub idle_minutes : ℕ

pub data SessionRefusal : Type 0 where
  no_token unknown_session expired idle user_gone user_disabled credentials_changed revoked :
      SessionRefusal

-- `SessionDropReason`: a refusal, `"revoked"` among them, or the end that somebody asked for.
pub data DropReason : Type 0 where
  refusal : SessionRefusal → DropReason
  logout shutdown : DropReason

pub data SessionCheck : Type 0 where
  valid : UiSession → UiUser → SessionCheck
  refused : SessionRefusal → SessionCheck

pub record SessionTable : Type 0 where
  pub by_digest : List (Text × UiSession)
  pub drop_listeners : List ℕ
  pub told : List (ℕ × UiSession × DropReason)

abbrev pub listener_added : ℕ → List ℕ → List ℕ
listener_added listener [] = listener ∷ []
listener_added listener (l ∷ ls) = if l == listener then l ∷ ls else l ∷ listener_added listener ls

abbrev pub listener_gone : ℕ → List ℕ → List ℕ
listener_gone listener [] = []
listener_gone listener (l ∷ ls) =
    if l == listener then listener_gone listener ls else l ∷ listener_gone listener ls

-- A `Set` of listeners: adding one twice keeps it once.
unfoldable pub on_drop : ℕ → SessionTable → SessionTable
on_drop listener t = record t { drop_listeners = listener_added listener t.drop_listeners }

-- The function that `onDrop` answers.
unfoldable pub off_drop : ℕ → SessionTable → SessionTable
off_drop listener t = record t { drop_listeners = listener_gone listener t.drop_listeners }

-- `for (const listener of this.dropListeners) listener(session, reason)`; one that throws is passed
-- over.
unfoldable pub notices : List ℕ → UiSession → DropReason → List (ℕ × UiSession × DropReason)
notices [] s reason = []
notices (l ∷ ls) s reason = (l, s, reason) ∷ notices ls s reason

unfoldable pub drop : Text → UiSession → DropReason → SessionTable → SessionTable
drop key s reason t = record t {
  by_digest = delete key t.by_digest;
  told = t.told ++ notices t.drop_listeners s reason;
}

abbrev pub session_for : Text → UiUser → UsersFile → Text → Option Text → ℕ → UiSession
session_for id user file remote_addr workbench_sub now = record {
  id = id;
  user_login = user.login;
  role = user.role;
  created_at = now;
  last_seen_at = now;
  remote_addr = remote_addr;
  workbench_sub = workbench_sub;
  session_epoch = file.session_epoch;
  credential_epoch = user.credential_epoch;
  pwd_version = user.pwd_version;
}

-- The two clock predicates.
unfoldable pub clock_refusal : SessionPolicy → ℕ → UiSession → Option SessionRefusal
clock_refusal policy now s =
    if leb (s.created_at + policy.ttl_hours * 3_600_000) now
    then some expired
    else if leb (s.last_seen_at + policy.idle_minutes * 60_000) now
    then some idle
    else none

-- The account's predicates, over what `users.find` answers.
abbrev pub account_refusal : UiSession → Option UiUser → Option SessionRefusal
account_refusal s none = some user_gone
account_refusal s (some user) =
    if truthy user.deleted_at
    then some user_gone
    else if truthy user.disabled_at
    then some user_disabled
    else if ltb s.credential_epoch user.credential_epoch || ltb s.pwd_version user.pwd_version
    then some credentials_changed
    else none

-- The revocation predicates: the session epoch first, then the account's.
unfoldable pub revocation : UsersFile → UiSession → Option SessionRefusal
revocation file s =
    if ltb s.session_epoch file.session_epoch
    then some revoked
    else account_refusal s (find_user s.user_login file.users)

-- A session that every predicate let through: its role is the account's as it is now.
abbrev pub touched : UiUser → ℕ → UiSession → UiSession
touched user now s = record s { role = user.role; last_seen_at = now }

abbrev pub admit : Text → UiSession → ℕ → Option UiUser → SessionTable → SessionTable × SessionCheck
admit key s now none t = (t, refused user_gone)
admit key s now (some user) t = (
  record t { by_digest = set key (touched user now s) t.by_digest },
  valid (touched user now s) user,
)

abbrev pub settle :
    Text
    → UiSession
    → Option SessionRefusal
    → SessionTable × SessionCheck
    → SessionTable
    → SessionTable × SessionCheck
settle key s none admitted t = admitted
settle key s (some reason) admitted t = (drop key s (refusal reason) t, refused reason)

abbrev pub first_refusal : Option SessionRefusal → Option SessionRefusal → Option SessionRefusal
first_refusal none later = later
first_refusal (some reason) later = some reason

-- What `validate` does with the session that it found.
unfoldable pub revalidate :
    Text → UiSession → UsersFile → SessionPolicy → ℕ → SessionTable → SessionTable × SessionCheck
revalidate key s file policy now t =
    settle key s (first_refusal (clock_refusal policy now s) (revocation file s))
      (admit key s now (find_user s.user_login file.users) t) t

module _ (p : Platform) where
  open p use {sha256}

  unfoldable pub issue :
      Text
      → Text
      → UiUser
      → UsersFile
      → Text
      → Option Text
      → ℕ
      → SessionTable
      → SessionTable × UiSession
  issue token id user file remote_addr workbench_sub now t =
      let s = session_for id user file remote_addr workbench_sub now in
      (record t { by_digest = set (sha256 token) s t.by_digest }, s)

  -- The scan of `validate`: the first entry whose digest has the same bytes.
  unfoldable pub find_digest : Text → List (Text × UiSession) → Option (Text × UiSession)
  find_digest digest [] = none
  find_digest digest ((key, s) ∷ m) =
      if digests_equal p key digest then some (key, s) else find_digest digest m

  abbrev pub validate_found :
      Option (Text × UiSession)
      → UsersFile
      → SessionPolicy
      → ℕ
      → SessionTable
      → SessionTable × SessionCheck
  validate_found none file policy now t = (t, refused unknown_session)
  validate_found (some (key, s)) file policy now t = revalidate key s file policy now t

  unfoldable pub validate :
      Option Text → UsersFile → SessionPolicy → ℕ → SessionTable → SessionTable × SessionCheck
  validate none file policy now t = (t, refused no_token)
  validate (some []) file policy now t = (t, refused no_token)
  validate (some (c ∷ cs)) file policy now t =
      validate_found (find_digest (sha256 (c ∷ cs)) t.by_digest) file policy now t

-- The first session of that id, with its key.
unfoldable pub find_id : Text → List (Text × UiSession) → Option (Text × UiSession)
find_id id [] = none
find_id id ((key, s) ∷ m) = if s.id == id then some (key, s) else find_id id m

abbrev pub affirm : Text → UiSession → Option SessionRefusal → SessionTable → SessionTable × Bool
affirm key s none t = (t, true)
affirm key s (some reason) t = (drop key s (refusal reason) t, false)

unfoldable pub revocation_check : Text → UsersFile → SessionTable → SessionTable × Bool
revocation_check id file t = elim (find_id id t.by_digest) [
  | none ↦ (t, false)
  | some (key, s) ↦ affirm key s (revocation file s) t
]

unfoldable pub revoke : Text → DropReason → SessionTable → SessionTable × Bool
revoke id reason t = elim (find_id id t.by_digest) [
  | none ↦ (t, false)
  | some (key, s) ↦ (drop key s reason t, true)
]

-- A loop over the entries that drops those it has a reason for, and counts them.
unfoldable pub drop_where :
    (UiSession → Option DropReason) → List (Text × UiSession) → SessionTable → SessionTable × ℕ
drop_where reason_for [] t = (t, 0)
drop_where reason_for ((key, s) ∷ m) t = elim (reason_for s) [
  | none ↦ drop_where reason_for m t
  | some reason ↦ let (u, n) = drop_where reason_for m (drop key s reason t) in (u, suc n)
]

unfoldable pub revoke_user : Text → SessionTable → SessionTable × ℕ
revoke_user login t =
    drop_where (λ s. if s.user_login == login then some (refusal revoked) else none) t.by_digest t

unfoldable pub revoke_all : DropReason → SessionTable → SessionTable × ℕ
revoke_all reason t = drop_where (λ s. some reason) t.by_digest t

abbrev pub lapse_reason : Option SessionRefusal → Option DropReason
lapse_reason none = none
lapse_reason (some reason) = some (refusal reason)

unfoldable pub sweep : SessionPolicy → ℕ → SessionTable → SessionTable × ℕ
sweep policy now t = drop_where (λ s. lapse_reason (clock_refusal policy now s)) t.by_digest t

unfoldable pub size : SessionTable → ℕ
size t = length t.by_digest
