-- ===== src/Ui/Users.antt =====
-- src/ui/users.ts, the accounts of the console: `UsersFile` and the changes that `UsersStore` makes to
-- it under the lock. An instant is a number of milliseconds; in the file it is a text, by `Platform`.
-- The random token, the password's hash and the clock are arguments.
pub mod Lookup
pub mod Setup
pub mod Epochs
mod Tests
use hx_fortress.Prelude.{
  ℕ, zero, suc, ◌+◌, ◌*◌, ◌≡◌, Bool, true, false, ◌&&◌, ◌||◌, not, Text, codes, text_eq, List, [],
  ◌∷◌, ◌++◌, map, Option, none, some, if◌then◌else◌, ◌==◌, leb, ltb, nat_beq, length, keep_if, find,
  any,
}
use hx_fortress.Platform.{Platform}

pub data UiRole : Type 0 where
  operator readonly : UiRole

abbrev pub min_password_length : ℕ
min_password_length = 10

abbrev pub setup_token_ttl_ms : ℕ
setup_token_ttl_ms = 24 * 60 * 60 * 1000

pub record SetupTokenRecord : Type 0 where
  pub digest : Text
  pub created_at : Text
  pub expires_at : Text

pub record UiUser : Type 0 where
  pub login : Text
  pub role : UiRole
  pub pwd_hash : Option Text
  pub pwd_version : ℕ
  pub created_at : Text
  pub disabled_at : Option Text
  pub deleted_at : Option Text
  pub lockout_epoch : ℕ
  pub credential_epoch : ℕ
  pub setup_tokens : List SetupTokenRecord

pub record UsersFile : Type 0 where
  pub version : ℕ
  pub session_epoch : ℕ
  pub users : List UiUser

abbrev pub empty_users_file : UsersFile
empty_users_file = record { version = 0; session_epoch = 0; users = [] }

-- A `string | null` as a condition: null and the empty string are false.
abbrev pub truthy : Option Text → Bool
truthy none = false
truthy (some []) = false
truthy (some (c ∷ cs)) = true

-- `a ?? b`.
abbrev pub or_else : Option Text → Text → Text
or_else none b = b
or_else (some a) b = a

pub data UsersError : Type 0 where
  already_exists no_such_user link_invalid password_too_short : UsersError

pub data Result {ℓ} (A : Type ℓ) : Type ℓ where
  ok : A → Result A
  err : UsersError → Result A

-- An error ends the chain of an `update`.
abbrev pub ◌>>=◌ {ℓ κ} : {V : Type ℓ} {W : Type κ} → Result V → (V → Result W) → Result W
err problem >>= next = err problem
ok value >>= next = next value

abbrev pub ◌>>◌ {ℓ} : {W : Type ℓ} → Result (Unit {0}) → Result W → Result W
err problem >> next = err problem
ok done >> next = next

infixl 5 ◌>>=◌ ◌>>◌
abbrev pub named : Text → UiUser → Bool
named login u = u.login == login

-- `file.users.find((u) => u.login === login)`.
unfoldable pub find_user : Text → List UiUser → Option UiUser
unfolding find
find_user login users = find (named login) users

abbrev pub live_of : Option UiUser → Option UiUser
live_of none = none
live_of (some u) = if truthy u.deleted_at then none else some u

unfoldable pub live_user : UsersFile → Text → Option UiUser
live_user file login = live_of (find_user login file.users)

abbrev pub eligible_of : Option UiUser → Option UiUser
eligible_of none = none
eligible_of (some u) = if not (truthy u.disabled_at) && truthy u.pwd_hash then some u else none

unfoldable pub sign_in_eligible : UsersFile → Text → Option UiUser
unfolding live_user
sign_in_eligible file login = eligible_of (live_user file login)

-- `users.map((u) => (u.login === login ? fn(u) : u))`.
unfoldable pub map_named : Text → (UiUser → UiUser) → List UiUser → List UiUser
map_named login fn [] = []
map_named login fn (u ∷ us) = (if named login u then fn u else u) ∷ map_named login fn us

unfoldable pub map_user : UsersFile → Text → (UiUser → UiUser) → Result UsersFile
unfolding live_user
map_user file login fn = elim (live_user file login) [
  | none ↦ err no_such_user
  | some u ↦ ok (record file { users = map_named login fn file.users })
]

-- `checkPasswordPolicy`.
unfoldable pub check_password_policy : Text → Result (Unit {0})
check_password_policy password =
    if ltb (length password) min_password_length then err password_too_short else ok tt

-- `LOGIN_PATTERN`: /^[a-z0-9][a-z0-9._-]{1,63}$/.
abbrev pub login_head : ℕ → Bool
login_head c = (leb b'a' c && leb c b'z') || (leb b'0' c && leb c b'9')

abbrev pub login_tail : ℕ → Bool
login_tail c = login_head c || (nat_beq c b'.' || (nat_beq c b'_' || nat_beq c b'-'))

unfoldable pub all_tail : Text → Bool
all_tail [] = true
all_tail (c ∷ cs) = login_tail c && all_tail cs

unfoldable pub check_login : Text → Bool
unfolding all_tail
check_login [] = false
check_login (c ∷ cs) = login_head c && (all_tail cs && (leb 1 (length cs) && leb (length cs) 63))

abbrev pub completed : Text → UiUser → UiUser
completed hash u = record u {
  pwd_hash = some hash;
  pwd_version = u.pwd_version + 1;
  setup_tokens = [];
}

module _ (p : Platform) where
  open p use {sha256, hex_bytes, to_iso, date_parse}

  -- `Buffer.from(hex)` on both sides, equal length and bytes.
  unfoldable pub digests_equal : Text → Text → Bool
  digests_equal a b = hex_bytes a == hex_bytes b

  unfoldable pub mint_setup_token : Text → ℕ → SetupTokenRecord
  mint_setup_token token now = record {
    digest = sha256 token;
    created_at = to_iso now;
    expires_at = to_iso (now + setup_token_ttl_ms);
  }

  -- `Date.parse(record.expiresAt) > now`.
  abbrev pub unexpired : ℕ → SetupTokenRecord → Bool
  unexpired now r = elim (date_parse r.expires_at) [ none ↦ false | some at ↦ ltb now at ]

  -- The first record of that digest decides.
  unfoldable pub live_setup_token : List SetupTokenRecord → Text → ℕ → Option SetupTokenRecord
  unfolding digests_equal
  live_setup_token [] token now = none
  live_setup_token (r ∷ rs) token now =
      if digests_equal r.digest (sha256 token)
      then (if unexpired now r then some r else none)
      else live_setup_token rs token now

  abbrev pub holds_token : Text → ℕ → UiUser → Bool
  holds_token token now u =
      not (truthy u.deleted_at || truthy u.disabled_at)
      && (elim (live_setup_token u.setup_tokens token now) [ none ↦ false | some r ↦ true ])

  unfoldable pub find_user_by_setup_token : List UiUser → Text → ℕ → Option UiUser
  unfolding find
  find_user_by_setup_token users token now = find (holds_token token now) users

  -- The changes of `UsersStore`, each the function that `update` runs under the lock.
  abbrev pub fresh_user : Text → Text → UiRole → ℕ → UiUser
  fresh_user token login role now = record {
    login = login;
    role = role;
    pwd_hash = none;
    pwd_version = 0;
    created_at = to_iso now;
    disabled_at = none;
    deleted_at = none;
    lockout_epoch = 0;
    credential_epoch = 0;
    setup_tokens = mint_setup_token token now ∷ [];
  }

  unfoldable pub create : Text → Text → UiRole → ℕ → UsersFile → Result UsersFile
  unfolding live_user keep_if
  create token login role now current = elim (live_user current login) [
    | some u ↦ err already_exists
    | none ↦ ok (record current {
      users =
          keep_if (λ u. not (named login u)) current.users ++ fresh_user token login role now ∷ [];
    })
  ]

  abbrev pub disabled : ℕ → UiUser → UiUser
  disabled now u = record u {
    disabled_at = some (or_else u.disabled_at (to_iso now));
    setup_tokens = [];
    credential_epoch = u.credential_epoch + 1;
  }

  unfoldable pub disable : Text → ℕ → UsersFile → Result UsersFile
  unfolding map_user
  disable login now current = map_user current login (disabled now)

  abbrev pub removed : ℕ → UiUser → UiUser
  removed now u = record u {
    deleted_at = some (or_else u.deleted_at (to_iso now));
    setup_tokens = [];
    credential_epoch = u.credential_epoch + 1;
  }

  unfoldable pub remove : Text → ℕ → UsersFile → Result UsersFile
  unfolding map_user
  remove login now current = map_user current login (removed now)

  abbrev pub renewed : Text → ℕ → UiUser → UiUser
  renewed token now u = record u {
    setup_tokens = mint_setup_token token now ∷ [];
    lockout_epoch = u.lockout_epoch + 1;
    credential_epoch = u.credential_epoch + 1;
  }

  unfoldable pub reset : Text → Text → ℕ → UsersFile → Result UsersFile
  unfolding map_user
  reset token login now current = map_user current login (renewed token now)

  -- `users.map((u) => (u.login === next.login ? next : u))`, and the user it answers.
  unfoldable pub complete_setup : Text → Text → Text → ℕ → UsersFile → Result (UiUser × UsersFile)
  unfolding check_password_policy find_user_by_setup_token map_named
  complete_setup token password hash now current = do
    check_password_policy password
    elim (find_user_by_setup_token current.users token now) [
      | none ↦ err link_invalid
      | some u ↦
          let next = completed hash u in
          ok (next, record current { users = map_named u.login (λ _. next) current.users })
    ]

unfoldable pub bump_session_epoch : UsersFile → UsersFile
bump_session_epoch current = record current { session_epoch = current.session_epoch + 1 }
