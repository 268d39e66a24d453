-- ===== src/Ui/Users/Lookup.antt =====
-- What the changes of `UsersStore` do to the account that a later `find` answers.
use hx_fortress.Prelude.{
  ℕ, ◌≡◌, refl, inl, inr, false, not, Text, text_eq, text_beq_iff, List, [], ◌∷◌, ◌++◌, Option,
  none, some, if◌then◌else◌, ◌==◌, arith, keep_if, Option-cases,
}
use hx_fortress.Platform.{Platform}
use hx_fortress.Ui.Users.{
  UiRole, UiUser, UsersFile, ok, truthy, named, find_user, live_user, map_named, map_user,
  fresh_user, create, disabled, disable, removed, remove, renewed, reset,
}

abbrev pub map_found : (UiUser → UiUser) → Option UiUser → Option UiUser
map_found fn none = none
map_found fn (some u) = some (fn u)

pub find_user-map_named :
    (login key : Text) (fn : UiUser → UiUser) (us : List UiUser)
    → ((u : UiUser) → u.login ≡ login → (fn u).login ≡ login)
    → find_user key (map_named login fn us)
      ≡ (if login == key then map_found fn (find_user key us) else find_user key us)
unfolding find_user map_named
find_user-map_named login key fn [] same = ground arith
find_user-map_named login key fn (u ∷ us) same = ground (
  arith,
  find_user-map_named login key fn us same,
  same u,
  text_beq_iff login key,
  text_beq_iff u.login login,
  text_beq_iff u.login key,
)

pub map_user-ok :
    (file file' : UsersFile) (login : Text) (fn : UiUser → UiUser)
    → map_user file login fn ≡ ok file'
    → (u : UiUser) × (find_user login file.users ≡ some u)
      × (truthy u.deleted_at ≡ false)
      × (file' ≡ record file { users = map_named login fn file.users })
unfolding map_user
map_user-ok file file' login fn h = elim (Option-cases (find_user login file.users)) [
  | inl e ↦ absurd (ground (arith, e))
  | inr (u, e) ↦ (u, e, ground (arith, e), ground (arith, e))
]

pub map_user-some :
    (file : UsersFile) (login : Text) (fn : UiUser → UiUser) (u : UiUser)
    → find_user login file.users ≡ some u
    → u.deleted_at ≡ none
    → map_user file login fn ≡ ok (record file { users = map_named login fn file.users })
unfolding map_user
map_user-some file login fn u found active = ground (arith, found, active)

find_user-keep :
    (login key : Text) (us : List UiUser)
    → find_user key (keep_if (λ u. not (named login u)) us)
      ≡ (if login == key then none else find_user key us)
unfolding find_user keep_if
find_user-keep login key [] = ground arith
find_user-keep login key (u ∷ us) = ground (
  arith,
  find_user-keep login key us,
  text_beq_iff login key,
  text_beq_iff u.login login,
  text_beq_iff u.login key,
)

find_user-append :
    (key : Text) (us : List UiUser) (v : UiUser)
    → find_user key (us ++ v ∷ [])
      ≡ elim (find_user key us) [ none ↦ if named key v then some v else none | some u ↦ some u ]
unfolding find_user
find_user-append key [] v = refl
find_user-append key (u ∷ us) v = ground (arith, find_user-append key us v)

-- An account is created only where no live one has the login; it is found under that login, with
-- every epoch at zero, and every other login is found as before.
pub create-find :
    (p : Platform) (token login key : Text) (role : UiRole) (now : ℕ) (file file' : UsersFile)
    → create p token login role now file ≡ ok file'
    → (live_user file login ≡ none)
      × (find_user key file'.users ≡ (
          if login == key
          then some (fresh_user p token login role now)
          else find_user key file.users))
      × (file'.session_epoch ≡ file.session_epoch)
unfolding create
create-find p token login key role now file file' h = elim (Option-cases (live_user file login)) [
  | inr (u, e) ↦ absurd (ground (arith, e))
  | inl e ↦ (
    e,
    ground (
      arith,
      e,
      find_user-append key (keep_if (λ u. not (named login u)) file.users)
          (fresh_user p token login role now),
      find_user-keep login key file.users,
      text_beq_iff login key,
    ),
    ground (arith, e),
  )
]

-- The changes that go through `mapUser`: what each makes of the account, and that it touches no
-- other, nor the session epoch.
abbrev pub Changed : Text → (UiUser → UiUser) → UsersFile → UsersFile → Type 0
Changed login fn file file' =
    (u : UiUser) × (find_user login file.users ≡ some u)
    × (truthy u.deleted_at ≡ false)
    × ((key : Text)
        → find_user key file'.users
          ≡ (if login == key then some (fn u) else find_user key file.users))
    × (file'.session_epoch ≡ file.session_epoch)

map_user-Changed :
    (file file' : UsersFile) (login : Text) (fn : UiUser → UiUser)
    → ((u : UiUser) → u.login ≡ login → (fn u).login ≡ login)
    → map_user file login fn ≡ ok file'
    → Changed login fn file file'
unfolding live_user
map_user-Changed file file' login fn same h =
    let (u, found, live, e) = map_user-ok file file' login fn h in
    (
      u,
      found,
      live,
      λ key. ground (
        arith,
        e,
        found,
        find_user-map_named login key fn file.users same,
        text_beq_iff login key,
      ),
      ground (arith, e),
    )

pub disable-Changed :
    (p : Platform) (login : Text) (now : ℕ) (file file' : UsersFile)
    → disable p login now file ≡ ok file'
    → Changed login (disabled p now) file file'
unfolding disable
disable-Changed p login now file file' h =
    map_user-Changed file file' login (disabled p now) (λ u e. e) h

pub remove-Changed :
    (p : Platform) (login : Text) (now : ℕ) (file file' : UsersFile)
    → remove p login now file ≡ ok file'
    → Changed login (removed p now) file file'
unfolding remove
remove-Changed p login now file file' h =
    map_user-Changed file file' login (removed p now) (λ u e. e) h

pub reset-Changed :
    (p : Platform) (token login : Text) (now : ℕ) (file file' : UsersFile)
    → reset p token login now file ≡ ok file'
    → Changed login (renewed p token now) file file'
unfolding reset
reset-Changed p token login now file file' h =
    map_user-Changed file file' login (renewed p token now) (λ u e. e) h
