-- ===== src/Ui/Users/Tests.antt =====
-- The accounts file at work: an account, its link, and a reset.
use hx_fortress.Prelude.{
  map, ◌≢◌, ◌≤◌, ◌≡◌, refl, ◌⊎◌, inl, true, false, Text, codes, text_beq, [], ◌∷◌, some, arith,
  find, text_eq, length,
}
use hx_fortress.Platform.Toy.{toy}
use hx_fortress.Ui.Users.{
  operator, UiUser, UsersFile, ok, err, link_invalid, password_too_short, empty_users_file,
  find_user, create, complete_setup, completed, mint_setup_token, live_setup_token, holds_token,
  fresh_user, min_password_length, check_login, digests_equal,
}
use hx_fortress.Ui.Users.Setup.{complete_setup-ok, link_single_use, OnlyHolder}

abbrev alice : Text
alice = codes "alice"

abbrev link : Text
link = codes "link-1"

abbrev password : Text
password = codes "correct horse"

abbrev alice_user : UiUser
alice_user = fresh_user toy link alice operator 1_000

abbrev with_alice : UsersFile
with_alice = record { version = 1; session_epoch = 0; users = alice_user ∷ [] }

create-alice :
    create toy link alice operator 1_000 empty_users_file
    ≡ ok (record empty_users_file { users = alice_user ∷ [] })
unfolding create find_user
create-alice = refl

logins_checked :
    map check_login (codes "a1" ∷ codes "a b" ∷ codes "A1" ∷ codes "x" ∷ [])
    ≡ true ∷ false ∷ false ∷ false ∷ []
unfolding check_login
logins_checked = refl

links_differ : codes "link-2" ≢ link
links_differ e = ground (arith, e)

abbrev after_setup : UsersFile
after_setup = record with_alice { users = completed (codes "hash") alice_user ∷ [] }

setup_done :
    complete_setup toy link password (codes "hash") 2_000 with_alice
    ≡ ok (completed (codes "hash") alice_user, after_setup)
unfolding complete_setup live_setup_token digests_equal mint_setup_token text_beq find
setup_done = refl

complete_setup-ok_example :
    (min_password_length ≤ length password)
    × ((u : UiUser) × (holds_token toy link 2_000 u ≡ true)
        × (completed (codes "hash") alice_user ≡ completed (codes "hash") u)
        × (find_user alice after_setup.users ≡ some (completed (codes "hash") alice_user))
        × (0 ≡ with_alice.session_epoch))
unfolding text_beq
complete_setup-ok_example =
    complete_setup-ok toy link password (codes "hash") alice 2_000 with_alice after_setup
      (completed (codes "hash") alice_user) setup_done

only_alice : OnlyHolder toy alice link 3_000 with_alice.users
unfolding text_beq
only_alice = (inl refl, tt)

link_single_use_example :
    (complete_setup toy link password (codes "h2") 3_000 after_setup ≡ err link_invalid)
    ⊎ (complete_setup toy link password (codes "h2") 3_000 after_setup ≡ err password_too_short)
link_single_use_example =
    link_single_use toy link password password (codes "hash") (codes "h2") 2_000 3_000 with_alice
      after_setup (completed (codes "hash") alice_user) setup_done only_alice

alice_found : find_user alice with_alice.users ≡ some alice_user
unfolding find_user text_beq
alice_found = refl
