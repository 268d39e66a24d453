-- ===== src/Ui/Sessions/Tests.antt =====
-- The session table at work: alice signs in, is seen again, and is revoked in every way.
use hx_fortress.Prelude.{
  ◌+◌, ◌≡◌, refl, none, some, [], ◌∷◌, arith, nat_eq, find, Text, codes, text_beq, text_eq, set,
}
use hx_fortress.Platform.Toy.{toy}
use hx_fortress.Ui.Users.{
  bump_session_epoch, operator, readonly, UiUser, UsersFile, ok, find_user, create, remove, removed,
  renewed, complete_setup, completed, map_named, digests_equal, fresh_user, live_setup_token,
  mint_setup_token,
}
use hx_fortress.Ui.Users.Epochs.{removes, apply_change}
use hx_fortress.Ui.Sessions.{
  UiSession, SessionPolicy, valid, SessionTable, session_for, touched, find_digest, find_id,
  validate, revalidate, clock_refusal, revocation,
}
use hx_fortress.Ui.Sessions.Edits.{Edited, bumps, creates, no_more}
use hx_fortress.Ui.Sessions.Validate.{Admitted, validate_sound}
use hx_fortress.Ui.Sessions.Revocation.{Refuses, change_ends_session}

abbrev alice : Text
alice = codes "alice"

abbrev link : Text
link = codes "link"

abbrev alice_user : UiUser
alice_user = record {
  login = alice;
  role = operator;
  pwd_hash = some (codes "hash");
  pwd_version = 1;
  created_at = 1_000 ∷ [];
  disabled_at = none;
  deleted_at = none;
  lockout_epoch = 0;
  credential_epoch = 0;
  setup_tokens = [];
}

abbrev file : UsersFile
file = record { version = 2; session_epoch = 0; users = alice_user ∷ [] }

abbrev policy : SessionPolicy
policy = record { ttl_hours = 12; idle_minutes = 30 }

abbrev token : Text
token = 116 ∷ codes "oken"

abbrev alice_session : UiSession
alice_session = session_for (codes "s1") alice_user file (codes "127.0.0.1") none 5_000

abbrev table : SessionTable
table = record { by_digest = (token, alice_session) ∷ []; drop_listeners = 1 ∷ 2 ∷ []; told = [] }

in_table : find_digest toy token table.by_digest ≡ some (token, alice_session)
unfolding find_digest digests_equal text_beq
in_table = refl

by_id : find_id (codes "s1") table.by_digest ≡ some (token, alice_session)
unfolding find_id text_beq
by_id = refl

alice_found : find_user alice file.users ≡ some alice_user
unfolding find_user text_beq
alice_found = refl

seen_again : validate toy (some token) file policy 9_000 table ≡ (
  record table { by_digest = (token, touched alice_user 9_000 alice_session) ∷ [] },
  valid (touched alice_user 9_000 alice_session) alice_user,
)
unfolding validate find_digest digests_equal text_beq revalidate clock_refusal revocation find_user
    set
seen_again = refl

validate_sound_example :
    (presented : Text) × (key : Text) × (s : UiSession) × (some token ≡ some presented)
    × (find_digest toy presented table.by_digest ≡ some (key, s))
    × Admitted s file policy 9_000 (touched alice_user 9_000 alice_session) alice_user
    × (record table { by_digest = (token, touched alice_user 9_000 alice_session) ∷ [] }
        ≡ record table {
          by_digest = set key (touched alice_user 9_000 alice_session) table.by_digest;
        })
validate_sound_example =
    validate_sound toy (some token) file policy 9_000 table
      (record table { by_digest = (token, touched alice_user 9_000 alice_session) ∷ [] })
      (touched alice_user 9_000 alice_session) alice_user seen_again

abbrev file_removed : UsersFile
file_removed = record file { users = removed toy 6_000 alice_user ∷ [] }

removed_ok : remove toy alice 6_000 file ≡ ok file_removed
unfolding remove find_user text_beq map_named
removed_ok = refl

removes_ok : apply_change toy removes alice 6_000 file ≡ ok file_removed
unfolding apply_change
removes_ok = removed_ok

-- The console is turned off, and another account created, before the session is seen again.
abbrev file_off : UsersFile
file_off = record file {
  users = removed toy 6_000 alice_user ∷ [];
  session_epoch = file.session_epoch + 1;
}

abbrev file_bob : UsersFile
file_bob = record file_off {
  users = removed toy 6_000 alice_user ∷ fresh_user toy link (codes "bob") readonly 6_500 ∷ [];
}

bob_created : create toy link (codes "bob") readonly 6_500 file_off ≡ ok file_bob
unfolding create find_user text_beq
bob_created = refl

file_bob-Edited : Edited toy alice file_removed file_bob
unfolding bump_session_epoch
file_bob-Edited = bumps file_removed file_bob (
    creates link (codes "bob") readonly 6_500 file_off file_bob file_bob (λ e. ground (arith, e))
      bob_created (no_more file_bob))

change_ends_session_example : Refuses toy token file_bob policy 7_000 table token alice_session
change_ends_session_example =
    change_ends_session toy removes alice 6_000 file file_removed file_bob alice_user 116
      (codes "oken") policy 7_000 table token alice_session removes_ok file_bob-Edited alice_found
      refl (omega arith) in_table

abbrev file_again : UsersFile
file_again = record file { users = fresh_user toy link alice readonly 8_000 ∷ [] }

created_again : create toy link alice readonly 8_000 file_removed ≡ ok file_again
unfolding create find_user text_beq
created_again = refl

abbrev reset_user : UiUser
reset_user = renewed toy link 6_000 alice_user

abbrev file_reset : UsersFile
file_reset = record file { users = reset_user ∷ [] }

abbrev file_completed : UsersFile
file_completed = record file { users = completed (codes "new") reset_user ∷ [] }

reset_completed :
    complete_setup toy link (codes "correct horse") (codes "new") 7_000 file_reset
    ≡ ok (completed (codes "new") reset_user, file_completed)
unfolding complete_setup live_setup_token digests_equal mint_setup_token text_beq find
reset_completed = refl
