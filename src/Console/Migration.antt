-- ===== src/Console/Migration.antt =====
-- src/console/migration.ts, the objects: what a storage migration copies, compares, deletes and
-- verifies. The two stores are behind one interface, which src/modules/session-vault/store/types.ts
-- states; the source is one state here, as it is while the pause holds it still, and the target's
-- state is passed on. The beats between objects, which hold the pause, are in Console/Migration/Swap.
pub mod Contract
pub mod Copying
pub mod Copied
pub mod Delta
pub mod Passes
pub mod Verified
pub mod Converges
pub mod Whole
pub mod Succeeds
mod Toy
mod Tests
use hx_fortress.Prelude.{
  ℕ, zero, suc, ◌+◌, ◌-◌, ◌*◌, ◌/◌, ◌%◌, ◌≤◌, ◌<◌, min, max, ◌≡◌, refl, sym, ap, subst, ◌∙◌, ◌≢◌,
  ◌↔◌, ◌⊎◌, inl, inr, Bool, true, false, ◌&&◌, ◌||◌, not, Option, none, some, List, [], ◌∷◌, ◌++◌,
  map, arith, ltb, leb, nat_beq, if◌then◌else◌, Bool-cases, Option-cases, Eq, ◌==◌, nat_eq,
  beq_refl, beq_ne, length, keep_if, any, find, All, Among, Among-append, Among-last, Among-keep_if,
  keep_if-Among, Text, codes, text_beq, text_beq_iff, text_eq, get, set, delete, IsMap, prune,
  pruned, get-set, get-set_self, get-set_ne, get-delete, Try, value, thrown, ◌>>=◌, or_throw,
}

pub record SessionKey : Type 0 where
  pub user_id : Text
  pub family : Text
  pub session_id : Text

unfoldable pub key_beq : SessionKey → SessionKey → Bool
key_beq a b =
    text_beq a.user_id b.user_id
    && (text_beq a.family b.family && text_beq a.session_id b.session_id)

pub key_beq_iff : (a b : SessionKey) → (key_beq a b ≡ true) ↔ (a ≡ b)
unfolding key_beq
key_beq_iff a b = ground (
  arith,
  text_beq_iff a.user_id b.user_id,
  text_beq_iff a.family b.family,
  text_beq_iff a.session_id b.session_id,
)

instance abbrev pub key_eq : Eq SessionKey
key_eq = record { beq = key_beq; beq_iff = key_beq_iff }

-- `SessionStore`, as far as the migration uses it. `none` is a read that throws, and for an artifact
-- one that is not there; a deletion answers whether it is `complete`.
pub record Store : Type 1 where
  pub State : Type 0
  pub keys : State → List SessionKey
  pub stat : State → SessionKey → Option ℕ
  pub read_canonical : State → SessionKey → Option Text
  pub write_canonical : State → SessionKey → Text → State
  pub artifacts : State → SessionKey → List Text
  pub read_artifact : State → SessionKey → Text → Option Text
  pub write_artifact : State → SessionKey → Text → Text → State
  pub delete_session : State → SessionKey → State × Bool

pub data MigrationError : Type 0 where
  unreadable not_converged : SessionKey → MigrationError
  checksum_mismatch : SessionKey → MigrationError
  artifact_mismatch : SessionKey → Text → MigrationError

pub record CopiedObject : Type 0 where
  pub key : SessionKey
  pub checksum : Text
  pub bytes : ℕ

-- `[userId, family, sessionId].join("/")`.
unfoldable pub session_ref : SessionKey → Text
session_ref key = key.user_id ++ b'/' ∷ (key.family ++ b'/' ∷ key.session_id)

abbrev pub max_delete_passes : ℕ
max_delete_passes = 800

-- `stat === wanted`.
abbrev pub same_size : Option ℕ → ℕ → Bool
same_size none wanted = false
same_size (some size) wanted = nat_beq size wanted

abbrev pub has_ref : Text → List Text → Bool
has_ref ref refs = any (λ r. text_beq r ref) refs

abbrev pub forget_refs : List SessionKey → List Text → List Text
forget_refs behind refs = keep_if (λ r. not (any (λ k. text_beq (session_ref k) r) behind)) refs

pub data Missing : Type 0 where
  missing_session short_session : SessionKey → Missing
  missing_sidecar : SessionKey → Text → Missing

unfoldable pub missing_sidecars : SessionKey → List Text → List Text → List Missing
missing_sidecars key landed [] = []
missing_sidecars key landed (name ∷ names) =
    let rest = missing_sidecars key landed names in
    if has_ref name landed then rest else missing_sidecar key name ∷ rest

abbrev pub short_of : Option ℕ → ℕ → SessionKey → List Missing
short_of none landed key = []
short_of (some wanted) landed key = if ltb landed wanted then short_session key ∷ [] else []

module _ (T : Store) where
  -- What a run has done so far: the target, `done`, and its counters and records.
  pub record Progress : Type 0 where
    pub target : T.State
    pub done_refs : List Text
    pub sessions_copied : ℕ
    pub bytes_copied : ℕ
    pub copied : List CopiedObject

  abbrev pub counted : Progress → SessionKey → T.State × CopiedObject → Progress
  counted p key answer = record {
    target = answer.0;
    done_refs = p.done_refs ++ session_ref key ∷ [];
    sessions_copied = p.sessions_copied + 1;
    bytes_copied = p.bytes_copied + answer.1.bytes;
    copied = p.copied ++ answer.1 ∷ [];
  }

-- The digest, and the bytes of a text in UTF-8.
module _ (sha256 : Text → Text) (byte_length : Text → ℕ) (S T : Store) (source : S.State) where
  -- Whether the target's copy of an object has the digest.
  abbrev pub arrived : Option Text → Text → Bool
  arrived none text = false
  arrived (some landed) text = text_beq (sha256 landed) (sha256 text)

  unfoldable pub copy_artifacts : SessionKey → List Text → T.State → Try MigrationError T.State
  copy_artifacts key [] target = value target
  copy_artifacts key (name ∷ names) target = elim (S.read_artifact source key name) [
    | none ↦ copy_artifacts key names target
    | some artifact ↦
        let written = T.write_artifact target key name artifact in
        if arrived (T.read_artifact written key name) artifact
        then copy_artifacts key names written
        else thrown (artifact_mismatch key name)
  ]

  -- The canonical, read back; then each sidecar that the listing names, read back.
  unfoldable pub copy_text :
      SessionKey → Text → T.State → Try MigrationError (T.State × CopiedObject)
  copy_text key text target =
      let written = T.write_canonical target key text in
      if arrived (T.read_canonical written key) text
      then (copy_artifacts key (S.artifacts source key) written >>= λ copied.
          value (copied, record { key = key; checksum = sha256 text; bytes = byte_length text }))
      else thrown (checksum_mismatch key)

  unfoldable pub copy_session : SessionKey → T.State → Try MigrationError (T.State × CopiedObject)
  copy_session key target =
      or_throw (S.read_canonical source key) (unreadable key) >>= λ text. copy_text key text target

  -- The sidecars of the final pass: each that the source still has is in the target with its digest.
  unfoldable pub sidecars_current : SessionKey → List Text → T.State → Bool
  sidecars_current key [] target = true
  sidecars_current key (name ∷ names) target = elim (S.read_artifact source key name) [
    | none ↦ sidecars_current key names target
    | some artifact ↦
        arrived (T.read_artifact target key name) artifact && sidecars_current key names target
  ]

  unfoldable pub target_is_current : SessionKey → Bool → T.State → Bool
  target_is_current key also_sidecars target = elim (S.stat source key) [
    | none ↦ true
    | some wanted ↦
        same_size (T.stat target key) wanted
        && (not also_sidecars || sidecars_current key (S.artifacts source key) target)
  ]

  unfoldable pub copy_one : SessionKey → Progress T → Try MigrationError (Progress T)
  copy_one key p =
      if has_ref (session_ref key) p.done_refs && target_is_current key false p.target
      then value p
      else (copy_session key p.target >>= λ answer. value (counted T p key answer))

  unfoldable pub copy_missing : List SessionKey → Progress T → Try MigrationError (Progress T)
  copy_missing [] p = value p
  copy_missing (key ∷ keys) p = copy_one key p >>= λ q. copy_missing keys q

  -- `deltaPass`: the sessions that the target does not hold as the source does are copied again.
  unfoldable pub behind_of : Bool → T.State → List SessionKey
  behind_of also_sidecars target =
      keep_if (λ key. not (target_is_current key also_sidecars target)) (S.keys source)

  unfoldable pub delta_pass : Bool → Progress T → Try MigrationError (Progress T)
  delta_pass also_sidecars p =
      copy_missing (behind_of also_sidecars p.target)
        (record p { done_refs = forget_refs (behind_of also_sidecars p.target) p.done_refs })

  -- `deleteSession` until it is complete, in so many passes.
  unfoldable pub delete_until : ℕ → SessionKey → T.State → Try MigrationError T.State
  delete_until zero key target = thrown (not_converged key)
  delete_until (suc passes) key target =
      let rest = delete_until passes key (T.delete_session target key).0 in
      if (T.delete_session target key).1 then value (T.delete_session target key).0 else rest

  unfoldable pub replay_tombstones : List SessionKey → T.State → Try MigrationError T.State
  replay_tombstones [] target = value target
  replay_tombstones (key ∷ keys) target =
      delete_until max_delete_passes key target >>= λ t. replay_tombstones keys t

  unfoldable pub verify_session : SessionKey → T.State → List Missing
  verify_session key target = elim (T.stat target key) [
    | none ↦ missing_session key ∷ []
    | some landed ↦
        short_of (S.stat source key) landed key
        ++ missing_sidecars key (T.artifacts target key) (S.artifacts source key)
  ]

  unfoldable pub verify_keys : List SessionKey → T.State → List Missing
  verify_keys [] target = []
  verify_keys (key ∷ keys) target = verify_session key target ++ verify_keys keys target

  unfoldable pub verify_target : T.State → List Missing
  verify_target target = verify_keys (S.keys source) target
