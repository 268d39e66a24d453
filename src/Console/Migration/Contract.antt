-- ===== src/Console/Migration/Contract.antt =====
-- What src/modules/session-vault/store/types.ts asks of a `SessionStore`, as far as the migration
-- relies on it: what is written is measured, a write touches its own object, and a deletion the session and
-- its lanes, whose ids begin with the session's and `:a:`.
use hx_fortress.Console.PauseGate.{starts_with}
use hx_fortress.Prelude.{
  Bool, false, ◌&&◌, ◌||◌, ◌++◌, codes, ℕ, ◌≡◌, true, none, some, nat_eq, any, Among, Text,
  text_beq, text_eq,
}
use hx_fortress.Console.Migration.{SessionKey, Store}

-- What `deleteSession` of a key deletes.
abbrev pub is_deleted_with : SessionKey → SessionKey → Bool
is_deleted_with k j =
    (text_beq k.user_id j.user_id && text_beq k.family j.family)
    && (text_beq k.session_id j.session_id
        || starts_with (k.session_id ++ codes ":a:") j.session_id)

pub record Honours (byte_length : Text → ℕ) (T : Store) : Type 0 where
  pub stat_written :
      (t : T.State) (k : SessionKey) (x : Text)
      → T.stat (T.write_canonical t k x) k ≡ some (byte_length x)
  pub write_elsewhere :
      (t : T.State) (k j : SessionKey) (x : Text)
      → (k ≡ j → ⊥)
      → T.stat (T.write_canonical t k x) j ≡ T.stat t j
  pub write_sidecars :
      (t : T.State) (k j : SessionKey) (x name : Text)
      → T.read_artifact (T.write_canonical t k x) j name ≡ T.read_artifact t j name
  pub sidecar_stat :
      (t : T.State) (k j : SessionKey) (name x : Text)
      → T.stat (T.write_artifact t k name x) j ≡ T.stat t j
  pub sidecar_canonical :
      (t : T.State) (k j : SessionKey) (name x : Text)
      → T.read_canonical (T.write_artifact t k name x) j ≡ T.read_canonical t j
  pub sidecar_elsewhere :
      (t : T.State) (k j : SessionKey) (name x other : Text)
      → (k ≡ j → ⊥)
      → T.read_artifact (T.write_artifact t k name x) j other ≡ T.read_artifact t j other
  pub sidecar_other :
      (t : T.State) (k : SessionKey) (name x other : Text)
      → (name ≡ other → ⊥)
      → T.read_artifact (T.write_artifact t k name x) k other ≡ T.read_artifact t k other
  pub delete_stat :
      (t : T.State) (k j : SessionKey)
      → is_deleted_with k j ≡ false
      → T.stat (T.delete_session t k).0 j ≡ T.stat t j
  pub delete_sidecars :
      (t : T.State) (k j : SessionKey) (name : Text)
      → is_deleted_with k j ≡ false
      → T.read_artifact (T.delete_session t k).0 j name ≡ T.read_artifact t j name
  pub delete_complete :
      (t : T.State) (k j : SessionKey)
      → (T.delete_session t k).1 ≡ true
      → is_deleted_with k j ≡ true
      → T.stat (T.delete_session t k).0 j ≡ none
  pub sidecar_listed :
      (t : T.State) (k : SessionKey) (name x : Text)
      → T.read_artifact t k name ≡ some x
      → any (λ r. text_beq r name) (T.artifacts t k) ≡ true

-- The source, which nothing writes while it is compared: its sizes are those of its texts.
pub record Measures (byte_length : Text → ℕ) (S : Store) (source : S.State) : Type 0 where
  pub stat_read :
      (k : SessionKey) (x : Text)
      → S.read_canonical source k ≡ some x
      → S.stat source k ≡ some (byte_length x)

-- The source's listings are of what it holds: each session listed has a canonical, and each sidecar
-- listed can be read.
pub record Lists (S : Store) (source : S.State) : Type 0 where
  pub listed : (k : SessionKey) → Among k (S.keys source) → (n : ℕ) × (S.stat source k ≡ some n)
  pub readable :
      (k : SessionKey) (name : Text)
      → Among name (S.artifacts source k)
      → (x : Text) × (S.read_artifact source k name ≡ some x)
