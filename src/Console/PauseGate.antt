-- ===== src/Console/PauseGate.antt =====
-- src/console/pause-gate.ts: the gate in front of the session store, the accounting of its in-flight
-- work and signatures, and the wait for quiet. Each call of a store method is its beginning and,
-- later, its settling, so that calls overlap; a `Date` is its milliseconds.
pub mod Routing
pub mod Quiet
pub mod Await
mod Tests
use hx_fortress.Prelude.{
  ℕ, zero, suc, ◌+◌, ◌-◌, ◌*◌, ◌≤◌, ◌<◌, min, max, ◌≡◌, refl, sym, ap, subst, ◌∙◌, ◌≢◌, ◌↔◌, ◌⊎◌,
  inl, inr, Bool, true, false, ◌&&◌, ◌||◌, not, Option, none, some, List, [], ◌∷◌, ◌++◌, map, arith,
  ltb, leb, nat_beq, if◌then◌else◌, Bool-cases, Option-cases, Eq, ◌==◌, nat_eq, beq_refl, beq_ne,
  length, keep_if, any, find, All, Text, codes, text_beq, text_eq, get, set, delete, IsMap, prune,
  pruned, get-set, get-set_self, get-set_ne, get-delete,
}
use hx_fortress.Platform.{Platform}
use hx_fortress.Console.IngestControl.{PauseState, paused_until}

abbrev pub paused_wire_prefix : Text
paused_wire_prefix = codes "vault_offline:ingest_paused:"

abbrev pub retryable_ingest_errors : List Text
retryable_ingest_errors =
    paused_wire_prefix
    ∷ codes "vault_offline"
    ∷ codes "postgres_not_ready"
    ∷ codes "store_deadline_exceeded"
    ∷ []

-- `IngestPausedError`'s message, of the instant it carries.
unfoldable pub paused_message : Platform → ℕ → Text
paused_message p until = paused_wire_prefix ++ p.to_iso until

-- `message.startsWith(prefix)`.
unfoldable pub starts_with : Text → Text → Bool
starts_with [] message = true
starts_with (c ∷ prefix) [] = false
starts_with (c ∷ prefix) (d ∷ message) = nat_beq c d && starts_with prefix message

unfoldable pub is_retryable_ingest_error : Text → Bool
is_retryable_ingest_error message =
    any (λ prefix. starts_with prefix message) retryable_ingest_errors

abbrev pub armed_presign_ttl_s : ℕ
armed_presign_ttl_s = 60

pub record IngestQuiesce : Type 0 where
  pub in_flight : ℕ
  pub signature_floor_ms : ℕ

abbrev pub fresh_quiesce : IngestQuiesce
fresh_quiesce = record { in_flight = 0; signature_floor_ms = 0 }

unfoldable pub enter : IngestQuiesce → IngestQuiesce
enter q = record q { in_flight = q.in_flight + 1 }

unfoldable pub leave : IngestQuiesce → IngestQuiesce
leave q = if ltb 0 q.in_flight then record q { in_flight = q.in_flight - 1 } else q

-- `none` is an expiry that does not parse.
unfoldable pub note_signature : Option ℕ → IngestQuiesce → IngestQuiesce
note_signature none q = q
note_signature (some ms) q =
    if ltb q.signature_floor_ms ms then record q { signature_floor_ms = ms } else q

unfoldable pub is_quiesced : ℕ → IngestQuiesce → Bool
is_quiesced now q = nat_beq q.in_flight 0 && leb q.signature_floor_ms now

-- The methods of `PauseGatedStore`.
pub data StoreMethod : Type 0 where
  sign_staging_upload read_chunk_text append_chunk_to_canonical stat_canonical : StoreMethod
  sign_canonical_download read_canonical_text write_canonical_text write_artifact : StoreMethod
  read_artifact_text list_session_artifacts get_bucket_versioning get_lifecycle : StoreMethod
  list_session_metadata list_all_canonical_keys self_test delete_session : StoreMethod

abbrev pub method_name : StoreMethod → Text
method_name sign_staging_upload = codes "signStagingUpload"
method_name read_chunk_text = codes "readChunkText"
method_name append_chunk_to_canonical = codes "appendChunkToCanonical"
method_name stat_canonical = codes "statCanonical"
method_name sign_canonical_download = codes "signCanonicalDownload"
method_name read_canonical_text = codes "readCanonicalText"
method_name write_canonical_text = codes "writeCanonicalText"
method_name write_artifact = codes "writeArtifact"
method_name read_artifact_text = codes "readArtifactText"
method_name list_session_artifacts = codes "listSessionArtifacts"
method_name get_bucket_versioning = codes "getBucketVersioning"
method_name get_lifecycle = codes "getLifecycle"
method_name list_session_metadata = codes "listSessionMetadata"
method_name list_all_canonical_keys = codes "listAllCanonicalKeys"
method_name self_test = codes "selfTest"
method_name delete_session = codes "deleteSession"

abbrev pub gated_methods : List Text
gated_methods =
    codes "signStagingUpload"
    ∷ codes "appendChunkToCanonical"
    ∷ codes "writeCanonicalText"
    ∷ codes "writeArtifact"
    ∷ codes "deleteSession"
    ∷ codes "selfTest"
    ∷ []

unfoldable pub is_gated_store_method : Text → Bool
is_gated_store_method method = any (λ name. text_beq name method) gated_methods

-- Which methods the class passes through `this.gated`.
unfoldable pub goes_through_gate : StoreMethod → Bool
goes_through_gate sign_staging_upload = true
goes_through_gate append_chunk_to_canonical = true
goes_through_gate write_canonical_text = true
goes_through_gate write_artifact = true
goes_through_gate self_test = true
goes_through_gate delete_session = true
goes_through_gate _ = false

-- `StagingUploadOptions.ttlSeconds` of options that may be missing.
abbrev pub ttl_of : Option (Option ℕ) → Option ℕ
ttl_of none = none
ttl_of (some ttl) = ttl

-- The options that `signStagingUpload` hands on: `ttl ? { ttlSeconds: ttl } : opts`.
unfoldable pub staging_options : Bool → Option (Option ℕ) → Option (Option ℕ)
staging_options armed opts = elim (if armed then some armed_presign_ttl_s else ttl_of opts) [
  | none ↦ opts
  | some ttl ↦ if nat_beq ttl 0 then opts else some (some ttl)
]

pub record Gate : Type 0 where
  pub state : PauseState
  pub quiesce : IngestQuiesce
  -- How often `onRefused` has been called.
  pub refusals : ℕ

-- The deadline of the `IngestPausedError` that is thrown, or `none`.
unfoldable pub assert_writable : ℕ → Gate → Gate × Option ℕ
assert_writable now gate = elim (paused_until now gate.state) [
  | none ↦ (gate, none)
  | some until ↦ (record gate { refusals = gate.refusals + 1 }, some until)
]

pub data Begun : Type 0 where
  rejected : ℕ → Begun
  reached_store : Begun

-- `gated` up to the await of the inner call.
unfoldable pub gated : ℕ → Gate → Gate × Begun
unfolding assert_writable
gated now gate = elim (assert_writable now gate).1 [
  | some until ↦ ((assert_writable now gate).0, rejected until)
  | none ↦ (
    record (assert_writable now gate).0 { quiesce = enter (assert_writable now gate).0.quiesce },
    reached_store,
  )
]

-- A method of the store, up to the inner store's answer.
unfoldable pub begin : StoreMethod → ℕ → Gate → Gate × Begun
begin method now gate = if goes_through_gate method then gated now gate else (gate, reached_store)
