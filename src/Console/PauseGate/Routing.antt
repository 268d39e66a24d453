-- ===== src/Console/PauseGate/Routing.antt =====
-- src/console/pause-gate.ts: which calls the gate refuses, and what a refusal leaves behind.
use hx_fortress.Prelude.{
  ℕ, ◌+◌, ◌≡◌, refl, sym, ◌∙◌, ◌⊎◌, inl, inr, Bool, true, false, some, List, [], ◌∷◌, ◌++◌, arith,
  if◌then◌else◌, Bool-cases, Option-cases, nat_eq, any, Text, text_beq, text_eq,
}
use hx_fortress.Platform.{Platform}
use hx_fortress.Console.IngestControl.{PauseState, paused_until, is_paused}
use hx_fortress.Console.PauseGate.{
  paused_wire_prefix, paused_message, starts_with, is_retryable_ingest_error, StoreMethod,
  sign_staging_upload, read_chunk_text, append_chunk_to_canonical, stat_canonical,
  sign_canonical_download, read_canonical_text, write_canonical_text, write_artifact,
  read_artifact_text, list_session_artifacts, get_bucket_versioning, get_lifecycle,
  list_session_metadata, list_all_canonical_keys, self_test, delete_session, method_name,
  is_gated_store_method, goes_through_gate, Gate, assert_writable, Begun, rejected, reached_store,
  gated, begin, enter,
}

-- The class sends a method through the gate exactly if the exported set of gated names has its name.
pub routing_agrees :
    (method : StoreMethod) → goes_through_gate method ≡ is_gated_store_method (method_name method)
unfolding goes_through_gate is_gated_store_method any text_beq
routing_agrees sign_staging_upload = refl
routing_agrees read_chunk_text = refl
routing_agrees append_chunk_to_canonical = refl
routing_agrees stat_canonical = refl
routing_agrees sign_canonical_download = refl
routing_agrees read_canonical_text = refl
routing_agrees write_canonical_text = refl
routing_agrees write_artifact = refl
routing_agrees read_artifact_text = refl
routing_agrees list_session_artifacts = refl
routing_agrees get_bucket_versioning = refl
routing_agrees get_lifecycle = refl
routing_agrees list_session_metadata = refl
routing_agrees list_all_canonical_keys = refl
routing_agrees self_test = refl
routing_agrees delete_session = refl

starts_with-append : (prefix rest : Text) → starts_with prefix (prefix ++ rest) ≡ true
unfolding starts_with
starts_with-append [] rest = refl
starts_with-append (c ∷ prefix) rest = ground (arith, starts_with-append prefix rest)

paused_message-retryable :
    (p : Platform) (until : ℕ) → is_retryable_ingest_error (paused_message p until) ≡ true
unfolding is_retryable_ingest_error any paused_message
paused_message-retryable p until = rw (starts_with-append paused_wire_prefix (p.to_iso until)) refl

-- The gate's answer to a method of the store, at every state of the gate. A method that the class
-- sends through the gate is refused exactly while the pause is in force, with a message that the
-- upload client retries; a refusal is counted and changes nothing else, the in-flight count
-- included. Otherwise it reaches the inner store, counted as in flight. A method that the class does
-- not gate reaches the inner store during a pause too, and leaves the gate as it was.
pub gate_answers :
    (p : Platform) (method : StoreMethod) (now : ℕ) (gate : Gate)
    → ((until : ℕ) × ((goes_through_gate method ≡ true)
          × (paused_until now gate.state ≡ some until)
          × (begin method now gate ≡ (record gate { refusals = gate.refusals + 1 }, rejected until))
          × (is_retryable_ingest_error (paused_message p until) ≡ true)))
      ⊎ (((goes_through_gate method ≡ true)
            × (is_paused now gate.state ≡ false)
            × (begin method now gate
                ≡ (record gate { quiesce = enter gate.quiesce }, reached_store)))
          ⊎ ((goes_through_gate method ≡ false) × (begin method now gate ≡ (gate, reached_store))))
unfolding begin gated assert_writable is_paused
gate_answers p method now gate = elim (Bool-cases (goes_through_gate method)) [
  | inr plain ↦ inr (inr (plain, rw plain refl))
  | inl through ↦ elim (Option-cases (paused_until now gate.state)) [
    | inl writable ↦ inr (inl (through, ground arith, ground arith))
    | inr (until, paused) ↦
        inl (until, (through, paused, ground arith, paused_message-retryable p until))
  ]
]

-- What changes a store, or lets a device change it: by the contract of the store, not by the gate.
abbrev pub changes_store : StoreMethod → Bool
changes_store sign_staging_upload = true
changes_store append_chunk_to_canonical = true
changes_store write_canonical_text = true
changes_store write_artifact = true
changes_store self_test = true
changes_store delete_session = true
changes_store read_chunk_text = false
changes_store stat_canonical = false
changes_store sign_canonical_download = false
changes_store read_canonical_text = false
changes_store read_artifact_text = false
changes_store list_session_artifacts = false
changes_store get_bucket_versioning = false
changes_store get_lifecycle = false
changes_store list_session_metadata = false
changes_store list_all_canonical_keys = false

-- Calls one after another, each at its moment: the gate after them, and the methods that reached the store.
abbrev pub reached : StoreMethod → Begun → List StoreMethod → List StoreMethod
reached method (rejected until) methods = methods
reached method reached_store methods = method ∷ methods

unfoldable pub begin_all : List (StoreMethod × ℕ) → Gate → Gate × List StoreMethod
begin_all [] gate = (gate, [])
begin_all ((method, now) ∷ calls) gate =
    let begun = begin method now gate in
    let rest = begin_all calls begun.0 in (rest.0, reached method begun.1 rest.1)

abbrev pub reads_of : List (StoreMethod × ℕ) → List StoreMethod
reads_of [] = []
reads_of ((method, now) ∷ calls) =
    if changes_store method then reads_of calls else method ∷ reads_of calls

abbrev pub changes_of : List (StoreMethod × ℕ) → ℕ
changes_of [] = 0
changes_of ((method, now) ∷ calls) = (if changes_store method then 1 else 0) + changes_of calls

abbrev pub AllPaused : PauseState → List (StoreMethod × ℕ) → Type 0
AllPaused state [] = Unit {0}
AllPaused state ((method, now) ∷ calls) = (is_paused now state ≡ true) × AllPaused state calls

gate_changes : (method : StoreMethod) → goes_through_gate method ≡ changes_store method
unfolding goes_through_gate
gate_changes sign_staging_upload = refl
gate_changes read_chunk_text = refl
gate_changes append_chunk_to_canonical = refl
gate_changes stat_canonical = refl
gate_changes sign_canonical_download = refl
gate_changes read_canonical_text = refl
gate_changes write_canonical_text = refl
gate_changes write_artifact = refl
gate_changes read_artifact_text = refl
gate_changes list_session_artifacts = refl
gate_changes get_bucket_versioning = refl
gate_changes get_lifecycle = refl
gate_changes list_session_metadata = refl
gate_changes list_all_canonical_keys = refl
gate_changes self_test = refl
gate_changes delete_session = refl

-- One call of a paused gate.
begin_paused :
    (method : StoreMethod) (now : ℕ) (gate : Gate)
    → is_paused now gate.state ≡ true
    → ((changes_store method ≡ true)
        × ((until : ℕ) × (begin method now gate
              ≡ (record gate { refusals = gate.refusals + 1 }, rejected until))))
      ⊎ ((changes_store method ≡ false) × (begin method now gate ≡ (gate, reached_store)))
unfolding begin gated assert_writable is_paused
begin_paused method now gate paused = elim (Bool-cases (goes_through_gate method)) [
  | inr plain ↦ inr (sym (gate_changes method) ∙ plain, rw plain refl)
  | inl through ↦ elim (Option-cases (paused_until now gate.state)) [
    | inl writable ↦ absurd (ground (arith, writable, paused))
    | inr (until, at) ↦
        inl (sym (gate_changes method) ∙ through, (until, ground (arith, through, at)))
  ]
]

-- While a pause is in force, no call that changes the store reaches it, whatever calls are made in whatever
-- order: those that reach it are exactly the calls that only read, in their order. Each other call is counted
-- as a refusal, and the gate is as it was in everything else, its calls in flight included.
pub pause_admits_no_write :
    (calls : List (StoreMethod × ℕ)) (gate : Gate)
    → AllPaused gate.state calls
    → begin_all calls gate
      ≡ (record gate { refusals = gate.refusals + changes_of calls }, reads_of calls)
unfolding begin_all
pause_admits_no_write [] gate paused = ground arith
pause_admits_no_write ((method, now) ∷ calls) gate paused =
    elim (begin_paused method now gate paused.0) [
      | inl (changing, (until, answer)) ↦
          let rest =
            pause_admits_no_write calls (record gate { refusals = gate.refusals + 1 }) paused.1 in
          ground (arith, changing, answer, rest)
      | inr (reading, answer) ↦
          let rest = pause_admits_no_write calls gate paused.1 in
          ground (arith, reading, answer, rest)
    ]
