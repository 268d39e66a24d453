-- ===== src/Console/Audit/Clean.antt =====
-- src/console/audit-verdicts.ts and src/console/audit-engine.ts: what a run that comes out clean has
-- established, and what a run may spend.
use hx_fortress.Prelude.{
  codes, ltb, ◌≤◌, max, ◌≡◌, sym, ◌∙◌, Bool, true, false, ◌&&◌, ◌||◌, not, Option, [], ◌∷◌, ◌++◌,
  map, arith, nat_eq, Among, Text, text_eq,
}
use hx_fortress.Console.Audit.{VerdictInput, witness_eligible, clean, attested, roll_up}
use hx_fortress.Console.Audit.Engine.{
  has, canonical_key_of, witness_id_of, witness_has, AuditSessionRow, AuditFinding, WitnessAnswer,
  AuditRun, input_of, answer_of, asked_ids, witness_state, is_answered, no_counts, Audited,
  audited_of, summary_of, run_residency_audit, lane_owners,
}
use hx_fortress.Console.Audit.Quiet.{
  audit_rows-covers, audit_rows-quiet, audit_rows-spend, lowered-clean, roll_up-clean, quiet_means,
}

-- What the loop of a run is given.
abbrev pub witness_of : AuditRun → Option WitnessAnswer
witness_of run = answer_of run.ask_witness (asked_ids run.rows)

abbrev pub input_in : AuditRun → AuditSessionRow → VerdictInput
input_in run row = input_of run (witness_of run) (asked_ids run.rows) (lane_owners run.present) row

-- What the run was given of a session: its object in the listing, or found by a HEAD of its own.
abbrev pub is_here : AuditRun → AuditSessionRow → Bool
is_here run row =
    has
      ((row.user_id ++ b'/' ∷ (row.family ++ b'/' ∷ row.session_id))
        ++ b'/' ∷ codes "canonical.ndjson")
      run.present
    || run.head_canonical row

abbrev pub letai_id : AuditSessionRow → Text
letai_id row = row.user_id ++ b':' ∷ (row.family ++ b':' ∷ row.session_id)

-- let.ai was asked of the session, and it answered.
abbrev pub is_witnessed : AuditRun → AuditSessionRow → Bool
is_witnessed run row = is_answered (witness_of run) && has (letai_id row) (asked_ids run.rows)

-- It has no copy of it.
abbrev pub has_no_copy : AuditRun → AuditSessionRow → Bool
has_no_copy run row =
    witness_eligible row.ingest_channel
    && (not (witness_has WitnessAnswer.copies (witness_of run) (letai_id row))
        && is_witnessed run row)

-- The session counts no events of its own, one of its lanes is listed here, and let.ai, which answered if it
-- can be asked, does not say that it sent the session here.
abbrev pub is_in_lanes : AuditRun → AuditSessionRow → Bool
is_in_lanes run row =
    has (row.user_id ++ b'/' ∷ (row.family ++ b'/' ∷ row.session_id)) (lane_owners run.present)
    && (not (
          ltb 0 row.event_count
          || witness_has WitnessAnswer.routed_here (witness_of run) (letai_id row))
        && (is_witnessed run row || not (witness_eligible row.ingest_channel)))

-- A run that comes out clean has a finding for every session that the fortress claims, in order; let.ai
-- answered for it, and its view was fresh; and each session's object is here, in the listing or by a
-- HEAD of its own, and let.ai was asked of it and has no copy; or it is not here, has no transcript of its
-- own, a lane of it is here, and let.ai, which answered of it where it can be asked, does not say that it
-- sent it here. A run that stopped at its budget is never clean.
pub clean_run_covers :
    (run : AuditRun) (row : AuditSessionRow)
    → (run_residency_audit run).verdict ≡ clean
    → Among row run.rows
    → (map AuditFinding.row (run_residency_audit run).audited.findings ≡ run.rows)
      × ((run_residency_audit run).witness ≡ attested)
      × (run.posture_fresh ≡ true)
      × (((is_here run row && has_no_copy run row)
            || (not (is_here run row) && is_in_lanes run row))
          ≡ true)
unfolding run_residency_audit summary_of audited_of input_of canonical_key_of witness_id_of
clean_run_covers run row h there =
    let asked = asked_ids run.rows in
    let owners = lane_owners run.present in
    let start : Audited = record {
      counts = no_counts;
      findings = [];
      ops_spent = 1;
      truncated = false;
    } in
    let fresh = is_answered (witness_of run) && run.posture_fresh in
    let rolled = roll_up (audited_of run).counts fresh (witness_state run.ask_witness asked) in
    let first =
      lowered-clean (audited_of run).truncated rolled.0 rolled.1
        (audited_of run).counts.sessions_checked h in
    let second =
      roll_up-clean (audited_of run).counts fresh (witness_state run.ask_witness asked) first.1 in
    (
      audit_rows-covers run (witness_of run) asked owners run.rows start first.0,
      second.2,
      ground (arith, second.1),
      sym (quiet_means (input_in run row))
          ∙ (audit_rows-quiet run (witness_of run) asked owners run.rows start first.0 second.0).1
              row there,
    )

-- A run spends at most its budget of store operations, and one, the listing, where that is nothing.
pub run_within_budget :
    (run : AuditRun) → (run_residency_audit run).audited.ops_spent ≤ max 1 run.per_run_budget
unfolding run_residency_audit audited_of
run_within_budget run =
    audit_rows-spend run (witness_of run) (asked_ids run.rows) (lane_owners run.present) run.rows
      (record { counts = no_counts; findings = []; ops_spent = 1; truncated = false }) (omega arith)
