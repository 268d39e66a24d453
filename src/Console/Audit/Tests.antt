-- ===== src/Console/Audit/Tests.antt =====
-- Concrete verdicts and runs of the audit, and the theorems at them.
use hx_fortress.Prelude.{
  ◌≡◌, refl, ◌≢◌, inl, true, false, ◌&&◌, ◌||◌, not, none, some, [], ◌∷◌, map, nat_eq, keep_if, any,
  codes, text_beq, text_eq,
}
use hx_fortress.Console.PauseGate.{starts_with}
use hx_fortress.Console.Audit.{
  no_record, lanes_hold_it, VerdictInput, witness_eligible, verdict_for, session_check_passes,
  clean, attested, roll_up, notes_of,
}
use hx_fortress.Console.Audit.Engine.{
  AuditSessionRow, AuditFinding, AuditRun, canonical_key_of, witness_id_of, ack_key, split,
  before_lane, lane_owners, asked_ids, count_verdict, input_of, audit_row, audit_rows, audited_of,
  summary_of, run_residency_audit,
}
use hx_fortress.Console.Audit.Pacing.{new_pacer, spend, paced}
use hx_fortress.Console.Audit.Matrix.{is_accounted, is_incident, passes_accounted, incident_exact}
use hx_fortress.Console.Audit.Fleet.{is_failed, is_failing, run_fails_with_finding}
use hx_fortress.Console.Audit.Clean.{is_here, has_no_copy, is_in_lanes, clean_run_covers}

-- A session of the tunnel that has only lanes here, and of which let.ai reports a copy.
abbrev stub : VerdictInput
stub = record {
  fortress_present = false;
  letai_copy = true;
  any_destination_record = true;
  hub_routed_here = false;
  ingest_channel = some (codes "tunnel");
  acknowledged = false;
  has_own_transcript = false;
  has_lane_object = true;
  witness_askable = true;
  witness_answered = true;
}

-- The exemption stands before the question of a copy, so the copy is not reported.
stub_copy-verdict : verdict_for stub ≡ lanes_hold_it
unfolding verdict_for witness_eligible text_beq
stub_copy-verdict = refl

passes_accounted_example : session_check_passes (verdict_for stub) false ≡ is_accounted stub false
passes_accounted_example = passes_accounted stub false

abbrev lost : VerdictInput
lost = record stub { has_own_transcript = true; hub_routed_here = true }

incident_exact_example :
    (is_incident (verdict_for lost) ≡ (
      not lost.fortress_present
      && (witness_eligible lost.ingest_channel
          && (lost.witness_askable && (lost.witness_answered && lost.hub_routed_here)))))
    × (verdict_for lost ≢ no_record)
incident_exact_example = incident_exact lost

abbrev row : AuditSessionRow
row = record {
  org = codes "o";
  user_id = codes "u";
  family = codes "f";
  session_id = codes "s";
  ingest_channel = some (codes "tunnel");
  event_count = 3;
  org_attributed = true;
}

-- One session, in the bucket by a HEAD alone, and a witness that answers.
abbrev run : AuditRun
run = record {
  rows = row ∷ [];
  present = codes "u/f/p:a:x/canonical.ndjson" ∷ [];
  head_canonical = λ r. true;
  ask_witness = some (λ ids. some (record { copies = []; known = ids; routed_here = ids }));
  acknowledged = [];
  posture_fresh = true;
  per_run_budget = 5_000;
}

lane-owned : lane_owners run.present ≡ codes "u/f/p" ∷ []
unfolding lane_owners split before_lane starts_with
lane-owned = refl

run-clean : (run_residency_audit run).verdict ≡ clean
unfolding run_residency_audit summary_of audited_of audit_rows audit_row input_of count_verdict
    roll_up notes_of verdict_for witness_eligible asked_ids witness_id_of canonical_key_of ack_key
    lane_owners split before_lane starts_with text_beq any keep_if
run-clean = refl

clean_run_covers_example :
    (map AuditFinding.row (run_residency_audit run).audited.findings ≡ run.rows)
    × ((run_residency_audit run).witness ≡ attested)
    × (run.posture_fresh ≡ true)
    × (((is_here run row && has_no_copy run row) || (not (is_here run row) && is_in_lanes run row))
        ≡ true)
clean_run_covers_example = clean_run_covers run row run-clean (inl refl)

run_fails_with_finding_example :
    is_failed (run_residency_audit run).verdict
    ≡ any is_failing (run_residency_audit run).audited.findings
run_fails_with_finding_example = run_fails_with_finding run

-- With a rate of one, the second operation sleeps into a new window, which does not count it: the third
-- takes place in that window too, without a sleep.
third-unheld : (spend 1 2000 2000 (paced 1 ((1000, 1000) ∷ (1000, 2000) ∷ []) new_pacer)).0 ≡ none
unfolding paced spend
third-unheld = refl
