-- ===== src/Console/Audit/Engine.antt =====
-- src/console/audit-engine.ts: one run of the audit over the sessions that the fortress claims, within
-- its budget of store operations, and the pacing of those operations.
use hx_fortress.Prelude.{
  ℕ, ◌+◌, Bool, true, false, ◌&&◌, ◌||◌, not, Option, none, some, List, [], ◌∷◌, ◌++◌, map, ltb,
  leb, nat_beq, if◌then◌else◌, nat_eq, keep_if, any, Text, codes, text_beq, text_eq,
}
use hx_fortress.Console.PauseGate.{starts_with}
use hx_fortress.Console.Audit.{
  ResidencyVerdict, confirmed, also_at_letai, not_delivered_here, no_record, copy_unchecked,
  missing_here, lanes_hold_it, residency_unchecked, residency_unwitnessable, unknown_provenance,
  not_applicable, VerdictInput, witness_eligible, verdict_for, session_check_passes, RollUpCounts,
  FleetVerdict, clean, qualified, failed, WitnessState, attested, off, unavailable, Qualification,
  stopped_after, roll_up,
}

pub record AuditSessionRow : Type 0 where
  pub org : Text
  pub user_id : Text
  pub family : Text
  pub session_id : Text
  pub ingest_channel : Option Text
  pub event_count : ℕ
  pub org_attributed : Bool

pub record AuditFinding : Type 0 where
  pub row : AuditSessionRow
  pub verdict : ResidencyVerdict
  pub is_acknowledged : Bool

pub record WitnessAnswer : Type 0 where
  pub copies : List Text
  pub known : List Text
  pub routed_here : List Text

-- A set of texts, by its test.
abbrev pub has : Text → List Text → Bool
has text texts = any (λ t. text_beq t text) texts

-- `AuditRunDeps`, with what each answers; `ask_witness` is the witness switched off, or its answer,
-- where `none` is unreachable.
pub record AuditRun : Type 0 where
  pub rows : List AuditSessionRow
  pub present : List Text
  pub head_canonical : AuditSessionRow → Bool
  pub ask_witness : Option (List Text → Option WitnessAnswer)
  pub acknowledged : List Text
  pub posture_fresh : Bool
  pub per_run_budget : ℕ

-- `[…].join(separator)` of three ids.
abbrev pub join_ids : ℕ → AuditSessionRow → Text
join_ids separator row = row.user_id ++ separator ∷ (row.family ++ separator ∷ row.session_id)

unfoldable pub canonical_key_of : AuditSessionRow → Text
canonical_key_of row = join_ids b'/' row ++ b'/' ∷ codes "canonical.ndjson"

unfoldable pub witness_id_of : AuditSessionRow → Text
witness_id_of row = join_ids b':' row

unfoldable pub ack_key : Text → Text → Text
ack_key org session_id = org ++ b' ' ∷ session_id

-- `key.split(separator)`: the pieces, of which there is at least one.
abbrev pub put_first : ℕ → List Text → List Text
put_first c [] = (c ∷ []) ∷ []
put_first c (piece ∷ pieces) = (c ∷ piece) ∷ pieces

unfoldable pub split : ℕ → Text → List Text
split separator [] = [] ∷ []
split separator (c ∷ text) =
    let rest = split separator text in if nat_beq c separator then [] ∷ rest else put_first c rest

-- The text before the first `:a:`.
abbrev pub put_before : ℕ → Option Text → Option Text
put_before c none = none
put_before c (some text) = some (c ∷ text)

unfoldable pub before_lane : Text → Option Text
before_lane [] = none
before_lane (c ∷ text) =
    let rest = before_lane text in
    if starts_with (codes ":a:") (c ∷ text) then some [] else put_before c rest

-- The session that a lane object belongs to; an index of `:a:` that is not above 0 names none.
abbrev pub owner_of : Text → Text → Option Text → List Text
owner_of user family none = []
owner_of user family (some []) = []
owner_of user family (some (c ∷ sid)) = (user ++ b'/' ∷ (family ++ b'/' ∷ (c ∷ sid))) ∷ []

abbrev pub lane_owner : List Text → List Text
lane_owner (user ∷ (family ∷ (sid ∷ rest))) = owner_of user family (before_lane sid)
lane_owner _ = []

unfoldable pub lane_owners : List Text → List Text
lane_owners [] = []
lane_owners (key ∷ keys) = lane_owner (split b'/' key) ++ lane_owners keys

abbrev pub is_eligible : AuditSessionRow → Bool
is_eligible row = witness_eligible row.ingest_channel && row.org_attributed

unfoldable pub asked_ids : List AuditSessionRow → List Text
asked_ids rows = map witness_id_of (keep_if is_eligible rows)

abbrev pub answer_of : Option (List Text → Option WitnessAnswer) → List Text → Option WitnessAnswer
answer_of none ids = none
answer_of (some ask) ids = ask ids

abbrev pub witness_state : Option (List Text → Option WitnessAnswer) → List Text → WitnessState
witness_state none ids = off
witness_state (some ask) ids = elim (ask ids) [ none ↦ unavailable | some answer ↦ attested ]

-- `witness?.copies.has(id) ?? false`, and so on.
abbrev pub witness_has : (WitnessAnswer → List Text) → Option WitnessAnswer → Text → Bool
witness_has part none id = false
witness_has part (some answer) id = has id (part answer)

abbrev pub is_answered : Option WitnessAnswer → Bool
is_answered none = false
is_answered (some answer) = true

unfoldable pub count_verdict : RollUpCounts → ResidencyVerdict → Bool → RollUpCounts
count_verdict counts confirmed ack = record counts { n_confirmed = counts.n_confirmed + 1 }
count_verdict counts copy_unchecked ack = record counts {
  n_copy_unchecked = counts.n_copy_unchecked + 1;
}
count_verdict counts also_at_letai ack = record counts {
  n_also_at_letai = counts.n_also_at_letai + 1;
  n_acknowledged = counts.n_acknowledged + (if ack then 1 else 0);
}
count_verdict counts not_delivered_here ack = record counts {
  n_not_delivered_here = counts.n_not_delivered_here + 1;
}
count_verdict counts missing_here ack = record counts { n_missing_here = counts.n_missing_here + 1 }
count_verdict counts lanes_hold_it ack = record counts {
  n_lanes_hold_it = counts.n_lanes_hold_it + 1;
}
count_verdict counts residency_unchecked ack = record counts {
  n_unchecked = counts.n_unchecked + 1;
}
count_verdict counts residency_unwitnessable ack = record counts {
  n_unwitnessable = counts.n_unwitnessable + 1;
}
count_verdict counts no_record ack = record counts { n_no_record = counts.n_no_record + 1 }
count_verdict counts unknown_provenance ack = record counts {
  n_unknown_provenance = counts.n_unknown_provenance + 1;
}
count_verdict counts not_applicable ack = record counts {
  n_not_applicable = counts.n_not_applicable + 1;
}

abbrev pub no_counts : RollUpCounts
no_counts = record {
  sessions_checked = 0;
  n_confirmed = 0;
  n_copy_unchecked = 0;
  n_also_at_letai = 0;
  n_acknowledged = 0;
  n_not_delivered_here = 0;
  n_no_record = 0;
  n_missing_here = 0;
  n_lanes_hold_it = 0;
  n_unchecked = 0;
  n_unwitnessable = 0;
  n_unknown_provenance = 0;
  n_not_applicable = 0;
}

pub record Audited : Type 0 where
  pub counts : RollUpCounts
  pub findings : List AuditFinding
  pub ops_spent : ℕ
  pub truncated : Bool

pub record AuditResult : Type 0 where
  pub audited : Audited
  pub verdict : FleetVerdict
  pub qualification : Qualification
  pub witness : WitnessState

module _ (run : AuditRun) (witness : Option WitnessAnswer) (asked owners : List Text) where
  abbrev pub is_listed : AuditSessionRow → Bool
  is_listed row = has (canonical_key_of row) run.present

  abbrev pub is_acknowledged : AuditSessionRow → Bool
  is_acknowledged row = has (ack_key row.org row.session_id) run.acknowledged

  -- What is observed of one session; the HEAD is spent only where the listing lacks it.
  unfoldable pub input_of : AuditSessionRow → VerdictInput
  input_of row = record {
    fortress_present = is_listed row || run.head_canonical row;
    letai_copy = witness_has WitnessAnswer.copies witness (witness_id_of row);
    any_destination_record = witness_has WitnessAnswer.known witness (witness_id_of row);
    hub_routed_here = witness_has WitnessAnswer.routed_here witness (witness_id_of row);
    ingest_channel = row.ingest_channel;
    acknowledged = is_acknowledged row;
    has_own_transcript = ltb 0 row.event_count;
    has_lane_object = has (join_ids b'/' row) owners;
    witness_askable = has (witness_id_of row) asked;
    witness_answered = is_answered witness && has (witness_id_of row) asked;
  }

  abbrev pub finding_of : AuditSessionRow → AuditFinding
  finding_of row = record {
    row = row;
    verdict = verdict_for (input_of row);
    is_acknowledged = is_acknowledged row;
  }

  unfoldable pub audit_row : AuditSessionRow → Audited → Audited
  audit_row row a = record {
    counts =
        count_verdict
          (record (Audited.counts a) { sessions_checked = a.counts.sessions_checked + 1 })
          (verdict_for (input_of row)) (is_acknowledged row);
    findings = a.findings ++ finding_of row ∷ [];
    ops_spent = a.ops_spent + (if is_listed row then 0 else 1);
    truncated = a.truncated;
  }

  unfoldable pub audit_rows : List AuditSessionRow → Audited → Audited
  audit_rows [] a = a
  audit_rows (row ∷ rows) a =
      let rest = audit_rows rows (audit_row row a) in
      if leb run.per_run_budget a.ops_spent then record a { truncated = true } else rest

abbrev pub lowered : Bool → FleetVerdict × Qualification → ℕ → FleetVerdict × Qualification
lowered false summary checked = summary
lowered true (clean, qualification) checked = (qualified, stopped_after qualification checked)
lowered true (qualified, qualification) checked = (qualified, stopped_after qualification checked)
lowered true (failed, qualification) checked = (failed, stopped_after qualification checked)

-- The rows as they come out of the loop; the listing has spent one operation.
unfoldable pub audited_of : AuditRun → Audited
audited_of run =
    audit_rows run (answer_of run.ask_witness (asked_ids run.rows)) (asked_ids run.rows)
      (lane_owners run.present) run.rows
      (record { counts = no_counts; findings = []; ops_spent = 1; truncated = false })

unfoldable pub summary_of : AuditRun → FleetVerdict × Qualification
summary_of run =
    lowered (audited_of run).truncated
      (roll_up (audited_of run).counts
        (is_answered (answer_of run.ask_witness (asked_ids run.rows)) && run.posture_fresh)
        (witness_state run.ask_witness (asked_ids run.rows)))
      (audited_of run).counts.sessions_checked

unfoldable pub run_residency_audit : AuditRun → AuditResult
run_residency_audit run = record {
  audited = audited_of run;
  verdict = (summary_of run).0;
  qualification = (summary_of run).1;
  witness = witness_state run.ask_witness (asked_ids run.rows);
}

unfoldable pub failing_findings : List AuditFinding → List AuditFinding
failing_findings findings =
    keep_if
      (λ f. not (session_check_passes (AuditFinding.verdict f) (AuditFinding.is_acknowledged f)))
      findings
