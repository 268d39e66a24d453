-- ===== src/Console/Audit/Fleet.antt =====
-- src/console/audit-verdicts.ts and src/console/audit-engine.ts: the roll-up of a run against the
-- verdicts of its sessions.
use hx_fortress.Prelude.{
  ℕ, ◌+◌, ◌≤◌, ◌≡◌, refl, sym, ap, ◌∙◌, inl, inr, Bool, true, false, ◌&&◌, ◌||◌, not, Option, List,
  [], ◌∷◌, ◌++◌, arith, ltb, leb, Bool-cases, nat_eq, any, Text, text_eq,
}
use hx_fortress.Console.Audit.{
  ResidencyVerdict, confirmed, also_at_letai, not_delivered_here, no_record, copy_unchecked,
  missing_here, lanes_hold_it, residency_unchecked, residency_unwitnessable, unknown_provenance,
  not_applicable, verdict_for, session_check_passes, RollUpCounts, FleetVerdict, clean, qualified,
  failed, WitnessState, Note, Qualification, notes_of, noted_verdict, roll_up,
}
use hx_fortress.Console.Audit.Engine.{
  AuditSessionRow, AuditFinding, WitnessAnswer, AuditRun, is_acknowledged, input_of, finding_of,
  answer_of, asked_ids, witness_state, is_answered, count_verdict, no_counts, Audited, audit_row,
  audit_rows, lowered, audited_of, summary_of, run_residency_audit, lane_owners,
}

abbrev pub is_failed : FleetVerdict → Bool
is_failed failed = true
is_failed clean = false
is_failed qualified = false

-- What fails a roll-up.
abbrev fails : RollUpCounts → Bool
fails counts =
    ltb 0 counts.n_not_delivered_here
    || (ltb 0 counts.n_missing_here
        || (ltb 0 counts.n_unwitnessable
            || (ltb 0 counts.n_unchecked || ltb counts.n_acknowledged counts.n_also_at_letai)))

noted_verdict-passes : (notes : List Note) → is_failed (noted_verdict notes).0 ≡ false
noted_verdict-passes [] = refl
noted_verdict-passes (note ∷ notes) = refl

roll_up-fails :
    (counts : RollUpCounts) (fresh : Bool) (witness : WitnessState)
    → is_failed (roll_up counts fresh witness).0 ≡ fails counts
unfolding roll_up
roll_up-fails counts fresh witness =
    ground (arith, noted_verdict-passes (notes_of counts fresh witness))

lowered-fails :
    (truncated : Bool) (verdict : FleetVerdict) (q : Qualification) (checked : ℕ)
    → is_failed (lowered truncated (verdict, q) checked).0 ≡ is_failed verdict
lowered-fails false verdict q checked = refl
lowered-fails true clean q checked = refl
lowered-fails true qualified q checked = refl
lowered-fails true failed q checked = refl

count_verdict-fails :
    (counts : RollUpCounts) (verdict : ResidencyVerdict) (ack : Bool)
    → counts.n_acknowledged ≤ counts.n_also_at_letai
    → (fails (count_verdict counts verdict ack)
        ≡ fails counts || not (session_check_passes verdict ack))
      × ((count_verdict counts verdict ack).n_acknowledged
          ≤ (count_verdict counts verdict ack).n_also_at_letai)
unfolding count_verdict session_check_passes
count_verdict-fails counts confirmed ack h = (ground arith, h)
count_verdict-fails counts copy_unchecked ack h = (ground arith, h)
count_verdict-fails counts also_at_letai true h = (ground arith, omega (arith, h))
count_verdict-fails counts also_at_letai false h = (ground arith, omega (arith, h))
count_verdict-fails counts not_delivered_here ack h = (ground arith, h)
count_verdict-fails counts missing_here ack h = (ground arith, h)
count_verdict-fails counts lanes_hold_it ack h = (ground arith, h)
count_verdict-fails counts residency_unchecked ack h = (ground arith, h)
count_verdict-fails counts residency_unwitnessable ack h = (ground arith, h)
count_verdict-fails counts no_record ack h = (ground arith, h)
count_verdict-fails counts unknown_provenance ack h = (ground arith, h)
count_verdict-fails counts not_applicable ack h = (ground arith, h)

abbrev pub is_failing : AuditFinding → Bool
is_failing finding = not (session_check_passes finding.verdict finding.is_acknowledged)

any-last :
    {A : Type 0} (p : A → Bool) (xs : List A) (x : A) → any p (xs ++ x ∷ []) ≡ any p xs || p x
unfolding any
any-last p [] x = ground arith
any-last p (y ∷ xs) x = ground (arith, any-last p xs x)

-- The counts tell of the findings what each finding tells.
abbrev Tallied : Audited → Type 0
Tallied a =
    (fails a.counts ≡ any is_failing a.findings)
    × (a.counts.n_acknowledged ≤ a.counts.n_also_at_letai)

module _ (run : AuditRun) (witness : Option WitnessAnswer) (asked owners : List Text) where
  audit_row-Tallied :
      (row : AuditSessionRow) (a : Audited)
      → Tallied a
      → Tallied (audit_row run witness asked owners row a)
  unfolding audit_row
  audit_row-Tallied row a h =
      let one =
        count_verdict-fails
          (record (Audited.counts a) { sessions_checked = a.counts.sessions_checked + 1 })
          (verdict_for (input_of run witness asked owners row))
          (is_acknowledged run witness asked owners row) h.1 in
      (
        one.0
            ∙ ap (λ b. b || is_failing (finding_of run witness asked owners row)) h.0
            ∙ sym (any-last is_failing a.findings (finding_of run witness asked owners row)),
        one.1,
      )

  audit_rows-Tallied :
      (rows : List AuditSessionRow) (a : Audited)
      → Tallied a
      → Tallied (audit_rows run witness asked owners rows a)
  unfolding audit_rows
  audit_rows-Tallied [] a h = h
  audit_rows-Tallied (row ∷ rows) a h = elim (Bool-cases (leb run.per_run_budget a.ops_spent)) [
    | inl spent ↦ rw spent h
    | inr left ↦ rw left (audit_rows-Tallied rows _ (audit_row-Tallied row a h))
  ]

-- The verdict of a run fails just when one of its findings fails its own check, with what is
-- acknowledged counted for it: no failing session is lost in the counts, and none is invented.
pub run_fails_with_finding :
    (run : AuditRun)
    → is_failed (run_residency_audit run).verdict
      ≡ any is_failing (run_residency_audit run).audited.findings
unfolding run_residency_audit summary_of audited_of any
run_fails_with_finding run =
    let asked = asked_ids run.rows in
    let witness = answer_of run.ask_witness asked in
    let tallied =
      audit_rows-Tallied run witness asked (lane_owners run.present) run.rows
        (record { counts = no_counts; findings = []; ops_spent = 1; truncated = false })
        (refl, omega arith) in
    lowered-fails (audited_of run).truncated _ _ (audited_of run).counts.sessions_checked
    ∙ roll_up-fails (audited_of run).counts (is_answered witness && run.posture_fresh)
        (witness_state run.ask_witness asked)
    ∙ tallied.0
