-- ===== src/Console/Audit/Quiet.antt =====
-- src/console/audit-verdicts.ts and src/console/audit-engine.ts: the counts of a run that comes out clean,
-- the rows that its loop reaches, and what the loop spends.
use hx_fortress.Prelude.{
  append_nested, ℕ, zero, suc, ◌+◌, ◌≤◌, max, ◌≡◌, refl, sym, ap, subst, ◌∙◌, inl, inr, Bool, true,
  false, ◌&&◌, ◌||◌, not, Option, List, [], ◌∷◌, ◌++◌, map, arith, leb, nat_beq, if◌then◌else◌,
  Bool-cases, nat_eq, Among, Text, text_eq,
}
use hx_fortress.Console.Audit.{
  ResidencyVerdict, confirmed, also_at_letai, not_delivered_here, no_record, copy_unchecked,
  missing_here, lanes_hold_it, residency_unchecked, residency_unwitnessable, unknown_provenance,
  not_applicable, VerdictInput, witness_eligible, verdict_for, RollUpCounts, FleetVerdict, clean,
  qualified, failed, WitnessState, attested, off, unavailable, Note, copies_acknowledged,
  of_unknown_channel, uploaded_directly, predating, never_checked, Qualification, note_if,
  witness_notes, notes_of, noted_verdict, roll_up,
}
use hx_fortress.Console.Audit.Matrix.{lanes_hold}
use hx_fortress.Console.Audit.Engine.{
  AuditSessionRow, AuditFinding, WitnessAnswer, AuditRun, is_acknowledged, input_of, finding_of,
  count_verdict, Audited, audit_row, audit_rows, lowered,
}

-- The verdicts that a clean run may have.
abbrev pub is_quiet : ResidencyVerdict → Bool
is_quiet confirmed = true
is_quiet lanes_hold_it = true
is_quiet _ = false

-- How many sessions have another verdict.
abbrev others : RollUpCounts → ℕ
others counts =
    counts.n_copy_unchecked + counts.n_also_at_letai + counts.n_not_delivered_here
    + counts.n_no_record + counts.n_missing_here + counts.n_unchecked + counts.n_unwitnessable
    + counts.n_unknown_provenance + counts.n_not_applicable

count_verdict-others :
    (counts : RollUpCounts) (verdict : ResidencyVerdict) (ack : Bool)
    → others (count_verdict counts verdict ack)
      ≡ others counts + (if is_quiet verdict then 0 else 1)
unfolding count_verdict
count_verdict-others counts confirmed ack = omega arith
count_verdict-others counts copy_unchecked ack = omega arith
count_verdict-others counts also_at_letai ack = omega arith
count_verdict-others counts not_delivered_here ack = omega arith
count_verdict-others counts missing_here ack = omega arith
count_verdict-others counts lanes_hold_it ack = omega arith
count_verdict-others counts residency_unchecked ack = omega arith
count_verdict-others counts residency_unwitnessable ack = omega arith
count_verdict-others counts no_record ack = omega arith
count_verdict-others counts unknown_provenance ack = omega arith
count_verdict-others counts not_applicable ack = omega arith

append-empty : {A : Type 0} (xs ys : List A) → xs ++ ys ≡ [] → (xs ≡ []) × (ys ≡ [])
append-empty [] ys h = (refl, h)
append-empty (x ∷ xs) ys h = absurd (cc)

note_if-empty : (n : ℕ) (note : ℕ → Note) → note_if n note ≡ [] → n ≡ 0
note_if-empty zero note h = refl
note_if-empty (suc n) note h = absurd (ground (arith, h))

witness_notes-empty :
    (fresh : Bool) (witness : WitnessState)
    → witness_notes fresh witness ≡ []
    → (fresh ≡ true) × (witness ≡ attested)
witness_notes-empty true attested h = (refl, refl)
witness_notes-empty false attested h = absurd (cc)
witness_notes-empty fresh off h = absurd (cc)
witness_notes-empty fresh unavailable h = absurd (cc)

-- No count that fails a roll-up.
abbrev fails_none : RollUpCounts → Bool
fails_none counts =
    nat_beq counts.n_not_delivered_here 0
    && (nat_beq counts.n_missing_here 0
        && (nat_beq counts.n_unwitnessable 0
            && (nat_beq counts.n_unchecked 0 && leb counts.n_also_at_letai counts.n_acknowledged)))

noted_verdict-clean : (notes : List Note) → (noted_verdict notes).0 ≡ clean → notes ≡ []
noted_verdict-clean [] h = refl
noted_verdict-clean (note ∷ notes) h = absurd (cc)

pub roll_up-clean :
    (counts : RollUpCounts) (fresh : Bool) (witness : WitnessState)
    → (roll_up counts fresh witness).0 ≡ clean
    → (others counts ≡ 0) × (fresh ≡ true) × (witness ≡ attested)
unfolding roll_up notes_of
roll_up-clean counts fresh witness h =
    let noted : (noted_verdict (notes_of counts fresh witness)).0 ≡ clean = ground (arith, h) in
    let last : List Note = witness_notes fresh witness in
    let l5 : List Note = note_if counts.n_copy_unchecked never_checked ++ last in
    let l4 : List Note = note_if counts.n_no_record predating ++ l5 in
    let l3 : List Note = note_if counts.n_not_applicable uploaded_directly ++ l4 in
    let l2 : List Note = note_if counts.n_unknown_provenance of_unknown_channel ++ l3 in
    let a =
      append-empty (note_if counts.n_acknowledged copies_acknowledged) l2
        (noted_verdict-clean (notes_of counts fresh witness) noted) in
    let b = append-empty (note_if counts.n_unknown_provenance of_unknown_channel) l3 a.1 in
    let c = append-empty (note_if counts.n_not_applicable uploaded_directly) l4 b.1 in
    let d = append-empty (note_if counts.n_no_record predating) l5 c.1 in
    let e = append-empty (note_if counts.n_copy_unchecked never_checked) last d.1 in
    let silent = witness_notes-empty fresh witness e.1 in
    let n1 = note_if-empty counts.n_acknowledged copies_acknowledged a.0 in
    let n2 = note_if-empty counts.n_unknown_provenance of_unknown_channel b.0 in
    let n3 = note_if-empty counts.n_not_applicable uploaded_directly c.0 in
    let n4 = note_if-empty counts.n_no_record predating d.0 in
    let n5 = note_if-empty counts.n_copy_unchecked never_checked e.0 in
    let passed : fails_none counts ≡ true = ground (arith, h) in
    (ground (arith, passed, n1, n2, n3, n4, n5), silent.0, silent.1)

-- A session whose verdict is quiet is held here, and let.ai answered that it has no copy; or its lanes
-- hold it.
pub quiet_means :
    (input : VerdictInput)
    → is_quiet (verdict_for input)
      ≡ (input.fortress_present
          && (witness_eligible input.ingest_channel
              && (not input.letai_copy && input.witness_answered)))
        || (not input.fortress_present && lanes_hold input)
unfolding verdict_for
quiet_means input = ground arith

map-last :
    {A B : Type 0} (f : A → B) (xs : List A) (x : A) → map f (xs ++ x ∷ []) ≡ map f xs ++ f x ∷ []
map-last f [] x = refl
map-last f (y ∷ xs) x = ap (λ rest. f y ∷ rest) (map-last f xs x)

module _ (run : AuditRun) (witness : Option WitnessAnswer) (asked owners : List Text) where
  -- A loop that is not cut short reaches every row.
  pub audit_rows-covers :
      (rows : List AuditSessionRow) (a : Audited)
      → (audit_rows run witness asked owners rows a).truncated ≡ false
      → map AuditFinding.row (audit_rows run witness asked owners rows a).findings
        ≡ map AuditFinding.row a.findings ++ rows
  unfolding audit_rows audit_row
  audit_rows-covers [] a h = go (map AuditFinding.row a.findings)
    where
      go : (rows : List AuditSessionRow) → rows ≡ rows ++ []
      go [] = refl
      go (row ∷ rows) = ap (λ rest. row ∷ rest) (go rows)
  audit_rows-covers (row ∷ rows) a h = elim (Bool-cases (leb run.per_run_budget a.ops_spent)) [
    | inl spent ↦ absurd (ground (arith, spent, h))
    | inr left ↦
        let rest =
          audit_rows-covers rows (audit_row run witness asked owners row a) (rw left at h) in
        rw left (
          rest
          ∙ ap (λ found. found ++ rows)
              (map-last AuditFinding.row a.findings (finding_of run witness asked owners row))
          ∙ append_nested (map AuditFinding.row a.findings) row rows)
  ]

  -- With no other count, each row that was reached is quiet.
  pub audit_rows-quiet :
      (rows : List AuditSessionRow) (a : Audited)
      → (audit_rows run witness asked owners rows a).truncated ≡ false
      → others (audit_rows run witness asked owners rows a).counts ≡ 0
      → (others a.counts ≡ 0)
        × ((row : AuditSessionRow)
            → Among row rows
            → is_quiet (verdict_for (input_of run witness asked owners row)) ≡ true)
  unfolding audit_rows audit_row
  audit_rows-quiet [] a h none_other = (none_other, λ row there. elim there [ ])
  audit_rows-quiet (row ∷ rows) a h none_other =
      elim (Bool-cases (leb run.per_run_budget a.ops_spent)) [
        | inl spent ↦ absurd (ground (arith, spent, h))
        | inr left ↦
            let rest =
              audit_rows-quiet rows (audit_row run witness asked owners row a) (rw left at h)
                (rw left at none_other) in
            let verdict = verdict_for (input_of run witness asked owners row) in
            let counted =
              count_verdict-others
                (record (Audited.counts a) { sessions_checked = a.counts.sessions_checked + 1 })
                verdict (is_acknowledged run witness asked owners row) in
            (
              ground (arith, rest.0, counted),
              λ other there. elim there [
                | inl e ↦
                    subst (λ r. is_quiet (verdict_for (input_of run witness asked owners r)) ≡ true)
                      (sym e) (ground (arith, rest.0, counted))
                | inr later ↦ rest.1 other later
              ],
            )
      ]

  -- A row is reached only while the budget is not spent, and spends one operation at most.
  pub audit_rows-spend :
      (rows : List AuditSessionRow) (a : Audited)
      → a.ops_spent ≤ max 1 run.per_run_budget
      → (audit_rows run witness asked owners rows a).ops_spent ≤ max 1 run.per_run_budget
  unfolding audit_rows audit_row
  audit_rows-spend [] a h = h
  audit_rows-spend (row ∷ rows) a h = elim (Bool-cases (leb run.per_run_budget a.ops_spent)) [
    | inl spent ↦ rw spent h
    | inr left ↦
        let next : (audit_row run witness asked owners row a).ops_spent ≤ max 1 run.per_run_budget =
          ground (arith, left, h) in
        rw left (audit_rows-spend rows _ next)
  ]

pub lowered-clean :
    (truncated : Bool) (verdict : FleetVerdict) (q : Qualification) (checked : ℕ)
    → (lowered truncated (verdict, q) checked).0 ≡ clean
    → (truncated ≡ false) × (verdict ≡ clean)
lowered-clean false verdict q checked h = (refl, h)
lowered-clean true clean q checked h = absurd (cc)
lowered-clean true qualified q checked h = absurd (cc)
lowered-clean true failed q checked h = absurd (cc)
