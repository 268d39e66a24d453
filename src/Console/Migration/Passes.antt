-- ===== src/Console/Migration/Passes.antt =====
-- src/console/migration.ts, `deltaPass`: after a pass, the target is as current as the pass compares.
use hx_fortress.Prelude.{
  ℕ, ◌≡◌, refl, sym, ap, ◌∙◌, inl, inr, Bool, true, false, not, List, [], ◌∷◌, arith, Bool-cases,
  nat_eq, keep_if, any, Among, Among-keep_if, keep_if-Among, Text, text_beq, text_beq_iff, text_eq,
  value,
}
use hx_fortress.Console.Migration.{
  SessionKey, Store, session_ref, target_is_current, Progress, has_ref, forget_refs, behind_of,
  delta_pass,
}
use hx_fortress.Console.Migration.Contract.{Honours, Measures}
use hx_fortress.Console.Migration.Delta.{IsNamed, copy_missing-stays, copy_missing-current}

any-Among :
    (k : SessionKey) (r : Text) (behind : List SessionKey)
    → Among k behind
    → session_ref k ≡ r
    → any (λ j. text_beq (session_ref j) r) behind ≡ true
unfolding any
any-Among k r [] there e = elim there [ ]
any-Among k r (j ∷ behind) (inl at) e =
    let same : session_ref j ≡ r = ap session_ref (sym at) ∙ e in
    ground (arith, (text_beq_iff (session_ref j) r).1 same)
any-Among k r (j ∷ behind) (inr later) e = ground (arith, any-Among k r behind later e)

has_ref-forget_refs :
    (k : SessionKey) (behind : List SessionKey) (refs : List Text)
    → Among k behind
    → has_ref (session_ref k) (forget_refs behind refs) ≡ false
unfolding keep_if any
has_ref-forget_refs k behind [] there = refl
has_ref-forget_refs k behind (r ∷ refs) there =
    let rest = has_ref-forget_refs k behind refs there in
    elim (Bool-cases (any (λ j. text_beq (session_ref j) r) behind)) [
      | inl dropped ↦ ground (arith, dropped, rest)
      | inr kept ↦ elim (Bool-cases (text_beq r (session_ref k))) [
        | inl at ↦ absurd (
            ground (
              arith,
              kept,
              any-Among k r behind there (sym ((text_beq_iff r (session_ref k)).0 at)),
            ))
        | inr apart ↦ ground (arith, kept, apart, rest)
      ]
    ]

module _ (sha256 : Text → Text) (byte_length : Text → ℕ) (S T : Store) (source : S.State)
    (laws : Honours byte_length T) (measured : Measures byte_length S source) where
  -- When a delta pass ends without an error, every session that the source lists is current in the
  -- target, to the extent that the pass compares: by size, and in the final pass also by the digest
  -- of every sidecar. What an earlier run recorded as done does not hide a session that has moved on.
  -- The user ids and families have no slash.
  pub delta_pass-current :
      (also : Bool) (p q : Progress T) (k : SessionKey)
      → ((j : SessionKey) → Among j (S.keys source) → IsNamed j)
      → delta_pass sha256 byte_length S T source also p ≡ value q
      → Among k (S.keys source)
      → target_is_current sha256 byte_length S T source k also q.target ≡ true
  unfolding delta_pass behind_of
  delta_pass-current also p q k named h there =
      let behind = behind_of sha256 byte_length S T source also p.target in
      let due : SessionKey → Bool =
        λ j. not (target_is_current sha256 byte_length S T source j also p.target) in
      elim (Bool-cases (target_is_current sha256 byte_length S T source k also p.target)) [
        | inl now ↦
            copy_missing-stays sha256 byte_length S T source laws measured behind k also _ q h now
        | inr moved ↦
            copy_missing-current sha256 byte_length S T source laws measured behind also _ q
              (λ j at. named j (keep_if-Among due j (S.keys source) at).0)
              (record {
                recorded = λ j at has.
                    absurd (ground (arith, has, has_ref-forget_refs j behind p.done_refs at));
              })
              h k (Among-keep_if due k (S.keys source) (ap not moved) there)
      ]
