-- ===== src/Console/Spool/Keys.antt =====
-- src/console/audit-spool.ts: the key of a record, its file and its place there, under every order in which
-- the writes, the counts and the rotations of one writer can fall.
use hx_fortress.Prelude.{
  ℕ, ◌+◌, ◌≤◌, ◌≡◌, refl, sym, ap, ◌∙◌, ◌⊎◌, inl, inr, Bool, true, false, ◌&&◌, List, [], ◌∷◌, ◌++◌,
  arith, nat_beq, Bool-cases, nat_eq, All, Among, Text, text_beq, text_beq_iff, text_eq,
}
use hx_fortress.Console.Spool.{
  SpoolWriter, AuditInput, AuditRecord, AuditSpool, new_spool, record_of, write_record, count_bytes,
  switch_file,
}

abbrev pub same_key : AuditRecord → AuditRecord → Bool
same_key r q = text_beq r.file_id q.file_id && nat_beq r.seq q.seq

-- No two records have one key.
abbrev pub AreDistinct : List AuditRecord → Type 0
AreDistinct [] = Unit {0}
AreDistinct (r ∷ records) = All (λ q. same_key r q ≡ false) records × AreDistinct records

AreDistinct-last :
    (records : List AuditRecord) (x : AuditRecord)
    → AreDistinct records
    → ((r : AuditRecord) → Among r records → same_key r x ≡ false)
    → AreDistinct (records ++ x ∷ [])
AreDistinct-last [] x h apart = (_, _)
AreDistinct-last (r ∷ records) x h apart = (
  all_last records h.0 (apart r (inl refl)),
  AreDistinct-last records x h.1 (λ q there. apart q (inr there)),
)
  where
    all_last :
        (rest : List AuditRecord)
        → All (λ q. same_key r q ≡ false) rest
        → same_key r x ≡ false
        → All (λ q. same_key r q ≡ false) (rest ++ x ∷ [])
    all_last [] a e = (e, _)
    all_last (q ∷ rest) a e = (a.0, all_last rest a.1 e)

Among-split :
    {A : Type 0} (x last : A) (xs : List A) → Among x (xs ++ last ∷ []) → Among x xs ⊎ (x ≡ last)
Among-split x last [] (inl e) = inr e
Among-split x last [] (inr there) = elim there [ ]
Among-split x last (y ∷ xs) (inl e) = inl (inl e)
Among-split x last (y ∷ xs) (inr there) = elim (Among-split x last xs there) [
  | inl before ↦ inl (inr before)
  | inr at ↦ inr at
]

module _ (ids : ℕ → Text) (line_bytes : AuditRecord → ℕ) where
  -- One step of the writer, at some time: a record is written, bytes are counted, a rotation begins, or
  -- it moves to a fresh file. Calls that are not awaited interleave them.
  pub data Step : AuditSpool → AuditSpool → Type 0 where
    wrote :
        (now : ℕ) (input : AuditInput) (s : AuditSpool)
        → Step s (write_record ids line_bytes now input s)
    counted : (n : ℕ) (s : AuditSpool) → Step s (count_bytes ids line_bytes 0 n s)
    retiring : (s : AuditSpool) → Step s (record s { rotating = true; rotate_due = false })
    switched : (s : AuditSpool) → Step s (switch_file ids line_bytes 0 s)

  pub data Reaches : AuditSpool → AuditSpool → Type 0 where
    here : (s : AuditSpool) → Reaches s s
    then_step : (s t u : AuditSpool) → Reaches s t → Step t u → Reaches s u

  pub record IsKeyed (s : AuditSpool) : Type 0 where
    pub current : s.file_id ≡ ids s.drawn
    pub from_drawn :
        (r : AuditRecord) → Among r s.disk → (i : ℕ) × ((i ≤ s.drawn) × (r.file_id ≡ ids i))
    pub placed : (r : AuditRecord) → Among r s.disk → r.file_id ≡ s.file_id → r.seq ≤ s.seq
    pub distinct : AreDistinct s.disk

  module _ (injective : (i j : ℕ) → ids i ≡ ids j → i ≡ j) where
    write_record-IsKeyed :
        (now : ℕ) (input : AuditInput) (s : AuditSpool)
        → IsKeyed s
        → IsKeyed (write_record ids line_bytes now input s)
    unfolding write_record record_of
    write_record-IsKeyed now input s k =
        let x = record_of ids line_bytes now input s in
        record {
          current = k.current;
          from_drawn = λ r there. elim (Among-split r x s.disk there) [
            | inl before ↦ k.from_drawn r before
            | inr at ↦ (s.drawn, (omega arith, ap AuditRecord.file_id at ∙ k.current))
          ];
          placed = λ r there e. elim (Among-split r x s.disk there) [
            | inl before ↦ let old = k.placed r before e in omega (arith, old)
            | inr at ↦ let seq : r.seq ≡ s.seq + 1 = ap AuditRecord.seq at in omega (arith, seq)
          ];
          distinct = AreDistinct-last s.disk x k.distinct (λ r there.
              elim (Bool-cases (text_beq r.file_id s.file_id)) [
                | inl same ↦
                    let old = k.placed r there ((text_beq_iff r.file_id s.file_id).0 same) in
                    ground (arith, same, old)
                | inr apart ↦ ground (arith, apart)
              ]);
        }

    switch_file-IsKeyed : (s : AuditSpool) → IsKeyed s → IsKeyed (switch_file ids line_bytes 0 s)
    unfolding switch_file
    switch_file-IsKeyed s k = record {
      current = refl;
      from_drawn =
          λ r there. let old = k.from_drawn r there in (old.0, (omega (arith, old.1.0), old.1.1));
      placed = λ r there e.
          let old = k.from_drawn r there in
          let same : old.0 ≡ s.drawn + 1 = injective old.0 (s.drawn + 1) (sym old.1.1 ∙ e) in
          absurd (omega (arith, old.1.0, same));
      distinct = k.distinct;
    }

    pub step-IsKeyed : (s t : AuditSpool) → IsKeyed s → Step s t → IsKeyed t
    unfolding count_bytes
    step-IsKeyed _ _ k (wrote now input s) = write_record-IsKeyed now input s k
    step-IsKeyed _ _ k (counted n s) = record {
      current = k.current;
      from_drawn = k.from_drawn;
      placed = k.placed;
      distinct = k.distinct;
    }
    step-IsKeyed _ _ k (retiring s) = record {
      current = k.current;
      from_drawn = k.from_drawn;
      placed = k.placed;
      distinct = k.distinct;
    }
    step-IsKeyed _ _ k (switched s) = switch_file-IsKeyed s k

    pub Reaches-IsKeyed : (s t : AuditSpool) → IsKeyed s → Reaches s t → IsKeyed t
    Reaches-IsKeyed _ _ k (here s) = k
    Reaches-IsKeyed _ _ k (then_step s t u r step) = step-IsKeyed t u (Reaches-IsKeyed s t k r) step

    pub new_spool-IsKeyed :
        (who : SpoolWriter) (rotate_bytes : ℕ)
        → IsKeyed (new_spool ids line_bytes 0 who rotate_bytes)
    new_spool-IsKeyed who rotate_bytes = record {
      current = refl;
      from_drawn = λ r there. elim there [ ];
      placed = λ r there e. elim there [ ];
      distinct = _;
    }

    -- Under every order of writes, counts and rotations, no two records of a writer have one key, the
    -- file and the place in it by which a drain tells them apart. No file id is drawn twice.
    pub keys-AreDistinct :
        (who : SpoolWriter) (rotate_bytes : ℕ) (s : AuditSpool)
        → Reaches (new_spool ids line_bytes 0 who rotate_bytes) s
        → AreDistinct s.disk
    keys-AreDistinct who rotate_bytes s reached =
        IsKeyed.distinct (Reaches-IsKeyed _ s (new_spool-IsKeyed who rotate_bytes) reached)
