-- ===== src/Console/Spool/Pairs.antt =====
-- src/console/audit-spool.ts: an outcome finds its intent, across rotations; and the calls that are awaited
-- are among the orders of Console/Spool/Keys.
use hx_fortress.Prelude.{
  ℕ, ◌≡◌, refl, sym, ap, subst, inl, inr, Bool, true, false, Option, some, List, [], ◌∷◌, arith,
  if◌then◌else◌, nat_eq, find, All, Among, Among-append, Among-last, Text, text_beq_iff, text_eq,
}
use hx_fortress.Console.Spool.{
  is_intent, SpoolWriter, AuditInput, AuditRecord, AuditSpool, new_spool, record_of, write_record,
  count_bytes, append_one, append_all, switch_file, rotate, before_append, append, intent_input,
  outcome_input, answers, resolve_intent,
}
use hx_fortress.Console.Spool.Keys.{
  same_key, AreDistinct, Step, wrote, counted, retiring, switched, Reaches, here, then_step,
  Reaches-IsKeyed, new_spool-IsKeyed,
}

All-Among : {A : Type 0} (P : A → Type 0) (xs : List A) → All P xs → (x : A) → Among x xs → P x
All-Among P [] h x there = elim there [ ]
All-Among P (y ∷ xs) h x (inl e) = subst P (sym e) h.0
All-Among P (y ∷ xs) h x (inr there) = All-Among P xs h.1 x there

-- With keys that differ, the search finds the record that has the key.
find-distinct :
    (records : List AuditRecord) (r : AuditRecord)
    → AreDistinct records
    → Among r records
    → is_intent r.input.kind ≡ true
    → find (answers r.file_id r.seq) records ≡ some r
unfolding find
find-distinct [] r h there k = elim there [ ]
find-distinct (q ∷ records) r h (inl e) k =
    let hit : answers r.file_id r.seq q ≡ true =
      subst (λ x. answers r.file_id r.seq x ≡ true) e
        (ground (arith, k, (text_beq_iff r.file_id r.file_id).1 refl)) in
    rw hit (ap some (sym e))
find-distinct (q ∷ records) r h (inr there) k =
    let apart = All-Among (λ x. same_key q x ≡ false) records h.0 r there in
    let miss : answers r.file_id r.seq q ≡ false = ground (arith, apart) in
    rw miss (find-distinct records r h.1 there k)

module _ (ids : ℕ → Text) (line_bytes : AuditRecord → ℕ) where
  Reaches-trans :
      (s t u : AuditSpool)
      → Reaches ids line_bytes s t
      → Reaches ids line_bytes t u
      → Reaches ids line_bytes s u
  Reaches-trans s _ _ r (here t) = r
  Reaches-trans s _ _ r (then_step t u v q step) = then_step s u v (Reaches-trans s t u r q) step

  -- Nothing that is on disk is lost.
  step-keeps :
      (r : AuditRecord) (s t : AuditSpool)
      → Step ids line_bytes s t
      → Among r s.disk
      → Among r t.disk
  unfolding write_record count_bytes switch_file
  step-keeps r _ _ (wrote now input s) there =
      Among-append r (record_of ids line_bytes now input s) s.disk there
  step-keeps r _ _ (counted n s) there = there
  step-keeps r _ _ (retiring s) there = there
  step-keeps r _ _ (switched s) there = there

  Reaches-keeps :
      (r : AuditRecord) (s t : AuditSpool)
      → Reaches ids line_bytes s t
      → Among r s.disk
      → Among r t.disk
  Reaches-keeps r _ _ (here s) there = there
  Reaches-keeps r _ _ (then_step s t u q step) there =
      step-keeps r t u step (Reaches-keeps r s t q there)

  append_one-Reaches :
      (now : ℕ) (input : AuditInput) (s : AuditSpool)
      → Reaches ids line_bytes s (append_one ids line_bytes now input s)
  unfolding append_one count_bytes
  append_one-Reaches now input s =
      then_step s _ _ (then_step s s _ (here s) (wrote now input s)) (counted _ _)

  append_all-Reaches :
      (now : ℕ) (inputs : List AuditInput) (s : AuditSpool)
      → Reaches ids line_bytes s (append_all ids line_bytes now inputs s)
  unfolding append_all
  append_all-Reaches now [] s = here s
  append_all-Reaches now (input ∷ inputs) s =
      Reaches-trans s _ _ (append_one-Reaches now input s) (append_all-Reaches now inputs _)

  if-Reaches :
      (s : AuditSpool) (b : Bool) (t u : AuditSpool)
      → Reaches ids line_bytes s t
      → Reaches ids line_bytes s u
      → Reaches ids line_bytes s (if b then t else u)
  if-Reaches s true t u r q = r
  if-Reaches s false t u r q = q

  rotate-Reaches :
      (now : ℕ) (flushed : List AuditInput) (s : AuditSpool)
      → Reaches ids line_bytes s (rotate ids line_bytes now flushed s)
  unfolding rotate switch_file
  rotate-Reaches now flushed s = if-Reaches s s.rotating s _ (here s) (
      then_step s _ _
        (Reaches-trans s _ _ (then_step s s _ (here s) (retiring s))
          (append_all-Reaches now flushed _))
        (switched _))

  pub append-Reaches :
      (now : ℕ) (flushed : List AuditInput) (input : AuditInput) (s : AuditSpool)
      → Reaches ids line_bytes s (append ids line_bytes now flushed input s).0
  unfolding append
  append-Reaches now flushed input s =
      Reaches-trans s _ _
        (if-Reaches s s.rotate_due (rotate ids line_bytes now flushed s) s
          (rotate-Reaches now flushed s) (here s))
        (append_one-Reaches now input (before_append ids line_bytes now flushed s))

  append-there :
      (now : ℕ) (flushed : List AuditInput) (input : AuditInput) (s : AuditSpool)
      → Among
          (append ids line_bytes now flushed input s).1
          (append ids line_bytes now flushed input s).0.disk
  unfolding append append_one write_record count_bytes
  append-there now flushed input s = Among-last _ _

  -- An outcome finds the intent it answers, among all that is on disk, however many records were written
  -- and however often the file was rotated in between, and whichever file the outcome itself is in. The
  -- intent is appended at a state the writer can be in; no file id is drawn twice.
  pub outcome_finds_intent :
      ((i j : ℕ) → ids i ≡ ids j → i ≡ j)
      → (who : SpoolWriter) (rotate_bytes now : ℕ) (flushed : List AuditInput) (fields : AuditInput)
      → (s t : AuditSpool) (later : ℕ) (what : Text) (error : Option Text)
      → Reaches ids line_bytes (new_spool ids line_bytes 0 who rotate_bytes) s
      → Reaches ids line_bytes
          (append ids line_bytes now flushed (intent_input ids line_bytes now fields) s).0
          t
      → (let intent =
            (append ids line_bytes now flushed (intent_input ids line_bytes now fields) s).1 in
          resolve_intent
            (record_of ids line_bytes later
              (outcome_input ids line_bytes later intent what error)
              t)
            t.disk
          ≡ some intent)
  unfolding resolve_intent record_of outcome_input append intent_input
  outcome_finds_intent injective who rotate_bytes now flushed fields s t later what error before
        after =
      let intent =
        (append ids line_bytes now flushed (intent_input ids line_bytes now fields) s).1 in
      let appended =
        (append ids line_bytes now flushed (intent_input ids line_bytes now fields) s).0 in
      let keyed =
        Reaches-IsKeyed ids line_bytes injective _ t
          (new_spool-IsKeyed ids line_bytes injective who rotate_bytes)
          (Reaches-trans _ s t before (
            Reaches-trans s appended t
              (append-Reaches now flushed (intent_input ids line_bytes now fields) s) after)) in
      find-distinct t.disk intent keyed.distinct
        (Reaches-keeps intent appended t after
          (append-there now flushed (intent_input ids line_bytes now fields) s))
        refl
