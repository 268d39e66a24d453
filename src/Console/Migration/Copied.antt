-- ===== src/Console/Migration/Copied.antt =====
-- src/console/migration.ts, `copySession` as a whole: what it answers, what it makes current, and what
-- it leaves.
use hx_fortress.Prelude.{
  ℕ, ◌≡◌, refl, sym, ap, subst, ◌∙◌, inl, inr, Bool, true, some, arith, if◌then◌else◌, Bool-cases,
  Option-cases, nat_eq, Text, text_eq, Try, value, thrown, ◌>>=◌,
}
use hx_fortress.Console.Migration.{
  SessionKey, key_beq, key_beq_iff, key_eq, Store, MigrationError, CopiedObject, arrived,
  copy_artifacts, copy_text, copy_session, target_is_current,
}
use hx_fortress.Console.Migration.Contract.{Honours, Measures}
use hx_fortress.Console.Migration.Copying.{
  copy_artifacts-current, copy_artifacts-frame, target_is_current-agree,
}

module _ (sha256 : Text → Text) (byte_length : Text → ℕ) (S T : Store) (source : S.State) where
  pub record Landed (key : SessionKey) (t u : T.State) (object : CopiedObject) : Type 0 where
    pub text : Text
    pub is_source : S.read_canonical source key ≡ some text
    pub is_landed :
        arrived sha256 byte_length S T source
          (T.read_canonical (T.write_canonical t key text) key)
          text
        ≡ true
    pub is_copied :
        copy_artifacts sha256 byte_length S T source key
          (S.artifacts source key)
          (T.write_canonical t key text)
        ≡ value u
    pub is_object : object ≡ record { key = key; checksum = sha256 text; bytes = byte_length text }

  copy_text-Landed :
      (key : SessionKey) (text : Text) (t u : T.State) (object : CopiedObject)
      → S.read_canonical source key ≡ some text
      → copy_text sha256 byte_length S T source key text t ≡ value (u, object)
      → Landed key t u object
  unfolding copy_text
  copy_text-Landed key text t u object e h =
      elim (Bool-cases (
        arrived sha256 byte_length S T source (T.read_canonical (T.write_canonical t key text) key)
          text)) [
            | inr lost ↦ absurd (ground (arith, lost, h))
            | inl landed ↦
                go
                  (copy_artifacts sha256 byte_length S T source key (S.artifacts source key)
                    (T.write_canonical t key text))
                  refl landed (rw landed at h)
          ]
    where
      go :
          (answer : Try MigrationError T.State)
          → copy_artifacts sha256 byte_length S T source key
              (S.artifacts source key)
              (T.write_canonical t key text)
            ≡ answer
          → arrived sha256 byte_length S T source
              (T.read_canonical (T.write_canonical t key text) key)
              text
            ≡ true
          → (answer >>= λ copied.
              let made : T.State × CopiedObject =
                (copied, record { key = key; checksum = sha256 text; bytes = byte_length text }) in
              value made)
            ≡ value (u, object)
          → Landed key t u object
      go (thrown error) c landed k = absurd (cc)
      go (value copied) c landed k = record {
        text = text;
        is_source = e;
        is_landed = landed;
        is_copied = cc;
        is_object = cc;
      }

  pub copy_session-Landed :
      (key : SessionKey) (t u : T.State) (object : CopiedObject)
      → copy_session sha256 byte_length S T source key t ≡ value (u, object)
      → Landed key t u object
  unfolding copy_session
  copy_session-Landed key t u object h = elim (Option-cases (S.read_canonical source key)) [
    | inl gone ↦ absurd (ground (arith, gone, h))
    | inr there ↦ copy_text-Landed key there.0 t u object there.1 (rw there.1 at h)
  ]

  module _ (laws : Honours byte_length T) (measured : Measures byte_length S source) where
    pub copied-current :
        (key : SessionKey) (t u : T.State) (object : CopiedObject) (also : Bool)
        → Landed key t u object
        → target_is_current sha256 byte_length S T source key also u ≡ true
    unfolding target_is_current
    copied-current key t u object also l =
        let all =
          copy_artifacts-current sha256 byte_length S T source laws key (S.artifacts source key) _ u
            l.is_copied in
        let framed =
          copy_artifacts-frame sha256 byte_length S T source laws key (S.artifacts source key) _ u
            l.is_copied key in
        let sized : T.stat u key ≡ some (byte_length l.text) =
          framed.0 ∙ laws.stat_written t key l.text in
        let wanted = measured.stat_read key l.text l.is_source in ground (arith, all, sized, wanted)

    pub copied-elsewhere :
        (key j : SessionKey) (t u : T.State) (object : CopiedObject) (also : Bool)
        → Landed key t u object
        → (key ≡ j → ⊥)
        → target_is_current sha256 byte_length S T source j also u
          ≡ target_is_current sha256 byte_length S T source j also t
    copied-elsewhere key j t u object also l n =
        let framed =
          copy_artifacts-frame sha256 byte_length S T source laws key (S.artifacts source key) _ u
            l.is_copied j in
        target_is_current-agree sha256 byte_length S T source t u j also
          (λ name. framed.1.1 n name ∙ laws.write_sidecars t key j l.text name)
          (framed.0 ∙ laws.write_elsewhere t key j l.text n)

    -- Whatever another session's copy does, a session that is current stays so.
    pub copied-stays :
        (key j : SessionKey) (t u : T.State) (object : CopiedObject) (also : Bool)
        → Landed key t u object
        → target_is_current sha256 byte_length S T source j also t ≡ true
        → target_is_current sha256 byte_length S T source j also u ≡ true
    copied-stays key j t u object also l c = elim (Bool-cases (key_beq key j)) [
      | inl same ↦
          subst (λ k. target_is_current sha256 byte_length S T source k also u ≡ true)
            ((key_beq_iff key j).0 same) (copied-current key t u object also l)
      | inr apart ↦
          copied-elsewhere key j t u object also l
            (λ e. ground (arith, apart, (key_beq_iff key j).1 e))
          ∙ c
    ]

    copied-canonical :
        (key : SessionKey) (t u : T.State) (object : CopiedObject) (l : Landed key t u object)
        → T.read_canonical u key ≡ T.read_canonical (T.write_canonical t key l.text) key
    copied-canonical key t u object l =
        (copy_artifacts-frame sha256 byte_length S T source laws key (S.artifacts source key) _ u
          l.is_copied key).1.0

    -- A copy that succeeds has been proved where it landed: the target's canonical has the digest of
    -- the text that the source holds, and the target is current for that session, in the canonical's
    -- size and in the digest of every sidecar that the source lists. How current any other session is
    -- has not changed, and what is recorded is the source's own digest and size.
    pub copy_session-current :
        (key j : SessionKey) (text : Text) (t u : T.State) (object : CopiedObject)
        → S.read_canonical source key ≡ some text
        → copy_session sha256 byte_length S T source key t ≡ value (u, object)
        → (arrived sha256 byte_length S T source (T.read_canonical u key) text ≡ true)
          × (target_is_current sha256 byte_length S T source key true u ≡ true)
          × (target_is_current sha256 byte_length S T source j true u ≡ (
              if key_beq key j
              then true
              else target_is_current sha256 byte_length S T source j true t))
          × (object.checksum ≡ sha256 text)
          × (S.stat source key ≡ some object.bytes)
    copy_session-current key j text t u object e h =
        let l = copy_session-Landed key t u object h in
        let same : l.text ≡ text = ground (arith, e, l.is_source) in
        let here = copied-current key t u object true l in
        (
          subst (λ x. arrived sha256 byte_length S T source (T.read_canonical u key) x ≡ true) same
              (rw (copied-canonical key t u object l) l.is_landed),
          here,
          elim (Bool-cases (key_beq key j)) [
            | inl at ↦
                let k : key ≡ j = (key_beq_iff key j).0 at in
                ground (
                  arith,
                  at,
                  subst (λ i. target_is_current sha256 byte_length S T source i true u ≡ true) k
                      here,
                )
            | inr apart ↦ ground (
              arith,
              apart,
              copied-elsewhere key j t u object true l
                  (λ k. ground (arith, apart, (key_beq_iff key j).1 k)),
            )
          ],
          ap CopiedObject.checksum l.is_object ∙ ap sha256 same,
          measured.stat_read key l.text l.is_source
              ∙ ap (λ o. some (CopiedObject.bytes o)) (sym l.is_object),
        )
