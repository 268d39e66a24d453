-- ===== src/Console/Migration/Succeeds.antt =====
-- src/console/migration.ts, that a pass over stores that hold what they are given ends without an error.
use hx_fortress.Prelude.{
  ℕ, ◌≡◌, refl, inl, inr, Bool, true, false, ◌&&◌, not, some, List, [], ◌∷◌, arith, Bool-cases,
  Option-cases, nat_eq, Among, keep_if-Among, Text, text_beq, text_beq_iff, text_eq, value,
}
use hx_fortress.Console.Migration.{
  SessionKey, Store, CopiedObject, session_ref, copy_artifacts, copy_text, copy_session,
  target_is_current, Progress, has_ref, counted, copy_one, copy_missing, behind_of, delta_pass,
}

-- A target that reads back what was written.
pub record Keeps (T : Store) : Type 0 where
  pub read_written :
      (t : T.State) (k : SessionKey) (x : Text)
      → T.read_canonical (T.write_canonical t k x) k ≡ some x
  pub sidecar_written :
      (t : T.State) (k : SessionKey) (name x : Text)
      → T.read_artifact (T.write_artifact t k name x) k name ≡ some x

module _ (sha256 : Text → Text) (byte_length : Text → ℕ) (S T : Store) (source : S.State)
    (keeps : Keeps T) where
  copy_artifacts-succeeds :
      (key : SessionKey) (names : List Text) (t : T.State)
      → (u : T.State) × (copy_artifacts sha256 byte_length S T source key names t ≡ value u)
  unfolding copy_artifacts
  copy_artifacts-succeeds key [] t = (t, refl)
  copy_artifacts-succeeds key (name ∷ names) t =
      elim (Option-cases (S.read_artifact source key name)) [
        | inl gone ↦
            let rest = copy_artifacts-succeeds key names t in (rest.0, ground (arith, gone, rest.1))
        | inr there ↦
            let rest = copy_artifacts-succeeds key names (T.write_artifact t key name there.0) in
            let same : text_beq (sha256 there.0) (sha256 there.0) ≡ true =
              (text_beq_iff _ _).1 refl in
            (
              rest.0,
              ground (arith, there.1, keeps.sidecar_written t key name there.0, same, rest.1),
            )
      ]

  copy_session-succeeds :
      (key : SessionKey) (text : Text) (t : T.State)
      → S.read_canonical source key ≡ some text
      → (answer : T.State × CopiedObject) × (copy_session sha256 byte_length S T source key t
          ≡ value answer)
  unfolding copy_session copy_text
  copy_session-succeeds key text t e =
      let rest =
        copy_artifacts-succeeds key (S.artifacts source key) (T.write_canonical t key text) in
      let same : text_beq (sha256 text) (sha256 text) ≡ true = (text_beq_iff _ _).1 refl in
      (
        (rest.0, record { key = key; checksum = sha256 text; bytes = byte_length text }),
        ground (arith, e, keeps.read_written t key text, same, rest.1),
      )

  copy_one-succeeds :
      (key : SessionKey) (text : Text) (p : Progress T)
      → S.read_canonical source key ≡ some text
      → (q : Progress T) × (copy_one sha256 byte_length S T source key p ≡ value q)
  unfolding copy_one
  copy_one-succeeds key text p e =
      let made = copy_session-succeeds key text p.target e in
      elim (Bool-cases (
        has_ref (session_ref key) p.done_refs
        && target_is_current sha256 byte_length S T source key false p.target)) [
          | inl passed ↦ (p, ground (arith, passed))
          | inr due ↦ (counted T p key made.0, ground (arith, due, made.1))
        ]

  copy_missing-succeeds :
      (keys : List SessionKey) (p : Progress T)
      → ((k : SessionKey) → Among k keys → (text : Text) × (S.read_canonical source k ≡ some text))
      → (q : Progress T) × (copy_missing sha256 byte_length S T source keys p ≡ value q)
  unfolding copy_missing
  copy_missing-succeeds [] p reads = (p, refl)
  copy_missing-succeeds (key ∷ keys) p reads =
      let here = reads key (inl refl) in
      let one = copy_one-succeeds key here.0 p here.1 in
      let rest = copy_missing-succeeds keys one.0 (λ k at. reads k (inr at)) in
      (rest.0, ground (arith, one.1, rest.1))

  -- Over a target that reads back what was written, a delta pass ends without an error, whatever the
  -- target and the records hold before it, when each session that the source lists can be read.
  pub delta_pass-succeeds :
      (also : Bool) (p : Progress T)
      → ((k : SessionKey)
          → Among k (S.keys source)
          → (text : Text) × (S.read_canonical source k ≡ some text))
      → (q : Progress T) × (delta_pass sha256 byte_length S T source also p ≡ value q)
  unfolding delta_pass behind_of
  delta_pass-succeeds also p reads = copy_missing-succeeds _ _ (λ k at.
      reads k
        (keep_if-Among (λ j. not (target_is_current sha256 byte_length S T source j also p.target))
          k (S.keys source) at).0)
