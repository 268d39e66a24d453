-- ===== src/Console/Migration/Delta.antt =====
-- src/console/migration.ts, `copyMissing` and `deltaPass`: one pass leaves nothing behind.
use hx_fortress.Prelude.{
  ℕ, ◌≡◌, refl, sym, ap, subst, ◌∙◌, ◌⊎◌, inl, inr, Bool, true, false, ◌&&◌, List, [], ◌∷◌, ◌++◌,
  arith, Bool-cases, nat_eq, any, Among, Text, text_beq, text_beq_iff, text_eq, IsFree,
  append-separator, Try, value, thrown, ◌>>=◌,
}
use hx_fortress.Console.Migration.{
  SessionKey, key_eq, Store, MigrationError, CopiedObject, session_ref, copy_session,
  target_is_current, Progress, has_ref, counted, copy_one, copy_missing,
}
use hx_fortress.Console.Migration.Contract.{Honours, Measures}
use hx_fortress.Console.Migration.Copied.{Landed, copy_session-Landed, copied-current, copied-stays}

-- Identifiers and families have no slash, so that references tell sessions apart.
pub record IsNamed (key : SessionKey) : Type 0 where
  pub user_free : IsFree b'/' key.user_id
  pub family_free : IsFree b'/' key.family

pub session_ref-injective :
    (j k : SessionKey) → IsNamed j → IsNamed k → session_ref j ≡ session_ref k → j ≡ k
unfolding session_ref
session_ref-injective j k m n e =
    let first = append-separator b'/' j.user_id k.user_id _ _ m.user_free n.user_free e in
    let second = append-separator b'/' j.family k.family _ _ m.family_free n.family_free first.1 in
    ground (arith, first.0, second.0, second.1)

any-append :
    (ref last : Text) (refs : List Text)
    → has_ref ref (refs ++ last ∷ []) ≡ true
    → (has_ref ref refs ≡ true) ⊎ (text_beq last ref ≡ true)
unfolding any
any-append ref last [] h = inr (ground (arith, h))
any-append ref last (r ∷ refs) h = elim (Bool-cases (text_beq r ref)) [
  | inl at ↦ inl (ground (arith, at))
  | inr apart ↦ elim (any-append ref last refs (ground (arith, apart, h))) [
    | inl there ↦ inl (ground (arith, there))
    | inr here ↦ inr here
  ]
]

module _ (sha256 : Text → Text) (byte_length : Text → ℕ) (S T : Store) (source : S.State) where
  -- A session is passed over, recorded and current, or it is copied.
  copy_one-step :
      (key : SessionKey) (p q : Progress T)
      → copy_one sha256 byte_length S T source key p ≡ value q
      → ((has_ref (session_ref key) p.done_refs ≡ true) × (p ≡ q))
        ⊎ ((object : CopiedObject) × (Landed sha256 byte_length S T source key p.target q.target
                object
              × (q.done_refs ≡ p.done_refs ++ session_ref key ∷ [])))
  unfolding copy_one
  copy_one-step key p q h =
      elim (Bool-cases (
        has_ref (session_ref key) p.done_refs
        && target_is_current sha256 byte_length S T source key false p.target)) [
          | inl passed ↦ inl (ground (arith, passed), ground (arith, passed, h))
          | inr due ↦
              go (copy_session sha256 byte_length S T source key p.target) refl (rw due at h)
        ]
    where
      go :
          (answer : Try MigrationError (T.State × CopiedObject))
          → copy_session sha256 byte_length S T source key p.target ≡ answer
          → (answer >>= λ a. value (counted T p key a)) ≡ value q
          → ((has_ref (session_ref key) p.done_refs ≡ true) × (p ≡ q))
            ⊎ ((object : CopiedObject) × (Landed sha256 byte_length S T source key p.target q.target
                    object
                  × (q.done_refs ≡ p.done_refs ++ session_ref key ∷ [])))
      go (thrown e) c k = absurd (cc)
      go (value a) c k =
          let e : counted T p key a ≡ q = cc in
          let at : a.0 ≡ q.target = ap Progress.target e in
          inr (
            a.1,
            (
              copy_session-Landed sha256 byte_length S T source key p.target q.target a.1
                  (c ∙ ap (λ t. let made : T.State × CopiedObject = (t, a.1) in value made) at),
              sym (ap Progress.done_refs e),
            ),
          )

  copy_missing-step :
      (key : SessionKey) (keys : List SessionKey) (p r : Progress T)
      → copy_missing sha256 byte_length S T source (key ∷ keys) p ≡ value r
      → (q : Progress T) × ((copy_one sha256 byte_length S T source key p ≡ value q)
          × (copy_missing sha256 byte_length S T source keys q ≡ value r))
  unfolding copy_missing
  copy_missing-step key keys p r h = go (copy_one sha256 byte_length S T source key p) refl h
    where
      go :
          (answer : Try MigrationError (Progress T))
          → copy_one sha256 byte_length S T source key p ≡ answer
          → (answer >>= λ q. copy_missing sha256 byte_length S T source keys q) ≡ value r
          → (q : Progress T) × ((copy_one sha256 byte_length S T source key p ≡ value q)
              × (copy_missing sha256 byte_length S T source keys q ≡ value r))
      go (thrown e) c k = absurd (cc)
      go (value q) c k = (q, (c, k))

  module _ (laws : Honours byte_length T) (measured : Measures byte_length S source) where
    copy_one-stays :
        (key j : SessionKey) (also : Bool) (p q : Progress T)
        → copy_one sha256 byte_length S T source key p ≡ value q
        → target_is_current sha256 byte_length S T source j also p.target ≡ true
        → target_is_current sha256 byte_length S T source j also q.target ≡ true
    copy_one-stays key j also p q h c = elim (copy_one-step key p q h) [
      | inl passed ↦
          subst
            (λ s. target_is_current sha256 byte_length S T source j also (Progress.target s) ≡ true)
            passed.1 c
      | inr made ↦
          copied-stays sha256 byte_length S T source laws measured key j p.target q.target made.0
            also made.1.0 c
    ]

    pub copy_missing-stays :
        (keys : List SessionKey) (j : SessionKey) (also : Bool) (p q : Progress T)
        → copy_missing sha256 byte_length S T source keys p ≡ value q
        → target_is_current sha256 byte_length S T source j also p.target ≡ true
        → target_is_current sha256 byte_length S T source j also q.target ≡ true
    unfolding copy_missing
    copy_missing-stays [] j also p q h c =
        let e : p ≡ q = cc in
        subst
          (λ s. target_is_current sha256 byte_length S T source j also (Progress.target s) ≡ true) e
          c
    copy_missing-stays (key ∷ keys) j also p r h c =
        let step = copy_missing-step key keys p r h in
        copy_missing-stays keys j also step.0 r step.1.1
          (copy_one-stays key j also p step.0 step.1.0 c)

    -- What is recorded as done, among these, is current.
    pub record IsFresh (also : Bool) (keys : List SessionKey) (p : Progress T) : Type 0 where
      pub recorded :
          (k : SessionKey)
          → Among k keys
          → has_ref (session_ref k) p.done_refs ≡ true
          → target_is_current sha256 byte_length S T source k also p.target ≡ true

    copy_one-current :
        (key : SessionKey) (keys : List SessionKey) (also : Bool) (p q : Progress T)
        → IsFresh also (key ∷ keys) p
        → copy_one sha256 byte_length S T source key p ≡ value q
        → target_is_current sha256 byte_length S T source key also q.target ≡ true
    copy_one-current key keys also p q fresh h = elim (copy_one-step key p q h) [
      | inl passed ↦ copy_one-stays key key also p q h (fresh.recorded key (inl refl) passed.0)
      | inr made ↦
          copied-current sha256 byte_length S T source laws measured key p.target q.target made.0
            also made.1.0
    ]

    copy_one-IsFresh :
        (key : SessionKey) (keys : List SessionKey) (also : Bool) (p q : Progress T)
        → ((k : SessionKey) → Among k (key ∷ keys) → IsNamed k)
        → IsFresh also (key ∷ keys) p
        → copy_one sha256 byte_length S T source key p ≡ value q
        → IsFresh also keys q
    copy_one-IsFresh key keys also p q named fresh h = record {
      recorded = λ k there has. elim (copy_one-step key p q h) [
        | inl passed ↦ copy_one-stays key k also p q h (
            fresh.recorded k (inr there) (
              subst (λ s. has_ref (session_ref k) (Progress.done_refs s) ≡ true) (sym passed.1)
                has))
        | inr made ↦
            elim (any-append (session_ref k) (session_ref key) p.done_refs
              (subst (λ refs. has_ref (session_ref k) refs ≡ true) made.1.1 has)) [
                | inl before ↦ copy_one-stays key k also p q h (fresh.recorded k (inr there) before)
                | inr at ↦
                    let same : key ≡ k =
                      session_ref-injective key k (named key (inl refl)) (named k (inr there))
                        ((text_beq_iff _ _).0 at) in
                    subst
                      (λ j. target_is_current sha256 byte_length S T source j also q.target ≡ true)
                      same (copy_one-current key keys also p q fresh h)
              ]
      ];
    }

    pub copy_missing-current :
        (keys : List SessionKey) (also : Bool) (p q : Progress T)
        → ((k : SessionKey) → Among k keys → IsNamed k)
        → IsFresh also keys p
        → copy_missing sha256 byte_length S T source keys p ≡ value q
        → (k : SessionKey) → Among k keys
        → target_is_current sha256 byte_length S T source k also q.target ≡ true
    copy_missing-current [] also p q named fresh h k there = elim there [ ]
    copy_missing-current (key ∷ keys) also p r named fresh h k there =
        let step = copy_missing-step key keys p r h in
        elim there [
          | inl at ↦ copy_missing-stays keys k also step.0 r step.1.1 (
              subst
                (λ j.
                  target_is_current sha256 byte_length S T source j also (Progress.target step.0)
                  ≡ true)
                (sym at) (copy_one-current key keys also p step.0 fresh step.1.0))
          | inr later ↦
              copy_missing-current keys also step.0 r (λ j at. named j (inr at))
                (copy_one-IsFresh key keys also p step.0 named fresh step.1.0) step.1.1 k later
        ]
